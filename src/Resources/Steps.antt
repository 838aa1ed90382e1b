-- ===== src/Resources/Steps.antt =====
-- src/resources.rs: each step of the interleavings keeps the invariant, and what follows.
use mathlib.Core.Option
use astra_shell.Prelude.{
  ◌+◌, Option-cases, ℕ, ◌≡◌, sym, ap, subst, ◌∙◌, inl, inr, some, List, [], ◌∷◌, ◌++◌, get_elem?,
  set, length, length-set, length-append, get_elem?-snoc, get_elem?-length, String,
}
use astra_shell.Prelude.Result.{ok}
use astra_shell.Resources.Claim.{default}
use astra_shell.Resources.ClaimLaws.{FitsIn, FitsIn-trans, add, default-add}
use astra_shell.Resources.Limits.{ResourceLimits, as_claim}
use astra_shell.Resources.Pool.{ResourcePool, new}
use astra_shell.Resources.Account.{Pools, PoolReservation, reserve_at, drop_at}
use astra_shell.Resources.Ledger.{
  held, held_middle, held_other, charge, at_each, Over, Over-cons, Over-drop, Over-held,
  drop_at-held,
}
use astra_shell.Resources.Atomic.{AreHeld, reserve_at_cases}
use astra_shell.Resources.Interleave.{System, Step, Reach, here, next, reserves, drops, opens}
use astra_shell.Resources.Balance.{
  Ledger, Ledger-start, held_grows, still_fits, AreHeld-middle, held-unheld, AreHeld-snoc,
  Over-snoc, new_usage, default-FitsIn, ok-injective, some-injective, dropped, reserve_at-bad,
  charge_unused,
}

module _ (s : System) (l : Ledger s) where
  -- The pool as it was opened, and what it is now.
  opened :
      (h : ℕ) (p : ResourcePool)
      → get_elem? s.pools h ≡ some p
      → (b : ResourcePool) × (get_elem? l.base h ≡ some b)
        × (p ≡ record b { usage = held h s.live })
  opened h p e = elim (Option-cases (get_elem? l.base h)) [
    | inl gone ↦ cc (sym e ∙ l.over h ∙ ap (Option.map (charge (held h s.live))) gone)
    | inr (b, at_h) ↦ (
      b,
      at_h,
      some-injective (sym e ∙ l.over h ∙ ap (Option.map (charge (held h s.live))) at_h)
          ∙ charge_unused b (held h s.live) (l.unused h b at_h),
    )
  ]

  -- A successful reservation, through a handle that must be good.
  reserved :
      (r : PoolReservation) (after : Pools)
      → reserve_at r.pool r.claim s.pools ≡ ok after
      → (p : ResourcePool) × (get_elem? s.pools r.pool ≡ some p)
        × (after ≡ set s.pools r.pool (charge r.claim p))
        × FitsIn (add p.usage r.claim) (as_claim p.limits)
  reserved r after done = elim (Option-cases (get_elem? s.pools r.pool)) [
    | inl gone ↦ cc (sym done ∙ reserve_at-bad r.pool r.claim s.pools gone)
    | inr (p, e) ↦ elim (reserve_at_cases s.pools r.pool r.claim p e) [
      | inl (eq, fits) ↦ (p, e, ok-injective (sym done ∙ eq), fits)
      | inr (q, eq) ↦ cc (sym done ∙ eq)
    ]
  ]

  reserves-Ledger :
      (r : PoolReservation) (after : Pools)
      → reserve_at r.pool r.claim s.pools ≡ ok after
      → Ledger (record { pools = after; live = r ∷ s.live })
  reserves-Ledger r after done =
      let (p, e, eq, fits) = reserved r after done in
      let (b, at_b, now) = opened r.pool p e in
      record {
        base = l.base;
        unused = l.unused;
        over =
            subst (Over l.base (r ∷ s.live)) (sym eq)
              (Over-cons l.base s.pools s.live r p l.over e);
        valid = ((b, at_b), l.valid);
        within =
            at_each
              (λ h.
                (c : ResourcePool)
                → get_elem? l.base h ≡ some c
                → FitsIn (held h (r ∷ s.live)) (as_claim c.limits))
              r.pool
              (λ c at_c.
                subst (λ k. FitsIn (held r.pool (r ∷ s.live)) (as_claim k.limits))
                  (some-injective (sym at_b ∙ at_c)) (still_fits s.pools r s.live p b now fits))
              (λ h ne other c at_c.
                rw (held_other l.base s.pools s.live r h other) (l.within h c at_c));
        same_length = rw eq (length-set s.pools r.pool (charge r.claim p) ∙ l.same_length);
      }

  -- A drop takes the reservation off the ledger, wherever it stands.
  drops-Ledger :
      (xs ys : List PoolReservation) (r : PoolReservation) (after : Pools)
      → s.live ≡ xs ++ r ∷ ys
      → drop_at {E = Unit {0}} r s.pools ≡ ok after
      → Ledger (record { pools = after; live = xs ++ ys })
  drops-Ledger xs ys r after e done =
      let front : (h : ℕ) → held h s.live ≡ held h (r ∷ xs ++ ys) =
        λ h. ap (held h) e ∙ held_middle h xs ys r in
      let ((b, at_b), rest) = AreHeld-middle l.base xs ys r (subst (AreHeld l.base) e l.valid) in
      let over = Over-held l.base s.pools s.live (r ∷ xs ++ ys) front l.over in
      let eq = drop_at-held l.base s.pools (xs ++ ys) r {E = Unit {0}} b over at_b in
      record {
        base = l.base;
        unused = l.unused;
        over =
            subst (Over l.base (xs ++ ys)) (dropped (sym eq ∙ done))
              (Over-drop l.base s.pools (xs ++ ys) r b over at_b);
        valid = rest;
        within = λ h c at_c.
            FitsIn-trans (held_grows h r (xs ++ ys))
              (subst (λ k. FitsIn k (as_claim c.limits)) (front h) (l.within h c at_c));
        same_length =
            ap length (sym (dropped (sym eq ∙ done)))
            ∙ length-set s.pools r.pool (charge (held r.pool (xs ++ ys)) b)
            ∙ l.same_length;
      }

  opens-Ledger :
      (scope : String) (limits : ResourceLimits) (pool : ResourcePool)
      → new scope limits ≡ ok pool
      → Ledger (record { pools = s.pools ++ pool ∷ []; live = s.live })
  opens-Ledger scope limits pool e =
      let fresh : held (length l.base) s.live ≡ default =
        held-unheld l.base (length l.base) s.live l.valid (get_elem?-length l.base) in
      record {
        base = l.base ++ pool ∷ [];
        unused = λ h b at_b. elim (get_elem?-snoc l.base pool h) [
          | inl (_, same) ↦ l.unused h b (sym same ∙ at_b)
          | inr (_, last) ↦
              ap (λ (p : ResourcePool). p.usage) (some-injective (sym at_b ∙ last))
              ∙ new_usage scope limits pool e
        ];
        over = Over-snoc l.base s.pools s.live pool l.over l.same_length fresh;
        valid = AreHeld-snoc l.base pool s.live l.valid;
        within = λ h b at_b. elim (get_elem?-snoc l.base pool h) [
          | inl (_, same) ↦ l.within h b (sym same ∙ at_b)
          | inr (there, last) ↦
              rw (ap (λ k. held k s.live) there ∙ fresh) (default-FitsIn (as_claim b.limits))
        ];
        same_length =
            length-append s.pools (pool ∷ [])
            ∙ ap (λ k. k + 1) l.same_length
            ∙ sym (length-append l.base (pool ∷ []));
      }

Step-Ledger : {s t : System} → Step s t → Ledger s → Ledger t
Step-Ledger {s} (reserves r after done) l = reserves-Ledger s l r after done
Step-Ledger {s} (drops xs ys r after e done) l = drops-Ledger s l xs ys r after e done
Step-Ledger {s} (opens scope limits pool e) l = opens-Ledger s l scope limits pool e

Reach-Ledger : {s : System} → Reach s → Ledger s
Reach-Ledger here = Ledger-start
Reach-Ledger (next r step) = Step-Ledger step (Reach-Ledger r)

-- After any interleaving of openings, reservations and drops, the usage of each pool is the sum of
-- the claims of the reservations that are held in it, and is within the limits of the pool in every
-- dimension.
pub Reach-accounted :
    {s : System} (h : ℕ) (p : ResourcePool)
    → Reach s
    → get_elem? s.pools h ≡ some p
    → (p.usage ≡ held h s.live) × FitsIn p.usage (as_claim p.limits)
Reach-accounted {s} h p r e =
    let l = Reach-Ledger r in
    let (b, at_b, now) = opened s l h p e in
    (
      ap (λ (q : ResourcePool). q.usage) now,
      subst (λ (q : ResourcePool). FitsIn q.usage (as_claim q.limits)) (sym now)
          (l.within h b at_b),
    )

-- A reservation that is held can be dropped after any interleaving: the accounting does not
-- underflow, so the drop does not panic, and it lowers the usage by the claim.
pub Reach-drop :
    {s : System} (xs ys : List PoolReservation) (r : PoolReservation)
    → Reach s
    → s.live ≡ xs ++ r ∷ ys
    → (p : ResourcePool) × (drop_at {E = Unit {0}} r s.pools ≡ ok (set s.pools r.pool p))
      × (p.usage ≡ held r.pool (xs ++ ys))
Reach-drop {s} xs ys r reach e =
    let l = Reach-Ledger reach in
    let ((b, at_b), _) = AreHeld-middle l.base xs ys r (subst (AreHeld l.base) e l.valid) in
    let over =
      Over-held l.base s.pools s.live (r ∷ xs ++ ys) (λ h. ap (held h) e ∙ held_middle h xs ys r)
        l.over in
    (
      charge (held r.pool (xs ++ ys)) b,
      drop_at-held l.base s.pools (xs ++ ys) r b over at_b,
      ap (λ u. add u (held r.pool (xs ++ ys))) (l.unused r.pool b at_b) ∙ default-add _,
    )
