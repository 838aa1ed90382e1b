-- ===== src/Resources/Ledger.antt =====
-- src/resources.rs: the usage of every pool against the reservations that are held.
use mathlib.Core.Option
use astra_shell.Prelude.{
  ℕ, ◌≡◌, ◌≢◌, refl, sym, ap, ◌∙◌, subst, Option, none, some, List, [], ◌∷◌, ◌++◌, arith, ◌==◌,
  if◌then◌else◌, Bool, Bool-cases, true, false, inl, inr, get_elem?, set, get_elem?-set_self,
  get_elem?-set_ne,
}
use astra_shell.Prelude.Result.{ok}
use astra_shell.Resources.Claim.{ResourceClaim, default}
use astra_shell.Resources.ClaimLaws.{
  add, add_comm, add_assoc, add_left_comm, add-default, default-add,
}
use astra_shell.Resources.Pool.{ResourcePool}
use astra_shell.Resources.Reserve.{release-reserved}
use astra_shell.Resources.Account.{Pools, PoolReservation, drop_at}

-- What the reservations of a list hold in one pool.
unfoldable pub held : ℕ → List PoolReservation → ResourceClaim
held h [] = default
held h (r ∷ rs) = if r.pool == h then add r.claim (held h rs) else held h rs

abbrev pub charge : ResourceClaim → ResourcePool → ResourcePool
charge c p = record p { usage = add p.usage c }

-- The pools are those of `base` with what `live` holds added to their usage.
abbrev pub Over : Pools → List PoolReservation → Pools → Type 0
Over base live pools =
    (h : ℕ) → get_elem? pools h ≡ Option.map (charge (held h live)) (get_elem? base h)

held_if :
    (b : Bool) (c whole front rest : ResourceClaim)
    → whole ≡ add front rest
    → (if b then add c whole else whole) ≡ add (if b then add c front else front) rest
held_if true c w f r e = ap (add c) e ∙ sym (add_assoc c f r)
held_if false c w f r e = e

held_swap :
    (b d : Bool) (x r c : ResourceClaim)
    → (if b then add x (if d then add r c else c) else if d then add r c else c)
      ≡ (if d then add r (if b then add x c else c) else if b then add x c else c)
held_swap true true x r c = add_left_comm x r c
held_swap true false x r c = refl
held_swap false true x r c = refl
held_swap false false x r c = refl

pub held-append :
    (h : ℕ) (xs ys : List PoolReservation) → held h (xs ++ ys) ≡ add (held h xs) (held h ys)
unfolding held
held-append h [] ys = sym (default-add (held h ys))
held-append h (r ∷ rs) ys = held_if (r.pool == h) r.claim _ _ _ (held-append h rs ys)

-- Where the reservation stands in the list makes no difference.
pub held_middle :
    (h : ℕ) (xs ys : List PoolReservation) (r : PoolReservation)
    → held h (xs ++ r ∷ ys) ≡ held h (r ∷ xs ++ ys)
unfolding held
held_middle h [] ys r = refl
held_middle h (x ∷ xs) ys r =
    ap (λ c. if x.pool == h then add x.claim c else c) (held_middle h xs ys r)
    ∙ held_swap (x.pool == h) (r.pool == h) x.claim r.claim (held h (xs ++ ys))

pub charge_nil : (o : Option ResourcePool) → o ≡ Option.map (charge default) o
charge_nil none = refl
charge_nil (some p) = ap (λ c. some (record p { usage = c })) (sym (add-default p.usage))

pub Over-nil : (base : Pools) → Over base [] base
unfolding held
Over-nil base h = charge_nil (get_elem? base h)

charge_more :
    (b : Option ResourcePool) (p : ResourcePool) (c k : ResourceClaim)
    → some p ≡ Option.map (charge c) b
    → some (charge k p) ≡ Option.map (charge (add k c)) b
charge_more none p c k e = cc
charge_more (some q) p c k e =
    ap (λ x. some (charge k x)) (same e)
    ∙ ap (λ u. some (record q { usage = u }))
        (add_assoc q.usage c k ∙ ap (add q.usage) (add_comm c k))
  where
    same : some p ≡ some (charge c q) → p ≡ charge c q
    same h = cc

-- A statement about every pool is proved at one pool and at the others.
pub at_each {ℓ} :
    (P : ℕ → Type ℓ) (i : ℕ) → P i → ((h : ℕ) → i ≢ h → (i == h) ≡ false → P h) → (h : ℕ) → P h
at_each P i here there h = elim (Bool-cases (i == h)) [
  | inl same ↦ subst P (ground arith) here
  | inr other ↦ there h (λ e. ground arith) other
]

module _ (base pools : Pools) (live : List PoolReservation) (r : PoolReservation) where
  pub held_self : held r.pool (r ∷ live) ≡ add r.claim (held r.pool live)
  unfolding held
  held_self = ground arith

  pub held_other : (h : ℕ) → (r.pool == h) ≡ false → held h (r ∷ live) ≡ held h live
  unfolding held
  held_other h e = rw e

  pub Over-cons :
      (p : ResourcePool)
      → Over base live pools
      → get_elem? pools r.pool ≡ some p
      → Over base (r ∷ live) (set pools r.pool (charge r.claim p))
  Over-cons p o e =
      at_each
        (λ h.
          get_elem? (set pools r.pool (charge r.claim p)) h
          ≡ Option.map (charge (held h (r ∷ live))) (get_elem? base h))
        r.pool
        (get_elem?-set_self pools r.pool (charge r.claim p) p e
          ∙ charge_more (get_elem? base r.pool) p (held r.pool live) r.claim (sym e ∙ o r.pool)
          ∙ ap (λ c. Option.map (charge c) (get_elem? base r.pool)) (sym held_self))
        (λ h ne other.
          get_elem?-set_ne pools (charge r.claim p) ne
          ∙ o h
          ∙ ap (λ c. Option.map (charge c) (get_elem? base h)) (sym (held_other h other)))

  -- A reservation that is held can be dropped: the subtraction does not underflow.
  pub drop_at-held :
      {E : Type 0} (b : ResourcePool)
      → Over base (r ∷ live) pools
      → get_elem? base r.pool ≡ some b
      → drop_at {E = E} r pools ≡ ok (set pools r.pool (charge (held r.pool live) b))
  unfolding drop_at
  drop_at-held b o e = rw (
    o r.pool,
    e,
    held_self,
    release-reserved (charge (add r.claim (held r.pool live)) b) (add b.usage (held r.pool live))
        r.claim
        (ap (add b.usage) (add_comm r.claim (held r.pool live))
          ∙ sym (add_assoc b.usage (held r.pool live) r.claim)),
  )

  pub Over-drop :
      (b : ResourcePool)
      → Over base (r ∷ live) pools
      → get_elem? base r.pool ≡ some b
      → Over base live (set pools r.pool (charge (held r.pool live) b))
  Over-drop b o e =
      at_each
        (λ h.
          get_elem? (set pools r.pool (charge (held r.pool live) b)) h
          ≡ Option.map (charge (held h live)) (get_elem? base h))
        r.pool
        (get_elem?-set_self pools r.pool _ _
            (o r.pool ∙ ap (Option.map (charge (held r.pool (r ∷ live)))) e)
          ∙ ap (Option.map (charge (held r.pool live))) (sym e))
        (λ h ne other.
          get_elem?-set_ne pools _ ne
          ∙ o h
          ∙ ap (λ c. Option.map (charge c) (get_elem? base h)) (held_other h other))

-- What is held decides, whatever the order of the reservations.
pub Over-held :
    (base pools : Pools) (xs ys : List PoolReservation)
    → ((h : ℕ) → held h xs ≡ held h ys)
    → Over base xs pools
    → Over base ys pools
Over-held base pools xs ys e o h = o h ∙ ap (λ c. Option.map (charge c) (get_elem? base h)) (e h)
