-- ===== src/Resources/Balance.antt =====
-- src/resources.rs: the invariant of the interleavings, and the facts that keep it.
use mathlib.Core.Option
use astra_shell.Prelude.{
  Bool, Bool-cases, ℕ, ◌≡◌, ◌≢◌, ◌==◌, refl, sym, ap, subst, ◌∙◌, ◌⊎◌, inl, inr, none, some, Option,
  List, [], ◌∷◌, ◌++◌, arith, get_elem?, length, get_elem?-snoc, true, false, String,
}
use astra_shell.Prelude.Result.{Result, ok, panic}
use astra_shell.Resources.Claim.{ResourceClaim, default}
use astra_shell.Resources.ClaimLaws.{FitsIn, FitsIn-add, add, add_comm, default-add}
use astra_shell.Resources.Limits.{ResourceLimits, as_claim}
use astra_shell.Resources.Pool.{ResourcePool, QuotaExceeded, new}
use astra_shell.Resources.Account.{Pools, PoolReservation, reserve_at}
use astra_shell.Resources.Ledger.{held, held_self, held_other, charge, charge_nil, Over}
use astra_shell.Resources.Atomic.{IsHandle, AreHeld}
use astra_shell.Resources.Interleave.{System, start}

-- `base` is the pools as they were opened, with no usage.
pub record Ledger (s : System) : Type 0 where
  pub base : Pools
  pub unused : (h : ℕ) (b : ResourcePool) → get_elem? base h ≡ some b → b.usage ≡ default
  pub over : Over base s.live s.pools
  pub valid : AreHeld base s.live
  pub within :
      (h : ℕ) (b : ResourcePool)
      → get_elem? base h ≡ some b
      → FitsIn (held h s.live) (as_claim b.limits)
  pub same_length : length s.pools ≡ length base

pub Ledger-start : Ledger start
Ledger-start = record {
  base = [];
  unused = λ h b e. cc;
  over = λ h. refl;
  valid = tt;
  within = λ h b e. cc;
  same_length = refl;
}

FitsIn-refl : (a : ResourceClaim) → FitsIn a a
FitsIn-refl a = omega arith

pub ok-injective : {a b : Pools} → ◌≡◌ {A = Result QuotaExceeded Pools} (ok a) (ok b) → a ≡ b
ok-injective e = cc

pub some-injective : {a b : ResourcePool} → some a ≡ some b → a ≡ b
some-injective e = cc

pub dropped : {a b : Pools} → ◌≡◌ {A = Result Unit Pools} (ok a) (ok b) → a ≡ b
dropped e = cc

pub reserve_at-bad :
    (h : ℕ) (c : ResourceClaim) (pools : Pools)
    → get_elem? pools h ≡ none
    → reserve_at h c pools ≡ panic
unfolding reserve_at
reserve_at-bad h c pools e = rw e

pub held_grows :
    (h : ℕ) (r : PoolReservation) (live : List PoolReservation)
    → FitsIn (held h live) (held h (r ∷ live))
held_grows h r live = go (r.pool == h) refl
  where
    go : (b : Bool) → (r.pool == h) ≡ b → FitsIn (held h live) (held h (r ∷ live))
    go true e =
        let same : r.pool ≡ h = ground arith in
        subst (λ k. FitsIn (held k live) (held k (r ∷ live))) same
          (rw (held_self [] [] live r) (FitsIn-add r.claim (held r.pool live)))
    go false e = rw (held_other [] [] live r h e) (FitsIn-refl (held h live))

pub charge_unused :
    (b : ResourcePool) (c : ResourceClaim) → b.usage ≡ default → charge c b ≡ record b { usage = c }
charge_unused b c e = ap (λ u. record b { usage = u }) (ap (λ u. add u c) e ∙ default-add c)

pub still_fits :
    (pools : Pools) (r : PoolReservation) (live : List PoolReservation) (p b : ResourcePool)
    → p ≡ record b { usage = held r.pool live }
    → FitsIn (add p.usage r.claim) (as_claim p.limits)
    → FitsIn (held r.pool (r ∷ live)) (as_claim b.limits)
still_fits pools r live p b now fits =
    rw (held_self pools pools live r ∙ add_comm r.claim (held r.pool live))
      (subst (λ (q : ResourcePool). FitsIn (add q.usage r.claim) (as_claim q.limits)) now fits)

pub AreHeld-middle :
    (base : Pools) (xs ys : List PoolReservation) (r : PoolReservation)
    → AreHeld base (xs ++ r ∷ ys)
    → IsHandle base r.pool × AreHeld base (xs ++ ys)
AreHeld-middle base [] ys r v = v
AreHeld-middle base (x ∷ xs) ys r (v, vs) =
    let (handle, rest) = AreHeld-middle base xs ys r vs in (handle, (v, rest))

pub held-unheld :
    (base : Pools) (h : ℕ) (live : List PoolReservation)
    → AreHeld base live
    → get_elem? base h ≡ none
    → held h live ≡ default
held-unheld base h [] v e = unfold held in refl
held-unheld base h (r ∷ rs) ((b, at_b), vs) e = elim (Bool-cases (r.pool == h)) [
  | inl same ↦ bad (subst (λ k. get_elem? base k ≡ some b) (ground arith) at_b)
  | inr other ↦ held_other base base rs r h other ∙ held-unheld base h rs vs e
]
  where
    bad : get_elem? base h ≡ some b → held h (r ∷ rs) ≡ default
    bad f = cc (sym e ∙ f)

IsHandle-snoc :
    (base : Pools) (p : ResourcePool) (h : ℕ) → IsHandle base h → IsHandle (base ++ p ∷ []) h
IsHandle-snoc base p h (b, e) = elim (get_elem?-snoc base p h) [
  | inl (_, same) ↦ (b, same ∙ e)
  | inr (_, last) ↦ (p, last)
]

pub AreHeld-snoc :
    (base : Pools) (p : ResourcePool) (live : List PoolReservation)
    → AreHeld base live
    → AreHeld (base ++ p ∷ []) live
AreHeld-snoc base p [] v = tt
AreHeld-snoc base p (r ∷ rs) (v, vs) = (IsHandle-snoc base p r.pool v, AreHeld-snoc base p rs vs)

pub Over-snoc :
    (base pools : Pools) (live : List PoolReservation) (p : ResourcePool)
    → Over base live pools
    → length pools ≡ length base
    → held (length base) live ≡ default
    → Over (base ++ p ∷ []) live (pools ++ p ∷ [])
Over-snoc base pools live p o same fresh h = go (get_elem?-snoc pools p h) (get_elem?-snoc base p h)
  where
    charged : Option ResourcePool → Option ResourcePool
    charged = Option.map (charge (held h live))

    go :
        ((h ≢ length pools) × (get_elem? (pools ++ p ∷ []) h ≡ get_elem? pools h))
          ⊎ ((h ≡ length pools) × (get_elem? (pools ++ p ∷ []) h ≡ some p))
        → ((h ≢ length base) × (get_elem? (base ++ p ∷ []) h ≡ get_elem? base h))
          ⊎ ((h ≡ length base) × (get_elem? (base ++ p ∷ []) h ≡ some p))
        → get_elem? (pools ++ p ∷ []) h ≡ charged (get_elem? (base ++ p ∷ []) h)
    go (inl (_, e)) (inl (_, f)) = e ∙ o h ∙ ap charged (sym f)
    go (inl (ne, _)) (inr (i, _)) = absurd (ne (i ∙ sym same))
    go (inr (i, _)) (inl (ne, _)) = absurd (ne (i ∙ same))
    go (inr (i, e)) (inr (j, f)) =
        e
        ∙ charge_nil (some p)
        ∙ ap (λ c. Option.map (charge c) (some p)) (sym (ap (λ k. held k live) j ∙ fresh))
        ∙ ap charged (sym f)

pub new_usage :
    (scope : String) (limits : ResourceLimits) (pool : ResourcePool)
    → new scope limits ≡ ok pool
    → pool.usage ≡ default
unfolding new
new_usage scope limits pool e = ground arith

pub default-FitsIn : (c : ResourceClaim) → FitsIn default c
default-FitsIn c = omega arith
