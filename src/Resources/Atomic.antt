-- ===== src/Resources/Atomic.antt =====
-- src/resources.rs: what `ResourceAccount::reserve` leaves in the pools of the account.
use mathlib.Core.Option
use mathlib.Core.List.{append_assoc, append-nil}
use astra_shell.Prelude.{
  ℕ, ◌≡◌, refl, sym, ap, subst, ◌∙◌, ◌⊎◌, inl, inr, some, List, [], ◌∷◌, ◌++◌, map, get_elem?, set,
  get_elem?-ext,
}
use astra_shell.Prelude.Result.{Result, ok, err}
use astra_shell.Resources.Claim.{ResourceClaim}
use astra_shell.Resources.ClaimLaws.{FitsIn, add}
use astra_shell.Resources.Limits.{as_claim}
use astra_shell.Resources.Pool.{ResourcePool, QuotaExceeded, reserve, counter_exceeded}
use astra_shell.Resources.Reserve.{Outcome, admitted, overflows, refused, reserve-Outcome}
use astra_shell.Resources.Account.{
  Pools, PoolReservation, ResourceAccount, Refused, reserve_at, drop_all, reserve_all,
  account_reserve,
}
use astra_shell.Resources.Ledger.{
  held, held_middle, charge, Over, Over-nil, Over-cons, Over-drop, Over-held, drop_at-held,
}

-- The handle names a pool.
abbrev pub IsHandle : Pools → ℕ → Type 0
IsHandle pools h = (p : ResourcePool) × (get_elem? pools h ≡ some p)

abbrev pub AreHandles : Pools → List ℕ → Type 0
AreHandles pools [] = Unit {0}
AreHandles pools (h ∷ hs) = IsHandle pools h × AreHandles pools hs

abbrev pub AreHeld : Pools → List PoolReservation → Type 0
AreHeld pools [] = Unit {0}
AreHeld pools (r ∷ rs) = IsHandle pools r.pool × AreHeld pools rs

AreHeld-append :
    (base : Pools) (xs ys : List PoolReservation)
    → AreHeld base xs
    → AreHeld base ys
    → AreHeld base (xs ++ ys)
AreHeld-append base [] ys v w = w
AreHeld-append base (x ∷ xs) ys (v, vs) w = (v, AreHeld-append base xs ys vs w)

-- All reservations dropped, whatever their order, the pools are those of the start.
pub drop_all-held :
    {E : Type 0} (base pools : Pools) (live : List PoolReservation)
    → AreHeld base live
    → Over base live pools
    → drop_all {E = E} live pools ≡ ok base
unfolding drop_all
drop_all-held base pools [] v o =
    ap ok (get_elem?-ext pools base (λ h. o h ∙ sym (Over-nil base h)))
drop_all-held base pools (r ∷ rs) ((b, e), vs) o = rw (drop_at-held base pools rs r b o e) (
    drop_all-held base (set pools r.pool (charge (held r.pool rs) b)) rs vs
      (Over-drop base pools rs r b o e))

-- The handle of a pool of `base` names a pool of the charged pools too.
pub charged_pool :
    (base pools : Pools) (live : List PoolReservation) (h : ℕ)
    → Over base live pools
    → IsHandle base h
    → IsHandle pools h
charged_pool base pools live h o (b, e) =
    (charge (held h live) b, o h ∙ ap (Option.map (charge (held h live))) e)

-- One more reservation, at the end of the vector.
Over-last :
    (base pools : Pools) (live : List PoolReservation) (r : PoolReservation) (p : ResourcePool)
    → Over base live pools
    → get_elem? pools r.pool ≡ some p
    → Over base (live ++ r ∷ []) (set pools r.pool (charge r.claim p))
Over-last base pools live r p o e =
    Over-held base (set pools r.pool (charge r.claim p)) (r ∷ live) (live ++ r ∷ [])
      (λ h. sym (
        held_middle h live [] r
        ∙ ap (λ (l : List PoolReservation). held h (r ∷ l)) (append-nil live)))
      (Over-cons base pools live r p o e)

pub reserve_at_cases :
    (pools : Pools) (h : ℕ) (claim : ResourceClaim) (p : ResourcePool)
    → get_elem? pools h ≡ some p
    → ((reserve_at h claim pools ≡ ok (set pools h (charge claim p)))
        × FitsIn (add p.usage claim) (as_claim p.limits))
      ⊎ ((q : QuotaExceeded) × (reserve_at h claim pools ≡ err q))
unfolding reserve_at
reserve_at_cases pools h claim p e = go (reserve-Outcome p claim)
  where
    go :
        Outcome p claim (reserve p claim)
        → ((reserve_at h claim pools ≡ ok (set pools h (charge claim p)))
            × FitsIn (add p.usage claim) (as_claim p.limits))
          ⊎ ((q : QuotaExceeded) × (reserve_at h claim pools ≡ err q))
    go (admitted r small fits) = inl (rw (e, reserve_at, r), fits)
    go (overflows r large) = inr (counter_exceeded p.scope, rw (e, reserve_at, r))
    go (refused q r small reports) = inr (q, rw (e, reserve_at, r))

abbrev pub reservations : List ℕ → ResourceClaim → List PoolReservation
reservations hs claim = map (λ h. record { pool = h; claim = claim }) hs

-- What the reservation of an account comes to, for the pools `base` at its start.
pub data Reserves (base : Pools) (held_now : List PoolReservation)
    (r : Result Refused (List PoolReservation × Pools)) : Type 0 where
  granted :
      (after : Pools)
      → r ≡ ok (held_now, after)
      → Over base held_now after
      → Reserves base held_now r
  unchanged : (q : QuotaExceeded) → r ≡ err (q, base) → Reserves base held_now r

reserve_all-Reserves :
    (base pools : Pools) (hs : List ℕ) (claim : ResourceClaim) (acquired : List PoolReservation)
    → AreHandles base hs
    → AreHeld base acquired
    → Over base acquired pools
    → Reserves base (acquired ++ reservations hs claim) (reserve_all hs claim acquired pools)
unfolding reserve_all
reserve_all-Reserves base pools [] claim acquired hv av o = rw append-nil (granted pools refl o)
reserve_all-Reserves base pools (h ∷ hs) claim acquired (hv, hvs) av o =
    let r : PoolReservation = record { pool = h; claim = claim } in
    let (p, e) = charged_pool base pools acquired h o hv in
    elim (reserve_at_cases pools h claim p e) [
      | inl (done, _) ↦ rw done (
          subst
            (λ all.
              Reserves base all
                (reserve_all hs claim (acquired ++ r ∷ []) (set pools h (charge claim p))))
            (append_assoc acquired (r ∷ []) (reservations hs claim))
            (reserve_all-Reserves base (set pools h (charge claim p)) hs claim (acquired ++ r ∷ [])
              hvs (AreHeld-append base acquired (r ∷ []) av (hv, tt))
              (Over-last base pools acquired r p o e)))
      | inr (q, over) ↦
          rw over (unchanged q (rw (drop_all-held {E = Refused} base pools acquired av o)))
    ]

-- The reservation of an account, for a claim of any size: it reserves the claim once in each pool
-- of the account, and adds it to the usage of those pools and to nothing else; or it is refused
-- with a report, and every pool is what it was. It never panics.
pub account_reserve-Reserves :
    (pools : Pools) (a : ResourceAccount) (claim : ResourceClaim)
    → AreHandles pools a.pools
    → Reserves pools (reservations a.pools claim) (account_reserve a claim pools)
unfolding account_reserve
account_reserve-Reserves pools a claim v =
    reserve_all-Reserves pools pools a.pools claim [] v tt (Over-nil pools)

pub AreHandles-reservations :
    (pools : Pools) (hs : List ℕ) (claim : ResourceClaim)
    → AreHandles pools hs
    → AreHeld pools (reservations hs claim)
AreHandles-reservations pools [] claim v = tt
AreHandles-reservations pools (h ∷ hs) claim (v, vs) =
    (v, AreHandles-reservations pools hs claim vs)
