-- ===== src/Resources/Interleave.antt =====
-- src/resources.rs: any interleaving of reservations, drops and openings of pools. Each step is one
-- critical section of a pool's mutex.
use astra_shell.Prelude.{◌≡◌, List, [], ◌∷◌, ◌++◌, String}
use astra_shell.Prelude.Result.{ok}
use astra_shell.Resources.Limits.{ResourceLimits}
use astra_shell.Resources.Pool.{ResourcePool, new}
use astra_shell.Resources.Account.{Pools, PoolReservation, reserve_at, drop_at}

-- The pools, and the reservations that some connection, stream or terminal holds.
pub record System : Type 0 where
  pub pools : Pools
  pub live : List PoolReservation

abbrev pub start : System
start = record { pools = []; live = [] }

pub data Step (s : System) : System → Type 0 where
  reserves :
      (r : PoolReservation) (after : Pools)
      → reserve_at r.pool r.claim s.pools ≡ ok after
      → Step s (record { pools = after; live = r ∷ s.live })
  drops :
      (xs ys : List PoolReservation) (r : PoolReservation) (after : Pools)
      → s.live ≡ xs ++ r ∷ ys
      → drop_at {E = Unit {0}} r s.pools ≡ ok after
      → Step s (record { pools = after; live = xs ++ ys })
  opens :
      (scope : String) (limits : ResourceLimits) (pool : ResourcePool)
      → new scope limits ≡ ok pool
      → Step s (record { pools = s.pools ++ pool ∷ []; live = s.live })

pub data Reach : System → Type 0 where
  here : Reach start
  next : {s t : System} → Reach s → Step s t → Reach t
