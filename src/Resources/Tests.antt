-- ===== src/Resources/Tests.antt =====
-- Runs of the accounting, and its theorems at concrete pools.
use astra_shell.Prelude.{◌≡◌, ◌↔◌, refl, [], ◌∷◌, arith, set}
use astra_shell.Prelude.U64
use astra_shell.Prelude.Result.{ok, err}
use astra_shell.Map
use astra_shell.Resources.Claim.{
  ResourceClaim, default, stream, checked_add, checked_sub, dimensions, value,
}
use astra_shell.Resources.ClaimLaws.{FitsIn}
use astra_shell.Resources.Limits.{ResourceLimits, as_claim, user_defaults, global_defaults}
use astra_shell.Resources.Limits
use astra_shell.Resources.Policy.{
  default_policy, validate, validate_user_fits, worker_capacity_claim,
}
use astra_shell.Resources.Pool.{ResourcePool, new, reserve, release, check_limits}
use astra_shell.Resources.Reserve.{Outcome, reserve-Outcome}
use astra_shell.Resources.Account.{
  Pools, PoolReservation, ResourceAccount, ResourceGovernor, reserve_at, drop_at, account_reserve,
  account, layered, reserve_all, drop_all,
}
use astra_shell.Resources.Ledger.{held}
use astra_shell.Resources.Atomic.{Reserves, reservations, account_reserve-Reserves}
use astra_shell.Resources.Interleave.{System, Reach, here, next, opens, reserves}
use astra_shell.Resources.Steps.{Reach-accounted, Reach-drop}
use astra_shell.Resources.Validate.{IsUsable, validate_iff, validate-worker_capacity}
use astra_shell.Resources.Users.{IsRegistry, Given, account-IsRegistry}

abbrev user_pool_now : ResourcePool
user_pool_now = record { scope = "user mimi"; limits = user_defaults; usage = default }

abbrev global_pool : ResourcePool
global_pool = record { scope = "global"; limits = global_defaults; usage = default }

-- A pool with one stream left.
abbrev nearly_full : ResourcePool
nearly_full = record user_pool_now { usage = record default { streams = 255 } }

abbrev two_streams : ResourceClaim
two_streams = record default { streams = 2 }

one_more :
    reserve nearly_full stream
    ≡ ok (record nearly_full { usage = record default { streams = 256 } })
unfolding reserve check_limits dimensions value checked_add U64.checked_add
one_more = refl

two_more :
    reserve nearly_full two_streams
    ≡ err (record {
      scope = "user mimi";
      resource = "streams";
      requested = 2;
      current = 255;
      limit = 256;
    })
unfolding reserve check_limits dimensions value checked_add U64.checked_add
two_more = refl

reserve_example : Outcome nearly_full two_streams (reserve nearly_full two_streams)
reserve_example = reserve-Outcome nearly_full two_streams

abbrev both_pools : Pools
both_pools = global_pool ∷ nearly_full ∷ []

-- The global pool has room and the user's has none: the global reservation is taken back.
rolled_back :
    account_reserve (layered 0 1) two_streams both_pools
    ≡ err (
      record {
        scope = "user mimi";
        resource = "streams";
        requested = 2;
        current = 255;
        limit = 256;
      },
      both_pools,
    )
unfolding account_reserve reserve_all reserve_at drop_all drop_at reserve release check_limits
    dimensions value checked_add checked_sub U64.checked_add U64.checked_sub
rolled_back = refl

atomic_example :
    Reserves both_pools
      (reservations (0 ∷ 1 ∷ []) two_streams)
      (account_reserve (layered 0 1) two_streams both_pools)
atomic_example =
    account_reserve-Reserves both_pools (layered 0 1) two_streams
      ((global_pool, refl), ((nearly_full, refl), tt))

abbrev one_stream : PoolReservation
one_stream = record { pool = 0; claim = stream }

abbrev after_one : ResourcePool
after_one = record user_pool_now { usage = record default { streams = 1 } }

opened_pool : new "user mimi" user_defaults ≡ ok user_pool_now
unfolding new Limits.validate
opened_pool = refl

reserved_pool : reserve_at 0 stream (user_pool_now ∷ []) ≡ ok (after_one ∷ [])
unfolding reserve_at reserve check_limits dimensions value checked_add U64.checked_add
reserved_pool = refl

abbrev one_open : System
one_open = record { pools = after_one ∷ []; live = one_stream ∷ [] }

one_open-Reach : Reach one_open
one_open-Reach =
    next (next here (opens "user mimi" user_defaults user_pool_now opened_pool))
      (reserves one_stream (after_one ∷ []) reserved_pool)

accounted_example :
    (after_one.usage ≡ held 0 (one_stream ∷ [])) × FitsIn after_one.usage (as_claim user_defaults)
accounted_example = Reach-accounted 0 after_one one_open-Reach refl

drop_example :
    (p : ResourcePool) × (drop_at {E = Unit {0}} one_stream (after_one ∷ [])
      ≡ ok (set (after_one ∷ []) 0 p))
    × (p.usage ≡ held 0 [])
drop_example = Reach-drop [] [] one_stream one_open-Reach refl

valid_default : validate default_policy ≡ ok tt
unfolding validate Limits.validate validate_user_fits dimensions value
valid_default = refl

validate_example : (validate default_policy ≡ ok tt) ↔ IsUsable default_policy
validate_example = validate_iff default_policy

fresh_global : new "global" global_defaults ≡ ok global_pool
unfolding new Limits.validate
fresh_global = refl

worker_capacity_example :
    (after : ResourcePool) × (reserve global_pool (worker_capacity_claim default_policy) ≡ ok after)
worker_capacity_example =
    validate-worker_capacity default_policy global_pool valid_default (omega arith) fresh_global

abbrev registry : ResourceGovernor
registry = record { global = 0; users = []; user_limits = user_defaults }

abbrev with_mimi : ResourceAccount × ResourceGovernor × Pools
with_mimi =
    (layered 0 1, record registry { users = ("mimi", 1) ∷ [] }, global_pool ∷ user_pool_now ∷ [])

first_call : account registry "mimi" (global_pool ∷ []) ≡ ok with_mimi
unfolding account new Limits.validate Map.get Map.insert
first_call = refl

registry-IsRegistry : IsRegistry registry (global_pool ∷ [])
unfolding Map.get
registry-IsRegistry = record {
  global_named = omega arith;
  named = λ u h e. cc;
  apart = λ u h e. cc;
  injective = λ u w h e d. cc;
}

registry_example : Given registry "mimi" (global_pool ∷ []) with_mimi
registry_example =
    account-IsRegistry registry "mimi" (global_pool ∷ []) with_mimi registry-IsRegistry first_call
