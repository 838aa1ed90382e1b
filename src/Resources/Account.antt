-- ===== src/Resources/Account.antt =====
-- src/resources.rs: `PoolReservation`, `ResourceAccount` and `ResourceGovernor`. A `ResourcePool` is
-- a shared handle (`Arc`): the pools live in a list, and a handle is a position in it. So two
-- accounts of one governor share the global pool, and two accounts of one user share both pools.
use Prim.Native.String.{◌++◌ as text_append}
use astra_shell.Prelude.{
  ℕ, String, List, [], ◌∷◌, ◌++◌, Option, none, some, length, get_elem?, set, str_eq, not,
}
use astra_shell.Prelude.Result.{Result, ok, err, panic, ◌>>=◌, ◌>>◌, ensure, expect}
use astra_shell.Map.{Map}
use astra_shell.Map
use astra_shell.Resources.Claim.{ResourceClaim}
use astra_shell.Resources.Limits.{ResourceLimits, ConfigError, account_user_empty}
use astra_shell.Resources.Policy.{ResourcePolicy}
use astra_shell.Resources.Policy
use astra_shell.Resources.Pool.{ResourcePool, QuotaExceeded, reserve, release}
use astra_shell.Resources.Pool

abbrev pub Pools : Type 0
Pools = List ResourcePool

pub record PoolReservation : Type 0 where
  pub pool : ℕ
  pub claim : ResourceClaim

-- `ResourcePool::reserve` through a handle.
unfoldable pub reserve_at : ℕ → ResourceClaim → Pools → Result QuotaExceeded Pools
reserve_at h claim pools = do
  pool ← expect (get_elem? pools h)
  after ← reserve pool claim
  ok (set pools h after)

-- `PoolReservation::drop`.
unfoldable pub drop_at : {E : Type 0} → PoolReservation → Pools → Result E Pools
drop_at r pools = do
  pool ← expect (get_elem? pools r.pool)
  after ← release pool r.claim
  ok (set pools r.pool after)

-- The drop of a vector of reservations (`ResourceReservation`), from the first on.
unfoldable pub drop_all : {E : Type 0} → List PoolReservation → Pools → Result E Pools
drop_all [] pools = ok pools
drop_all (r ∷ rs) pools = do pools' ← drop_at r pools; drop_all rs pools'

pub record ResourceAccount : Type 0 where
  pub pools : List ℕ

-- What an error leaves behind: the report, and the pools after the reservations made so far are
-- dropped.
abbrev pub Refused : Type 0
Refused = QuotaExceeded × Pools

after_refusal : QuotaExceeded → Result Refused Pools → Result Refused (List PoolReservation × Pools)
after_refusal q (ok pools) = err (q, pools)
after_refusal q (err e) = err e
after_refusal q panic = panic

-- One round of the loop of `ResourceAccount::reserve`; `next` is the rest of the loop.
unfoldable pub reserve_round :
    List PoolReservation
    → Pools
    → (Pools → Result Refused (List PoolReservation × Pools))
    → Result QuotaExceeded Pools
    → Result Refused (List PoolReservation × Pools)
unfolding after_refusal
reserve_round acquired pools next (ok pools') = next pools'
reserve_round acquired pools next (err q) = after_refusal q (drop_all acquired pools)
reserve_round acquired pools next panic = panic

unfoldable pub reserve_all :
    List ℕ
    → ResourceClaim
    → List PoolReservation
    → Pools
    → Result Refused (List PoolReservation × Pools)
unfolding reserve_round
reserve_all [] claim acquired pools = ok (acquired, pools)
reserve_all (h ∷ hs) claim acquired pools =
    reserve_round acquired pools
      (reserve_all hs claim (acquired ++ record { pool = h; claim = claim } ∷ []))
      (reserve_at h claim pools)

-- `ResourceAccount::reserve`.
unfoldable pub account_reserve :
    ResourceAccount → ResourceClaim → Pools → Result Refused (List PoolReservation × Pools)
account_reserve a claim pools = reserve_all a.pools claim [] pools

-- `ResourceAccount::standalone`.
unfoldable pub standalone :
    String → ResourceLimits → Pools → Result ConfigError (ResourceAccount × Pools)
standalone scope limits pools = do
  pool ← Pool.new scope limits
  ok (record { pools = length pools ∷ [] }, pools ++ pool ∷ [])

-- `ResourceAccount::layered`.
abbrev pub layered : ℕ → ℕ → ResourceAccount
layered global user = record { pools = global ∷ user ∷ [] }

pub record ResourceGovernor : Type 0 where
  pub global : ℕ
  pub users : Map ℕ
  pub user_limits : ResourceLimits

-- `ResourceGovernor::new`.
unfoldable pub governor : ResourcePolicy → Pools → Result ConfigError (ResourceGovernor × Pools)
governor policy pools = do
  Policy.validate policy
  pool ← Pool.new "global" policy.global
  ok (record { global = length pools; users = []; user_limits = policy.user }, pools ++ pool ∷ [])

-- The `match` of `ResourceGovernor::account`.
unfoldable pub user_pool :
    ResourceGovernor → String → Pools → Option ℕ → Result ConfigError (ℕ × ResourceGovernor × Pools)
user_pool g user pools (some h) = ok (h, g, pools)
user_pool g user pools none = do
  pool ← Pool.new (text_append "user " user) g.user_limits
  ok (length pools, record g { users = Map.insert user (length pools) g.users }, pools ++ pool ∷ [])

-- `ResourceGovernor::account`.
unfoldable pub account :
    ResourceGovernor
    → String
    → Pools
    → Result ConfigError (ResourceAccount × ResourceGovernor × Pools)
unfolding user_pool
account g user pools = do
  ensure (not (str_eq user "")) account_user_empty
  (h, g', pools') ← user_pool g user pools (Map.get user g.users)
  ok (layered g.global h, g', pools')
