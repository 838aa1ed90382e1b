-- ===== src/Resources/Pool.antt =====
-- src/resources.rs: `ResourcePool`, `QuotaExceeded` and the drop of a `PoolReservation`.
use astra_shell.Prelude.{ℕ, ◌-◌, String, List, [], ◌∷◌, ltb, if◌then◌else◌}
use astra_shell.Prelude.U64
use astra_shell.Prelude.Result.{Result, ok, err, ◌>>◌, ◌>>=◌, ok_or, expect}
use astra_shell.Resources.Claim.{
  ResourceClaim, default, dimensions, value, checked_add, checked_sub,
}
use astra_shell.Resources.Limits
use astra_shell.Resources.Limits.{ResourceLimits, ConfigError, as_claim}

pub record QuotaExceeded : Type 0 where
  pub scope : String
  pub resource : String
  pub requested : ℕ
  pub current : ℕ
  pub limit : ℕ

-- `ResourcePoolInner`: what the shared handle of a `ResourcePool` points to.
pub record ResourcePool : Type 0 where
  pub scope : String
  pub limits : ResourceLimits
  pub usage : ResourceClaim

unfoldable pub new : String → ResourceLimits → Result ConfigError ResourcePool
new scope limits = do
  Limits.validate limits scope
  ok (record { scope = scope; limits = limits; usage = default })

-- The loop of `reserve` over the dimensions of the claim.
unfoldable pub check_limits :
    String
    → ResourceClaim
    → ResourceClaim
    → ResourceClaim
    → List (String × ℕ)
    → Result QuotaExceeded Unit
check_limits scope usage next limits [] = ok tt
check_limits scope usage next limits ((resource, requested) ∷ rest) = do
  current ← expect (value usage resource)
  limit ← expect (value limits resource)
  wanted ← expect (value next resource)
  if ltb limit wanted
      then err (record {
        scope = scope;
        resource = resource;
        requested = requested;
        current = current;
        limit = limit;
      })
      else check_limits scope usage next limits rest

abbrev pub counter_exceeded : String → QuotaExceeded
counter_exceeded scope = record {
  scope = scope;
  resource = "counter";
  requested = 1;
  current = U64.modulus - 1;
  limit = U64.modulus - 1;
}

-- The pool after the reservation, which holds `claim` from then on.
unfoldable pub reserve : ResourcePool → ResourceClaim → Result QuotaExceeded ResourcePool
reserve pool claim = do
  next ← ok_or (checked_add pool.usage claim) (counter_exceeded pool.scope)
  check_limits pool.scope pool.usage next (as_claim pool.limits) (dimensions claim)
  ok (record pool { usage = next })

-- `PoolReservation::drop`, for a reservation that holds `claim`.
unfoldable pub release : {E : Type 0} → ResourcePool → ResourceClaim → Result E ResourcePool
release pool claim = do
  usage ← expect (checked_sub pool.usage claim)
  ok (record pool { usage = usage })
