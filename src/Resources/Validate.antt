-- ===== src/Resources/Validate.antt =====
-- src/resources.rs: what `ResourcePolicy::validate` accepts, and what it guarantees.
use astra_shell.Prelude.{
  ℕ, ◌*◌, ◌≤◌, ◌<◌, ◌≡◌, sym, subst, ◌↔◌, String, arith, max, le→leb, ltb, true, ◌==◌,
}
use astra_shell.Prelude.U64
use astra_shell.Prelude.Result.{ok}
use astra_shell.Resources.Claim.{ResourceClaim, default, dimensions, value}
use astra_shell.Resources.ClaimLaws.{FitsIn, greatest, default-add}
use astra_shell.Resources.Limits
use astra_shell.Resources.Limits.{
  ResourceLimits, as_claim, validate_dimensions, max_terminal_history_rows,
  max_terminal_history_bytes,
}
use astra_shell.Resources.Policy.{
  ResourcePolicy, validate, validate_user_fits, worker_capacity_claim, terminal,
}
use astra_shell.Resources.Pool.{ResourcePool, new, reserve}
use astra_shell.Resources.Reserve.{reserve_admits}

-- Every limit but those of forwarding is nonzero.
pub record IsNonzero (l : ResourceLimits) : Type 0 where
  pub connections : 0 < l.connections
  pub streams : 0 < l.streams
  pub workers : 0 < l.workers
  pub terminals : 0 < l.terminals
  pub attachments : 0 < l.attachments
  pub terminal_memory_bytes : 0 < l.terminal_memory_bytes
  pub history_bytes : 0 < l.history_bytes
  pub file_handles : 0 < l.file_handles
  pub uploads : 0 < l.uploads
  pub upload_bytes : 0 < l.upload_bytes

limits_validate→IsNonzero :
    (l : ResourceLimits) (scope : String) → Limits.validate l scope ≡ ok tt → IsNonzero l
unfolding Limits.validate
limits_validate→IsNonzero l scope h = ground arith

IsNonzero→limits_validate :
    (l : ResourceLimits) (scope : String) → IsNonzero l → Limits.validate l scope ≡ ok tt
unfolding Limits.validate
IsNonzero→limits_validate l scope h = ground arith

user_fits→FitsIn : (g u : ResourceClaim) → validate_user_fits g (dimensions u) ≡ ok tt → FitsIn u g
unfolding validate_user_fits dimensions value
user_fits→FitsIn g u h = ground arith

FitsIn→user_fits : (g u : ResourceClaim) → FitsIn u g → validate_user_fits g (dimensions u) ≡ ok tt
unfolding validate_user_fits dimensions value
FitsIn→user_fits g u h = simp (
  le→leb u.connections g.connections h.connections,
  le→leb u.streams g.streams h.streams,
  le→leb u.workers g.workers h.workers,
  le→leb u.terminals g.terminals h.terminals,
  le→leb u.attachments g.attachments h.attachments,
  le→leb u.terminal_memory_bytes g.terminal_memory_bytes h.terminal_memory_bytes,
  le→leb u.history_bytes g.history_bytes h.history_bytes,
  le→leb u.forward_connections g.forward_connections h.forward_connections,
  le→leb u.forward_buffer_bytes g.forward_buffer_bytes h.forward_buffer_bytes,
  le→leb u.file_handles g.file_handles h.file_handles,
  le→leb u.uploads g.uploads h.uploads,
  le→leb u.upload_bytes g.upload_bytes h.upload_bytes,
)

-- What the server asks of a policy.
pub record IsUsable (p : ResourcePolicy) : Type 0 where
  pub global_nonzero : IsNonzero p.global
  pub user_nonzero : IsNonzero p.user
  pub one_worker : p.user.workers ≡ 1
  pub base_nonzero : 0 < p.terminal_base_memory_bytes
  pub cell_nonzero : 0 < p.terminal_cell_memory_bytes
  pub rows_nonzero : 0 < p.terminal_history_rows
  pub bytes_nonzero : 0 < p.terminal_history_bytes
  pub rows_bounded : p.terminal_history_rows ≤ max_terminal_history_rows
  pub bytes_bounded : p.terminal_history_bytes ≤ max_terminal_history_bytes
  pub base_fits : p.terminal_base_memory_bytes ≤ p.user.terminal_memory_bytes
  pub history_fits : p.terminal_history_bytes ≤ p.user.history_bytes
  pub user_fits : FitsIn (as_claim p.user) (as_claim p.global)

validate→IsUsable : (p : ResourcePolicy) → validate p ≡ ok tt → IsUsable p
unfolding validate
validate→IsUsable p h = ground (
  arith,
  limits_validate→IsNonzero p.global "global",
  limits_validate→IsNonzero p.user "user",
  user_fits→FitsIn (as_claim p.global) (as_claim p.user),
)

lt→ltb : (a b : ℕ) → a < b → ltb a b ≡ true
lt→ltb a b h = ground arith

one_eq : (a : ℕ) → a ≡ 1 → (a == 1) ≡ true
one_eq a h = ground arith

IsUsable→validate : (p : ResourcePolicy) → IsUsable p → validate p ≡ ok tt
unfolding validate
IsUsable→validate p u = simp (
  IsNonzero→limits_validate p.global "global" u.global_nonzero,
  IsNonzero→limits_validate p.user "user" u.user_nonzero,
  one_eq p.user.workers u.one_worker,
  lt→ltb 0 p.terminal_base_memory_bytes u.base_nonzero,
  lt→ltb 0 p.terminal_cell_memory_bytes u.cell_nonzero,
  lt→ltb 0 p.terminal_history_rows u.rows_nonzero,
  lt→ltb 0 p.terminal_history_bytes u.bytes_nonzero,
  le→leb p.terminal_history_rows max_terminal_history_rows u.rows_bounded,
  le→leb p.terminal_history_bytes max_terminal_history_bytes u.bytes_bounded,
  le→leb p.terminal_base_memory_bytes p.user.terminal_memory_bytes u.base_fits,
  le→leb p.terminal_history_bytes p.user.history_bytes u.history_fits,
  FitsIn→user_fits (as_claim p.global) (as_claim p.user) u.user_fits,
)

-- The validation accepts exactly the policies whose limits are nonzero (those of forwarding aside),
-- that have one worker per user, nonzero terminal sizes with bounded history, a user capacity that
-- holds one terminal, and a global capacity that holds one user in every dimension.
pub validate_iff : (p : ResourcePolicy) → (validate p ≡ ok tt) ↔ IsUsable p
validate_iff p = (validate→IsUsable p, IsUsable→validate p)

worker_claim-FitsIn :
    (p : ResourcePolicy) → IsUsable p → FitsIn (worker_capacity_claim p) (as_claim p.global)
unfolding worker_capacity_claim
worker_claim-FitsIn p u = omega (arith, u.user_fits)

-- A pool that nothing has been reserved in admits every claim within its limits.
new_lem :
    (scope : String) (l : ResourceLimits) (pool : ResourcePool)
    → new scope l ≡ ok pool
    → pool ≡ record { scope = scope; limits = l; usage = default }
unfolding new
new_lem scope l pool e = ground arith

new-reserve :
    (scope : String) (l : ResourceLimits) (pool : ResourcePool) (c : ResourceClaim)
    → FitsIn (as_claim l) greatest
    → new scope l ≡ ok pool
    → FitsIn c (as_claim l)
    → (after : ResourcePool) × (reserve pool c ≡ ok after)
new-reserve scope l pool c small e fits =
    subst (λ (q : ResourcePool). (after : ResourcePool) × (reserve q c ≡ ok after))
      (sym (new_lem scope l pool e))
      (
        _,
        reserve_admits (record { scope = scope; limits = l; usage = default }) c small
            (rw (default-add c) fits),
      )

-- Under a validated policy whose limits are `u64` numbers, the fresh global pool admits the whole
-- capacity of a worker.
pub validate-worker_capacity :
    (p : ResourcePolicy) (pool : ResourcePool)
    → validate p ≡ ok tt
    → FitsIn (as_claim p.global) greatest
    → new "global" p.global ≡ ok pool
    → (after : ResourcePool) × (reserve pool (worker_capacity_claim p) ≡ ok after)
validate-worker_capacity p pool valid small e =
    new-reserve "global" p.global pool (worker_capacity_claim p) small e
      (worker_claim-FitsIn p (validate→IsUsable p valid))

le-mul : (a c : ℕ) → 0 < c → a ≤ a * c
le-mul a c h = grind arith

terminal_ok :
    (rows columns : ℕ) (p : ResourcePolicy)
    → rows * columns * p.terminal_cell_memory_bytes < U64.modulus
    → rows * columns < U64.modulus
    → terminal rows columns p
      ≡ ok (record default {
        terminals = 1;
        terminal_memory_bytes =
            max (rows * columns * p.terminal_cell_memory_bytes) p.terminal_base_memory_bytes;
        history_bytes = p.terminal_history_bytes;
      })
unfolding terminal
terminal_ok rows columns p small cells = simp (lt→ltb _ _ small, lt→ltb _ _ cells)

-- Under a validated policy, a terminal whose grid needs at most the user's terminal memory has a
-- claim, and the fresh pool of the user admits it.
pub validate-terminal :
    (p : ResourcePolicy) (pool : ResourcePool) (rows columns : ℕ) (scope : String)
    → validate p ≡ ok tt
    → FitsIn (as_claim p.user) greatest
    → new scope p.user ≡ ok pool
    → rows * columns * p.terminal_cell_memory_bytes ≤ p.user.terminal_memory_bytes
    → (claim : ResourceClaim) × (after : ResourcePool) × (terminal rows columns p ≡ ok claim)
      × (reserve pool claim ≡ ok after)
validate-terminal p pool rows columns scope valid small e grid =
    let u = validate→IsUsable p valid in
    let claim : ResourceClaim = record default {
      terminals = 1;
      terminal_memory_bytes =
          max (rows * columns * p.terminal_cell_memory_bytes) p.terminal_base_memory_bytes;
      history_bytes = p.terminal_history_bytes;
    } in
    let (after, done) =
      new-reserve scope p.user pool claim small e
        (omega (arith, u.user_nonzero.terminals, u.base_fits, u.history_fits)) in
    (
      claim,
      after,
      terminal_ok rows columns p (omega (arith, small.terminal_memory_bytes)) (
          omega (
            arith,
            small.terminal_memory_bytes,
            le-mul (rows * columns) p.terminal_cell_memory_bytes u.cell_nonzero,
          )),
      done,
    )
