-- ===== src/Resources/Policy.antt =====
-- src/resources.rs: `ResourcePolicy`, and the claims that depend on it.
use astra_shell.Prelude.{ℕ, ◌*◌, max, String, List, [], ◌∷◌, ltb, leb, ◌==◌, ◌&&◌}
use astra_shell.Prelude.U64
use astra_shell.Prelude.Result.{Result, ok, ◌>>◌, ◌>>=◌, ensure, ok_or, expect}
use astra_shell.Resources.Claim.{ResourceClaim, default, dimensions, value}
use astra_shell.Resources.Limits
use astra_shell.Resources.Limits.{
  ResourceLimits, ConfigError, as_claim, global_defaults, user_defaults, mib, user_workers_not_one,
  terminal_capacity_zero, history_rows_exceed_hard_limit, history_bytes_exceed_hard_limit,
  user_memory_below_base, user_history_below_terminal, global_limit_below_user,
  terminal_cell_count_overflow, terminal_memory_claim_overflow, max_terminal_history_rows,
  max_terminal_history_bytes, default_terminal_history_rows,
}

pub record ResourcePolicy : Type 0 where
  pub global : ResourceLimits
  pub user : ResourceLimits
  pub terminal_base_memory_bytes : ℕ
  pub terminal_cell_memory_bytes : ℕ
  pub terminal_history_rows : ℕ
  pub terminal_history_bytes : ℕ

abbrev pub default_policy : ResourcePolicy
default_policy = record {
  global = global_defaults;
  user = user_defaults;
  terminal_base_memory_bytes = 4 * mib;
  terminal_cell_memory_bytes = 64;
  terminal_history_rows = default_terminal_history_rows;
  terminal_history_bytes = 8 * mib;
}

-- The last loop of `ResourcePolicy::validate`.
unfoldable pub validate_user_fits : ResourceClaim → List (String × ℕ) → Result ConfigError Unit
validate_user_fits global [] = ok tt
validate_user_fits global ((resource, user_limit) ∷ rest) = do
  global_limit ← expect (value global resource)
  ensure (leb user_limit global_limit) (global_limit_below_user resource)
  validate_user_fits global rest

unfoldable pub validate : ResourcePolicy → Result ConfigError Unit
validate p = do
  Limits.validate p.global "global"
  Limits.validate p.user "user"
  ensure (p.user.workers == 1) user_workers_not_one
  ensure
      (ltb 0 p.terminal_base_memory_bytes
        && ltb 0 p.terminal_cell_memory_bytes
        && ltb 0 p.terminal_history_rows
        && ltb 0 p.terminal_history_bytes)
      terminal_capacity_zero
  ensure (leb p.terminal_history_rows max_terminal_history_rows) history_rows_exceed_hard_limit
  ensure (leb p.terminal_history_bytes max_terminal_history_bytes) history_bytes_exceed_hard_limit
  ensure (leb p.terminal_base_memory_bytes p.user.terminal_memory_bytes) user_memory_below_base
  ensure (leb p.terminal_history_bytes p.user.history_bytes) user_history_below_terminal
  validate_user_fits (as_claim p.global) (dimensions (as_claim p.user))

unfoldable pub worker_capacity_claim : ResourcePolicy → ResourceClaim
worker_capacity_claim p = record default {
  workers = 1;
  terminals = p.user.terminals;
  attachments = p.user.attachments;
  terminal_memory_bytes = p.user.terminal_memory_bytes;
  history_bytes = p.user.history_bytes;
  forward_connections = p.user.forward_connections;
  forward_buffer_bytes = p.user.forward_buffer_bytes;
  file_handles = p.user.file_handles;
  uploads = p.user.uploads;
  upload_bytes = p.user.upload_bytes;
}

-- `ResourceClaim::terminal`.
unfoldable pub terminal : ℕ → ℕ → ResourcePolicy → Result ConfigError ResourceClaim
unfolding U64.checked_mul
terminal rows columns p = do
  cells ← ok_or (U64.checked_mul rows columns) terminal_cell_count_overflow
  grid_bytes ←
      ok_or (U64.checked_mul cells p.terminal_cell_memory_bytes) terminal_memory_claim_overflow
  ok (record default {
    terminals = 1;
    terminal_memory_bytes = max grid_bytes p.terminal_base_memory_bytes;
    history_bytes = p.terminal_history_bytes;
  })
