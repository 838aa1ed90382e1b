-- ===== src/Resources/Limits.antt =====
-- src/resources.rs: `ResourceLimits`, its defaults and its validation.
use text.Mathlib.Text.{starts_with}
use astra_shell.Prelude.{ℕ, ◌*◌, String, List, [], ◌∷◌, ltb, ◌||◌}
use astra_shell.Prelude.Result.{Result, ok, ◌>>◌, ensure}
use astra_shell.Resources.Claim.{ResourceClaim, dimensions}

abbrev pub mib : ℕ
mib = 1024 * 1024

abbrev pub gib : ℕ
gib = 1024 * mib

abbrev pub default_terminal_history_rows : ℕ
default_terminal_history_rows = 10_000

abbrev pub max_terminal_history_rows : ℕ
max_terminal_history_rows = 1_000_000

abbrev pub max_terminal_history_bytes : ℕ
max_terminal_history_bytes = gib

-- The messages of the errors of `validate`, `account` and `terminal`.
pub data ConfigError : Type 0 where
  limit_must_be_nonzero : String → String → ConfigError
  user_workers_not_one : ConfigError
  terminal_capacity_zero : ConfigError
  history_rows_exceed_hard_limit : ConfigError
  history_bytes_exceed_hard_limit : ConfigError
  user_memory_below_base : ConfigError
  user_history_below_terminal : ConfigError
  global_limit_below_user : String → ConfigError
  account_user_empty : ConfigError
  terminal_cell_count_overflow : ConfigError
  terminal_memory_claim_overflow : ConfigError

pub record ResourceLimits : Type 0 where
  pub connections : ℕ
  pub streams : ℕ
  pub workers : ℕ
  pub terminals : ℕ
  pub attachments : ℕ
  pub terminal_memory_bytes : ℕ
  pub history_bytes : ℕ
  pub forward_connections : ℕ
  pub forward_buffer_bytes : ℕ
  pub file_handles : ℕ
  pub uploads : ℕ
  pub upload_bytes : ℕ

abbrev pub global_defaults : ResourceLimits
global_defaults = record {
  connections = 1_024;
  streams = 8_192;
  workers = 64;
  terminals = 4_096;
  attachments = 16_384;
  terminal_memory_bytes = 16 * gib;
  history_bytes = 32 * gib;
  forward_connections = 256;
  forward_buffer_bytes = 64 * mib;
  file_handles = 16_384;
  uploads = 1_024;
  upload_bytes = 512 * gib;
}

abbrev pub user_defaults : ResourceLimits
user_defaults = record {
  connections = 8;
  streams = 256;
  workers = 1;
  terminals = 64;
  attachments = 256;
  terminal_memory_bytes = 256 * mib;
  history_bytes = 512 * mib;
  forward_connections = 32;
  forward_buffer_bytes = 8 * mib;
  file_handles = 256;
  uploads = 16;
  upload_bytes = 8 * gib;
}

abbrev pub as_claim : ResourceLimits → ResourceClaim
as_claim l = record {
  connections = l.connections;
  streams = l.streams;
  workers = l.workers;
  terminals = l.terminals;
  attachments = l.attachments;
  terminal_memory_bytes = l.terminal_memory_bytes;
  history_bytes = l.history_bytes;
  forward_connections = l.forward_connections;
  forward_buffer_bytes = l.forward_buffer_bytes;
  file_handles = l.file_handles;
  uploads = l.uploads;
  upload_bytes = l.upload_bytes;
}

unfoldable pub validate_dimensions : String → List (String × ℕ) → Result ConfigError Unit
validate_dimensions scope [] = ok tt
validate_dimensions scope ((resource, limit) ∷ rest) = do
  ensure (ltb 0 limit || starts_with resource "forward_") (limit_must_be_nonzero scope resource)
  validate_dimensions scope rest

unfoldable pub validate : ResourceLimits → String → Result ConfigError Unit
unfolding dimensions validate_dimensions
validate l scope = validate_dimensions scope (dimensions (as_claim l))
