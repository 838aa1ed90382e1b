-- ===== src/Resources/ClaimLaws.antt =====
-- Claims as vectors of unbounded numbers, and what the checked operations compute.
use astra_shell.Prelude.{◌+◌, ◌-◌, ◌≤◌, ◌≡◌, some, arith}
use astra_shell.Prelude.U64
use astra_shell.Resources.Claim.{ResourceClaim, default, checked_add, checked_sub}

-- The sum of two claims, with no bound.
unfoldable pub add : ResourceClaim → ResourceClaim → ResourceClaim
add a b = record {
  connections = a.connections + b.connections;
  streams = a.streams + b.streams;
  workers = a.workers + b.workers;
  terminals = a.terminals + b.terminals;
  attachments = a.attachments + b.attachments;
  terminal_memory_bytes = a.terminal_memory_bytes + b.terminal_memory_bytes;
  history_bytes = a.history_bytes + b.history_bytes;
  forward_connections = a.forward_connections + b.forward_connections;
  forward_buffer_bytes = a.forward_buffer_bytes + b.forward_buffer_bytes;
  file_handles = a.file_handles + b.file_handles;
  uploads = a.uploads + b.uploads;
  upload_bytes = a.upload_bytes + b.upload_bytes;
}

-- Each dimension of the first claim is within that of the second.
pub record FitsIn (a b : ResourceClaim) : Type 0 where
  pub connections : a.connections ≤ b.connections
  pub streams : a.streams ≤ b.streams
  pub workers : a.workers ≤ b.workers
  pub terminals : a.terminals ≤ b.terminals
  pub attachments : a.attachments ≤ b.attachments
  pub terminal_memory_bytes : a.terminal_memory_bytes ≤ b.terminal_memory_bytes
  pub history_bytes : a.history_bytes ≤ b.history_bytes
  pub forward_connections : a.forward_connections ≤ b.forward_connections
  pub forward_buffer_bytes : a.forward_buffer_bytes ≤ b.forward_buffer_bytes
  pub file_handles : a.file_handles ≤ b.file_handles
  pub uploads : a.uploads ≤ b.uploads
  pub upload_bytes : a.upload_bytes ≤ b.upload_bytes

-- Each dimension is at most the largest `u64`.
abbrev pub greatest : ResourceClaim
greatest = record {
  connections = U64.modulus - 1;
  streams = U64.modulus - 1;
  workers = U64.modulus - 1;
  terminals = U64.modulus - 1;
  attachments = U64.modulus - 1;
  terminal_memory_bytes = U64.modulus - 1;
  history_bytes = U64.modulus - 1;
  forward_connections = U64.modulus - 1;
  forward_buffer_bytes = U64.modulus - 1;
  file_handles = U64.modulus - 1;
  uploads = U64.modulus - 1;
  upload_bytes = U64.modulus - 1;
}

pub add_comm : (a b : ResourceClaim) → add a b ≡ add b a
unfolding add
add_comm a b = ground arith

pub add_assoc : (a b c : ResourceClaim) → add (add a b) c ≡ add a (add b c)
unfolding add
add_assoc a b c = ground arith

pub add_left_comm : (a b c : ResourceClaim) → add a (add b c) ≡ add b (add a c)
unfolding add
add_left_comm a b c = ground arith

pub default-add : (a : ResourceClaim) → add default a ≡ a
unfolding add
default-add a = ground arith

pub add-default : (a : ResourceClaim) → add a default ≡ a
unfolding add
add-default a = ground arith

pub FitsIn-trans : {a b c : ResourceClaim} → FitsIn a b → FitsIn b c → FitsIn a c
FitsIn-trans h k = omega arith

pub FitsIn-add : (a b : ResourceClaim) → FitsIn b (add a b)
unfolding add
FitsIn-add a b = omega arith

-- A sum that succeeds is the sum.
pub checked_add-eq-add :
    (a b : ResourceClaim) {c : ResourceClaim} → checked_add a b ≡ some c → c ≡ add a b
unfolding checked_add U64.checked_add add
checked_add-eq-add a b h = ground arith

pub checked_add-fits :
    (a b : ResourceClaim) → FitsIn (add a b) greatest → checked_add a b ≡ some (add a b)
unfolding checked_add U64.checked_add add
checked_add-fits a b h = ground arith

pub checked_add-FitsIn :
    (a b : ResourceClaim) {c : ResourceClaim} → checked_add a b ≡ some c → FitsIn (add a b) greatest
unfolding checked_add U64.checked_add add
checked_add-FitsIn a b h = ground arith

-- Taking back what was added gives what was there.
pub checked_sub-add : (a b : ResourceClaim) → checked_sub (add a b) b ≡ some a
unfolding checked_sub add
checked_sub-add a b = simp U64.checked_sub-add
