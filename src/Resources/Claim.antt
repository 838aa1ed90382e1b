-- ===== src/Resources/Claim.antt =====
-- src/resources.rs: `ResourceClaim`, its constructors and its checked arithmetic.
use astra_shell.Prelude.{ℕ, String, Option, none, some, List, [], ◌∷◌, str_eq, if◌then◌else◌}
use astra_shell.Prelude.U64

pub record ResourceClaim : Type 0 where
  pub connections : ℕ
  pub streams : ℕ
  pub workers : ℕ
  pub terminals : ℕ
  pub attachments : ℕ
  pub terminal_memory_bytes : ℕ
  pub history_bytes : ℕ
  pub forward_connections : ℕ
  pub forward_buffer_bytes : ℕ
  pub file_handles : ℕ
  pub uploads : ℕ
  pub upload_bytes : ℕ

-- `ResourceClaim::default()`.
abbrev pub default : ResourceClaim
default = record {
  connections = 0;
  streams = 0;
  workers = 0;
  terminals = 0;
  attachments = 0;
  terminal_memory_bytes = 0;
  history_bytes = 0;
  forward_connections = 0;
  forward_buffer_bytes = 0;
  file_handles = 0;
  uploads = 0;
  upload_bytes = 0;
}

abbrev pub connection : ResourceClaim
connection = record default { connections = 1 }

abbrev pub stream : ResourceClaim
stream = record default { streams = 1 }

abbrev pub attachment : ResourceClaim
attachment = record default { attachments = 1 }

abbrev pub file_handle : ResourceClaim
file_handle = record default { file_handles = 1 }

unfoldable pub upload : ℕ → ResourceClaim
upload bytes = record default { uploads = 1; upload_bytes = bytes }

infixl 5 ◌>>=◌
abbrev ◌>>=◌ : {A B : Type 0} → Option A → (A → Option B) → Option B
none >>= f = none
some a >>= f = f a

-- The first dimension that does not fit a `u64` makes the whole sum fail.
unfoldable pub checked_add : ResourceClaim → ResourceClaim → Option ResourceClaim
checked_add a b = do
  connections ← U64.checked_add a.connections b.connections
  streams ← U64.checked_add a.streams b.streams
  workers ← U64.checked_add a.workers b.workers
  terminals ← U64.checked_add a.terminals b.terminals
  attachments ← U64.checked_add a.attachments b.attachments
  terminal_memory_bytes ← U64.checked_add a.terminal_memory_bytes b.terminal_memory_bytes
  history_bytes ← U64.checked_add a.history_bytes b.history_bytes
  forward_connections ← U64.checked_add a.forward_connections b.forward_connections
  forward_buffer_bytes ← U64.checked_add a.forward_buffer_bytes b.forward_buffer_bytes
  file_handles ← U64.checked_add a.file_handles b.file_handles
  uploads ← U64.checked_add a.uploads b.uploads
  upload_bytes ← U64.checked_add a.upload_bytes b.upload_bytes
  some (record {
    connections = connections;
    streams = streams;
    workers = workers;
    terminals = terminals;
    attachments = attachments;
    terminal_memory_bytes = terminal_memory_bytes;
    history_bytes = history_bytes;
    forward_connections = forward_connections;
    forward_buffer_bytes = forward_buffer_bytes;
    file_handles = file_handles;
    uploads = uploads;
    upload_bytes = upload_bytes;
  })

unfoldable pub checked_sub : ResourceClaim → ResourceClaim → Option ResourceClaim
checked_sub a b = do
  connections ← U64.checked_sub a.connections b.connections
  streams ← U64.checked_sub a.streams b.streams
  workers ← U64.checked_sub a.workers b.workers
  terminals ← U64.checked_sub a.terminals b.terminals
  attachments ← U64.checked_sub a.attachments b.attachments
  terminal_memory_bytes ← U64.checked_sub a.terminal_memory_bytes b.terminal_memory_bytes
  history_bytes ← U64.checked_sub a.history_bytes b.history_bytes
  forward_connections ← U64.checked_sub a.forward_connections b.forward_connections
  forward_buffer_bytes ← U64.checked_sub a.forward_buffer_bytes b.forward_buffer_bytes
  file_handles ← U64.checked_sub a.file_handles b.file_handles
  uploads ← U64.checked_sub a.uploads b.uploads
  upload_bytes ← U64.checked_sub a.upload_bytes b.upload_bytes
  some (record {
    connections = connections;
    streams = streams;
    workers = workers;
    terminals = terminals;
    attachments = attachments;
    terminal_memory_bytes = terminal_memory_bytes;
    history_bytes = history_bytes;
    forward_connections = forward_connections;
    forward_buffer_bytes = forward_buffer_bytes;
    file_handles = file_handles;
    uploads = uploads;
    upload_bytes = upload_bytes;
  })

unfoldable pub dimensions : ResourceClaim → List (String × ℕ)
dimensions c =
    ("connections", c.connections)
    ∷ ("streams", c.streams)
    ∷ ("workers", c.workers)
    ∷ ("terminals", c.terminals)
    ∷ ("attachments", c.attachments)
    ∷ ("terminal_memory_bytes", c.terminal_memory_bytes)
    ∷ ("history_bytes", c.history_bytes)
    ∷ ("forward_connections", c.forward_connections)
    ∷ ("forward_buffer_bytes", c.forward_buffer_bytes)
    ∷ ("file_handles", c.file_handles)
    ∷ ("uploads", c.uploads)
    ∷ ("upload_bytes", c.upload_bytes)
    ∷ []

find_map : String → List (String × ℕ) → Option ℕ
find_map name [] = none
find_map name ((candidate, amount) ∷ rest) =
    if str_eq candidate name then some amount else find_map name rest

-- `none` is the panic of `expect` on a name that is no dimension.
unfoldable pub value : ResourceClaim → String → Option ℕ
unfolding find_map dimensions
value c name = find_map name (dimensions c)
