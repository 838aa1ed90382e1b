-- ===== src/Writer/Queue.antt =====
-- src/queued_writer.rs: `QueuedWriter` and its drain as interleaved steps. `poll_write` is two steps, since the
-- drain runs between its reservation and its `try_send`. The channel, the counter and the bytes at the
-- writer are the shared state; `held` is what `poll_write` has reserved and not sent yet, `accepted` all
-- bytes for which it has returned `Ok`.
use Prim.Native.Nat.{◌+◌, ◌-◌, ◌*◌, ◌%◌, ◌^◌}
use astra_shell.Prelude.{
  ℕ, List, [], ◌∷◌, ◌++◌, Bool, true, false, not, ◌&&◌, leb, ltb, if◌then◌else◌, Option, none, some,
  length,
}
use astra_shell.Prelude.U64

abbrev pub max_queued_bytes : ℕ
max_queued_bytes = 20 * 1024 * 1024

abbrev pub channel_capacity : ℕ
channel_capacity = 1024

pub record Queue : Type 0 where
  pub queued : ℕ
  pub held : Option (List ℕ)
  pub sent : List (List ℕ)
  pub writing : Option (List ℕ)
  pub has_sender : Bool
  pub is_draining : Bool
  pub written : List ℕ
  pub accepted : List ℕ

abbrev pub new_queue : Queue
new_queue = record {
  queued = 0;
  held = none;
  sent = [];
  writing = none;
  has_sender = true;
  is_draining = true;
  written = [];
  accepted = [];
}

-- `AtomicUsize::fetch_sub` wraps around.
abbrev pub fetch_sub : ℕ → ℕ → ℕ
fetch_sub queued n = (queued + (2 ^ 64 - n)) % 2 ^ 64

-- `checked_add(..).filter(..)`.
abbrev pub within_budget : Option ℕ → Option ℕ
within_budget none = none
within_budget (some next) = if leb next max_queued_bytes then some next else none

abbrev pub reserved_as : Queue → List ℕ → Option ℕ → Queue
reserved_as q bytes none = q
reserved_as q bytes (some next) = record q { queued = next; held = some bytes }

abbrev pub reserve_from : List ℕ → Queue → Option (List ℕ) → Queue
reserve_from bytes q (some _) = q
reserve_from bytes q none =
    reserved_as q bytes (within_budget (U64.checked_add q.queued (length bytes)))

abbrev pub reserve_if : Bool → List ℕ → Queue → Queue
reserve_if true bytes q = reserve_from bytes q q.held
reserve_if false bytes q = q

-- `poll_write` up to its reservation; after the shutdown, without bytes and over the budget it returns at
-- once.
unfoldable pub reserve_bytes : List ℕ → Queue → Queue
reserve_bytes bytes q = reserve_if (q.has_sender && ltb 0 (length bytes)) bytes q

abbrev pub handed : Queue → List ℕ → Bool → Queue
handed q bytes true = record q {
  held = none;
  sent = q.sent ++ bytes ∷ [];
  accepted = q.accepted ++ bytes;
}
handed q bytes false = record q { held = none; queued = fetch_sub q.queued (length bytes) }

abbrev pub hand_from : Queue → Option (List ℕ) → Queue
hand_from q none = q
hand_from q (some bytes) = handed q bytes (q.is_draining && ltb (length q.sent) channel_capacity)

-- `poll_write` from its `try_send` on, which fails if the channel is full or the drain has ended.
unfoldable pub hand_over : Queue → Queue
hand_over q = hand_from q q.held

abbrev pub receive_from : Queue → Option (List ℕ) → List (List ℕ) → Queue
receive_from q (some bytes) sent = q
receive_from q none [] = q
receive_from q none (bytes ∷ rest) = record q { sent = rest; writing = some bytes }

-- `receiver.recv()`.
unfoldable pub receive_next : Queue → Queue
receive_next q = receive_from q q.writing q.sent

abbrev pub finish_from : Queue → Option (List ℕ) → Queue
finish_from q none = q
finish_from q (some bytes) = record q {
  writing = none;
  written = q.written ++ bytes;
  queued = fetch_sub q.queued (length bytes);
}

-- The end of `write_all`, and the subtraction behind it.
unfoldable pub finish_write : Queue → Queue
finish_write q = finish_from q q.writing

-- An error of `write_all` ends the drain, and drops what was not written.
unfoldable pub fail_write : Queue → Queue
fail_write q = record q { writing = none; sent = []; is_draining = false }

-- `poll_shutdown`.
unfoldable pub poll_shutdown : Queue → Queue
poll_shutdown q = record q { has_sender = false }

abbrev pub is_idle : Option (List ℕ) → List (List ℕ) → Bool
is_idle none [] = true
is_idle none (bytes ∷ rest) = false
is_idle (some bytes) sent = false

abbrev pub ended_if : Bool → Queue → Queue
ended_if true q = record q { is_draining = false }
ended_if false q = q

-- `recv` gives nothing once the sender is gone and the channel is empty.
unfoldable pub end_drain : Queue → Queue
end_drain q = ended_if (not q.has_sender && is_idle q.writing q.sent) q

pub data QueueStep : Queue → Queue → Type 0 where
  reserving : (bytes : List ℕ) (q : Queue) → QueueStep q (reserve_bytes bytes q)
  handing : (q : Queue) → QueueStep q (hand_over q)
  receiving : (q : Queue) → QueueStep q (receive_next q)
  finishing : (q : Queue) → QueueStep q (finish_write q)
  failing : (q : Queue) → QueueStep q (fail_write q)
  shutting : (q : Queue) → QueueStep q (poll_shutdown q)
  ending : (q : Queue) → QueueStep q (end_drain q)

pub data Queues : Queue → Type 0 where
  at_start : Queues new_queue
  and_then : {q r : Queue} → Queues q → QueueStep q r → Queues r
