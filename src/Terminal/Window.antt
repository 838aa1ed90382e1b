-- ===== src/Terminal/Window.antt =====
-- src/terminal_sync.rs: the window of reliable synchronisation of one attachment. The encoded length of
-- a difference (prost) is the parameter `diff_len`.
use astra_shell.Prelude.{
  ℕ, List, Bool, true, false, not, ◌&&◌, ltb, leb, ◌==◌, if◌then◌else◌, Option, none, some, length,
}
use astra_shell.Prelude.Result.{Result, ok, err, panic, ◌>>◌, ensure}
use astra_shell.Terminal.State.{State}
use astra_shell.Terminal.Checks.{Libraries, epoch_bytes}
use astra_shell.Terminal.Diff.{
  TerminalStateDiff, SyncError, already_in_flight, ack_pending, ack_epoch_invalid,
  ack_generation_zero, ack_unmatched, ack_differs, terminal_state_diff,
}
use astra_shell.Prelude.Bytes.{bytes_eq}

pub data AckDisposition : Type 0 where
  accepted duplicate : AckDisposition

pub data PreparedStateUpdate : Type 0 where
  snapshot : State → PreparedStateUpdate
  diff : TerminalStateDiff → PreparedStateUpdate

pub record TerminalStateAck : Type 0 where
  pub epoch : List ℕ
  pub generation : ℕ

pub record StateSyncWindow : Type 0 where
  pub acknowledged : Option State
  pub in_flight : Option State
  pub dirty : Bool

-- `StateSyncWindow::default()`.
abbrev pub default : StateSyncWindow
default = record { acknowledged = none; in_flight = none; dirty = false }

abbrev pub is_none : Option State → Bool
is_none none = true
is_none (some state) = false

unfoldable pub begin_initial : State → StateSyncWindow → Result SyncError StateSyncWindow
begin_initial state w = do
  ensure (is_none w.in_flight) already_in_flight
  ok (record w { in_flight = some state })

unfoldable pub mark_dirty : StateSyncWindow → StateSyncWindow
mark_dirty w = record w { dirty = true }

unfoldable pub needs_update : StateSyncWindow → Bool
needs_update w = w.dirty && is_none w.in_flight

-- The acknowledged state is of this epoch and at least of this generation.
abbrev pub covers : Option State → List ℕ → ℕ → Bool
covers none epoch generation = false
covers (some base) epoch generation = bytes_eq base.epoch epoch && leb generation base.generation

module _ (lib : Libraries) (diff_len : TerminalStateDiff → ℕ) where
  -- `filter(|diff| diff.encoded_len() < latest.encoded_len())`.
  abbrev pub smaller_of :
      State → Result SyncError TerminalStateDiff → Result SyncError PreparedStateUpdate
  smaller_of latest (ok d) =
      if ltb (diff_len d) (lib.state_len latest) then ok (diff d) else ok (snapshot latest)
  smaller_of latest (err e) = err e
  smaller_of latest panic = panic

  -- `filter(|base| ..)` and `map(|base| terminal_state_diff(base, &latest))`.
  abbrev pub diff_or_snapshot : Option State → State → Result SyncError PreparedStateUpdate
  diff_or_snapshot none latest = ok (snapshot latest)
  diff_or_snapshot (some base) latest =
      if bytes_eq base.epoch latest.epoch && ltb base.generation latest.generation
      then smaller_of latest (terminal_state_diff lib base latest)
      else ok (snapshot latest)

  abbrev pub chosen_update : Option State → State → Bool → Result SyncError PreparedStateUpdate
  chosen_update acknowledged latest true = diff_or_snapshot acknowledged latest
  chosen_update acknowledged latest false = ok (snapshot latest)

  abbrev pub put_in_flight :
      StateSyncWindow
      → State
      → Result SyncError PreparedStateUpdate
      → Result SyncError (Option PreparedStateUpdate) × StateSyncWindow
  put_in_flight w latest (ok update) = (ok (some update), record w { in_flight = some latest })
  put_in_flight w latest (err e) = (err e, w)
  put_in_flight w latest panic = (panic, w)

  -- The window is returned on every path: its flag is cleared before anything can fail.
  unfoldable pub prepare_update :
      State
      → Bool
      → StateSyncWindow
      → Result SyncError (Option PreparedStateUpdate) × StateSyncWindow
  prepare_update latest allow_diff w =
      let w' : StateSyncWindow = record w { dirty = false } in
      if not (is_none w.in_flight)
      then (err ack_pending, w)
      else if covers w.acknowledged latest.epoch latest.generation
      then (ok none, w')
      else put_in_flight w' latest (chosen_update w.acknowledged latest allow_diff)

abbrev pub take_in_flight :
    StateSyncWindow
    → TerminalStateAck
    → Option State
    → Result SyncError AckDisposition × StateSyncWindow
take_in_flight w ack none = (err ack_unmatched, w)
take_in_flight w ack (some sent) =
    if bytes_eq sent.epoch ack.epoch && sent.generation == ack.generation
    then (ok accepted, record w { acknowledged = some sent; in_flight = none })
    else (err ack_differs, w)

unfoldable pub acknowledge :
    TerminalStateAck → StateSyncWindow → Result SyncError AckDisposition × StateSyncWindow
acknowledge ack w =
    if not (length ack.epoch == epoch_bytes)
    then (err ack_epoch_invalid, w)
    else if ack.generation == 0
    then (err ack_generation_zero, w)
    else if covers w.acknowledged ack.epoch ack.generation
    then (ok duplicate, w)
    else take_in_flight w ack w.in_flight
