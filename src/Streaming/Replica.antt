-- ===== src/Streaming/Replica.antt =====
-- src/terminal_streaming.rs: `StreamingReplica`, the client's side.
use Prim.Native.Nat.{max}
use astra_shell.Prelude.{
  is_some, ℕ, zero, suc, String, List, [], ◌∷◌, Bool, false, not, ◌&&◌, ◌==◌, ltb, leb, str_eq,
  if◌then◌else◌, Option, none, some, length,
}
use astra_shell.Prelude.Result.{Result, ok, err, panic, ◌>>=◌, ◌>>◌, ensure, ok_or}
use astra_shell.Prelude.Bytes.{bytes_eq}
use astra_shell.Terminal.State.{State}
use astra_shell.Terminal.Checks.{Libraries}
use astra_shell.Terminal.Diff.{TerminalStateDiff}
use astra_shell.Terminal.Window.{TerminalStateAck}
use astra_shell.Datagram.Message.{TerminalViewportDatagram}
use astra_shell.Streaming.Errors.{
  StreamingError, route_empty, no_diff, wrong_attachment, fragment_unassembled,
}
use astra_shell.Streaming.Delta.{validate_viewport_state, apply_compact_viewport_delta}
use astra_shell.Streaming.Generations.{States, get, insert}
use astra_shell.Streaming.Window.{default_retained_generations, TerminalStateRepairRequest}

pub data ApplyDisposition : Type 0 where
  applied stale missing_base : ApplyDisposition

pub record StreamingReplica : Type 0 where
  pub terminal_id : String
  pub attachment_id : String
  pub current : Option State
  pub retained : States
  pub pinned_base_generation : Option ℕ
  pub retained_generations : ℕ

abbrev pub first_replica : String → String → StreamingReplica
first_replica terminal_id attachment_id = record {
  terminal_id = terminal_id;
  attachment_id = attachment_id;
  current = none;
  retained = [];
  pinned_base_generation = none;
  retained_generations = default_retained_generations;
}

unfoldable pub for_route : String → String → Result StreamingError StreamingReplica
for_route terminal_id attachment_id = do
  ensure (not (str_eq terminal_id "") && not (str_eq attachment_id "")) route_empty
  ok (first_replica terminal_id attachment_id)

abbrev pub ack_of_current : Option State → Option TerminalStateAck
ack_of_current none = none
ack_of_current (some state) = some (record { epoch = state.epoch; generation = state.generation })

unfoldable pub state_ack : StreamingReplica → Option TerminalStateAck
state_ack r = ack_of_current r.current

abbrev pub is_pinned : ℕ → Option ℕ → Bool
is_pinned generation none = false
is_pinned generation (some pinned) = generation == pinned

abbrev pub behind : ℕ × State → Option States → Option States
behind entry none = none
behind entry (some states) = some (entry ∷ states)

-- The entries without the oldest one that is not pinned, if there is one.
unfoldable pub without_removable : Option ℕ → States → Option States
without_removable pinned [] = none
without_removable pinned ((k, s) ∷ states) =
    let rest = without_removable pinned states in
    if is_pinned k pinned then behind (k, s) rest else some states

abbrev pub removed_or : States → (States → States) → Option States → States
removed_or states next none = states
removed_or states next (some fewer) = next fewer

-- `while retained.len() > limit`, with as many rounds as there are entries.
unfoldable pub trim_retained : ℕ → ℕ → Option ℕ → States → States
trim_retained zero limit pinned states = states
trim_retained (suc fuel) limit pinned states =
    let next : States → States = λ fewer. trim_retained fuel limit pinned fewer in
    if ltb limit (length states)
    then removed_or states next (without_removable pinned states)
    else states

unfoldable pub remember_retained : State → Option ℕ → ℕ → States → States
remember_retained state pinned limit states =
    let more : States = insert state.generation state states in
    trim_retained (length more) limit pinned more

abbrev pub Applying : Type 0
Applying = Result StreamingError ApplyDisposition × StreamingReplica

-- `current` is of the epoch and at least of this generation, or of another epoch.
abbrev pub has_by : List ℕ → ℕ → Option State → Bool
has_by epoch generation none = false
has_by epoch generation (some current) =
    bytes_eq current.epoch epoch && leb generation current.generation

abbrev pub differs_in_epoch : List ℕ → Option State → Bool
differs_in_epoch epoch none = false
differs_in_epoch epoch (some current) = not (bytes_eq current.epoch epoch)

abbrev pub newest_of : List ℕ → ℕ → Option State → ℕ
newest_of epoch generation none = generation
newest_of epoch generation (some current) =
    if bytes_eq current.epoch epoch then max current.generation generation else generation

unfoldable pub repair_request :
    TerminalViewportDatagram → StreamingReplica → Result StreamingError TerminalStateRepairRequest
repair_request datagram r = do
  ensure
      (str_eq datagram.terminal_id r.terminal_id && str_eq datagram.attachment_id r.attachment_id)
      wrong_attachment
  diff ← ok_or datagram.diff no_diff
  ok (record {
    epoch = diff.epoch;
    missing_base_generation = diff.base_generation;
    newest_seen_generation = newest_of diff.epoch diff.target_generation r.current;
  })

-- The replica with a new current state, and the generation of the pinned base.
abbrev pub moved_to : State → ℕ → States → StreamingReplica → StreamingReplica
moved_to state pinned retained r = record r {
  current = some state;
  retained = remember_retained state (some pinned) r.retained_generations retained;
  pinned_base_generation = some pinned;
}

module _ (lib : Libraries) where
  abbrev pub keyframe_checked : State → StreamingReplica → Result StreamingError Unit → Applying
  keyframe_checked state r (err e) = (err e, r)
  keyframe_checked state r panic = (panic, r)
  keyframe_checked state r (ok u) =
      if has_by state.epoch state.generation r.current
      then (ok stale, r)
      else (let kept : States = if differs_in_epoch state.epoch r.current then [] else r.retained in
          (ok applied, moved_to state state.generation kept r))

  unfoldable pub apply_keyframe : State → StreamingReplica → Applying
  apply_keyframe state r = keyframe_checked state r (validate_viewport_state lib state)

  abbrev pub target_applied :
      TerminalStateDiff → StreamingReplica → Result StreamingError State → Applying
  target_applied diff r (ok target) =
      (ok applied, moved_to target diff.base_generation r.retained r)
  target_applied diff r (err e) = (err e, r)
  target_applied diff r panic = (panic, r)

  abbrev pub apply_to_base :
      TerminalViewportDatagram → TerminalStateDiff → StreamingReplica → Option State → Applying
  apply_to_base delta diff r none = (ok missing_base, r)
  apply_to_base delta diff r (some base) =
      if not (bytes_eq base.epoch diff.epoch)
      then (ok missing_base, r)
      else target_applied diff r (do
        target ← apply_compact_viewport_delta lib base delta
        validate_viewport_state lib target
        ok target)

  abbrev pub diff_checked :
      TerminalViewportDatagram
      → StreamingReplica
      → Result StreamingError TerminalStateDiff
      → Applying
  diff_checked delta r (err e) = (err e, r)
  diff_checked delta r panic = (panic, r)
  diff_checked delta r (ok diff) =
      if differs_in_epoch diff.epoch r.current
      then (ok stale, r)
      else if has_by diff.epoch diff.target_generation r.current
      then (ok stale, r)
      else apply_to_base delta diff r (get diff.base_generation r.retained)

  unfoldable pub apply_datagram : TerminalViewportDatagram → StreamingReplica → Applying
  apply_datagram delta r = diff_checked delta r (do
    ensure (not (is_some delta.fragment)) fragment_unassembled
    ensure (str_eq delta.terminal_id r.terminal_id && str_eq delta.attachment_id r.attachment_id)
        wrong_attachment
    ok_or delta.diff no_diff)
