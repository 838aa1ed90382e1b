-- ===== src/Streaming/Window.antt =====
-- src/terminal_streaming.rs: `StreamingStateWindow`, the sender's side. An operation that changes the window
-- returns the window that it leaves.
use astra_shell.Prelude.{
  ℕ, String, List, [], ◌∷◌, ◌++◌, Bool, false, not, ◌&&◌, ◌||◌, ◌==◌, ltb, leb, str_eq,
  if◌then◌else◌, Option, none, some, length,
}
use astra_shell.Prelude.Result.{Result, ok, err, panic, ◌>>=◌, ◌>>◌, ensure}
use astra_shell.Prelude.Bytes.{bytes_eq}
use astra_shell.Terminal.State.{State}
use astra_shell.Terminal.Checks.{Libraries, epoch_bytes}
use astra_shell.Datagram.Message.{TerminalViewportDatagram}
use astra_shell.Datagram.Prepare.{ViewportTransfer}
use astra_shell.Streaming.Errors.{
  StreamingError, route_empty, version_unsupported, no_retained, keyframe_in_flight,
  repair_epoch_invalid, repair_base_zero, repair_reversed, repair_epoch_changed, repair_future,
}
use astra_shell.Streaming.Delta.{validate_viewport_state}
use astra_shell.Streaming.Generations.{States, insert, remember_in}

abbrev pub default_retained_generations : ℕ
default_retained_generations = 128

pub data StreamingUpdate : Type 0 where
  reliable_keyframe : State → StreamingUpdate
  datagram_delta : TerminalViewportDatagram → StreamingUpdate
  fragmented_delta : ViewportTransfer → StreamingUpdate

pub record TerminalStateRepairRequest : Type 0 where
  pub epoch : List ℕ
  pub missing_base_generation : ℕ
  pub newest_seen_generation : ℕ

-- `retired_epochs` has the oldest first.
pub record StreamingStateWindow : Type 0 where
  pub terminal_id : String
  pub attachment_id : String
  pub base : State
  pub base_acknowledged : Bool
  pub sent : States
  pub latest_target : Option State
  pub retained_generations : ℕ
  pub retired_epochs : List (List ℕ)
  pub datagram_version : ℕ

abbrev pub Updated : Type 0
Updated = Result StreamingError (Option StreamingUpdate) × StreamingStateWindow

-- `contains` of the epochs.
unfoldable pub has_epoch : List ℕ → List (List ℕ) → Bool
has_epoch epoch [] = false
has_epoch epoch (e ∷ epochs) = bytes_eq e epoch || has_epoch epoch epochs

abbrev pub generation_or : ℕ → Option State → ℕ
generation_or base none = base
generation_or base (some state) = state.generation

unfoldable pub latest_generation : StreamingStateWindow → ℕ
latest_generation w = generation_or w.base.generation w.latest_target

-- A state of the epoch, of this generation or an earlier one.
abbrev pub is_by : List ℕ → ℕ → Option State → Bool
is_by epoch generation none = false
is_by epoch generation (some state) = bytes_eq state.epoch epoch && leb state.generation generation

abbrev pub is_ahead : State → Option State → Bool
is_ahead base none = false
is_ahead base (some state) =
    not (bytes_eq state.epoch base.epoch) || ltb base.generation state.generation

unfoldable pub has_pending_update : StreamingStateWindow → Bool
has_pending_update w = is_ahead w.base w.latest_target

unfoldable pub remember : State → StreamingStateWindow → StreamingStateWindow
remember state w = record w {
  latest_target = some state;
  sent = remember_in w.retained_generations w.base.generation state w.sent;
}

-- `pop_front` of too many epochs.
abbrev pub without_oldest : List (List ℕ) → List (List ℕ)
without_oldest [] = []
without_oldest (e ∷ epochs) = epochs

abbrev pub retired : List (List ℕ) → List ℕ → List (List ℕ)
retired epochs epoch =
    let more : List (List ℕ) = epochs ++ epoch ∷ [] in
    if ltb default_retained_generations (length more) then without_oldest more else more

abbrev pub cleared_target : List ℕ → ℕ → Option State → Option State
cleared_target epoch generation target = if is_by epoch generation target then none else target

module _ (lib : Libraries) where
  abbrev pub keyframe_window : State → StreamingStateWindow → StreamingStateWindow
  keyframe_window state w =
      let epochs : List (List ℕ) =
        if bytes_eq w.base.epoch state.epoch
        then w.retired_epochs
        else retired w.retired_epochs w.base.epoch in
      remember state
        (record w { base = state; base_acknowledged = false; sent = []; retired_epochs = epochs })

  abbrev pub installed : State → StreamingStateWindow → Result StreamingError Unit → Updated
  installed state w (ok u) = (ok (some (reliable_keyframe state)), keyframe_window state w)
  installed state w (err e) = (err e, w)
  installed state w panic = (panic, w)

  unfoldable pub install_keyframe : State → StreamingStateWindow → Updated
  install_keyframe state w =
      installed state w
        (do validate_viewport_state lib state; ensure w.base_acknowledged keyframe_in_flight)

  abbrev pub newest_or_stop : StreamingStateWindow → (State → Updated) → Option State → Updated
  newest_or_stop w next none = (ok none, w)
  newest_or_stop w next (some latest) =
      if bytes_eq latest.epoch w.base.epoch && leb latest.generation w.base.generation
      then (ok none, record w { latest_target = none })
      else next latest

  unfoldable pub rekey_latest : StreamingStateWindow → Updated
  rekey_latest w =
      if not w.base_acknowledged
      then (ok none, w)
      else newest_or_stop w (λ latest. install_keyframe latest w) w.latest_target

  -- The base again, when there is nothing newer.
  abbrev pub or_base : StreamingStateWindow → Updated → Updated
  or_base w (ok (some update), w') = (ok (some update), w')
  or_base w (ok none, w') =
      (ok (some (reliable_keyframe w'.base)), record w' { base_acknowledged = false })
  or_base w (err e, w') = (err e, w')
  or_base w (panic, w') = (panic, w')

  abbrev pub check_repair : TerminalStateRepairRequest → Result StreamingError Unit
  check_repair request = do
    ensure (length request.epoch == epoch_bytes) repair_epoch_invalid
    ensure (ltb 0 request.missing_base_generation) repair_base_zero
    ensure (leb request.missing_base_generation request.newest_seen_generation) repair_reversed

  abbrev pub check_repair_base :
      TerminalStateRepairRequest → StreamingStateWindow → Result StreamingError Unit
  check_repair_base request w = do
    ensure (bytes_eq request.epoch w.base.epoch) repair_epoch_changed
    ensure (leb request.missing_base_generation (latest_generation w)) repair_future

  abbrev pub unless_refused : StreamingStateWindow → Updated → Result StreamingError Unit → Updated
  unless_refused w done (ok u) = done
  unless_refused w done (err e) = (err e, w)
  unless_refused w done panic = (panic, w)

  abbrev pub repaired : StreamingStateWindow → Updated
  repaired w = if not w.base_acknowledged then (ok none, w) else or_base w (rekey_latest w)

  unfoldable pub repair : TerminalStateRepairRequest → StreamingStateWindow → Updated
  repair request w =
      unless_refused w
        (if has_epoch request.epoch w.retired_epochs
          then (ok none, w)
          else unless_refused w (repaired w) (check_repair_base request w))
        (check_repair request)

  abbrev pub first_window : State → String → String → ℕ → StreamingStateWindow
  first_window initial terminal_id attachment_id retained = record {
    terminal_id = terminal_id;
    attachment_id = attachment_id;
    base = initial;
    base_acknowledged = false;
    sent = insert initial.generation initial [];
    latest_target = none;
    retained_generations = retained;
    retired_epochs = [];
    datagram_version = 2;
  }

  -- `retained_generations > 0`, and the first keyframe.
  unfoldable pub with_retained_generations :
      State → String → String → ℕ → Result StreamingError StreamingStateWindow
  with_retained_generations initial terminal_id attachment_id retained = do
    ensure (ltb 0 retained) no_retained
    validate_viewport_state lib initial
    ok (first_window initial terminal_id attachment_id retained)

  unfoldable pub with_route : State → String → String → Result StreamingError StreamingStateWindow
  with_route initial terminal_id attachment_id = do
    ensure (not (str_eq terminal_id "") && not (str_eq attachment_id "")) route_empty
    with_retained_generations initial terminal_id attachment_id default_retained_generations

  unfoldable pub with_route_version :
      State → String → String → ℕ → Result StreamingError StreamingStateWindow
  with_route_version initial terminal_id attachment_id version = do
    ensure (version == 2 || version == 3) version_unsupported
    w ← with_route initial terminal_id attachment_id
    ok (record w { datagram_version = version })
