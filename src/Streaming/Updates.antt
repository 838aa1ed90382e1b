-- ===== src/Streaming/Updates.antt =====
-- src/terminal_streaming.rs: the updates that a `StreamingStateWindow` prepares, and its acknowledgements.
use astra_shell.Prelude.{
  is_some, ℕ, Bool, true, not, ◌&&◌, ◌||◌, ◌==◌, ltb, leb, if◌then◌else◌, Option, none, some,
  length,
}
use astra_shell.Prelude.Result.{Result, ok, err, panic, ◌>>=◌}
use astra_shell.Prelude.Bytes.{bytes_eq}
use astra_shell.Terminal.State.{State}
use astra_shell.Terminal.Checks.{Libraries, epoch_bytes}
use astra_shell.Terminal.Window.{AckDisposition, accepted, duplicate, TerminalStateAck}
use astra_shell.Datagram.Message.{Formats}
use astra_shell.Datagram.Prepare.{ViewportTransfer, prepare}
use astra_shell.Streaming.Errors.{
  StreamingError, of_datagram, ack_epoch_invalid, ack_generation_zero, ack_epoch_changed,
  ack_future, lift,
}
use astra_shell.Streaming.Delta.{validate_viewport_state, compact_viewport_datagram}
use astra_shell.Streaming.Generations.{get, retain_from}
use astra_shell.Streaming.Window.{
  Updated, has_epoch, latest_generation, remember, cleared_target, install_keyframe, newest_or_stop,
  unless_refused, StreamingStateWindow, reliable_keyframe, datagram_delta, fragmented_delta,
  StreamingUpdate,
}

module _ (lib : Libraries) (f : Formats) where
  abbrev pub fragmented_or_keyframe : State → Option ViewportTransfer → StreamingUpdate
  fragmented_or_keyframe latest none = reliable_keyframe latest
  fragmented_or_keyframe latest (some transfer) = fragmented_delta transfer

  unfoldable pub update_from_base :
      State → ℕ → StreamingStateWindow → Result StreamingError StreamingUpdate
  update_from_base latest budget w =
      if not (latest.rows == w.base.rows && latest.cols == w.base.cols)
      then ok (reliable_keyframe latest)
      else (do
        delta ← compact_viewport_datagram w.terminal_id w.attachment_id w.base latest
        let in_fragments = (do
          transfer ← lift of_datagram (prepare f delta budget (lib.state_len latest))
          ok (fragmented_or_keyframe latest transfer))
        let in_one =
            if leb (f.encoded_len delta) budget && ltb (f.encoded_len delta) (lib.state_len latest)
            then ok (datagram_delta delta)
            else ok (reliable_keyframe latest)
        (if w.datagram_version == 3 then in_fragments else in_one))

  -- A delta is remembered; a keyframe is installed.
  abbrev pub prepared_as :
      State → StreamingStateWindow → Result StreamingError StreamingUpdate → Updated
  prepared_as latest w (ok (reliable_keyframe s)) = install_keyframe lib latest w
  prepared_as latest w (ok (datagram_delta d)) = (ok (some (datagram_delta d)), remember latest w)
  prepared_as latest w (ok (fragmented_delta t)) =
      (ok (some (fragmented_delta t)), remember latest w)
  prepared_as latest w (err e) = (err e, w)
  prepared_as latest w panic = (panic, w)

  -- What the two ways to prepare end with.
  abbrev pub send_latest : State → ℕ → StreamingStateWindow → Updated
  send_latest latest budget w =
      if not (bytes_eq latest.epoch w.base.epoch)
      then install_keyframe lib latest w
      else prepared_as latest w (update_from_base latest budget w)

  abbrev pub is_known_state : State → StreamingStateWindow → Bool
  is_known_state latest w =
      bytes_eq latest.epoch w.base.epoch
      && (leb latest.generation w.base.generation
          || ltb latest.generation (latest_generation w)
          || (latest.generation == latest_generation w && is_some (get latest.generation w.sent)))

  abbrev pub prepare_checked : State → ℕ → StreamingStateWindow → Updated
  prepare_checked latest budget w =
      if is_known_state latest w
      then (ok none, w)
      else if not w.base_acknowledged
      then (ok none, record w { latest_target = some latest })
      else send_latest latest budget w

  unfoldable pub prepare_update : State → ℕ → StreamingStateWindow → Updated
  prepare_update latest budget w =
      unless_refused lib w (prepare_checked latest budget w) (validate_viewport_state lib latest)

  abbrev pub retry_newer : ℕ → StreamingStateWindow → State → Updated
  retry_newer budget w latest =
      if not w.base_acknowledged then (ok none, w) else send_latest latest budget w

  unfoldable pub retry_latest : ℕ → StreamingStateWindow → Updated
  retry_latest budget w = newest_or_stop lib w (retry_newer budget w) w.latest_target

abbrev pub Acked : Type 0
Acked = Result StreamingError AckDisposition × StreamingStateWindow

-- An acknowledgement of the base or of an older generation.
abbrev pub ack_of_base : TerminalStateAck → StreamingStateWindow → StreamingStateWindow
ack_of_base ack w = record w {
  base_acknowledged = w.base_acknowledged || ack.generation == w.base.generation;
  latest_target = cleared_target ack.epoch ack.generation w.latest_target;
}

-- An acknowledgement that advances the base, unless its state was evicted.
abbrev pub ack_of_sent : TerminalStateAck → StreamingStateWindow → Option State → Acked
ack_of_sent ack w (some acknowledged) = (
  ok accepted,
  record w {
    base = acknowledged;
    base_acknowledged = true;
    sent = retain_from ack.generation w.sent;
    latest_target = cleared_target ack.epoch ack.generation w.latest_target;
  },
)
ack_of_sent ack w none =
    if leb ack.generation (latest_generation w) then (ok duplicate, w) else (err ack_future, w)

unfoldable pub acknowledge : TerminalStateAck → StreamingStateWindow → Acked
acknowledge ack w =
    if not (length ack.epoch == epoch_bytes)
    then (err ack_epoch_invalid, w)
    else if ack.generation == 0
    then (err ack_generation_zero, w)
    else if has_epoch ack.epoch w.retired_epochs
    then (ok duplicate, w)
    else if bytes_eq ack.epoch w.base.epoch && leb ack.generation w.base.generation
    then (ok duplicate, ack_of_base ack w)
    else if not (bytes_eq ack.epoch w.base.epoch)
    then (err ack_epoch_changed, w)
    else ack_of_sent ack w (get ack.generation w.sent)
