-- ===== src/Streaming/Prepares.antt =====
-- src/terminal_streaming.rs: what the updates and acknowledgements of a window of version 2 send and keep.
use astra_shell.Prelude.{
  ℕ, String, ◌≡◌, refl, subst, List, Bool, true, false, ◌==◌, ◌&&◌, ◌||◌, Option, none, some, arith,
  Bool-cases, Option-cases, inl, inr, if◌then◌else◌,
}
use astra_shell.Prelude.Result.{Result, ok, err, panic, Result-cases}
use astra_shell.Terminal.State.{State}
use astra_shell.Terminal.Checks.{Libraries}
use astra_shell.Terminal.Window.{TerminalStateAck, duplicate}
use astra_shell.Datagram.Message.{Formats}
use astra_shell.Streaming.Errors.{
  StreamingError, ack_epoch_invalid, ack_generation_zero, ack_epoch_changed, ack_future,
}
use astra_shell.Streaming.Delta.{validate_viewport_state, compact_viewport_datagram}
use astra_shell.Streaming.RoundTrip.{IsViewport}
use astra_shell.Streaming.Generations.{get}
use astra_shell.Streaming.Window.{
  StreamingUpdate, reliable_keyframe, datagram_delta, fragmented_delta, StreamingStateWindow, is_by,
  cleared_target, install_keyframe,
}
use astra_shell.Streaming.Updates.{
  retry_newer, update_from_base, prepared_as, send_latest, prepare_update, retry_latest,
  ack_of_base, ack_of_sent, Acked, acknowledge,
}
use astra_shell.Streaming.Kept.{IfSome, get-AllKept, retain_from-AllKept}
use astra_shell.Streaming.Sent.{
  IsDelta, MadeBy, IsWindow, Good, if_Good, targeted_IsWindow, flagged_IsWindow, remember-IsWindow,
  install_keyframe-Good, newest_or_stop-Good,
}

module _ (terminal_id attachment_id : String) (K : State → Type 0) where
  module _ (lib : Libraries) (f : Formats) where
    if_MadeBy :
        (b : Bool) (r t : Result StreamingError StreamingUpdate)
        → MadeBy terminal_id attachment_id K r
        → MadeBy terminal_id attachment_id K t
        → MadeBy terminal_id attachment_id K (if b then r else t)
    if_MadeBy true r t made other = made
    if_MadeBy false r t made other = other

    update_from_base-MadeBy :
        (latest : State) (budget : ℕ) (w : StreamingStateWindow)
        → K latest
        → IsWindow terminal_id attachment_id K w
        → MadeBy terminal_id attachment_id K (update_from_base lib f latest budget w)
    unfolding update_from_base
    update_from_base-MadeBy latest budget w k inv =
        elim (Bool-cases (latest.rows == w.base.rows && latest.cols == w.base.cols)) [
          | inr resized ↦ rw resized k
          | inl same ↦
              elim (Result-cases
                (compact_viewport_datagram w.terminal_id w.attachment_id w.base latest)) [
                  | inr (inl (e, refused)) ↦ rw (same, refused) tt
                  | inr (inr broken) ↦ rw (same, broken) tt
                  | inl (d, made) ↦
                      let whole : (w.datagram_version == 3) ≡ false = rw inv.version refl in
                      let delta : IsDelta terminal_id attachment_id K d = record {
                        base = w.base;
                        target = latest;
                        kept_base = inv.kept_base;
                        kept_target = k;
                        rows = ground arith;
                        cols = ground arith;
                        made =
                            subst
                              (λ t. compact_viewport_datagram t attachment_id w.base latest ≡ ok d)
                              inv.its_terminal
                              (subst
                                (λ a.
                                  compact_viewport_datagram w.terminal_id a w.base latest ≡ ok d)
                                inv.its_attachment made);
                      } in
                      rw (same, made, whole)
                        (if_MadeBy _ (ok (datagram_delta d)) (ok (reliable_keyframe latest)) delta
                          k)
                ]
        ]

    prepared_as-Good :
        (latest : State) (w : StreamingStateWindow) (r : Result StreamingError StreamingUpdate)
        → MadeBy terminal_id attachment_id K r
        → K latest
        → IsWindow terminal_id attachment_id K w
        → Good terminal_id attachment_id K (prepared_as lib f latest w r)
    prepared_as-Good latest w (ok (reliable_keyframe s)) sent k inv =
        install_keyframe-Good terminal_id attachment_id K lib latest w k inv
    prepared_as-Good latest w (ok (datagram_delta d)) sent k inv =
        (sent, remember-IsWindow terminal_id attachment_id K latest w k inv)
    prepared_as-Good latest w (ok (fragmented_delta t)) sent k inv =
        (sent, remember-IsWindow terminal_id attachment_id K latest w k inv)
    prepared_as-Good latest w (err e) sent k inv = (tt, inv)
    prepared_as-Good latest w panic sent k inv = (tt, inv)

    send_latest-Good :
        (latest : State) (budget : ℕ) (w : StreamingStateWindow)
        → K latest
        → IsWindow terminal_id attachment_id K w
        → Good terminal_id attachment_id K (send_latest lib f latest budget w)
    send_latest-Good latest budget w k inv =
        if_Good terminal_id attachment_id K _ (install_keyframe lib latest w) _
          (install_keyframe-Good terminal_id attachment_id K lib latest w k inv)
          (prepared_as-Good latest w (update_from_base lib f latest budget w)
            (update_from_base-MadeBy latest budget w k inv) k inv)

    pub prepare_update-Good :
        (latest : State) (budget : ℕ) (w : StreamingStateWindow)
        → (IsViewport lib latest → K latest)
        → IsWindow terminal_id attachment_id K w
        → Good terminal_id attachment_id K (prepare_update lib f latest budget w)
    unfolding prepare_update
    prepare_update-Good latest budget w k inv =
        elim (Result-cases (validate_viewport_state lib latest)) [
          | inl (u, valid) ↦ rw valid (
              if_Good terminal_id attachment_id K _ (ok none, w) _ (tt, inv)
                (if_Good terminal_id attachment_id K _
                  (ok none, record w { latest_target = some latest }) _
                  (tt, targeted_IsWindow terminal_id attachment_id K w (some latest) (k valid) inv)
                  (send_latest-Good latest budget w (k valid) inv)))
          | inr (inl (e, refused)) ↦ rw refused (tt, inv)
          | inr (inr broken) ↦ rw broken (tt, inv)
        ]

    pub retry_latest-Good :
        (budget : ℕ) (w : StreamingStateWindow)
        → IsWindow terminal_id attachment_id K w
        → Good terminal_id attachment_id K (retry_latest lib f budget w)
    unfolding retry_latest
    retry_latest-Good budget w inv =
        newest_or_stop-Good terminal_id attachment_id K lib w (retry_newer lib f budget w)
          w.latest_target
          (λ s k.
            if_Good terminal_id attachment_id K _ (ok none, w) _ (tt, inv)
              (send_latest-Good s budget w k inv))
          inv.kept_latest inv

  cleared_target-IfSome :
      (epoch : List ℕ) (generation : ℕ) (target : Option State)
      → IfSome K target
      → IfSome K (cleared_target epoch generation target)
  cleared_target-IfSome epoch generation target k =
      elim (Bool-cases (is_by epoch generation target)) [
        | inl by ↦ rw by tt
        | inr after ↦ rw after k
      ]

  if_IsWindow :
      (b : Bool) (u v : Acked)
      → IsWindow terminal_id attachment_id K u.1
      → IsWindow terminal_id attachment_id K v.1
      → IsWindow terminal_id attachment_id K (if b then u else v).1
  if_IsWindow true u v one other = one
  if_IsWindow false u v one other = other

  of_sent :
      (ack : TerminalStateAck) (w : StreamingStateWindow)
      → IsWindow terminal_id attachment_id K w
      → IfSome K (cleared_target ack.epoch ack.generation w.latest_target)
      → IsWindow terminal_id attachment_id K (ack_of_sent ack w (get ack.generation w.sent)).1
  of_sent ack w inv cleared = elim (Option-cases (get ack.generation w.sent)) [
    | inl missing ↦ rw missing (if_IsWindow _ (ok duplicate, w) (err ack_future, w) inv inv)
    | inr (s, found) ↦
        let (numbered, k) = get-AllKept K ack.generation w.sent s inv.kept_sent found in
        rw found (record {
          its_terminal = inv.its_terminal;
          its_attachment = inv.its_attachment;
          version = inv.version;
          kept_base = k;
          kept_sent = retain_from-AllKept K ack.generation w.sent inv.kept_sent;
          kept_latest = cleared;
        })
  ]

  pub acknowledge-IsWindow :
      (ack : TerminalStateAck) (w : StreamingStateWindow)
      → IsWindow terminal_id attachment_id K w
      → IsWindow terminal_id attachment_id K (acknowledge ack w).1
  unfolding acknowledge
  acknowledge-IsWindow ack w inv =
      let cleared =
        cleared_target-IfSome ack.epoch ack.generation w.latest_target inv.kept_latest in
      let of_base : IsWindow terminal_id attachment_id K (ack_of_base ack w) =
        targeted_IsWindow terminal_id attachment_id K
          (record w {
            base_acknowledged = w.base_acknowledged || ack.generation == w.base.generation;
          })
          _ cleared (flagged_IsWindow terminal_id attachment_id K w _ inv) in
      if_IsWindow _ (err ack_epoch_invalid, w) _ inv
        (if_IsWindow _ (err ack_generation_zero, w) _ inv
          (if_IsWindow _ (ok duplicate, w) _ inv
            (if_IsWindow _ (ok duplicate, ack_of_base ack w) _ of_base
              (if_IsWindow _ (err ack_epoch_changed, w) _ inv (of_sent ack w inv cleared)))))
