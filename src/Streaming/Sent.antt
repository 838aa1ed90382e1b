-- ===== src/Streaming/Sent.antt =====
-- src/terminal_streaming.rs: what a window of version 2 sends, and what its operations keep.
use astra_shell.Prelude.{
  ℕ, String, ◌≡◌, refl, subst, List, [], Bool, true, false, not, ◌&&◌, Option, none, some,
  if◌then◌else◌, str_eq,
}
use astra_shell.Prelude.Result.{Result, ok, err, panic, chain_parts, ensure}
use astra_shell.Terminal.State.{State}
use astra_shell.Terminal.Checks.{Libraries}
use astra_shell.Datagram.Message.{TerminalViewportDatagram}
use astra_shell.Streaming.Errors.{StreamingError, route_empty}
use astra_shell.Streaming.Delta.{validate_viewport_state, compact_viewport_datagram}
use astra_shell.Streaming.Generations.{insert}
use astra_shell.Streaming.Window.{
  StreamingUpdate, reliable_keyframe, datagram_delta, fragmented_delta, TerminalStateRepairRequest,
  StreamingStateWindow, Updated, remember, installed, install_keyframe, newest_or_stop,
  rekey_latest, or_base, check_repair, check_repair_base, with_route, with_retained_generations,
  first_window, default_retained_generations, repair, unless_refused, has_epoch,
}
use astra_shell.Streaming.Kept.{IfSome, AllKept, remember_in-AllKept}

module _ (terminal_id attachment_id : String) (K : State → Type 0) where
  -- A difference of two states that satisfy `K`, with this route.
  pub record IsDelta (d : TerminalViewportDatagram) : Type 0 where
    pub base : State
    pub target : State
    pub kept_base : K base
    pub kept_target : K target
    pub rows : target.rows ≡ base.rows
    pub cols : target.cols ≡ base.cols
    pub made : compact_viewport_datagram terminal_id attachment_id base target ≡ ok d

  abbrev pub IsSent : StreamingUpdate → Type 0
  IsSent (reliable_keyframe s) = K s
  IsSent (datagram_delta d) = IsDelta d
  IsSent (fragmented_delta t) = ⊥

  pub record IsWindow (w : StreamingStateWindow) : Type 0 where
    pub its_terminal : w.terminal_id ≡ terminal_id
    pub its_attachment : w.attachment_id ≡ attachment_id
    pub version : w.datagram_version ≡ 2
    pub kept_base : K w.base
    pub kept_sent : AllKept K w.sent
    pub kept_latest : IfSome K w.latest_target

  abbrev pub SentBy : Result StreamingError (Option StreamingUpdate) → Type 0
  SentBy (ok none) = Unit {0}
  SentBy (ok (some update)) = IsSent update
  SentBy (err e) = Unit {0}
  SentBy panic = Unit {0}

  abbrev pub MadeBy : Result StreamingError StreamingUpdate → Type 0
  MadeBy (ok update) = IsSent update
  MadeBy (err e) = Unit {0}
  MadeBy panic = Unit {0}

  -- What an operation leaves: a window again, and an update that is sent.
  abbrev pub Good : Updated → Type 0
  Good (r, w) = SentBy r × IsWindow w

  pub remember-IsWindow :
      (s : State) (w : StreamingStateWindow) → K s → IsWindow w → IsWindow (remember s w)
  unfolding remember
  remember-IsWindow s w k inv = record {
    its_terminal = inv.its_terminal;
    its_attachment = inv.its_attachment;
    version = inv.version;
    kept_base = inv.kept_base;
    kept_sent =
        remember_in-AllKept K w.retained_generations w.base.generation s w.sent k inv.kept_sent;
    kept_latest = k;
  }

  based_IsWindow :
      (s : State) (w : StreamingStateWindow) (epochs : List (List ℕ))
      → K s
      → IsWindow w
      → IsWindow
          (record w { base = s; base_acknowledged = false; sent = []; retired_epochs = epochs })
  based_IsWindow s w epochs k inv = record {
    its_terminal = inv.its_terminal;
    its_attachment = inv.its_attachment;
    version = inv.version;
    kept_base = k;
    kept_sent = tt;
    kept_latest = inv.kept_latest;
  }

  pub flagged_IsWindow :
      (w : StreamingStateWindow) (acknowledged : Bool)
      → IsWindow w
      → IsWindow (record w { base_acknowledged = acknowledged })
  flagged_IsWindow w acknowledged inv = record {
    its_terminal = inv.its_terminal;
    its_attachment = inv.its_attachment;
    version = inv.version;
    kept_base = inv.kept_base;
    kept_sent = inv.kept_sent;
    kept_latest = inv.kept_latest;
  }

  pub targeted_IsWindow :
      (w : StreamingStateWindow) (latest : Option State)
      → IfSome K latest
      → IsWindow w
      → IsWindow (record w { latest_target = latest })
  targeted_IsWindow w latest k inv = record {
    its_terminal = inv.its_terminal;
    its_attachment = inv.its_attachment;
    version = inv.version;
    kept_base = inv.kept_base;
    kept_sent = inv.kept_sent;
    kept_latest = k;
  }

  pub if_Good : (b : Bool) (u v : Updated) → Good u → Good v → Good (if b then u else v)
  if_Good true u v good other = good
  if_Good false u v good other = other

  module _ (lib : Libraries) where
    installed-Good :
        (s : State) (w : StreamingStateWindow) (r : Result StreamingError Unit)
        → K s
        → IsWindow w
        → Good (installed lib s w r)
    installed-Good s w (ok u) k inv = (k, remember-IsWindow s _ k (based_IsWindow s w _ k inv))
    installed-Good s w (err e) k inv = (tt, inv)
    installed-Good s w panic k inv = (tt, inv)

    pub install_keyframe-Good :
        (s : State) (w : StreamingStateWindow) → K s → IsWindow w → Good (install_keyframe lib s w)
    unfolding install_keyframe
    install_keyframe-Good s w k inv = installed-Good s w _ k inv

    pub newest_or_stop-Good :
        (w : StreamingStateWindow) (next : State → Updated) (latest : Option State)
        → ((s : State) → K s → Good (next s))
        → IfSome K latest
        → IsWindow w
        → Good (newest_or_stop lib w next latest)
    newest_or_stop-Good w next none good k inv = (tt, inv)
    newest_or_stop-Good w next (some s) good k inv =
        if_Good _ _ (next s) (tt, targeted_IsWindow w none tt inv) (good s k)

    pub rekey_latest-Good : (w : StreamingStateWindow) → IsWindow w → Good (rekey_latest lib w)
    unfolding rekey_latest
    rekey_latest-Good w inv =
        if_Good _ (ok none, w) _ (tt, inv)
          (newest_or_stop-Good w (λ s. install_keyframe lib s w) w.latest_target
            (λ s k. install_keyframe-Good s w k inv) inv.kept_latest inv)

    or_base-Good : (w : StreamingStateWindow) (u : Updated) → Good u → Good (or_base lib w u)
    or_base-Good w (ok (some update), w') (sent, inv) = (sent, inv)
    or_base-Good w (ok none, w') (sent, inv) = (inv.kept_base, flagged_IsWindow w' false inv)
    or_base-Good w (err e, w') (sent, inv) = (tt, inv)
    or_base-Good w (panic, w') (sent, inv) = (tt, inv)

    unless_refused-Good :
        (w : StreamingStateWindow) (done : Updated) (r : Result StreamingError Unit)
        → Good done
        → IsWindow w
        → Good (unless_refused lib w done r)
    unless_refused-Good w done (ok u) good inv = good
    unless_refused-Good w done (err e) good inv = (tt, inv)
    unless_refused-Good w done panic good inv = (tt, inv)

    pub repair-Good :
        (request : TerminalStateRepairRequest) (w : StreamingStateWindow)
        → IsWindow w
        → Good (repair lib request w)
    unfolding repair
    repair-Good request w inv =
        let again = or_base-Good w (rekey_latest lib w) (rekey_latest-Good w inv) in
        let fixed = if_Good (not w.base_acknowledged) (ok none, w) _ (tt, inv) again in
        let checked = unless_refused-Good w _ (check_repair_base lib request w) fixed inv in
        unless_refused-Good w _ (check_repair lib request)
          (if_Good (has_epoch request.epoch w.retired_epochs) (ok none, w) _ (tt, inv) checked) inv

    pub with_route-IsWindow :
        (initial : State) (w : StreamingStateWindow)
        → K initial
        → with_route lib initial terminal_id attachment_id ≡ ok w
        → IsWindow w
    unfolding with_route with_retained_generations insert
    with_route-IsWindow initial w k h =
        let (u, named, h1) =
          chain_parts
            (ensure (not (str_eq terminal_id "") && not (str_eq attachment_id "")) route_empty) _
            h in
        let (v, valid, h2) = chain_parts (validate_viewport_state lib initial) _ h1 in
        let first : StreamingStateWindow =
          first_window lib initial terminal_id attachment_id default_retained_generations in
        let first_w : first ≡ w = cc in
        subst IsWindow first_w (record {
          its_terminal = refl;
          its_attachment = refl;
          version = refl;
          kept_base = k;
          kept_sent = ((refl, k), tt);
          kept_latest = tt;
        })
