-- ===== src/Streaming/Tests.antt =====
-- The theorems at two states of two rows.
use astra_shell.Prelude.{◌≡◌, ◌≢◌, ◌≤◌, refl, [], ◌∷◌, some, inl, inr, arith, length}
use astra_shell.Prelude.Result.{ok}
use astra_shell.Terminal.State.{State}
use astra_shell.Terminal.Window.{TerminalStateAck}
use astra_shell.Terminal.Tests.{plain, before, after, before_valid, after_valid}
use astra_shell.Datagram.Message.{TerminalViewportDatagram}
use astra_shell.Datagram.Tests.{formats}
use astra_shell.Streaming.Delta.{
  validate_viewport_state, compact_viewport_datagram, apply_compact_viewport_delta,
}
use astra_shell.Streaming.RoundTrip.{
  IsViewport, compact_viewport_datagram-apply_compact_viewport_delta,
}
use astra_shell.Streaming.Window.{
  StreamingUpdate, reliable_keyframe, StreamingStateWindow, first_window, with_route,
  with_retained_generations, remember,
}
use astra_shell.Streaming.Updates.{prepare_update, acknowledge}
use astra_shell.Streaming.Replica.{StreamingReplica, first_replica, for_route, moved_to}
use astra_shell.Streaming.Network.{
  Network, after_update, apply, preparing, receiving, acknowledging, Streams, opened, stepped,
}
use astra_shell.Streaming.Kept.{IfSome}
use astra_shell.Streaming.Received.{Received}
use astra_shell.Streaming.Carried.{WasShown}
use astra_shell.Streaming.Delivered.{Streams-current}
use astra_shell.Streaming.Limits.{length-remember}
use astra_shell.Streaming.Forward.{IsForward, apply-IsForward}

before-IsViewport : IsViewport plain before
unfolding validate_viewport_state
before-IsViewport = rw before_valid refl

after-IsViewport : IsViewport plain after
unfolding validate_viewport_state
after-IsViewport = rw after_valid refl

delta_example :
    (d : TerminalViewportDatagram) × (compact_viewport_datagram "t" "a" before after ≡ ok d)
    × (apply_compact_viewport_delta plain before d ≡ ok after)
delta_example =
    compact_viewport_datagram-apply_compact_viewport_delta plain before after before-IsViewport
      after-IsViewport refl (omega arith) refl refl "t" "a" (λ e. cc) (λ e. cc)

abbrev sender : StreamingStateWindow
sender = first_window plain before "t" "a" 128

abbrev client : StreamingReplica
client = first_replica "t" "a"

sender_made : with_route plain before "t" "a" ≡ ok sender
unfolding with_route with_retained_generations
sender_made = rw before-IsViewport refl

client_made : for_route "t" "a" ≡ ok client
unfolding for_route
client_made = refl

abbrev keyframe : StreamingUpdate
keyframe = reliable_keyframe before

-- The keyframe is received and acknowledged, and the next state is prepared.
abbrev begun : Network
begun = record { window = sender; replica = client; shown = before ∷ []; packets = keyframe ∷ [] }

abbrev delivered : Network
delivered = record begun { replica = (apply plain formats keyframe client).1 }

abbrev first_ack : TerminalStateAck
first_ack = record { epoch = before.epoch; generation = 1 }

abbrev confirmed : Network
confirmed = record delivered { window = (acknowledge first_ack sender).1 }

abbrev prepared : Network
prepared =
    after_update (prepare_update plain formats after 1000 confirmed.window)
      (record confirmed { shown = after ∷ before ∷ [] })

history : Streams plain formats before "t" "a" prepared
history =
    stepped
      (stepped
        (stepped (opened sender client sender_made client_made) (receiving keyframe (inl refl)))
        (acknowledging first_ack))
      (preparing after 1000 (λ s a e g. elim a [
        | inl same ↦ absurd (generations_differ s same g)
        | inr none_ ↦ absurd none_
      ]))
  where
    generations_differ : (s : State) → s ≡ before → s.generation ≢ after.generation
    generations_differ s same g = cc

current_example : IfSome (WasShown plain prepared.shown) prepared.replica.current
current_example = Streams-current plain "t" "a" formats before prepared history

retains_example : length (remember after sender).sent ≤ 128
retains_example = length-remember after sender (omega arith)

-- A replica that shows the later state receives the earlier one.
abbrev showing : StreamingReplica
showing = moved_to after 2 [] client

forward_example : IsForward (some after) (apply plain formats keyframe showing).1.current
forward_example = apply-IsForward plain formats keyframe showing
