-- ===== src/Streaming/Delivered.antt =====
-- src/terminal_streaming.rs: every history of a window, a replica and the network between them.
use astra_shell.Prelude.{
  String, ◌≡◌, inl, inr, refl, sym, subst, ◌∙◌, [], ◌∷◌, Among, not, str_eq, ◌&&◌,
}
use astra_shell.Prelude.Result.{ok, chain_parts, ensure}
use astra_shell.Terminal.State.{State}
use astra_shell.Terminal.Checks.{Libraries}
use astra_shell.Datagram.Message.{Formats}
use astra_shell.Streaming.Errors.{route_empty}
use astra_shell.Streaming.Delta.{validate_viewport_state}
use astra_shell.Streaming.RoundTrip.{IsViewport}
use astra_shell.Streaming.Window.{
  StreamingUpdate, StreamingStateWindow, with_route, with_retained_generations,
}
use astra_shell.Streaming.Replica.{StreamingReplica, for_route, first_replica}
use astra_shell.Streaming.Network.{
  Network, apply, NetworkStep, preparing, retrying, rekeying, repairing, acknowledging, receiving,
  Streams, opened, stepped,
}
use astra_shell.Streaming.Kept.{IfSome}
use astra_shell.Streaming.Prepares.{prepare_update-Good, retry_latest-Good, acknowledge-IsWindow}
use astra_shell.Streaming.Sent.{IsSent, rekey_latest-Good, repair-Good, with_route-IsWindow}
use astra_shell.Streaming.Received.{IsReplica, Received, apply-Takes}
use astra_shell.Streaming.Carried.{WasShown, IsNetwork, more_IsNetwork, after_update-IsNetwork}

module _ (lib : Libraries) (terminal_id attachment_id : String) where
  module _ (f : Formats) where
    received :
        (n : Network) (u : StreamingUpdate)
        → IsNetwork lib terminal_id attachment_id n
        → Among u n.packets
        → Received terminal_id attachment_id n.replica u (apply lib f u n.replica)
          × IsReplica terminal_id attachment_id (WasShown lib n.shown) (apply lib f u n.replica).1
    received n u inv a =
        apply-Takes terminal_id attachment_id (WasShown lib n.shown) lib (λ s k. k.1) f
          (λ s t j k e g. inv.numbered s t j.0 k.0 e g) u n.replica (inv.packets u a) inv.replica

    NetworkStep-IsNetwork :
        (n m : Network)
        → IsNetwork lib terminal_id attachment_id n
        → NetworkStep lib f n m
        → IsNetwork lib terminal_id attachment_id m
    NetworkStep-IsNetwork n m inv (preparing latest budget numbers) =
        let wider = more_IsNetwork lib terminal_id attachment_id latest n numbers inv in
        after_update-IsNetwork lib terminal_id attachment_id _ _
          (prepare_update-Good terminal_id attachment_id (WasShown lib (latest ∷ n.shown)) lib f
            latest budget n.window (λ valid. (inl refl, valid)) wider.window)
          wider
    NetworkStep-IsNetwork n m inv (retrying budget) =
        after_update-IsNetwork lib terminal_id attachment_id _ n
          (retry_latest-Good terminal_id attachment_id (WasShown lib n.shown) lib f budget n.window
            inv.window)
          inv
    NetworkStep-IsNetwork n m inv rekeying =
        after_update-IsNetwork lib terminal_id attachment_id _ n
          (rekey_latest-Good terminal_id attachment_id (WasShown lib n.shown) lib n.window
            inv.window)
          inv
    NetworkStep-IsNetwork n m inv (repairing request) =
        after_update-IsNetwork lib terminal_id attachment_id _ n
          (repair-Good terminal_id attachment_id (WasShown lib n.shown) lib request n.window
            inv.window)
          inv
    NetworkStep-IsNetwork n m inv (acknowledging ack) = record {
      window =
          acknowledge-IsWindow terminal_id attachment_id (WasShown lib n.shown) ack n.window
            inv.window;
      replica = inv.replica;
      packets = inv.packets;
      numbered = inv.numbered;
    }
    NetworkStep-IsNetwork n m inv (receiving u a) = record {
      window = inv.window;
      replica = (received n u inv a).1;
      packets = inv.packets;
      numbered = inv.numbered;
    }

    module _ (initial : State) where
      first_valid :
          (w : StreamingStateWindow)
          → with_route lib initial terminal_id attachment_id ≡ ok w
          → IsViewport lib initial
      unfolding with_route with_retained_generations
      first_valid w h =
          let (u, named, h1) =
            chain_parts
              (ensure (not (str_eq terminal_id "") && not (str_eq attachment_id "")) route_empty) _
              h in
          let (v, valid, h2) = chain_parts (validate_viewport_state lib initial) _ h1 in valid

      first_IsReplica :
          (K : State → Type 0) (r : StreamingReplica)
          → for_route terminal_id attachment_id ≡ ok r
          → IsReplica terminal_id attachment_id K r
      unfolding for_route
      first_IsReplica K r h =
          let (u, named, h1) =
            chain_parts
              (ensure (not (str_eq terminal_id "") && not (str_eq attachment_id "")) route_empty) _
              h in
          let first_r : first_replica terminal_id attachment_id ≡ r = cc in
          subst (IsReplica terminal_id attachment_id K) first_r (record {
            its_terminal = refl;
            its_attachment = refl;
            kept_current = tt;
            kept_retained = tt;
          })

      Streams-IsNetwork :
          (n : Network)
          → Streams lib f initial terminal_id attachment_id n
          → IsNetwork lib terminal_id attachment_id n
      Streams-IsNetwork n (opened w r h k) =
          let shown : WasShown lib (initial ∷ []) initial = (inl refl, first_valid w h) in
          record {
            window =
                with_route-IsWindow terminal_id attachment_id (WasShown lib (initial ∷ [])) lib
                  initial w shown h;
            replica = first_IsReplica (WasShown lib (initial ∷ [])) r k;
            packets = λ u a. elim a [
              | inl same ↦
                  subst (IsSent terminal_id attachment_id (WasShown lib (initial ∷ []))) (sym same)
                    shown
              | inr none_ ↦ absurd none_
            ];
            numbered = λ s t a b e g. elim a [
              | inr none_ ↦ absurd none_
              | inl s_first ↦ elim b [
                | inr none_ ↦ absurd none_
                | inl t_first ↦ s_first ∙ sym t_first
              ]
            ];
          }
      Streams-IsNetwork n (stepped {n = o} before step) =
          NetworkStep-IsNetwork o n (Streams-IsNetwork o before) step

      -- In every such history the replica shows nothing yet, or a state that the window was given and that is
      -- valid.
      pub Streams-current :
          (n : Network)
          → Streams lib f initial terminal_id attachment_id n
          → IfSome (WasShown lib n.shown) n.replica.current
      Streams-current n history = (Streams-IsNetwork n history).replica.kept_current
