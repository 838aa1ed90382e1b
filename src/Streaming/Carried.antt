-- ===== src/Streaming/Carried.antt =====
-- src/terminal_streaming.rs: what the steps of a window, a replica and the network between them keep.
use astra_shell.Prelude.{
  String, ◌≡◌, inl, inr, sym, subst, ap, ◌∙◌, List, ◌∷◌, Among, Option, none, some,
}
use astra_shell.Prelude.Result.{Result, ok, err, panic}
use astra_shell.Terminal.State.{State}
use astra_shell.Terminal.Checks.{Libraries}
use astra_shell.Streaming.Errors.{StreamingError}
use astra_shell.Streaming.RoundTrip.{IsViewport}
use astra_shell.Streaming.Window.{
  StreamingUpdate, reliable_keyframe, datagram_delta, fragmented_delta, StreamingStateWindow,
  Updated,
}
use astra_shell.Streaming.Replica.{StreamingReplica}
use astra_shell.Streaming.Network.{Network, after_update, with_packet, Numbers}
use astra_shell.Streaming.Kept.{AllKept-weaken, IfSome-weaken}
use astra_shell.Streaming.Sent.{IsSent, SentBy, IsWindow, Good}
use astra_shell.Streaming.Received.{IsReplica}

pub with_packet-Among :
    (u : StreamingUpdate) (r : Result StreamingError (Option StreamingUpdate))
    (packets : List StreamingUpdate)
    → Among u packets
    → Among u (with_packet r packets)
with_packet-Among u (ok none) packets a = a
with_packet-Among u (ok (some update)) packets a = inr a
with_packet-Among u (err e) packets a = a
with_packet-Among u panic packets a = a

-- A state that the window was given, and that can be shown.
abbrev pub WasShown : Libraries → List State → State → Type 0
WasShown lib shown s = Among s shown × IsViewport lib s

module _ (lib : Libraries) (terminal_id attachment_id : String) where
  abbrev pub AllSent : List State → List StreamingUpdate → Type 0
  AllSent shown packets =
      (u : StreamingUpdate)
      → Among u packets
      → IsSent terminal_id attachment_id (WasShown lib shown) u

  pub record IsNetwork (n : Network) : Type 0 where
    pub window : IsWindow terminal_id attachment_id (WasShown lib n.shown) n.window
    pub replica : IsReplica terminal_id attachment_id (WasShown lib n.shown) n.replica
    pub packets : AllSent n.shown n.packets
    pub numbered :
        (s t : State)
        → Among s n.shown
        → Among t n.shown
        → s.epoch ≡ t.epoch
        → s.generation ≡ t.generation
        → s ≡ t

  -- More states are shown, and what was sent of the fewer is sent of the more.
  module _ (shown : List State) (latest : State) where
    abbrev more : (s : State) → WasShown lib shown s → WasShown lib (latest ∷ shown) s
    more s (among, valid) = (inr among, valid)

    more_IsSent :
        (u : StreamingUpdate)
        → IsSent terminal_id attachment_id (WasShown lib shown) u
        → IsSent terminal_id attachment_id (WasShown lib (latest ∷ shown)) u
    more_IsSent (reliable_keyframe s) k = more s k
    more_IsSent (datagram_delta d) k = record {
      base = k.base;
      target = k.target;
      kept_base = more k.base k.kept_base;
      kept_target = more k.target k.kept_target;
      rows = k.rows;
      cols = k.cols;
      made = k.made;
    }
    more_IsSent (fragmented_delta t) k = k

    more_IsWindow :
        (w : StreamingStateWindow)
        → IsWindow terminal_id attachment_id (WasShown lib shown) w
        → IsWindow terminal_id attachment_id (WasShown lib (latest ∷ shown)) w
    more_IsWindow w inv = record {
      its_terminal = inv.its_terminal;
      its_attachment = inv.its_attachment;
      version = inv.version;
      kept_base = more w.base inv.kept_base;
      kept_sent = AllKept-weaken _ _ more w.sent inv.kept_sent;
      kept_latest = IfSome-weaken _ _ more w.latest_target inv.kept_latest;
    }

    more_IsReplica :
        (r : StreamingReplica)
        → IsReplica terminal_id attachment_id (WasShown lib shown) r
        → IsReplica terminal_id attachment_id (WasShown lib (latest ∷ shown)) r
    more_IsReplica r inv = record {
      its_terminal = inv.its_terminal;
      its_attachment = inv.its_attachment;
      kept_current = IfSome-weaken _ _ more r.current inv.kept_current;
      kept_retained = AllKept-weaken _ _ more r.retained inv.kept_retained;
    }

  pub more_IsNetwork :
      (latest : State) (n : Network)
      → Numbers latest n.shown
      → IsNetwork n
      → IsNetwork (record n { shown = latest ∷ n.shown })
  more_IsNetwork latest n numbers inv = record {
    window = more_IsWindow n.shown latest n.window inv.window;
    replica = more_IsReplica n.shown latest n.replica inv.replica;
    packets = λ u a. more_IsSent n.shown latest u (inv.packets u a);
    numbered = λ s t a b e g. elim a [
      | inl s_latest ↦ elim b [
        | inl t_latest ↦ s_latest ∙ sym t_latest
        | inr b' ↦
            s_latest
            ∙ sym (
                numbers t b' (sym e ∙ ap State.epoch s_latest)
                  (sym g ∙ ap State.generation s_latest))
      ]
      | inr a' ↦ elim b [
        | inl t_latest ↦
            numbers s a' (e ∙ ap State.epoch t_latest) (g ∙ ap State.generation t_latest)
            ∙ sym t_latest
        | inr b' ↦ inv.numbered s t a' b' e g
      ]
    ];
  }

  with_packet-AllSent :
      (shown : List State) (packets : List StreamingUpdate)
      (r : Result StreamingError (Option StreamingUpdate))
      → SentBy terminal_id attachment_id (WasShown lib shown) r
      → AllSent shown packets
      → AllSent shown (with_packet r packets)
  with_packet-AllSent shown packets (ok none) sent all = all
  with_packet-AllSent shown packets (ok (some update)) sent all = λ u a. elim a [
    | inl same ↦ subst (IsSent terminal_id attachment_id (WasShown lib shown)) (sym same) sent
    | inr before ↦ all u before
  ]
  with_packet-AllSent shown packets (err e) sent all = all
  with_packet-AllSent shown packets panic sent all = all

  pub after_update-IsNetwork :
      (u : Updated) (n : Network)
      → Good terminal_id attachment_id (WasShown lib n.shown) u
      → IsNetwork n
      → IsNetwork (after_update u n)
  after_update-IsNetwork (r, w) n (sent, kept) inv = record {
    window = kept;
    replica = inv.replica;
    packets = with_packet-AllSent n.shown n.packets r sent inv.packets;
    numbered = inv.numbered;
  }
