-- ===== src/Streaming/Network.antt =====
-- src/terminal_streaming.rs: a window that sends whole datagrams (version 2), a replica, and the network
-- between them. What was sent stays in the network, so that it may arrive late, again, in another order or
-- never. `shown` are the states that the window was given, which the terminal numbers: no two of one epoch and
-- generation differ.
use astra_shell.Prelude.{◌≡◌, String, ℕ, List, [], ◌∷◌, Among, Option, none, some}
use astra_shell.Prelude.Result.{Result, ok, err, panic}
use astra_shell.Terminal.State.{State}
use astra_shell.Terminal.Checks.{Libraries}
use astra_shell.Terminal.Window.{TerminalStateAck}
use astra_shell.Datagram.Message.{Formats}
use astra_shell.Streaming.Errors.{StreamingError, fragment_unassembled}
use astra_shell.Streaming.Window.{
  StreamingUpdate, reliable_keyframe, datagram_delta, fragmented_delta, TerminalStateRepairRequest,
  StreamingStateWindow, Updated, with_route, rekey_latest, repair,
}
use astra_shell.Streaming.Updates.{prepare_update, retry_latest, acknowledge}
use astra_shell.Streaming.Replica.{
  StreamingReplica, Applying, for_route, apply_keyframe, apply_datagram,
}

pub record Network : Type 0 where
  pub window : StreamingStateWindow
  pub replica : StreamingReplica
  pub shown : List State
  pub packets : List StreamingUpdate

abbrev pub with_packet :
    Result StreamingError (Option StreamingUpdate) → List StreamingUpdate → List StreamingUpdate
with_packet (ok (some update)) packets = update ∷ packets
with_packet (ok none) packets = packets
with_packet (err e) packets = packets
with_packet panic packets = packets

abbrev pub after_update : Updated → Network → Network
after_update (r, w) n = record n { window = w; packets = with_packet r n.packets }

-- The terminal numbers its states.
abbrev pub Numbers : State → List State → Type 0
Numbers latest shown =
    (s : State)
    → Among s shown
    → s.epoch ≡ latest.epoch
    → s.generation ≡ latest.generation
    → s ≡ latest

module _ (lib : Libraries) (f : Formats) where
  -- `StreamingReplica::apply`; a fragment is not of version 2.
  unfoldable pub apply : StreamingUpdate → StreamingReplica → Applying
  apply (reliable_keyframe state) r = apply_keyframe lib state r
  apply (datagram_delta d) r = apply_datagram lib d r
  apply (fragmented_delta t) r = (err fragment_unassembled, r)

  pub data NetworkStep (n : Network) : Network → Type 0 where
    preparing :
        (latest : State) (budget : ℕ)
        → Numbers latest n.shown
        → NetworkStep n (
            after_update
              (prepare_update lib f latest budget n.window)
              (record n { shown = latest ∷ n.shown }))
    retrying : (budget : ℕ) → NetworkStep n (after_update (retry_latest lib f budget n.window) n)
    rekeying : NetworkStep n (after_update (rekey_latest lib n.window) n)
    repairing :
        (request : TerminalStateRepairRequest)
        → NetworkStep n (after_update (repair lib request n.window) n)
    acknowledging :
        (ack : TerminalStateAck)
        → NetworkStep n (record n { window = (acknowledge ack n.window).1 })
    receiving :
        (update : StreamingUpdate)
        → Among update n.packets
        → NetworkStep n (record n { replica = (apply update n.replica).1 })

  -- The histories of an attachment, from its first keyframe on.
  pub data Streams (initial : State) (terminal_id attachment_id : String) : Network → Type 0 where
    opened :
        (w : StreamingStateWindow) (r : StreamingReplica)
        → with_route lib initial terminal_id attachment_id ≡ ok w
        → for_route terminal_id attachment_id ≡ ok r
        → Streams initial terminal_id attachment_id (record {
          window = w;
          replica = r;
          shown = initial ∷ [];
          packets = reliable_keyframe initial ∷ [];
        })
    stepped :
        {n m : Network}
        → Streams initial terminal_id attachment_id n
        → NetworkStep n m
        → Streams initial terminal_id attachment_id m
