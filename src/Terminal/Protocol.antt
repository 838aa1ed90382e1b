-- ===== src/Terminal/Protocol.antt =====
-- src/terminal_sync.rs: the window on one side, and on the other a receiver that validates snapshots (as
-- `TerminalStateAssembler` in src/terminal_streaming.rs does) and applies differences by
-- `apply_terminal_state_diff`. The stream between them is reliable: it holds the last update sent.
use astra_shell.Prelude.{ℕ, ◌≡◌, Bool, Option, none, some}
use astra_shell.Prelude.Result.{Result, ok, ◌>>=◌, ◌>>◌, ok_or}
use astra_shell.Terminal.State.{State}
use astra_shell.Terminal.Checks.{Libraries}
use astra_shell.Terminal.Screens.{validate}
use astra_shell.Terminal.Diff.{
  TerminalStateDiff, SyncError, base_invalid, target_invalid, context, apply_terminal_state_diff,
}
use astra_shell.Terminal.Window.{
  StateSyncWindow, PreparedStateUpdate, snapshot, diff, TerminalStateAck, AckDisposition, default,
  begin_initial, mark_dirty, prepare_update, acknowledge,
}

pub record System : Type 0 where
  pub window : StateSyncWindow
  pub transit : Option PreparedStateUpdate
  pub client : Option State

abbrev pub ack_of : State → TerminalStateAck
ack_of c = record { epoch = c.epoch; generation = c.generation }

module _ (lib : Libraries) (diff_len : TerminalStateDiff → ℕ) where
  unfoldable pub receive : PreparedStateUpdate → Option State → Result SyncError State
  receive (snapshot s) client = do context target_invalid (validate lib s); ok s
  receive (diff d) client = do
    base ← ok_or client base_invalid
    apply_terminal_state_diff lib base d

  -- The steps: output arrives, the server prepares an update (and may find none is due), the client
  -- receives what is in transit, and the client acknowledges the state that it has.
  pub data Step (s : System) : System → Type 0 where
    dirtied : Step s (record s { window = mark_dirty s.window })
    updated :
        (latest : State) (allow_diff : Bool) (update : PreparedStateUpdate) (w : StateSyncWindow)
        → validate lib latest ≡ ok tt
        → prepare_update lib diff_len latest allow_diff s.window ≡ (ok (some update), w)
        → Step s (record s { window = w; transit = some update })
    skipped :
        (latest : State) (allow_diff : Bool) (w : StateSyncWindow)
        → prepare_update lib diff_len latest allow_diff s.window ≡ (ok none, w)
        → Step s (record s { window = w })
    delivered :
        (update : PreparedStateUpdate) (c : State)
        → s.transit ≡ some update
        → receive update s.client ≡ ok c
        → Step s (record s { transit = none; client = some c })
    acked :
        (c : State) (d : AckDisposition) (w : StateSyncWindow)
        → s.client ≡ some c
        → acknowledge (ack_of c) s.window ≡ (ok d, w)
        → Step s (record s { window = w })

  -- The histories of an attachment, from the state that it begins with.
  pub data Reach (initial : State) : System → Type 0 where
    begins :
        (w : StateSyncWindow)
        → begin_initial initial default ≡ ok w
        → Reach initial (record { window = w; transit = some (snapshot initial); client = none })
    next : {s t : System} → Reach initial s → Step s t → Reach initial t
