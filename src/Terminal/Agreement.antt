-- ===== src/Terminal/Agreement.antt =====
-- src/terminal_sync.rs: the window against the receiver, in one update and in one step.
use astra_shell.Prelude.{
  ℕ, ◌≡◌, refl, Bool, true, false, Option, none, some, arith, ltb, inl, inr, Bool-cases, ◌&&◌,
}
use astra_shell.Prelude.Result.{Result, ok}
use astra_shell.Terminal.State.{State}
use astra_shell.Terminal.Checks.{Libraries}
use astra_shell.Terminal.Screens.{validate}
use astra_shell.Terminal.Diff.{TerminalStateDiff, SyncError, terminal_state_diff}
use astra_shell.Terminal.RoundTrip.{terminal_state_diff-apply_terminal_state_diff}
use astra_shell.Terminal.Window.{
  StateSyncWindow, PreparedStateUpdate, snapshot, diff, covers, smaller_of, chosen_update,
  prepare_update,
}
use astra_shell.Terminal.Protocol.{receive}
use astra_shell.Prelude.Bytes.{bytes_eq, bytes_eq→eq}

abbrev pub window : Option State → Option State → Bool → StateSyncWindow
window acknowledged in_flight dirty = record {
  acknowledged = acknowledged;
  in_flight = in_flight;
  dirty = dirty;
}

module _ (lib : Libraries) where
  abbrev pub IsValid : State → Type 0
  IsValid s = validate lib s ≡ ok tt

  -- The acknowledged state, if there is one, is valid.
  abbrev pub AllValid : Option State → Type 0
  AllValid none = Unit {0}
  AllValid (some s) = IsValid s

module _ (lib : Libraries) (diff_len : TerminalStateDiff → ℕ) where
  -- An update is chosen, and a receiver with the acknowledged state makes of it the latest state.
  abbrev Delivers : Option State → State → Result SyncError PreparedStateUpdate → Type 0
  Delivers acknowledged latest r =
      (update : PreparedStateUpdate) × (r ≡ ok update)
      × (receive lib diff_len update acknowledged ≡ ok latest)

  snapshot-Delivers :
      (acknowledged : Option State) (latest : State)
      → IsValid lib latest
      → Delivers acknowledged latest (ok (snapshot latest))
  unfolding receive
  snapshot-Delivers acknowledged latest l = (snapshot latest, refl, rw l refl)

  diff-Delivers :
      (b latest : State)
      → IsValid lib b
      → IsValid lib latest
      → (bytes_eq b.epoch latest.epoch && ltb b.generation latest.generation) ≡ true
      → Delivers (some b) latest (smaller_of lib diff_len latest (terminal_state_diff lib b latest))
  unfolding receive
  diff-Delivers b latest v l newer =
      let epochs : bytes_eq b.epoch latest.epoch ≡ true = ground arith in
      let (d, made, applied) =
        terminal_state_diff-apply_terminal_state_diff lib b latest v l
          (bytes_eq→eq b.epoch latest.epoch epochs) (ground arith) in
      elim (Bool-cases (ltb (diff_len d) (lib.state_len latest))) [
        | inl smaller ↦ (diff d, simp (made, smaller), applied)
        | inr larger ↦ (snapshot latest, simp (made, larger), rw l refl)
      ]

  chosen_update-Delivers :
      (acknowledged : Option State) (latest : State) (allow_diff : Bool)
      → AllValid lib acknowledged
      → IsValid lib latest
      → Delivers acknowledged latest (chosen_update lib diff_len acknowledged latest allow_diff)
  chosen_update-Delivers acknowledged latest false a l = snapshot-Delivers acknowledged latest l
  chosen_update-Delivers none latest true a l = snapshot-Delivers none latest l
  chosen_update-Delivers (some b) latest true a l =
      elim (Bool-cases (bytes_eq b.epoch latest.epoch && ltb b.generation latest.generation)) [
        | inl newer ↦ rw newer (diff-Delivers b latest a l newer)
        | inr older ↦ rw older (snapshot-Delivers (some b) latest l)
      ]

  -- What an update of an idle window comes to.
  pub data Prepared (acknowledged : Option State) (latest : State)
      : Result SyncError (Option PreparedStateUpdate) × StateSyncWindow → Type 0 where
    covered :
        covers acknowledged latest.epoch latest.generation ≡ true
        → Prepared acknowledged latest (ok none, window acknowledged none false)
    sent :
        (update : PreparedStateUpdate)
        → covers acknowledged latest.epoch latest.generation ≡ false
        → receive lib diff_len update acknowledged ≡ ok latest
        → Prepared acknowledged latest (ok (some update), window acknowledged (some latest) false)

  -- An idle window whose acknowledged state is valid, asked to send a valid state, never fails. It sends
  -- nothing exactly if the acknowledged state is of the same epoch and no older; else the state is in
  -- flight, and a receiver that has the acknowledged state makes of the update exactly that state.
  pub prepare_update-Prepared :
      (acknowledged : Option State) (latest : State) (allow_diff dirty : Bool)
      → AllValid lib acknowledged
      → IsValid lib latest
      → Prepared acknowledged latest
          (prepare_update lib diff_len latest allow_diff (window acknowledged none dirty))
  unfolding prepare_update
  prepare_update-Prepared acknowledged latest allow_diff dirty a l =
      let (update, chosen, received) = chosen_update-Delivers acknowledged latest allow_diff a l in
      elim (Bool-cases (covers acknowledged latest.epoch latest.generation)) [
        | inl old ↦ rw old (covered old)
        | inr fresh ↦ rw (fresh, chosen) (sent update fresh received)
      ]
