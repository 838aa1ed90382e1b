-- ===== src/Terminal/Converges.antt =====
-- src/terminal_sync.rs: the histories of the window and the receiver.
use astra_shell.Prelude.{ℕ, ◌≡◌, refl, subst, Bool, true, false, Option, none, some, arith}
use astra_shell.Prelude.Result.{ok}
use astra_shell.Terminal.State.{State}
use astra_shell.Terminal.Checks.{Libraries}
use astra_shell.Terminal.Valid.{validate-IsState}
use astra_shell.Terminal.Diff.{TerminalStateDiff}
use astra_shell.Terminal.Window.{
  StateSyncWindow, PreparedStateUpdate, AckDisposition, accepted, duplicate, covers, begin_initial,
  mark_dirty, prepare_update, acknowledge,
}
use astra_shell.Terminal.Protocol.{
  System, ack_of, receive, Step, dirtied, updated, skipped, delivered, acked, Reach, begins, next,
}
use astra_shell.Terminal.Agreement.{
  IsValid, AllValid, window, Prepared, sent, prepare_update-Prepared,
}
use astra_shell.Prelude.Bytes.{bytes_eq_refl}

module _ (lib : Libraries) (diff_len : TerminalStateDiff → ℕ) where
  -- How window, stream and receiver stand together: all is acknowledged, or an update is on its way that
  -- becomes the state in flight, or that state has arrived and is not acknowledged yet.
  pub data Agrees : System → Type 0 where
    settled :
        {c : State} {dirty : Bool}
        → IsValid lib c
        → Agrees (record { window = window (some c) none dirty; transit = none; client = some c })
    sending :
        {a : Option State} {f : State} {update : PreparedStateUpdate} {dirty : Bool}
        → AllValid lib a
        → IsValid lib f
        → covers a f.epoch f.generation ≡ false
        → receive lib diff_len update a ≡ ok f
        → Agrees (record { window = window a (some f) dirty; transit = some update; client = a })
    arrived :
        {a : Option State} {f : State} {dirty : Bool}
        → AllValid lib a
        → IsValid lib f
        → covers a f.epoch f.generation ≡ false
        → Agrees (record { window = window a (some f) dirty; transit = none; client = some f })

  sent_parts :
      {a : Option State} {latest : State} {update : PreparedStateUpdate} {w : StateSyncWindow}
      → Prepared lib diff_len a latest (ok (some update), w)
      → (w ≡ window a (some latest) false)
        × (covers a latest.epoch latest.generation ≡ false)
        × (receive lib diff_len update a ≡ ok latest)
  sent_parts (sent update fresh received) = (refl, fresh, received)

  covers_self : (c : State) → covers (some c) c.epoch c.generation ≡ true
  covers_self c = ground (arith, bytes_eq_refl c.epoch)

  pub acknowledge_again :
      (c : State) (in_flight : Option State) (dirty : Bool)
      → IsValid lib c
      → acknowledge (ack_of c) (window (some c) in_flight dirty)
        ≡ (ok duplicate, window (some c) in_flight dirty)
  unfolding acknowledge
  acknowledge_again c in_flight dirty v =
      let s = validate-IsState lib c v in ground (arith, covers_self c, s.epoch, s.generation)

  pub acknowledge_arrived :
      (a : Option State) (f : State) (dirty : Bool)
      → IsValid lib f
      → covers a f.epoch f.generation ≡ false
      → acknowledge (ack_of f) (window a (some f) dirty) ≡ (ok accepted, window (some f) none dirty)
  unfolding acknowledge
  acknowledge_arrived a f dirty v fresh =
      let s = validate-IsState lib f v in
      ground (arith, bytes_eq_refl f.epoch, s.epoch, s.generation)

  skipped_same :
      (a : Option State) (latest : State) (allow_diff dirty : Bool) (w : StateSyncWindow)
      → prepare_update lib diff_len latest allow_diff (window a none dirty) ≡ (ok none, w)
      → w ≡ window a none false
  unfolding prepare_update
  skipped_same a latest allow_diff dirty w e = ground arith

  Step-Agrees : {s t : System} → Agrees s → Step lib diff_len s t → Agrees t
  unfolding mark_dirty
  Step-Agrees (settled v) dirtied = settled v
  Step-Agrees (sending a f fresh r) dirtied = sending a f fresh r
  Step-Agrees (arrived a f fresh) dirtied = arrived a f fresh
  Step-Agrees (settled {c} {dirty} v) (updated latest allow_diff update w l e) =
      let (same, fresh, received) = sent_parts (
        subst (Prepared lib diff_len (some c) latest) e
          (prepare_update-Prepared lib diff_len (some c) latest allow_diff dirty v l)) in
      rw same (sending v l fresh received)
  Step-Agrees (sending a f fresh r) (updated latest allow_diff update w l e) =
      unfold prepare_update in cc
  Step-Agrees (arrived a f fresh) (updated latest allow_diff update w l e) =
      unfold prepare_update in cc
  Step-Agrees (settled {c} {dirty} v) (skipped latest allow_diff w e) =
      rw (skipped_same (some c) latest allow_diff dirty w e) (settled v)
  Step-Agrees (sending a f fresh r) (skipped latest allow_diff w e) = unfold prepare_update in cc
  Step-Agrees (arrived a f fresh) (skipped latest allow_diff w e) = unfold prepare_update in cc
  Step-Agrees (settled v) (delivered update c e r) = cc
  Step-Agrees (sending {a} {f} {update} {dirty} v l fresh received) (delivered update' c e r) =
      let same : c ≡ f = cc in rw same (arrived v l fresh)
  Step-Agrees (arrived a f fresh) (delivered update c e r) = cc
  Step-Agrees (settled {c} {dirty} v) (acked c' d w e k) =
      let same : w ≡ window (some c) none dirty = cc (acknowledge_again c none dirty v) in
      rw same (settled v)
  Step-Agrees (sending {a = none} v l fresh received) (acked c d w e k) = cc
  Step-Agrees (sending {a = some b} {f} {update} {dirty} v l fresh received) (acked c d w e k) =
      let same : w ≡ window (some b) (some f) dirty = cc (acknowledge_again b (some f) dirty v) in
      rw same (sending v l fresh received)
  Step-Agrees (arrived {a} {f} {dirty} v l fresh) (acked c d w e k) =
      let same : w ≡ window (some f) none dirty = cc (acknowledge_arrived a f dirty l fresh) in
      rw same (settled l)

  module _ (initial : State) (valid : IsValid lib initial) where
    Reach-Agrees : {s : System} → Reach lib diff_len initial s → Agrees s
    unfolding begin_initial receive
    Reach-Agrees (begins w e) =
        let same : w ≡ window none (some initial) false = cc in
        rw same (sending tt valid refl (rw valid refl))
    Reach-Agrees (next r st) = Step-Agrees (Reach-Agrees r) st

    Agrees-receive :
        {s : System} (update : PreparedStateUpdate)
        → Agrees s
        → s.transit ≡ some update
        → (c : State) × (receive lib diff_len update s.client ≡ ok c)
          × (s.window.in_flight ≡ some c)
          × IsValid lib c
    Agrees-receive update (settled v) e = cc
    Agrees-receive update (sending {a} {f} v l fresh received) e = (f, cc, refl, l)
    Agrees-receive update (arrived v l fresh) e = cc

    Agrees-acknowledge :
        {s : System} (c : State)
        → Agrees s
        → s.transit ≡ none
        → s.client ≡ some c
        → (d : AckDisposition) × (acknowledge (ack_of c) s.window
            ≡ (ok d, record s.window { acknowledged = some c; in_flight = none }))
    Agrees-acknowledge c (settled {c = b} {dirty} v) t e =
        let same : c ≡ b = cc in rw same (duplicate, acknowledge_again b none dirty v)
    Agrees-acknowledge c (sending v l fresh received) t e = cc
    Agrees-acknowledge c (arrived {a} {f} {dirty} v l fresh) t e =
        let same : c ≡ f = cc in rw same (accepted, acknowledge_arrived a f dirty l fresh)

    -- In every history that begins with a valid state, the client can receive whatever is in transit: it
    -- obtains a valid state, the very one that the window has in flight.
    pub Reach-receive :
        (s : System) (update : PreparedStateUpdate)
        → Reach lib diff_len initial s
        → s.transit ≡ some update
        → (c : State) × (receive lib diff_len update s.client ≡ ok c)
          × (s.window.in_flight ≡ some c)
          × IsValid lib c
    Reach-receive s update r e = Agrees-receive update (Reach-Agrees r) e

    -- In every history that begins with a valid state, once nothing is in transit, the window takes the
    -- acknowledgement of the client's state; then it has exactly that state as acknowledged, and nothing
    -- in flight.
    pub Reach-acknowledge :
        (s : System) (c : State)
        → Reach lib diff_len initial s
        → s.transit ≡ none
        → s.client ≡ some c
        → (d : AckDisposition) × (acknowledge (ack_of c) s.window
            ≡ (ok d, record s.window { acknowledged = some c; in_flight = none }))
    Reach-acknowledge s c r t e = Agrees-acknowledge c (Reach-Agrees r) t e
