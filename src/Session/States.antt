-- ===== src/Session/States.antt =====
-- src/session.rs: the states that an attachment in the registry can take.
use astra_shell.Prelude.{◌≡◌, ◌≢◌, refl, subst, String, Bool, true, false, Option, none, some}
use astra_shell.Prelude.Result.{ok, ensure, ok_or, chain_parts}
use astra_shell.Map.{Map}
use astra_shell.Map
use astra_shell.Map.Laws.{get-insert_other, get-insert_self}
use astra_shell.Session.Catalog.{
  SessionError, attachment_inactive, attachment_state_invalid, transition_invalid,
}
use astra_shell.Session.Attachments.{
  AttachmentInfo, AttachmentState, subscribing, snapshotting, live, state_code, state_of,
  may_change, set_attachment_state,
}

-- The moves of an attachment: its first snapshot, going live, and a new snapshot of a live one.
pub data Transition : AttachmentState → AttachmentState → Type 0 where
  first_snapshot : Transition subscribing snapshotting
  goes_live : Transition snapshotting live
  new_snapshot : Transition live snapshotting

may_change-Transition : (a b : AttachmentState) → may_change a b ≡ true → Transition a b
unfolding may_change
may_change-Transition subscribing snapshotting h = first_snapshot
may_change-Transition snapshotting live h = goes_live
may_change-Transition live snapshotting h = new_snapshot
may_change-Transition _ _ h = cc

-- What a successful change has found and left behind.
pub record Moved (id : String) (state : AttachmentState) (before after : Map AttachmentInfo)
    : Type 0 where
  pub old : AttachmentInfo
  pub current : AttachmentState
  pub found : Map.get id before ≡ some old
  pub old_state : state_of old.state ≡ some current
  pub transition : Transition current state
  pub now : Map.get id after ≡ some (record old { state = state_code state })
  pub others : (other : String) → id ≢ other → Map.get other after ≡ Map.get other before

context_found :
    {A : Type 0} (o : Option A) (e : SessionError) {a : A} → ok_or o e ≡ ok a → o ≡ some a
context_found none e h = cc
context_found (some b) e h = cc

ensure_passed : (b : Bool) (e : SessionError) (u : Unit {0}) → ensure b e ≡ ok u → b ≡ true
ensure_passed true e u h = refl
ensure_passed false e u h = cc

-- A change of state succeeds only for an attachment in the registry and along one of the three moves;
-- it changes the state of that attachment and nothing else of the registry.
pub set_attachment_state-Moved :
    (id : String) (state : AttachmentState) (m m' : Map AttachmentInfo)
    → set_attachment_state id state m ≡ ok m'
    → Moved id state m m'
unfolding set_attachment_state
set_attachment_state-Moved id state m m' h =
    let (old, f, h1) = chain_parts (ok_or (Map.get id m) attachment_inactive) _ h in
    let (current, o, h2) = chain_parts (ok_or (state_of old.state) attachment_state_invalid) _ h1 in
    let (u, t, h3) = chain_parts (ensure (may_change current state) transition_invalid) _ h2 in
    let new : AttachmentInfo = record old { state = state_code state } in
    let same : Map.insert id new m ≡ m' = cc in
    record {
      old = old;
      current = current;
      found = context_found (Map.get id m) attachment_inactive f;
      old_state = context_found (state_of old.state) attachment_state_invalid o;
      transition = may_change-Transition current state (ensure_passed _ transition_invalid u t);
      now = subst (λ after. Map.get id after ≡ some new) same (get-insert_self id new m);
      others = λ other ne.
          subst (λ after. Map.get other after ≡ Map.get other m) same
            (get-insert_other id other new m ne);
    }
