-- ===== src/Session/Registered.antt =====
-- src/session.rs: what `register_attachment` leaves behind on every branch, and its undoing by the drop.
use astra_shell.Prelude.{◌≡◌, ◌∙◌, ◌≢◌, refl, ℕ, String, List, Bool, Option, none, some}
use astra_shell.Prelude.Result.{Result, ok, err, panic}
use astra_shell.Map.{Map}
use astra_shell.Map
use astra_shell.Map.Laws.{get-insert_self, get-insert_other, get-remove_self, get-remove_other}
use astra_shell.Resources.Claim.{attachment}
use astra_shell.Resources.Account.{
  Pools, PoolReservation, ResourceAccount, Refused, account_reserve, drop_all,
}
use astra_shell.Resources.Atomic.{
  AreHandles, AreHandles-reservations, Reserves, granted, unchanged, reservations, drop_all-held,
  account_reserve-Reserves,
}
use astra_shell.Session.Catalog.{SessionError, workspace_missing, validate_uuid}
use astra_shell.Session.Store.{Codec, Store}
use astra_shell.Session.Workspaces.{workspace, find_workspace}
use astra_shell.Session.Attachments.{AttachmentInfo, drop_attachment}
use astra_shell.Session.Register.{
  ActiveAttachment, Registry, drop_active, inserted, reserved, admitted, attachable, new_attachment,
  register_attachment,
}
use astra_shell.Prelude.Returns.{chain_returns, ok_returns, ok_or_returns}
use astra_shell.Session.Returns.{validate_uuid_returns}

-- What the drop of an attachment gives back: the pools of the start, and no entry but that of the
-- attachment is lost.
pub record Undone (r : Registry) (id : String) (a : ActiveAttachment) (after : Registry)
    : Type 0 where
  pub dropped : Registry
  pub drops : drop_active {E = SessionError} a after ≡ ok dropped
  pub pools : dropped.pools ≡ r.pools
  pub gone : Map.get id dropped.attachments ≡ none
  pub others : (k : String) → id ≢ k → Map.get k dropped.attachments ≡ Map.get k r.attachments

-- The outcomes of a registration.
pub data Registered (r : Registry) (id : String)
    : Result SessionError ActiveAttachment × Registry → Type 0 where
  rejected : {e : SessionError} → Registered r id (err e, r)
  active :
      {a : ActiveAttachment} {after : Registry}
      → Map.get id after.attachments ≡ some a.info
      → Undone r id a after
      → Registered r id (ok a, after)

module _ (codec : Codec) (s : Store codec) (account : ResourceAccount)
    (connection workspace_id terminal_id : String) (read_only : Bool) (id : String) (r : Registry)
    (handles : AreHandles r.pools account.pools) where
  open codec use {reprint}

  abbrev info_at : ℕ → AttachmentInfo
  info_at = new_attachment codec connection workspace_id terminal_id read_only id

  workspace_returns : workspace codec workspace_id s ≢ panic
  unfolding workspace
  workspace_returns =
      chain_returns (validate_uuid reprint workspace_id) _
        (validate_uuid_returns reprint workspace_id)
        λ _. ok_or_returns (find_workspace workspace_id s.catalog.workspaces) workspace_missing

  attachable_returns : attachable codec connection workspace_id s ≢ panic
  attachable_returns =
      chain_returns (validate_uuid reprint connection) _ (validate_uuid_returns reprint connection)
        λ _.
          chain_returns (workspace codec workspace_id s) _ workspace_returns λ found. ok_returns tt

  undone :
      (now : ℕ) (held : List PoolReservation) (pools : Pools)
      → drop_all {E = SessionError} held pools ≡ ok r.pools
      → Undone r id
          (record { info = info_at now; resources = held })
          (record { attachments = Map.insert id (info_at now) r.attachments; pools = pools })
  unfolding drop_active drop_attachment
  undone now held pools undo =
      let m : Map AttachmentInfo = Map.insert id (info_at now) r.attachments in
      record {
        dropped = record { attachments = Map.remove id m; pools = r.pools };
        drops = rw undo refl;
        pools = refl;
        gone = get-remove_self id m;
        others = λ k ne.
            get-remove_other id k m ne ∙ get-insert_other id k (info_at now) r.attachments ne;
      }

  inserted-Registered :
      (now : Option ℕ) (held : List PoolReservation) (pools : Pools)
      → drop_all {E = SessionError} held pools ≡ ok r.pools
      → Registered r id (inserted info_at held now (record r { pools = pools }))
  inserted-Registered none held pools undo = rw undo rejected
  inserted-Registered (some now) held pools undo =
      active (get-insert_self id (info_at now) r.attachments) (undone now held pools undo)

  reserved-Registered :
      (now : Option ℕ) (result : Result Refused (List PoolReservation × Pools))
      → Reserves r.pools (reservations account.pools attachment) result
      → Registered r id (reserved info_at now r result)
  reserved-Registered now result (granted after e over) = rw e (
      inserted-Registered now _ after (
        drop_all-held r.pools after _
          (AreHandles-reservations r.pools account.pools attachment handles) over))
  reserved-Registered now result (unchanged q e) = rw e rejected

  admitted-Registered :
      (now : Option ℕ) (checks : Result SessionError Unit)
      → checks ≢ panic
      → Registered r id
          (admitted r checks (reserved info_at now r (account_reserve account attachment r.pools)))
  admitted-Registered now (ok u) returns =
      reserved-Registered now _ (account_reserve-Reserves r.pools account attachment handles)
  admitted-Registered now (err e) returns = rejected
  admitted-Registered now panic returns = absurd (returns refl)

  -- For an account whose handles name pools, a registration is rejected with an error, and neither the
  -- registry nor any pool changes; or the attachment stands in the registry under its id, and the drop
  -- of its reservation gives back the pools as they were. It never panics.
  pub register_attachment-Registered :
      (now : Option ℕ)
      → Registered r id (
          register_attachment codec s account connection workspace_id terminal_id read_only id now
            r)
  unfolding register_attachment
  register_attachment-Registered now =
      admitted-Registered now (attachable codec connection workspace_id s) attachable_returns
