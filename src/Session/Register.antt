-- ===== src/Session/Register.antt =====
-- src/session.rs: `register_attachment` and the drop of an `ActiveAttachment`. The reservation that an
-- attachment holds is dropped with it, and at once when the clock fails.
use astra_shell.Prelude.{ℕ, String, List, Bool, Option, none, some, if◌then◌else◌}
use astra_shell.Prelude.Result.{Result, ok, err, panic, ◌>>=◌, ◌>>◌}
use astra_shell.Map.{Map}
use astra_shell.Map
use astra_shell.Resources.Claim.{attachment}
use astra_shell.Resources.Account.{
  Pools, PoolReservation, ResourceAccount, Refused, account_reserve, drop_all,
}
use astra_shell.Session.Catalog.{SessionError, clock_failed, quota_exceeded, validate_uuid}
use astra_shell.Session.Store.{Codec, Store}
use astra_shell.Session.Workspaces.{workspace}
use astra_shell.Session.Attachments.{
  AttachmentInfo, viewer, controller, subscribing, role_code, state_code, drop_attachment,
}

pub record ActiveAttachment : Type 0 where
  pub info : AttachmentInfo
  pub resources : List PoolReservation

-- What the attachments share: `SessionManager::attachments`, and the pools behind the accounts.
pub record Registry : Type 0 where
  pub attachments : Map AttachmentInfo
  pub pools : Pools

-- The drop of an `ActiveAttachment`: the removal, then the drop of its reservation.
unfoldable pub drop_active : {E : Type 0} → ActiveAttachment → Registry → Result E Registry
drop_active a r = do
  pools ← drop_all a.resources r.pools
  ok (record { attachments = drop_attachment a.info.id r.attachments; pools = pools })

-- The `?` behind a failed clock drops the reservation.
abbrev pub abandoned :
    Registry → Result SessionError Pools → Result SessionError ActiveAttachment × Registry
abandoned r (ok pools) = (err clock_failed, record r { pools = pools })
abandoned r (err e) = (err e, r)
abandoned r panic = (panic, r)

abbrev pub inserted :
    (ℕ → AttachmentInfo)
    → List PoolReservation
    → Option ℕ
    → Registry
    → Result SessionError ActiveAttachment × Registry
inserted info_at held none r = abandoned r (drop_all held r.pools)
inserted info_at held (some now) r = (
  ok (record { info = info_at now; resources = held }),
  record r { attachments = Map.insert (info_at now).id (info_at now) r.attachments },
)

abbrev pub reserved :
    (ℕ → AttachmentInfo)
    → Option ℕ
    → Registry
    → Result Refused (List PoolReservation × Pools)
    → Result SessionError ActiveAttachment × Registry
reserved info_at now r (ok (held, pools)) = inserted info_at held now (record r { pools = pools })
reserved info_at now r (err (q, pools)) = (err quota_exceeded, record r { pools = pools })
reserved info_at now r panic = (panic, r)

abbrev pub admitted :
    Registry
    → Result SessionError Unit
    → Result SessionError ActiveAttachment × Registry
    → Result SessionError ActiveAttachment × Registry
admitted r (ok u) next = next
admitted r (err e) next = (err e, r)
admitted r panic next = (panic, r)

module _ (codec : Codec) where
  open codec use {reprint}

  -- The checks before the reservation.
  abbrev pub attachable : String → String → Store codec → Result SessionError Unit
  attachable connection workspace_id s = do
    validate_uuid reprint connection
    found ← workspace codec workspace_id s
    ok tt

  abbrev pub new_attachment : String → String → String → Bool → String → ℕ → AttachmentInfo
  new_attachment connection workspace_id terminal_id read_only id now = record {
    id = id;
    connection_id = connection;
    workspace_id = workspace_id;
    terminal_id = terminal_id;
    role = if read_only then role_code viewer else role_code controller;
    state = state_code subscribing;
    created_at_unix_ms = now;
  }

  -- `id` is the new UUID.
  unfoldable pub register_attachment :
      Store codec
      → ResourceAccount
      → String
      → String
      → String
      → Bool
      → String
      → Option ℕ
      → Registry
      → Result SessionError ActiveAttachment × Registry
  register_attachment s account connection workspace_id terminal_id read_only id now r =
      admitted r (attachable connection workspace_id s) (
        reserved (new_attachment connection workspace_id terminal_id read_only id) now r
          (account_reserve account attachment r.pools))
