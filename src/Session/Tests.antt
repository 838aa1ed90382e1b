-- ===== src/Session/Tests.antt =====
-- Runs of the operations on workspaces, and the theorems at them. The bytes of a catalog are the catalog
-- itself here, of length 100, and every text is the print of a UUID.
use astra_shell.Prelude.{◌≡◌, refl, ℕ, String, [], ◌∷◌, true, false, Option, some}
use astra_shell.Prelude.Result.{ok, err}
use astra_shell.Map
use astra_shell.Prelude.U64.{checked_add}
use astra_shell.Session.Catalog.{
  SessionCatalog, WorkspaceInfo, name_exists, transition_invalid, validate_workspace_name, trim,
  validate_uuid, validate_workspaces, validate_catalog,
}
use astra_shell.Session.Store.{
  Codec, Store, Write, written, bytes, not_found, persist_catalog, encode_checked, update_catalog,
  load_or_create_catalog,
}
use astra_shell.Session.Workspaces.{
  has_name, other_has_name, find_workspace, replace_workspace, retain_others, push_workspace,
  rename_in, delete_from, create_workspace, rename_workspace, delete_workspace,
}
use astra_shell.Session.Updates.{
  CanBeSaved, Updated, update_catalog-Updated, update_catalog-saves,
  update_catalog-load_or_create_catalog,
}
use astra_shell.Session.Attachments.{
  AttachmentInfo, AttachmentState, subscribing, snapshotting, live, state_code, state_of,
  may_change, set_attachment_state,
}
use astra_shell.Session.States.{Moved, set_attachment_state-Moved}

abbrev plain : Codec
plain = record {
  Bytes = SessionCatalog;
  length = λ b. 100;
  encode = λ c. c;
  decode = some;
  decode-encode = λ c. refl;
  reprint = some;
}

abbrev home : WorkspaceInfo
home = record {
  id = "a1";
  name = "Default";
  revision = 1;
  created_at_unix_ms = 5;
  is_default = true;
}

abbrev build : WorkspaceInfo
build = record {
  id = "b2";
  name = "build";
  revision = 1;
  created_at_unix_ms = 7;
  is_default = false;
}

abbrev first : SessionCatalog
first = record { schema_version = 1; default_workspace_id = "a1"; workspaces = home ∷ [] }

abbrev second : SessionCatalog
second = record { schema_version = 1; default_workspace_id = "a1"; workspaces = home ∷ build ∷ [] }

abbrev start : Store plain
start = record { catalog = first; disk = some first }

abbrev grown : Store plain
grown = record { catalog = second; disk = some second }

first_start : load_or_create_catalog plain not_found "a1" (some 5) written ≡ ok start
unfolding load_or_create_catalog persist_catalog encode_checked validate_catalog validate_workspaces
    validate_uuid validate_workspace_name trim Map.insert Map.get Map.contains_key
first_start = refl

create_run : create_workspace plain " build " "b2" (some 7) written start ≡ (ok build, grown)
unfolding create_workspace push_workspace has_name update_catalog persist_catalog encode_checked
    validate_catalog validate_workspaces validate_uuid validate_workspace_name trim Map.insert
    Map.get Map.contains_key
create_run = refl

create_twice : create_workspace plain "build" "c3" (some 9) written grown ≡ (err name_exists, grown)
unfolding create_workspace push_workspace has_name update_catalog validate_workspace_name trim
create_twice = refl

rename_run : rename_workspace plain "b2" "test" written grown ≡ (
  ok (record build { name = "test"; revision = 2 }),
  record {
    catalog = record second {
      workspaces = home ∷ record build { name = "test"; revision = 2 } ∷ [];
    };
    disk =
        some
          (record second { workspaces = home ∷ record build { name = "test"; revision = 2 } ∷ [] });
  },
)
unfolding checked_add rename_workspace rename_in find_workspace replace_workspace other_has_name
    update_catalog persist_catalog encode_checked validate_catalog validate_workspaces validate_uuid
    validate_workspace_name trim Map.insert Map.get Map.contains_key
rename_run = refl

delete_run : delete_workspace plain "b2" false written grown ≡ (ok tt, start)
unfolding delete_workspace delete_from retain_others update_catalog persist_catalog encode_checked
    validate_catalog validate_workspaces validate_uuid validate_workspace_name trim Map.insert
    Map.get Map.contains_key
delete_run = refl

pushed : push_workspace build first ≡ ok (tt, second)
unfolding push_workspace has_name
pushed = refl

second-CanBeSaved : CanBeSaved plain second
unfolding validate_catalog validate_workspaces validate_uuid validate_workspace_name trim Map.insert
    Map.get Map.contains_key
second-CanBeSaved = record { valid = refl; small = refl }

update_example :
    Updated plain
      (push_workspace build)
      start
      written
      (update_catalog plain (push_workspace build) written start)
update_example = update_catalog-Updated plain (push_workspace build) start written

grown_run : update_catalog plain (push_workspace build) written start ≡ (ok tt, grown)
grown_run =
    update_catalog-saves plain (push_workspace build) start written tt second pushed
      second-CanBeSaved

load_example :
    (b : SessionCatalog) × (◌≡◌ {A = Option SessionCatalog} (some second) (some b))
    × ((id : String) (now : Option ℕ) (w : Write)
        → load_or_create_catalog plain (bytes b) id now w ≡ ok grown)
load_example =
    update_catalog-load_or_create_catalog plain (push_workspace build) start written tt grown
      grown_run

abbrev attached : AttachmentState → AttachmentInfo
attached state = record {
  id = "d4";
  connection_id = "e5";
  workspace_id = "a1";
  terminal_id = "f6";
  role = 2;
  state = state_code state;
  created_at_unix_ms = 9;
}

snapshot_run :
    set_attachment_state "d4" snapshotting (("d4", attached subscribing) ∷ [])
    ≡ ok (("d4", attached snapshotting) ∷ [])
unfolding set_attachment_state state_of state_code may_change Map.get Map.insert
snapshot_run = refl

not_live_at_once :
    set_attachment_state "d4" live (("d4", attached subscribing) ∷ []) ≡ err transition_invalid
unfolding set_attachment_state state_of state_code may_change Map.get
not_live_at_once = refl

snapshot_example :
    Moved "d4" snapshotting (("d4", attached subscribing) ∷ []) (("d4", attached snapshotting) ∷ [])
snapshot_example =
    set_attachment_state-Moved "d4" snapshotting (("d4", attached subscribing) ∷ [])
      (("d4", attached snapshotting) ∷ []) snapshot_run
