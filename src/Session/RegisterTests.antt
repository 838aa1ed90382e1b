-- ===== src/Session/RegisterTests.antt =====
-- Runs of the registration of an attachment, and its theorem at one.
use astra_shell.Prelude.{◌≡◌, refl, [], ◌∷◌, true, false, none, some}
use astra_shell.Prelude.Result.{ok, err}
use astra_shell.Prelude.U64
use astra_shell.Map
use astra_shell.Resources.Claim.{default, attachment, dimensions, value, checked_add, checked_sub}
use astra_shell.Resources.Limits.{global_defaults, user_defaults}
use astra_shell.Resources.Pool.{ResourcePool, reserve, release, check_limits}
use astra_shell.Resources.Account.{
  layered, account_reserve, reserve_all, reserve_round, reserve_at, drop_at, drop_all,
}
use astra_shell.Session.Catalog.{SessionCatalog, WorkspaceInfo, clock_failed, validate_uuid}
use astra_shell.Session.Store.{Codec, Store}
use astra_shell.Session.Workspaces.{workspace, find_workspace}
use astra_shell.Session.Register.{Registry, register_attachment, new_attachment}
use astra_shell.Session.Registered.{Registered, register_attachment-Registered}

abbrev plain : Codec
plain = record {
  Bytes = SessionCatalog;
  length = λ b. 100;
  encode = λ c. c;
  decode = some;
  decode-encode = λ c. refl;
  reprint = some;
}

abbrev home : WorkspaceInfo
home = record {
  id = "a1";
  name = "Default";
  revision = 1;
  created_at_unix_ms = 5;
  is_default = true;
}

abbrev start : Store plain
start = record {
  catalog = record { schema_version = 1; default_workspace_id = "a1"; workspaces = home ∷ [] };
  disk = none;
}

abbrev global_pool : ResourcePool
global_pool = record { scope = "global"; limits = global_defaults; usage = default }

abbrev user_pool : ResourcePool
user_pool = record { scope = "user"; limits = user_defaults; usage = default }

abbrev idle : Registry
idle = record { attachments = []; pools = global_pool ∷ user_pool ∷ [] }

abbrev busy : Registry
busy = record {
  attachments = ("d4", new_attachment plain "e5" "a1" "f6" false "d4" 9) ∷ [];
  pools = record global_pool { usage = attachment } ∷ record user_pool { usage = attachment } ∷ [];
}

-- The clock fails behind the reservation, which is dropped again.
clock_run :
    register_attachment plain start (layered 0 1) "e5" "a1" "f6" false "d4" none idle
    ≡ (err clock_failed, idle)
unfolding register_attachment workspace find_workspace validate_uuid account_reserve reserve_all
    reserve_round reserve_at drop_at drop_all reserve release check_limits dimensions value
    checked_add checked_sub U64.checked_add U64.checked_sub
clock_run = refl

register_run :
    register_attachment plain start (layered 0 1) "e5" "a1" "f6" false "d4" (some 9) idle ≡ (
      ok (record {
        info = new_attachment plain "e5" "a1" "f6" false "d4" 9;
        resources =
            record { pool = 0; claim = attachment } ∷ record { pool = 1; claim = attachment } ∷ [];
      }),
      busy,
    )
unfolding register_attachment workspace find_workspace validate_uuid account_reserve reserve_all
    reserve_round reserve_at reserve check_limits dimensions value checked_add U64.checked_add
    Map.insert
register_run = refl

register_example :
    Registered idle "d4"
      (register_attachment plain start (layered 0 1) "e5" "a1" "f6" false "d4" (some 9) idle)
register_example =
    register_attachment-Registered plain start (layered 0 1) "e5" "a1" "f6" false "d4" idle
      ((global_pool, refl), ((user_pool, refl), tt)) (some 9)
