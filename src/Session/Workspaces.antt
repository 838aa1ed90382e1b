-- ===== src/Session/Workspaces.antt =====
-- src/session.rs: the operations of `SessionManager` on the workspaces. A new UUID, the clock and whether
-- the workspace has terminals are arguments.
use astra_shell.Prelude.{
  ℕ, String, List, [], ◌∷◌, Bool, false, not, ◌&&◌, ◌||◌, ◌+◌, ◌==◌, if◌then◌else◌, str_eq, Option,
  none, some, length, ◌++◌,
}
use astra_shell.Prelude.Result.{Result, ok, err, panic, ◌>>=◌, ◌>>◌, ensure, ok_or}
use astra_shell.Prelude.U64.{checked_add}
use astra_shell.Session.Catalog.{
  SessionCatalog, WorkspaceInfo, SessionError, name_exists, workspace_missing, revision_exhausted,
  workspace_not_empty, default_not_deletable, clock_failed, validate_workspace_name, validate_uuid,
}
use astra_shell.Session.Store.{Codec, Store, Write, update_catalog}

-- Whether another workspace than `id` has the name.
unfoldable pub other_has_name : String → String → List WorkspaceInfo → Bool
other_has_name id name [] = false
other_has_name id name (w ∷ rest) =
    (not (str_eq w.id id) && str_eq w.name name) || other_has_name id name rest

unfoldable pub has_name : String → List WorkspaceInfo → Bool
has_name name [] = false
has_name name (w ∷ rest) = str_eq w.name name || has_name name rest

unfoldable pub find_workspace : String → List WorkspaceInfo → Option WorkspaceInfo
find_workspace id [] = none
find_workspace id (w ∷ rest) = if str_eq w.id id then some w else find_workspace id rest

-- The write through the reference that `iter_mut().find(..)` gives.
unfoldable pub replace_workspace : String → WorkspaceInfo → List WorkspaceInfo → List WorkspaceInfo
replace_workspace id new [] = []
replace_workspace id new (w ∷ rest) =
    if str_eq w.id id then new ∷ rest else w ∷ replace_workspace id new rest

-- `retain(|workspace| workspace.id != id)`.
unfoldable pub retain_others : String → List WorkspaceInfo → List WorkspaceInfo
retain_others id [] = []
retain_others id (w ∷ rest) =
    let others = retain_others id rest in if str_eq w.id id then others else w ∷ others

unfoldable pub push_workspace :
    WorkspaceInfo → SessionCatalog → Result SessionError (Unit {0} × SessionCatalog)
push_workspace new c = do
  ensure (not (has_name new.name c.workspaces)) name_exists
  ok (tt, record c { workspaces = c.workspaces ++ new ∷ [] })

unfoldable pub rename_in :
    String → String → SessionCatalog → Result SessionError (WorkspaceInfo × SessionCatalog)
rename_in id name c = do
  ensure (not (other_has_name id name c.workspaces)) name_exists
  old ← ok_or (find_workspace id c.workspaces) workspace_missing
  revision ← ok_or (checked_add old.revision 1) revision_exhausted
  let new : WorkspaceInfo = record old { name = name; revision = revision }
  ok (new, record c { workspaces = replace_workspace id new c.workspaces })

unfoldable pub delete_from :
    String → SessionCatalog → Result SessionError (Unit {0} × SessionCatalog)
delete_from id c = do
  ensure (not (str_eq c.default_workspace_id id)) default_not_deletable
  let others = retain_others id c.workspaces
  ensure (length others + 1 == length c.workspaces) workspace_missing
  ok (tt, record c { workspaces = others })

module _ (codec : Codec) where
  open codec use {reprint}

  -- What runs before the catalog is touched, and the rest of the operation.
  abbrev pub checked :
      {A B : Type 0}
      → Store codec
      → Result SessionError A
      → (A → Result SessionError B × Store codec)
      → Result SessionError B × Store codec
  checked s (ok a) next = next a
  checked s (err e) next = (err e, s)
  checked s panic next = (panic, s)

  abbrev new_workspace : String → String → Option ℕ → Result SessionError WorkspaceInfo
  new_workspace name id now = do
    name ← validate_workspace_name name
    ms ← ok_or now clock_failed
    ok (record { id = id; name = name; revision = 1; created_at_unix_ms = ms; is_default = false })

  abbrev returning :
      {A : Type 0}
      → A
      → Result SessionError (Unit {0}) × Store codec
      → Result SessionError A × Store codec
  returning a (ok u, s) = (ok a, s)
  returning a (err e, s) = (err e, s)
  returning a (panic, s) = (panic, s)

  unfoldable pub create_workspace :
      String
      → String
      → Option ℕ
      → Write
      → Store codec
      → Result SessionError WorkspaceInfo × Store codec
  create_workspace name id now w s =
      checked s (new_workspace name id now)
        (λ new. returning new (update_catalog codec (push_workspace new) w s))

  abbrev renaming : String → String → Result SessionError String
  renaming id name = do validate_uuid reprint id; validate_workspace_name name

  unfoldable pub rename_workspace :
      String → String → Write → Store codec → Result SessionError WorkspaceInfo × Store codec
  rename_workspace id name w s =
      checked s (renaming id name) (λ name. update_catalog codec (rename_in id name) w s)

  abbrev pub deleting : String → Bool → Result SessionError (Unit {0})
  deleting id has_terminals = do
    validate_uuid reprint id
    ensure (not has_terminals) workspace_not_empty

  unfoldable pub delete_workspace :
      String → Bool → Write → Store codec → Result SessionError (Unit {0}) × Store codec
  delete_workspace id has_terminals w s =
      checked s (deleting id has_terminals) (λ _. update_catalog codec (delete_from id) w s)

  -- `SessionManager::workspace`.
  unfoldable pub workspace : String → Store codec → Result SessionError WorkspaceInfo
  workspace id s = do
    validate_uuid reprint id
    ok_or (find_workspace id s.catalog.workspaces) workspace_missing
