-- ===== src/Session/Deletes.antt =====
-- src/session.rs: what `delete_workspace` refuses.
use astra_shell.Prelude.{◌≡◌, ◌≢◌, refl, String, Bool, not, str_eq_iff}
use astra_shell.Prelude.Result.{Result, ok, err, panic}
use astra_shell.Session.Catalog.{
  SessionError, default_not_deletable, workspace_not_empty, validate_uuid,
}
use astra_shell.Session.Store.{Codec, Store, Write, update_catalog}
use astra_shell.Session.Workspaces.{delete_from, delete_workspace, deleting, checked}
use astra_shell.Prelude.Returns.{chain_returns, ensure_returns}
use astra_shell.Session.Returns.{validate_uuid_returns}

module _ (codec : Codec) (id : String) (has_terminals : Bool) (w : Write) (s : Store codec) where
  open codec use {reprint}

  deleting_returns : deleting codec id has_terminals ≢ panic
  deleting_returns =
      chain_returns (validate_uuid reprint id) _ (validate_uuid_returns reprint id)
        λ _. ensure_returns (not has_terminals) workspace_not_empty

  update_refused :
      s.catalog.default_workspace_id ≡ id
      → update_catalog codec (delete_from id) w s ≡ (err default_not_deletable, s)
  unfolding update_catalog delete_from
  update_refused same = simp ((str_eq_iff s.catalog.default_workspace_id id).1 same)

  checked_refused :
      (r : Result SessionError Unit)
      → r ≢ panic
      → s.catalog.default_workspace_id ≡ id
      → (e : SessionError) × (checked codec s r (λ _. update_catalog codec (delete_from id) w s)
          ≡ (err e, s))
  checked_refused (ok u) returns same = (default_not_deletable, update_refused same)
  checked_refused (err e) returns same = (e, refl)
  checked_refused panic returns same = absurd (returns refl)

  -- The deletion of the default workspace is refused with an error, and changes neither the catalog in
  -- memory nor the one on disk.
  pub delete_workspace-default :
      s.catalog.default_workspace_id ≡ id
      → (e : SessionError) × (delete_workspace codec id has_terminals w s ≡ (err e, s))
  unfolding delete_workspace
  delete_workspace-default = checked_refused (deleting codec id has_terminals) deleting_returns
