-- ===== src/Session/Returns.antt =====
-- src/session.rs: panics in the checks of a catalog.
use astra_shell.Prelude.{◌≢◌, ℕ, String, List, [], ◌∷◌, not, ◌||◌, ltb, str_eq, Option}
use astra_shell.Prelude.Result.{panic}
use astra_shell.Prelude.Returns.{returns, chain_returns, guarded, ok_returns}
use astra_shell.Map.{Map}
use astra_shell.Map
use astra_shell.Session.Catalog.{
  SessionCatalog, WorkspaceInfo, validate_workspace_name, validate_uuid, validate_workspaces,
  validate_catalog,
}

pub validate_uuid_returns :
    (reprint : String → Option String) (id : String) → validate_uuid reprint id ≢ panic
unfolding validate_uuid
validate_uuid_returns reprint id = search returns

validate_workspace_name_returns : (name : String) → validate_workspace_name name ≢ panic
unfolding validate_workspace_name
validate_workspace_name_returns name = search returns

module _ (reprint : String → Option String) where
  validate_workspaces_returns :
      (id : String) (ids names : Map (Unit {0})) (n : ℕ) (ws : List WorkspaceInfo)
      → validate_workspaces reprint id ids names n ws ≢ panic
  unfolding validate_workspaces
  validate_workspaces_returns id ids names n [] = ok_returns n
  validate_workspaces_returns id ids names n (w ∷ ws) =
      chain_returns (validate_uuid reprint w.id) _ (validate_uuid_returns reprint w.id) λ _.
        guarded (not (Map.contains_key w.id ids)) _ _ λ _.
          chain_returns (validate_workspace_name w.name) _ (validate_workspace_name_returns w.name)
            λ name. guarded (str_eq name w.name) _ _ λ _.
              guarded (not (Map.contains_key name names)) _ _ λ _.
                guarded (ltb 0 w.revision) _ _ λ _.
                  guarded (not w.is_default || str_eq w.id id) _ _ λ _.
                    validate_workspaces_returns id (Map.insert w.id tt ids)
                      (Map.insert name tt names) _ ws

  pub validate_catalog_returns : (c : SessionCatalog) → validate_catalog reprint c ≢ panic
  unfolding validate_catalog
  validate_catalog_returns c = search (returns, validate_uuid_returns, validate_workspaces_returns)
