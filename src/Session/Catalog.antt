-- ===== src/Session/Catalog.antt =====
-- src/session.rs: names, UUIDs and the validation of a catalog; the messages are those of
-- src/protocol.rs. `Uuid::parse_str` followed by `to_string` is the parameter `reprint`.
use Prim.Native.Char.{Char, code}
use Prim.Native.String.{len}
use astra_shell.Prelude.{
  ℕ, ◌+◌, ◌*◌, String, List, [], ◌∷◌, Bool, true, false, not, ◌&&◌, ◌||◌, ltb, leb, ◌==◌,
  if◌then◌else◌, str_eq, Option,
}
use astra_shell.Prelude.Result.{Result, ok, ◌>>=◌, ◌>>◌, ensure, ok_or}
use astra_shell.Map.{Map}
use astra_shell.Map

pub record WorkspaceInfo : Type 0 where
  pub id : String
  pub name : String
  pub revision : ℕ
  pub created_at_unix_ms : ℕ
  pub is_default : Bool

pub record SessionCatalog : Type 0 where
  pub schema_version : ℕ
  pub default_workspace_id : String
  pub workspaces : List WorkspaceInfo

abbrev pub session_catalog_schema_version : ℕ
session_catalog_schema_version = 1

abbrev pub max_session_catalog_bytes : ℕ
max_session_catalog_bytes = 1024 * 1024

abbrev pub max_workspace_name_bytes : ℕ
max_workspace_name_bytes = 128

-- The messages of the errors.
pub data SessionError : Type 0 where
  name_empty name_too_long name_has_control : SessionError
  not_a_uuid uuid_not_canonical : SessionError
  schema_unsupported no_workspace duplicate_id name_not_canonical duplicate_name : SessionError
  revision_zero default_marker_mismatch not_one_default : SessionError
  catalog_too_large persist_failed read_failed not_protobuf clock_failed : SessionError
  name_exists workspace_missing revision_exhausted workspace_not_empty : SessionError
  default_not_deletable quota_exceeded : SessionError
  attachment_inactive attachment_state_invalid transition_invalid : SessionError

-- `char::is_whitespace`: the code points with the property White_Space.
unfoldable pub is_whitespace : Char → Bool
is_whitespace c =
    let n = code c in
    (leb 9 n && leb n 13)
    || n == 32
    || n == 133
    || n == 160
    || n == 5760
    || (leb 8192 n && leb n 8202)
    || n == 8232
    || n == 8233
    || n == 8239
    || n == 8287
    || n == 12288

-- `char::is_control`: the code points of the category Cc.
unfoldable pub is_control : Char → Bool
is_control c = let n = code c in ltb n 32 || (leb 127 n && leb n 159)

trim_start : String → String
trim_start String.[] = String.[]
trim_start (String.◌∷◌ c rest) = if is_whitespace c then trim_start rest else String.◌∷◌ c rest

-- The rest of a text behind a character, which is dropped with a blank rest.
trim_cons : Char → String → String
trim_cons c String.[] = if is_whitespace c then String.[] else String.◌∷◌ c String.[]
trim_cons c (String.◌∷◌ d rest) = String.◌∷◌ c (String.◌∷◌ d rest)

trim_end : String → String
trim_end String.[] = String.[]
trim_end (String.◌∷◌ c rest) = trim_cons c (trim_end rest)

-- `str::trim`.
unfoldable pub trim : String → String
unfolding trim_start trim_end trim_cons is_whitespace
trim s = trim_end (trim_start s)

any_control : String → Bool
any_control String.[] = false
any_control (String.◌∷◌ c rest) = is_control c || any_control rest

unfoldable pub validate_workspace_name : String → Result SessionError String
unfolding any_control is_control
validate_workspace_name name = do
  let name = trim name
  ensure (not (str_eq name "")) name_empty
  ensure (leb (len name) max_workspace_name_bytes) name_too_long
  ensure (not (any_control name)) name_has_control
  ok name

module _ (reprint : String → Option String) where
  unfoldable pub validate_uuid : String → Result SessionError Unit
  validate_uuid value = do
    printed ← ok_or (reprint value) not_a_uuid
    ensure (str_eq printed value) uuid_not_canonical

  abbrev count_default : WorkspaceInfo → ℕ → ℕ
  count_default w n = if w.is_default then n + 1 else n

  -- The loop of `validate_catalog`: the ids and names seen so far, and the defaults counted.
  unfoldable pub validate_workspaces :
      String → Map (Unit {0}) → Map (Unit {0}) → ℕ → List WorkspaceInfo → Result SessionError ℕ
  validate_workspaces default_id ids names count [] = ok count
  validate_workspaces default_id ids names count (w ∷ rest) = do
    validate_uuid w.id
    ensure (not (Map.contains_key w.id ids)) duplicate_id
    name ← validate_workspace_name w.name
    ensure (str_eq name w.name) name_not_canonical
    ensure (not (Map.contains_key name names)) duplicate_name
    ensure (ltb 0 w.revision) revision_zero
    ensure (not w.is_default || str_eq w.id default_id) default_marker_mismatch
    validate_workspaces default_id (Map.insert w.id tt ids) (Map.insert name tt names)
        (count_default w count) rest

  abbrev is_empty : List WorkspaceInfo → Bool
  is_empty [] = true
  is_empty (w ∷ rest) = false

  unfoldable pub validate_catalog : SessionCatalog → Result SessionError Unit
  validate_catalog c = do
    ensure (c.schema_version == session_catalog_schema_version) schema_unsupported
    validate_uuid c.default_workspace_id
    ensure (not (is_empty c.workspaces)) no_workspace
    count ← validate_workspaces c.default_workspace_id [] [] 0 c.workspaces
    ensure (count == 1) not_one_default
