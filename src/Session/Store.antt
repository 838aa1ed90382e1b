-- ===== src/Session/Store.antt =====
-- src/session.rs: the catalog in memory and on disk. The encoding of messages (prost) is the parameter
-- `Codec`; what the file system does with one write is an argument of the operation.
use astra_shell.Prelude.{ℕ, String, [], ◌∷◌, true, leb, Option, none, some, ◌≡◌}
use astra_shell.Prelude.Result.{Result, ok, err, panic, ◌>>=◌, ◌>>◌, ensure, ok_or}
use astra_shell.Session.Catalog.{
  SessionCatalog, SessionError, catalog_too_large, persist_failed, read_failed, not_protobuf,
  clock_failed, max_session_catalog_bytes, session_catalog_schema_version, validate_catalog,
}

-- `encode_to_vec`, the length of the bytes, and `decode`, which reads back what was encoded; and
-- `Uuid::parse_str` followed by `to_string`.
pub record Codec : Type 1 where
  pub Bytes : Type 0
  pub length : Bytes → ℕ
  pub encode : SessionCatalog → Bytes
  pub decode : Bytes → Option SessionCatalog
  pub decode-encode : (c : SessionCatalog) → decode (encode c) ≡ some c
  pub reprint : String → Option String

-- How the write of a temporary file, its rename over the catalog and the final sync of the folder
-- come out. The rename replaces the file whether or not the sync behind it succeeds.
pub data Write : Type 0 where
  written fails_before_rename fails_after_rename : Write

-- What `fs::read` gives.
pub data Read (B : Type 0) : Type 0 where
  bytes : B → Read B
  not_found : Read B
  failed : Read B

-- An update of the copy gives the new catalog and what its closure has captured.
abbrev pub Update : Type 0 → Type 0
Update A = SessionCatalog → Result SessionError (A × SessionCatalog)

module _ (codec : Codec) where
  open codec use {Bytes, length, encode, decode, reprint}

  -- The result of a write, and the file behind it.
  abbrev write : Write → Bytes → Option Bytes → Result SessionError Unit × Option Bytes
  write written new old = (ok tt, some new)
  write fails_before_rename new old = (err persist_failed, old)
  write fails_after_rename new old = (err persist_failed, some new)

  -- The checks of `persist_catalog`, and the bytes to be written.
  unfoldable pub encode_checked : SessionCatalog → Result SessionError Bytes
  encode_checked c = do
    validate_catalog reprint c
    ensure (leb (length (encode c)) max_session_catalog_bytes) catalog_too_large
    ok (encode c)

  abbrev pub written_or :
      Write → Option Bytes → Result SessionError Bytes → Result SessionError Unit × Option Bytes
  written_or w disk (ok new) = write w new disk
  written_or w disk (err e) = (err e, disk)
  written_or w disk panic = (panic, disk)

  unfoldable pub persist_catalog :
      SessionCatalog → Write → Option Bytes → Result SessionError Unit × Option Bytes
  persist_catalog c w disk = written_or w disk (encode_checked c)

  -- `SessionManager::catalog` and the file behind `catalog_path`.
  pub record Store : Type 0 where
    pub catalog : SessionCatalog
    pub disk : Option Bytes

  -- `*catalog = candidate` only behind a successful write.
  abbrev pub committed :
      {A : Type 0}
      → Store
      → A
      → SessionCatalog
      → Result SessionError Unit × Option Bytes
      → Result SessionError A × Store
  committed s out candidate (ok u, disk) = (ok out, record { catalog = candidate; disk = disk })
  committed s out candidate (err e, disk) = (err e, record s { disk = disk })
  committed s out candidate (panic, disk) = (panic, record s { disk = disk })

  abbrev pub commit :
      {A : Type 0}
      → Store
      → Write
      → Result SessionError (A × SessionCatalog)
      → Result SessionError A × Store
  commit s w (ok (out, candidate)) = committed s out candidate (persist_catalog candidate w s.disk)
  commit s w (err e) = (err e, s)
  commit s w panic = (panic, s)

  -- The update of the copy, validated.
  abbrev pub candidate_of :
      {A : Type 0} → Update A → SessionCatalog → Result SessionError (A × SessionCatalog)
  candidate_of update catalog = do
    candidate ← update catalog
    validate_catalog reprint candidate.1
    ok candidate

  unfoldable pub update_catalog :
      {A : Type 0} → Update A → Write → Store → Result SessionError A × Store
  update_catalog update w s = commit s w (candidate_of update s.catalog)

  abbrev first_catalog : String → ℕ → SessionCatalog
  first_catalog id now = record {
    schema_version = session_catalog_schema_version;
    default_workspace_id = id;
    workspaces =
        record {
          id = id;
          name = "Default";
          revision = 1;
          created_at_unix_ms = now;
          is_default = true;
        }
        ∷ [];
  }

  abbrev created :
      SessionCatalog → Result SessionError Unit × Option Bytes → Result SessionError Store
  created c (ok u, disk) = ok (record { catalog = c; disk = disk })
  created c (err e, disk) = err e
  created c (panic, disk) = panic

  -- `load_or_create_catalog`; `id` is the new UUID, and `now` is the clock.
  unfoldable pub load_or_create_catalog :
      Read Bytes → String → Option ℕ → Write → Result SessionError Store
  load_or_create_catalog (bytes b) id now w = do
    ensure (leb (length b) max_session_catalog_bytes) catalog_too_large
    catalog ← ok_or (decode b) not_protobuf
    validate_catalog reprint catalog
    ok (record { catalog = catalog; disk = some b })
  load_or_create_catalog not_found id now w = do
    ms ← ok_or now clock_failed
    created (first_catalog id ms) (persist_catalog (first_catalog id ms) w none)
  load_or_create_catalog failed id now w = err read_failed
