-- ===== src/Session/Updates.antt =====
-- src/session.rs: what `update_catalog` does to the catalog in memory and to the one on disk.
use astra_shell.Prelude.{◌≡◌, refl, subst, ℕ, String, Option, some, Bool, true, false, leb}
use astra_shell.Prelude.Result.{Result, ok, err, panic, ◌>>=◌, ◌>>◌, ensure}
use astra_shell.Session.Catalog.{
  SessionCatalog, SessionError, persist_failed, catalog_too_large, max_session_catalog_bytes,
  validate_catalog,
}
use astra_shell.Session.Store.{
  Codec, Store, Write, written, fails_before_rename, fails_after_rename, bytes, Update,
  update_catalog, persist_catalog, encode_checked, load_or_create_catalog, commit, committed,
  written_or,
}
use astra_shell.Session.Returns.{validate_catalog_returns}

module _ (codec : Codec) where
  open codec use {Bytes, length, encode, decode, decode-encode, reprint}

  -- A catalog that may be saved: it is valid, and its bytes are not too many.
  pub record CanBeSaved (c : SessionCatalog) : Type 0 where
    pub valid : validate_catalog reprint c ≡ ok tt
    pub small : leb (length (encode c)) max_session_catalog_bytes ≡ true

  -- The outcomes of an update of the catalog, one constructor for each.
  pub data Updated {A : Type 0} (update : Update A) (s : Store codec)
      : Write → Result SessionError A × Store codec → Type 0 where
    saved :
        {out : A} {c : SessionCatalog}
        → update s.catalog ≡ ok (out, c)
        → CanBeSaved c
        → Updated update s written (ok out, record { catalog = c; disk = some (encode c) })
    refused : {w : Write} {e : SessionError} → Updated update s w (err e, s)
    replaced_unsynced :
        {out : A} {c : SessionCatalog}
        → update s.catalog ≡ ok (out, c)
        → CanBeSaved c
        → Updated update s fails_after_rename
            (err persist_failed, record { catalog = s.catalog; disk = some (encode c) })
    panicked : {w : Write} → update s.catalog ≡ panic → Updated update s w (panic, s)

  module _ {A : Type 0} (update : Update A) (s : Store codec) (w : Write) where
    encode_checked_valid :
        (c : SessionCatalog)
        → validate_catalog reprint c ≡ ok tt
        → encode_checked codec c ≡ (
            ensure (leb (length (encode c)) max_session_catalog_bytes) catalog_too_large
            >> ok (encode c))
    unfolding encode_checked
    encode_checked_valid c v = rw v refl

    size_split :
        (out : A) (c : SessionCatalog) (w : Write) (b : Bool)
        → update s.catalog ≡ ok (out, c)
        → validate_catalog reprint c ≡ ok tt
        → leb (length (encode c)) max_session_catalog_bytes ≡ b
        → Updated update s w (
            committed codec s out c
              (written_or codec w s.disk (ensure b catalog_too_large >> ok (encode c))))
    size_split out c w false u v l = refused
    size_split out c written true u v l = saved u record { valid = v; small = l }
    size_split out c fails_before_rename true u v l = refused
    size_split out c fails_after_rename true u v l =
        replaced_unsynced u record { valid = v; small = l }

    valid_split :
        (out : A) (c : SessionCatalog) (v : Result SessionError Unit)
        → update s.catalog ≡ ok (out, c)
        → validate_catalog reprint c ≡ v
        → Updated update s w (commit codec s w (v >> ok (out, c)))
    unfolding persist_catalog
    valid_split out c (ok u) up v = rw (encode_checked_valid c v) (size_split out c w _ up v refl)
    valid_split out c (err e) up v = refused
    valid_split out c panic up v = absurd (validate_catalog_returns reprint c v)

    update_split :
        (r : Result SessionError (A × SessionCatalog))
        → update s.catalog ≡ r
        → Updated update s w
            (commit codec s w (r >>= λ step. validate_catalog reprint step.1 >> ok step))
    update_split (ok (out, c)) up = valid_split out c (validate_catalog reprint c) up refl
    update_split (err e) up = refused
    update_split panic up = panicked up

    -- An update of the catalog does one of four things. It saves: the closure's catalog is valid, stands
    -- in memory, and its bytes on disk. It refuses with an error and changes neither memory nor disk. The
    -- folder's sync fails behind the rename: the error leaves the memory as it was, with the new valid
    -- catalog on disk. Or the closure panics, and nothing changes.
    pub update_catalog-Updated : Updated update s w (update_catalog codec update w s)
    unfolding update_catalog
    update_catalog-Updated = update_split (update s.catalog) refl

    -- A valid catalog whose bytes are few enough is saved when the write succeeds.
    pub update_catalog-saves :
        (out : A) (c : SessionCatalog)
        → update s.catalog ≡ ok (out, c)
        → CanBeSaved c
        → update_catalog codec update written s
          ≡ (ok out, record { catalog = c; disk = some (encode c) })
    unfolding update_catalog persist_catalog encode_checked
    update_catalog-saves out c u can = simp (u, can.valid, can.small)

    -- What the next start of the service reads from the disk is the catalog in memory.
    abbrev Loads : Result SessionError A × Store codec → Type 0
    Loads (ok out, s') =
        (b : Bytes) × (s'.disk ≡ some b)
        × ((id : String) (now : Option ℕ) (w' : Write)
            → load_or_create_catalog codec (bytes b) id now w' ≡ ok s')
    Loads (err e, s') = Unit
    Loads (panic, s') = Unit

    Updated-Loads :
        {w : Write} (r : Result SessionError A × Store codec) → Updated update s w r → Loads r
    unfolding load_or_create_catalog
    Updated-Loads _ (saved {c} u can) =
        (encode c, refl, λ id now w'. simp (decode-encode c, can.valid, can.small))
    Updated-Loads _ refused = tt
    Updated-Loads _ (replaced_unsynced u can) = tt
    Updated-Loads _ (panicked u) = tt

    -- After a successful update the disk holds bytes from which the next start loads the very catalog
    -- that the update has left in memory.
    pub update_catalog-load_or_create_catalog :
        (out : A) (s' : Store codec)
        → update_catalog codec update w s ≡ (ok out, s')
        → (b : Bytes) × (s'.disk ≡ some b)
          × ((id : String) (now : Option ℕ) (w' : Write)
              → load_or_create_catalog codec (bytes b) id now w' ≡ ok s')
    update_catalog-load_or_create_catalog out s' h =
        subst Loads h (Updated-Loads _ update_catalog-Updated)
