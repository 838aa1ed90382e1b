-- ===== src/Lease/State.antt =====
-- src/terminal.rs: the lease, the recovery record and the parts of `Terminal` that they guard. The
-- mutexes serialise the operations, which are functions of the terminal. Instants and durations are
-- numbers; the events are those sent so far, the oldest first.
use astra_shell.Prelude.{
  ℕ, String, List, [], ◌∷◌, ◌++◌, Bool, false, ◌&&◌, leb, str_eq, if◌then◌else◌, Option, none, some,
}

pub data LeaseRevocationReason : Type 0 where
  taken_over expired released : LeaseRevocationReason

pub record LeaseEvent : Type 0 where
  pub revoked_lease_id : String
  pub reason : LeaseRevocationReason

pub record Lease : Type 0 where
  pub id : String
  pub resume_token : String
  pub last_sequence : ℕ
  pub expires_at : Option ℕ

pub record InputRecovery : Type 0 where
  pub client_id : String
  pub token : String

pub record LeaseGrant : Type 0 where
  pub lease_id : String
  pub resume_token : String
  pub recovery_generation : ℕ
  pub ttl : Option ℕ

pub record Geometry : Type 0 where
  pub rows : ℕ
  pub cols : ℕ
  pub pixel_width : ℕ
  pub pixel_height : ℕ

-- `input` is what the writer has been given, `grid` and `pty` the sizes of the engine and of the PTY.
pub record Terminal : Type 0 where
  pub lease : Option Lease
  pub recovery : Option InputRecovery
  pub recovery_generation : ℕ
  pub lease_events : List LeaseEvent
  pub input : List ℕ
  pub grid : Geometry
  pub pty : Geometry
  pub rows : ℕ
  pub cols : ℕ

-- The messages of the errors.
pub data LeaseError : Type 0 where
  credential_invalid client_id_invalid not_authorized has_owner generation_exhausted : LeaseError
  no_lease stale_lease out_of_order : LeaseError
  dimensions_invalid pixels_invalid engine_failed pty_failed write_failed : LeaseError

-- `expires_at.is_some_and(|deadline| deadline <= now)`.
abbrev pub is_due : Option ℕ → ℕ → Bool
is_due none now = false
is_due (some deadline) now = leb deadline now

abbrev pub revoked : String → LeaseRevocationReason → List LeaseEvent
revoked id reason = record { revoked_lease_id = id; reason = reason } ∷ []

abbrev pub expire_from : Terminal → Option Lease → String → ℕ → Terminal
expire_from t none lease_id now = t
expire_from t (some current) lease_id now =
    if str_eq current.id lease_id && is_due current.expires_at now
    then record t { lease = none; lease_events = t.lease_events ++ revoked lease_id expired }
    else t

unfoldable pub expire_lease_if_due_at : String → ℕ → Terminal → Terminal
expire_lease_if_due_at lease_id now t = expire_from t t.lease lease_id now

abbrev pub release_from : Terminal → Option Lease → String → Terminal
release_from t none lease_id = t
release_from t (some current) lease_id =
    if str_eq current.id lease_id then record t { lease = none } else t

-- The connection of the lease is gone; the recovery record stays.
unfoldable pub release_lease : String → Terminal → Terminal
release_lease lease_id t = if str_eq lease_id "" then t else release_from t t.lease lease_id

abbrev pub has_id : String → Option Lease → Bool
has_id lease_id none = false
has_id lease_id (some current) = str_eq current.id lease_id

abbrev pub deadline_of : String → Option Lease → Option ℕ
deadline_of lease_id none = none
deadline_of lease_id (some current) =
    if str_eq current.id lease_id then current.expires_at else none

unfoldable pub lease_deadline : String → Terminal → Option ℕ
lease_deadline lease_id t = deadline_of lease_id t.lease

unfoldable pub owns_lease : String → ℕ → Terminal → Bool × Terminal
owns_lease lease_id now t =
    let after = expire_lease_if_due_at lease_id now t in
    if str_eq lease_id "" then (false, t) else (has_id lease_id after.lease, after)
