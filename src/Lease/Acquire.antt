-- ===== src/Lease/Acquire.antt =====
-- src/terminal.rs: `acquire_resumable_lease_at`. `Uuid::parse_str` followed by `to_string` is the parameter
-- `reprint`; the two new UUIDs and the clock are arguments.
use Prim.Native.Nat.{◌+◌}
use Prim.Native.String.{len}
use astra_shell.Prelude.{
  is_some, ℕ, String, List, [], ◌++◌, Bool, true, false, not, ◌&&◌, ◌||◌, leb, str_eq,
  if◌then◌else◌, Option, none, some,
}
use astra_shell.Prelude.Result.{Result, ok, err, panic, ◌>>◌, ensure, ok_or}
use astra_shell.Prelude.U64
use astra_shell.Lease.State.{
  expired, LeaseEvent, taken_over, Lease, InputRecovery, LeaseGrant, Terminal, LeaseError,
  credential_invalid, client_id_invalid, not_authorized, has_owner, generation_exhausted, is_due,
  revoked,
}

pub record LeaseRequest : Type 0 where
  pub read_only : Bool
  pub takeover : Bool
  pub resume_token : String
  pub ttl : Option ℕ
  pub client_id : Option String

abbrev pub is_printed_as : String → Option String → Bool
is_printed_as id none = false
is_printed_as id (some printed) = str_eq printed id

abbrev pub is_canonical : (String → Option String) → Option String → Bool
is_canonical reprint none = true
is_canonical reprint (some id) = is_printed_as id (reprint id)

unfoldable pub check_request : (String → Option String) → LeaseRequest → Result LeaseError Unit
check_request reprint r = do
  ensure (leb (len r.resume_token) 128) credential_invalid
  ensure (is_canonical reprint r.client_id) client_id_invalid

abbrev pub read_only_grant : LeaseGrant
read_only_grant = record { lease_id = ""; resume_token = ""; recovery_generation = 0; ttl = none }

abbrev pub expire_current : Terminal → Option Lease → ℕ → Terminal
expire_current t none now = t
expire_current t (some current) now =
    if is_due current.expires_at now
    then record t { lease = none; lease_events = t.lease_events ++ revoked current.id expired }
    else t

abbrev pub resuming : LeaseRequest → Bool
resuming r = not r.takeover && not (str_eq r.resume_token "")

abbrev pub recovers : String → String → Option InputRecovery → Bool
recovers id token none = false
recovers id token (some record_) = str_eq record_.client_id id && str_eq record_.token token

abbrev pub has_token : String → Option Lease → Bool
has_token token none = false
has_token token (some current) = str_eq current.resume_token token

abbrev pub authorized : Option String → String → Terminal → Bool
authorized (some id) token t = recovers id token t.recovery
authorized none token t = not (is_some t.recovery) && has_token token t.lease

-- The checks under the locks, and the generation of the grant.
unfoldable pub admit : LeaseRequest → Terminal → Result LeaseError ℕ
admit r t =
    if resuming r
    then (do
      ensure (authorized r.client_id r.resume_token t) not_authorized
      ok t.recovery_generation)
    else (do
      ensure (not ((is_some t.lease || is_some t.recovery) && not r.takeover)) has_owner
      ok_or (U64.checked_add t.recovery_generation 1) generation_exhausted)

abbrev pub recovery_of : Option String → String → Option InputRecovery
recovery_of none token = none
recovery_of (some id) token = some (record { client_id = id; token = token })

abbrev pub deadline : Option ℕ → ℕ → Option ℕ
deadline none now = none
deadline (some duration) now = some (now + duration)

abbrev pub taken_from : Option Lease → List LeaseEvent
taken_from none = []
taken_from (some old) = revoked old.id taken_over

abbrev pub Acquired : Type 0
Acquired = Result LeaseError LeaseGrant × Terminal

-- The token of a grant: the one that was shown, or a new one.
abbrev pub grant_token : LeaseRequest → String → String
grant_token r new_token = if resuming r then r.resume_token else new_token

abbrev pub granted : LeaseRequest → ℕ → String → String → Terminal → ℕ → Acquired
granted r now new_id new_token t generation =
    let token : String = grant_token r new_token in
    (
      ok (record {
        lease_id = new_id;
        resume_token = token;
        recovery_generation = if is_some r.client_id then generation else 0;
        ttl = r.ttl;
      }),
      record t {
        recovery_generation = generation;
        recovery = recovery_of r.client_id token;
        lease = some (record {
          id = new_id;
          resume_token = token;
          last_sequence = 0;
          expires_at = deadline r.ttl now;
        });
        lease_events = t.lease_events ++ taken_from t.lease;
      },
    )

abbrev pub admitted_as :
    LeaseRequest → ℕ → String → String → Terminal → Result LeaseError ℕ → Acquired
admitted_as r now new_id new_token t (ok generation) = granted r now new_id new_token t generation
admitted_as r now new_id new_token t (err e) = (err e, t)
admitted_as r now new_id new_token t panic = (panic, t)

abbrev pub acquire_owned : LeaseRequest → ℕ → String → String → Terminal → Acquired
acquire_owned r now new_id new_token t = admitted_as r now new_id new_token t (admit r t)

abbrev pub acquire_checked :
    LeaseRequest → ℕ → String → String → Terminal → Result LeaseError Unit → Acquired
acquire_checked r now new_id new_token t (err e) = (err e, t)
acquire_checked r now new_id new_token t panic = (panic, t)
acquire_checked r now new_id new_token t (ok u) =
    if r.read_only
    then (ok read_only_grant, t)
    else acquire_owned r now new_id new_token (expire_current t t.lease now)

unfoldable pub acquire_resumable_lease_at :
    (String → Option String) → LeaseRequest → ℕ → String → String → Terminal → Acquired
acquire_resumable_lease_at reprint r now new_id new_token t =
    acquire_checked r now new_id new_token t (check_request reprint r)
