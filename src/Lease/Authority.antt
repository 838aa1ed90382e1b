-- ===== src/Lease/Authority.antt =====
-- src/terminal.rs: who is granted the lease.
use Prim.Native.Nat.{◌+◌, ◌^◌}
use astra_shell.Prelude.{
  is_some, ℕ, String, ◌≡◌, ◌≢◌, ◌<◌, ◌↔◌, inl, inr, refl, ap, ◌∙◌, Bool, true, false, str_eq,
  str_eq_iff, not-str_eq, if◌then◌else◌, Option, none, some, Bool-cases, arith,
}
use astra_shell.Prelude.Result.{Result, ok, err, panic}
use astra_shell.Prelude.U64
use astra_shell.Lease.State.{Lease, InputRecovery, Terminal, LeaseError}
use astra_shell.Lease.Acquire.{
  LeaseRequest, check_request, expire_current, recovers, has_token, authorized, admit, admitted_as,
  acquire_owned, read_only_grant, acquire_checked, acquire_resumable_lease_at,
}

-- The credentials that a request without takeover shows.
pub data Shows (token : String) (t : Terminal) : Option String → Type 0 where
  its_recovery :
      {id : String}
      → t.recovery ≡ some (record { client_id = id; token = token })
      → Shows token t (some id)
  its_lease :
      {l : Lease}
      → t.recovery ≡ none
      → t.lease ≡ some l
      → l.resume_token ≡ token
      → Shows token t none

-- A request that is granted. Without takeover it shows a token that is not empty, with the credentials it
-- needs, or shows none and finds neither lease nor recovery record. With takeover the token is not read.
pub data May (r : LeaseRequest) (t : Terminal) : Type 0 where
  by_credentials :
      r.takeover ≡ false → r.resume_token ≢ "" → Shows r.resume_token t r.client_id → May r t
  by_takeover : r.takeover ≡ true → t.recovery_generation + 1 < 2 ^ 64 → May r t
  when_free :
      r.takeover ≡ false
      → r.resume_token ≡ ""
      → t.lease ≡ none
      → t.recovery ≡ none
      → t.recovery_generation + 1 < 2 ^ 64
      → May r t

abbrev pub IsOk : {E A : Type 0} → Result E A → Type 0
IsOk {E} {A} r = (a : A) × (r ≡ ok a)

recovers-eq :
    (id token : String) (record_ : Option InputRecovery)
    → recovers id token record_ ≡ true
    → record_ ≡ some (record { client_id = id; token = token })
recovers-eq id token none h = cc
recovers-eq id token (some r) h =
    let same_id : r.client_id ≡ id = ground (arith, str_eq_iff r.client_id id) in
    let same_token : r.token ≡ token = ground (arith, str_eq_iff r.token token) in
    λ i. some (record { client_id = same_id i; token = same_token i })

has_token-eq :
    (token : String) (l : Option Lease)
    → has_token token l ≡ true
    → (current : Lease) × (l ≡ some current) × (current.resume_token ≡ token)
has_token-eq token none h = cc
has_token-eq token (some l) h = (l, refl, (str_eq_iff l.resume_token token).0 h)

is_some-none : {A : Type 0} (o : Option A) → is_some o ≡ false → o ≡ none
is_some-none none h = refl
is_some-none (some a) h = cc

authorized-Shows :
    (c : Option String) (token : String) (t : Terminal)
    → authorized c token t ≡ true
    → Shows token t c
authorized-Shows (some id) token t h = its_recovery (recovers-eq id token t.recovery h)
authorized-Shows none token t h =
    let (l, has, same) = has_token-eq token t.lease (ground arith) in
    its_lease (is_some-none t.recovery (ground arith)) has same

Shows-authorized :
    (c : Option String) (token : String) (t : Terminal)
    → Shows token t c
    → authorized c token t ≡ true
Shows-authorized (some id) token t (its_recovery e) =
    rw e (ground (arith, (str_eq_iff id id).1 refl, (str_eq_iff token token).1 refl))
Shows-authorized none token t (its_lease {l} free has same) =
    rw (free, has) ((str_eq_iff l.resume_token token).1 same)

admit-May : (r : LeaseRequest) (t : Terminal) → IsOk (admit r t) → May r t
unfolding admit U64.checked_add
admit-May r t (g, h) = elim (Bool-cases r.takeover) [
  | inl taking ↦ by_takeover taking (ground arith)
  | inr polite ↦ elim (Bool-cases (str_eq r.resume_token "")) [
    | inl empty ↦
        let no_lease : is_some t.lease ≡ false = ground arith in
        let no_recovery : is_some t.recovery ≡ false = ground arith in
        when_free polite ((str_eq_iff r.resume_token "").0 empty) (is_some-none t.lease no_lease)
          (is_some-none t.recovery no_recovery) (ground arith)
    | inr shown ↦
        by_credentials polite ((not-str_eq r.resume_token "").0 (rw shown refl))
          (authorized-Shows r.client_id r.resume_token t (ground arith))
  ]
]

May-admit : (r : LeaseRequest) (t : Terminal) → May r t → IsOk (admit r t)
unfolding admit U64.checked_add
May-admit r t (by_credentials polite shown shows) =
    let auth = Shows-authorized r.client_id r.resume_token t shows in
    let here = (not-str_eq r.resume_token "").1 shown in (t.recovery_generation, ground arith)
May-admit r t (by_takeover taking room) = (t.recovery_generation + 1, ground arith)
May-admit r t (when_free polite empty free alone room) =
    let here = (str_eq_iff r.resume_token "").1 empty in
    let no_lease : is_some t.lease ≡ false = rw free refl in
    let no_recovery : is_some t.recovery ≡ false = rw alone refl in
    (t.recovery_generation + 1, ground arith)

admitted-IsOk :
    (r : LeaseRequest) (now : ℕ) (new_id new_token : String) (t : Terminal)
    (a : Result LeaseError ℕ)
    → IsOk (admitted_as r now new_id new_token t a).0 ↔ IsOk a
admitted-IsOk r now new_id new_token t (ok g) = (λ h. (g, refl), λ h. (_, refl))
admitted-IsOk r now new_id new_token t (err e) = (λ h. cc (h.1), λ h. cc (h.1))
admitted-IsOk r now new_id new_token t panic = (λ h. cc (h.1), λ h. cc (h.1))

-- A valid request for the input is granted exactly if, after the expiry of a lease that is due, one of three
-- holds. It does not take over and shows a nonempty token: that of the recovery record with the client id of
-- the record, or, without a client id, that of the lease when there is no recovery record. It takes over,
-- and the next generation is below 2^64. It does not take over, its token is empty, there is neither a lease
-- nor a recovery record, and the next generation is below 2^64.
pub acquire_iff :
    (reprint : String → Option String) (r : LeaseRequest) (now : ℕ) (new_id new_token : String)
    (t : Terminal)
    → check_request reprint r ≡ ok tt
    → r.read_only ≡ false
    → IsOk (acquire_resumable_lease_at reprint r now new_id new_token t).0
      ↔ May r (expire_current t t.lease now)
unfolding acquire_resumable_lease_at
acquire_iff reprint r now new_id new_token t valid owning =
    let u : Terminal = expire_current t t.lease now in
    let same : acquire_resumable_lease_at reprint r now new_id new_token t
        ≡ acquire_owned r now new_id new_token u =
      ap (acquire_checked r now new_id new_token t) valid
      ∙ ap
          (λ (b : Bool).
            if b then (ok read_only_grant, t) else acquire_owned r now new_id new_token u)
          owning in
    let (fwd, bwd) = admitted-IsOk r now new_id new_token u (admit r u) in
    rw same (λ h. admit-May r u (fwd h), λ m. bwd (May-admit r u m))
