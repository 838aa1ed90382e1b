-- ===== src/Lease/Effects.antt =====
-- src/terminal.rs: what each operation does to the lease.
use astra_shell.Prelude.{
  ℕ, String, ◌≡◌, ◌≢◌, ◌<◌, ◌⊎◌, inl, inr, refl, sym, ap, ◌∙◌, List, true, false, ◌&&◌, str_eq,
  str_eq_iff, if◌then◌else◌, Option, none, some, Bool-cases, arith,
}
use astra_shell.Prelude.Result.{Result, ok, err, panic}
use astra_shell.Lease.State.{
  Lease, Geometry, Terminal, LeaseError, is_due, expire_from, expire_lease_if_due_at, release_from,
  release_lease,
}
use astra_shell.Lease.Acquire.{
  LeaseRequest, check_request, expire_current, admit, admitted_as, read_only_grant, acquire_owned,
  acquire_checked, acquire_resumable_lease_at,
}
use astra_shell.Lease.Commands.{
  Commanded, check_lease, with_lease, under_lease, renewed, released_by, written_by, Writing,
  complete, breaks_after, resized_by, Resizing, both_resize, engine_fails, pty_fails,
}

-- The lease is the one before, or gone.
abbrev pub Loses : Terminal → Terminal → Type 0
Loses t u = (u.lease ≡ t.lease) ⊎ (u.lease ≡ none)

-- The lease is a new one with this id, or else as in `Loses`.
abbrev pub Grants : String → Terminal → Terminal → Type 0
Grants new_id t u = Loses t u ⊎ ((l : Lease) × (u.lease ≡ some l) × (l.id ≡ new_id))

-- The lease had this id and a smaller sequence; it has gone, or has the sequence.
pub record Accepts (lease_id : String) (sequence : ℕ) (t u : Terminal) : Type 0 where
  pub current : Lease
  pub is_current : t.lease ≡ some current
  pub is_id : current.id ≡ lease_id
  pub is_next : current.last_sequence < sequence
  pub then_has :
      (u.lease ≡ none)
      ⊎ ((l : Lease) × (u.lease ≡ some l) × (l.id ≡ lease_id) × (l.last_sequence ≡ sequence))

expire_from-Loses :
    (t : Terminal) (l : Option Lease) (id : String) (now : ℕ) → Loses t (expire_from t l id now)
expire_from-Loses t none id now = inl refl
expire_from-Loses t (some current) id now =
    elim (Bool-cases (str_eq current.id id && is_due current.expires_at now)) [
      | inl due ↦ rw due (inr refl)
      | inr fresh ↦ rw fresh (inl refl)
    ]

pub expire-Loses :
    (id : String) (now : ℕ) (t : Terminal) → Loses t (expire_lease_if_due_at id now t)
unfolding expire_lease_if_due_at
expire-Loses id now t = expire_from-Loses t t.lease id now

release_from-Loses : (t : Terminal) (l : Option Lease) (id : String) → Loses t (release_from t l id)
release_from-Loses t none id = inl refl
release_from-Loses t (some current) id = elim (Bool-cases (str_eq current.id id)) [
  | inl same ↦ rw same (inr refl)
  | inr other ↦ rw other (inl refl)
]

pub release_lease-Loses : (id : String) (t : Terminal) → Loses t (release_lease id t)
unfolding release_lease
release_lease-Loses id t = elim (Bool-cases (str_eq id "")) [
  | inl empty ↦ rw empty (inl refl)
  | inr some_ ↦ rw some_ (release_from-Loses t t.lease id)
]

expire_current-Loses :
    (t : Terminal) (l : Option Lease) (now : ℕ) → Loses t (expire_current t l now)
expire_current-Loses t none now = inl refl
expire_current-Loses t (some current) now = elim (Bool-cases (is_due current.expires_at now)) [
  | inl due ↦ rw due (inr refl)
  | inr fresh ↦ rw fresh (inl refl)
]

admitted_as-Grants :
    (r : LeaseRequest) (now : ℕ) (new_id new_token : String) (t u : Terminal)
    (a : Result LeaseError ℕ)
    → Loses t u
    → Grants new_id t (admitted_as r now new_id new_token u a).1
admitted_as-Grants r now new_id new_token t u (ok generation) loses = inr (_, refl, refl)
admitted_as-Grants r now new_id new_token t u (err e) loses = inl loses
admitted_as-Grants r now new_id new_token t u panic loses = inl loses

acquire_checked-Grants :
    (r : LeaseRequest) (now : ℕ) (new_id new_token : String) (t : Terminal)
    (c : Result LeaseError Unit)
    → Grants new_id t (acquire_checked r now new_id new_token t c).1
acquire_checked-Grants r now new_id new_token t (err e) = inl (inl refl)
acquire_checked-Grants r now new_id new_token t panic = inl (inl refl)
acquire_checked-Grants r now new_id new_token t (ok u) =
    elim r.read_only
      as (λ b.
        Grants new_id t
          (if b
            then (ok read_only_grant, t)
            else acquire_owned r now new_id new_token (expire_current t t.lease now)).1) [
              | true ↦ inl (inl refl)
              | false ↦
                  admitted_as-Grants r now new_id new_token t (expire_current t t.lease now)
                    (admit r (expire_current t t.lease now)) (expire_current-Loses t t.lease now)
            ]

pub acquire-Grants :
    (reprint : String → Option String) (r : LeaseRequest) (now : ℕ) (new_id new_token : String)
    (t : Terminal)
    → Grants new_id t (acquire_resumable_lease_at reprint r now new_id new_token t).1
unfolding acquire_resumable_lease_at
acquire-Grants reprint r now new_id new_token t =
    acquire_checked-Grants r now new_id new_token t (check_request reprint r)

-- Every outcome of a command with this id and sequence.
pub data Outcome (lease_id : String) (sequence : ℕ) (t : Terminal) : Commanded → Type 0 where
  as_accepted :
      {u : Terminal} → Accepts lease_id sequence t u → Outcome lease_id sequence t (ok tt, u)
  as_refused : {e : LeaseError} {u : Terminal} → Loses t u → Outcome lease_id sequence t (err e, u)

pub check_lease-ok :
    (id : String) (sequence : ℕ) (l : Option Lease) (current : Lease)
    → check_lease id sequence l ≡ ok current
    → (l ≡ some current) × (current.id ≡ id) × (current.last_sequence < sequence)
unfolding check_lease
check_lease-ok id sequence none current h = cc
check_lease-ok id sequence (some l) current h =
    let same : l ≡ current = ground arith in
    (
      ap some same,
      ground (arith, str_eq_iff l.id id, ap Lease.id same),
      ground (arith, ap Lease.last_sequence same),
    )

pub check_lease_returns :
    (id : String) (sequence : ℕ) (l : Option Lease) → check_lease id sequence l ≢ panic
unfolding check_lease
check_lease_returns id sequence none h = cc
check_lease_returns id sequence (some l) h = ground arith

pub still_current :
    (t u : Terminal) (current : Lease) → Loses t u → u.lease ≡ some current → t.lease ≡ some current
still_current t u current (inl same) e = sym same ∙ e
still_current t u current (inr gone) e = cc

-- What a command does once its lease is checked.
abbrev pub Runs : String → ℕ → (Lease → Terminal → Commanded) → Type 0
Runs lease_id sequence run =
    (current : Lease) (t u : Terminal)
    → Loses t u
    → t.lease ≡ some current
    → u.lease ≡ some current
    → current.id ≡ lease_id
    → current.last_sequence < sequence
    → Outcome lease_id sequence t (run current u)

with_lease-Outcome :
    (id : String) (sequence : ℕ) (run : Lease → Terminal → Commanded) (t u : Terminal)
    (c : Result LeaseError Lease)
    → Runs id sequence run
    → Loses t u
    → check_lease id sequence u.lease ≡ c
    → Outcome id sequence t (with_lease run u c)
with_lease-Outcome id sequence run t u (ok current) runs loses e =
    let (has, same, next) = check_lease-ok id sequence u.lease current e in
    runs current t u loses (still_current t u current loses has) has same next
with_lease-Outcome id sequence run t u (err x) runs loses e = as_refused loses
with_lease-Outcome id sequence run t u panic runs loses e =
    absurd (check_lease_returns id sequence u.lease e)

pub under_lease-Outcome :
    (id : String) (sequence now : ℕ) (run : Lease → Terminal → Commanded) (t : Terminal)
    → Runs id sequence run
    → Outcome id sequence t (under_lease id sequence now run t)
under_lease-Outcome id sequence now run t runs =
    with_lease-Outcome id sequence run t (expire_lease_if_due_at id now t) _ runs
      (expire-Loses id now t) refl

pub renewed-Runs : (id : String) (sequence until : ℕ) → Runs id sequence (renewed sequence until)
renewed-Runs id sequence until current t u loses has_t has same next = as_accepted (record {
  current = current;
  is_current = has_t;
  is_id = same;
  is_next = next;
  then_has = inr (_, refl, same, refl);
})

pub released-Runs : (id : String) (sequence : ℕ) → Runs id sequence (released_by id)
released-Runs id sequence current t u loses has_t has same next = as_accepted (record {
  current = current;
  is_current = has_t;
  is_id = same;
  is_next = next;
  then_has = inl refl;
})

pub written-Runs :
    (id : String) (sequence : ℕ) (bytes : List ℕ) (w : Writing)
    → Runs id sequence (written_by bytes sequence w)
written-Runs id sequence bytes complete current t u loses has_t has same next =
    as_accepted (record {
      current = current;
      is_current = has_t;
      is_id = same;
      is_next = next;
      then_has = inr (_, refl, same, refl);
    })
written-Runs id sequence bytes (breaks_after part) current t u loses has_t has same next =
    as_refused loses

pub resized-Runs :
    (id : String) (sequence : ℕ) (g : Geometry) (r : Resizing)
    → Runs id sequence (resized_by g sequence r)
resized-Runs id sequence g both_resize current t u loses has_t has same next = as_accepted (record {
  current = current;
  is_current = has_t;
  is_id = same;
  is_next = next;
  then_has = inr (_, refl, same, refl);
})
resized-Runs id sequence g engine_fails current t u loses has_t has same next = as_refused loses
resized-Runs id sequence g pty_fails current t u loses has_t has same next = as_refused loses
