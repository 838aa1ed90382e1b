-- ===== src/Lease/Fencing.antt =====
-- src/terminal.rs: the commands under an id that is not that of the current lease.
use Prim.Native.Nat.{◌+◌}
use astra_shell.Prelude.{
  ℕ, String, ◌≡◌, ◌≢◌, ◌⊎◌, inl, inr, refl, sym, ap, ◌∙◌, Among, Option, none, some, str_eq, ◌&&◌,
  Bool-cases, arith,
}
use astra_shell.Prelude.Result.{Result, ok, err, panic}
use astra_shell.Lease.State.{
  Lease, Terminal, LeaseError, is_due, expire_from, expire_lease_if_due_at, release_lease,
}
use astra_shell.Lease.Commands.{
  check_lease, with_lease, Commanded, check_geometry, resize_checked, under_lease, renewed,
  released_by, written_by, resized_by, Resizing, renew_lease_at, release_lease_command, write_input,
  resize,
}
use astra_shell.Lease.State.{Geometry}
use astra_shell.Lease.Effects.{
  check_lease-ok, check_lease_returns, Loses, Grants, Accepts, Outcome, as_accepted, as_refused,
  expire-Loses, release_lease-Loses, acquire-Grants, under_lease-Outcome, renewed-Runs,
  released-Runs, written-Runs, resized-Runs,
}
use astra_shell.Lease.History.{
  LeaseCommand, renew, release, write, resize_to, run, History, acquired, LeaseStep, acquiring,
  commanding, expiring, disconnecting, Later, now_, then_,
}

resize_checked-Outcome :
    (id : String) (sequence : ℕ) (g : Geometry) (now : ℕ) (r : Resizing) (t : Terminal)
    (c : Result LeaseError Unit)
    → c ≢ panic
    → Outcome id sequence t (resize_checked id sequence g now r t c)
resize_checked-Outcome id sequence g now r t (ok u) returns =
    under_lease-Outcome id sequence now (resized_by g sequence r) t (resized-Runs id sequence g r)
resize_checked-Outcome id sequence g now r t (err e) returns = as_refused (inl refl)
resize_checked-Outcome id sequence g now r t panic returns = absurd (returns refl)

check_geometry_returns : (g : Geometry) → check_geometry g ≢ panic
check_geometry_returns g h = ground arith

pub run-Outcome :
    (id : String) (sequence : ℕ) (c : LeaseCommand) (t : Terminal)
    → Outcome id sequence t (run id sequence c t)
unfolding renew_lease_at release_lease_command write_input resize
run-Outcome id sequence (renew ttl checked_at now) t =
    under_lease-Outcome id sequence checked_at _ t (renewed-Runs id sequence (now + ttl))
run-Outcome id sequence (release now) t =
    under_lease-Outcome id sequence now _ t (released-Runs id sequence)
run-Outcome id sequence (write bytes now w) t =
    under_lease-Outcome id sequence now _ t (written-Runs id sequence bytes w)
run-Outcome id sequence (resize_to g now r) t =
    resize_checked-Outcome id sequence g now r t (check_geometry g) (check_geometry_returns g)

abbrev pub Holds : Terminal → String → Type 0
Holds t id = (l : Lease) × (t.lease ≡ some l) × (l.id ≡ id)

-- The id was issued, and its lease is not the current one.
abbrev pub Revoked : History → String → Type 0
Revoked h id = Among id h.issued × ¬ Holds h.terminal id

Loses-Holds : (t u : Terminal) (id : String) → Loses t u → Holds u id → Holds t id
Loses-Holds t u id (inl same) (l, e, i) = (l, sym same ∙ e, i)
Loses-Holds t u id (inr gone) (l, e, i) = cc

Accepts-Holds :
    {t u : Terminal} {id : String} {sequence : ℕ} {other : String}
    → Accepts id sequence t u
    → Holds u other
    → Holds t other
Accepts-Holds {t} {u} {id} {sequence} {other} a (l, e, i) = elim a.then_has [
  | inl gone ↦ cc
  | inr (l', e', i', q) ↦
      let same : l' ≡ l = cc in (a.current, a.is_current, a.is_id ∙ sym i' ∙ ap Lease.id same ∙ i)
]

Outcome-Holds :
    (t : Terminal) (id other : String) (sequence : ℕ) (out : Commanded)
    → Outcome id sequence t out
    → Holds out.1 other
    → Holds t other
Outcome-Holds t id other sequence _ (as_accepted a) held = Accepts-Holds a held
Outcome-Holds t id other sequence _ (as_refused {u} loses) held = Loses-Holds t u other loses held

Grants-Holds :
    (t u : Terminal) (new_id id : String)
    → Grants new_id t u
    → Holds u id
    → Holds t id ⊎ (id ≡ new_id)
Grants-Holds t u new_id id (inl loses) held = inl (Loses-Holds t u id loses held)
Grants-Holds t u new_id id (inr (l', e', i')) (l, e, i) =
    let same : l' ≡ l = cc in inr (sym i ∙ sym (ap Lease.id same) ∙ i')

-- What an operation without authority leaves alone.
abbrev pub Untouched : Terminal → Terminal → Type 0
Untouched t u =
    (u.input ≡ t.input) × (u.grid ≡ t.grid) × (u.pty ≡ t.pty) × (u.recovery ≡ t.recovery)

expire_from-Untouched :
    (t : Terminal) (l : Option Lease) (id : String) (now : ℕ) → Untouched t (expire_from t l id now)
expire_from-Untouched t none id now = (refl, refl, refl, refl)
expire_from-Untouched t (some current) id now =
    elim (Bool-cases (str_eq current.id id && is_due current.expires_at now)) [
      | inl due ↦ rw due (refl, refl, refl, refl)
      | inr fresh ↦ rw fresh (refl, refl, refl, refl)
    ]

expire-Untouched :
    (id : String) (now : ℕ) (t : Terminal) → Untouched t (expire_lease_if_due_at id now t)
unfolding expire_lease_if_due_at
expire-Untouched id now t = expire_from-Untouched t t.lease id now

-- The command is an error, and does nothing but the expiry.
abbrev pub Refused : Terminal → Commanded → Type 0
Refused t out = (e : LeaseError) × (out.0 ≡ err e) × Untouched t out.1

with_lease-Refused :
    (id : String) (sequence : ℕ) (command : Lease → Terminal → Commanded) (t u : Terminal)
    (c : Result LeaseError Lease)
    → ¬ Holds u id
    → Untouched t u
    → check_lease id sequence u.lease ≡ c
    → Refused t (with_lease command u c)
with_lease-Refused id sequence command t u (ok current) lost un e =
    let (has, same, next) = check_lease-ok id sequence u.lease current e in
    absurd (lost (current, has, same))
with_lease-Refused id sequence command t u (err x) lost un e = (x, refl, un)
with_lease-Refused id sequence command t u panic lost un e =
    absurd (check_lease_returns id sequence u.lease e)

under_lease-Refused :
    (id : String) (sequence now : ℕ) (command : Lease → Terminal → Commanded) (t : Terminal)
    → ¬ Holds t id
    → Refused t (under_lease id sequence now command t)
under_lease-Refused id sequence now command t lost =
    with_lease-Refused id sequence command t (expire_lease_if_due_at id now t) _
      (λ held.
        lost (Loses-Holds t (expire_lease_if_due_at id now t) id (expire-Loses id now t) held))
      (expire-Untouched id now t) refl

resize_checked-Refused :
    (id : String) (sequence : ℕ) (g : Geometry) (now : ℕ) (r : Resizing) (t : Terminal)
    (c : Result LeaseError Unit)
    → c ≢ panic
    → ¬ Holds t id
    → Refused t (resize_checked id sequence g now r t c)
resize_checked-Refused id sequence g now r t (ok u) returns lost =
    under_lease-Refused id sequence now (resized_by g sequence r) t lost
resize_checked-Refused id sequence g now r t (err e) returns lost =
    (e, refl, (refl, refl, refl, refl))
resize_checked-Refused id sequence g now r t panic returns lost = absurd (returns refl)

run-Refused :
    (id : String) (sequence : ℕ) (c : LeaseCommand) (t : Terminal)
    → ¬ Holds t id
    → Refused t (run id sequence c t)
unfolding renew_lease_at release_lease_command write_input resize
run-Refused id sequence (renew ttl checked_at now) t lost =
    under_lease-Refused id sequence checked_at (renewed sequence (now + ttl)) t lost
run-Refused id sequence (release now) t lost =
    under_lease-Refused id sequence now (released_by id) t lost
run-Refused id sequence (write bytes now w) t lost =
    under_lease-Refused id sequence now (written_by bytes sequence w) t lost
run-Refused id sequence (resize_to g now r) t lost =
    resize_checked-Refused id sequence g now r t (check_geometry g) (check_geometry_returns g) lost

module _ (reprint : String → Option String) where
  LeaseStep-Revoked :
      {h i : History} (id : String) → LeaseStep reprint h i → Revoked h id → Revoked i id
  LeaseStep-Revoked id (acquiring r now new_id new_token h fresh) (issued, lost) = (
    inr issued,
    λ held.
        elim (Grants-Holds h.terminal (acquired reprint r now new_id new_token h).terminal new_id id
          (acquire-Grants reprint r now new_id new_token h.terminal) held) [
            | inl before ↦ lost before
            | inr same ↦ fresh (rw (sym same) issued)
          ],
  )
  LeaseStep-Revoked id (commanding lease_id sequence command h) (issued, lost) = (
    issued,
    λ held. lost (
        Outcome-Holds h.terminal lease_id id sequence _
          (run-Outcome lease_id sequence command h.terminal) held),
  )
  LeaseStep-Revoked id (expiring lease_id now h) (issued, lost) = (
    issued,
    λ held. lost (
        Loses-Holds h.terminal (expire_lease_if_due_at lease_id now h.terminal) id
          (expire-Loses lease_id now h.terminal) held),
  )
  LeaseStep-Revoked id (disconnecting lease_id h) (issued, lost) = (
    issued,
    λ held. lost (
        Loses-Holds h.terminal (release_lease lease_id h.terminal) id
          (release_lease-Loses lease_id h.terminal) held),
  )

  Later-Revoked : {h i : History} (id : String) → Later reprint h i → Revoked h id → Revoked i id
  Later-Revoked id now_ r = r
  Later-Revoked id (then_ before step) r = LeaseStep-Revoked id step (Later-Revoked id before r)

  -- Once the lease of an issued id is no longer the current one, every later command with this id is an
  -- error, whatever has happened in between, and leaves the input, the sizes and the recovery record alone.
  pub Later-Refused :
      {h i : History} (id : String) (sequence : ℕ) (c : LeaseCommand)
      → Later reprint h i
      → Revoked h id
      → Refused i.terminal (run id sequence c i.terminal)
  Later-Refused {i} id sequence c later r =
      run-Refused id sequence c i.terminal (Later-Revoked id later r).1
