-- ===== src/Lease/Once.antt =====
-- src/terminal.rs: the ids and sequences of the accepted commands of a history.
use astra_shell.Prelude.{
  ℕ, String, ◌≡◌, ◌≤◌, inl, inr, sym, ap, ◌∙◌, List, ◌∷◌, Among, Distinct, Option, some, arith,
}
use astra_shell.Lease.State.{Lease, Terminal}
use astra_shell.Lease.Commands.{Commanded}
use astra_shell.Lease.Effects.{
  Loses, Grants, Accepts, Outcome, as_accepted, as_refused, expire-Loses, release_lease-Loses,
  acquire-Grants,
}
use astra_shell.Lease.History.{
  History, log, LeaseStep, acquiring, commanding, expiring, disconnecting, Later, now_, then_,
  starts,
}
use astra_shell.Lease.Fencing.{run-Outcome}

-- The logs against the lease of a terminal.
pub record IsLog (t : Terminal) (issued : List String) (accepted : List (String × ℕ)) : Type 0 where
  pub current_issued : (l : Lease) → t.lease ≡ some l → Among l.id issued
  pub accepted_issued :
      (id : String) (sequence : ℕ) → Among (id, sequence) accepted → Among id issued
  pub below :
      (l : Lease) (sequence : ℕ)
      → t.lease ≡ some l
      → Among (l.id, sequence) accepted
      → sequence ≤ l.last_sequence
  pub distinct : Distinct accepted

Loses-lease : (t u : Terminal) (l : Lease) → Loses t u → u.lease ≡ some l → t.lease ≡ some l
Loses-lease t u l (inl same) e = sym same ∙ e
Loses-lease t u l (inr gone) e = cc

Loses-IsLog :
    (t u : Terminal) (issued : List String) (accepted : List (String × ℕ))
    → Loses t u
    → IsLog t issued accepted
    → IsLog u issued accepted
Loses-IsLog t u issued accepted loses inv = record {
  current_issued = λ l e. inv.current_issued l (Loses-lease t u l loses e);
  accepted_issued = inv.accepted_issued;
  below = λ l sequence e a. inv.below l sequence (Loses-lease t u l loses e) a;
  distinct = inv.distinct;
}

Grants-IsLog :
    (t u : Terminal) (new_id : String) (issued : List String) (accepted : List (String × ℕ))
    → ¬ Among new_id issued
    → Grants new_id t u
    → IsLog t issued accepted
    → IsLog u (new_id ∷ issued) accepted
Grants-IsLog t u new_id issued accepted fresh (inl loses) inv = record {
  current_issued = λ l e. inr (inv.current_issued l (Loses-lease t u l loses e));
  accepted_issued = λ id sequence a. inr (inv.accepted_issued id sequence a);
  below = λ l sequence e a. inv.below l sequence (Loses-lease t u l loses e) a;
  distinct = inv.distinct;
}
Grants-IsLog t u new_id issued accepted fresh (inr (g, has, is_new)) inv = record {
  current_issued = λ l e. let same : g ≡ l = cc in inl (sym (ap Lease.id same) ∙ is_new);
  accepted_issued = λ id sequence a. inr (inv.accepted_issued id sequence a);
  below = λ l sequence e a.
      let same : g ≡ l = cc in
      let l_new : l.id ≡ new_id = sym (ap Lease.id same) ∙ is_new in
      absurd (fresh (rw (sym l_new) (inv.accepted_issued l.id sequence a)));
  distinct = inv.distinct;
}

-- An accepted command was not accepted before.
Accepts-new :
    (t u : Terminal) (id : String) (sequence : ℕ) (issued : List String)
    (accepted : List (String × ℕ))
    → Accepts id sequence t u
    → IsLog t issued accepted
    → ¬ Among (id, sequence) accepted
Accepts-new t u id sequence issued accepted a inv again =
    let before : Among (a.current.id, sequence) accepted = rw a.is_id again in
    omega (arith, inv.below a.current sequence a.is_current before, a.is_next)

Accepts-IsLog :
    (t u : Terminal) (id : String) (sequence : ℕ) (issued : List String)
    (accepted : List (String × ℕ))
    → Accepts id sequence t u
    → IsLog t issued accepted
    → IsLog u issued ((id, sequence) ∷ accepted)
Accepts-IsLog t u id sequence issued accepted a inv =
    let was_issued : Among id issued =
      rw (sym a.is_id) (inv.current_issued a.current a.is_current) in
    record {
      current_issued = λ l e. elim a.then_has [
        | inl gone ↦ cc
        | inr (l', e', i', q) ↦
            let same : l' ≡ l = cc in rw (sym (ap Lease.id same) ∙ i') was_issued
      ];
      accepted_issued = λ j k among. elim among [
        | inl new ↦ rw (ap (λ (p : String × ℕ). p.0) new) was_issued
        | inr old ↦ inv.accepted_issued j k old
      ];
      below = λ l k e among. elim a.then_has [
        | inl gone ↦ cc
        | inr (l', e', i', q) ↦
            let same : l' ≡ l = cc in
            let last : l.last_sequence ≡ sequence = sym (ap Lease.last_sequence same) ∙ q in
            elim among [
              | inl new ↦ let k_is : k ≡ sequence = ap (λ (p : String × ℕ). p.1) new in omega arith
              | inr old ↦
                  let before : Among (a.current.id, k) accepted =
                    rw (a.is_id ∙ sym i' ∙ ap Lease.id same) old in
                  omega (arith, inv.below a.current k a.is_current before, a.is_next)
            ]
      ];
      distinct = (Accepts-new t u id sequence issued accepted a inv, inv.distinct);
    }

Outcome-IsLog :
    (t : Terminal) (id : String) (sequence : ℕ) (issued : List String)
    (accepted : List (String × ℕ)) (out : Commanded)
    → Outcome id sequence t out
    → IsLog t issued accepted
    → IsLog out.1 issued (log id sequence out.0 accepted)
Outcome-IsLog t id sequence issued accepted _ (as_accepted {u} a) inv =
    Accepts-IsLog t u id sequence issued accepted a inv
Outcome-IsLog t id sequence issued accepted _ (as_refused {e} {u} loses) inv =
    Loses-IsLog t u issued accepted loses inv

module _ (reprint : String → Option String) where
  LeaseStep-IsLog :
      {h i : History}
      → LeaseStep reprint h i
      → IsLog h.terminal h.issued h.accepted
      → IsLog i.terminal i.issued i.accepted
  LeaseStep-IsLog (acquiring r now new_id new_token h fresh) inv =
      Grants-IsLog h.terminal _ new_id h.issued h.accepted fresh
        (acquire-Grants reprint r now new_id new_token h.terminal) inv
  LeaseStep-IsLog (commanding lease_id sequence command h) inv =
      Outcome-IsLog h.terminal lease_id sequence h.issued h.accepted _
        (run-Outcome lease_id sequence command h.terminal) inv
  LeaseStep-IsLog (expiring lease_id now h) inv =
      Loses-IsLog h.terminal _ h.issued h.accepted (expire-Loses lease_id now h.terminal) inv
  LeaseStep-IsLog (disconnecting lease_id h) inv =
      Loses-IsLog h.terminal _ h.issued h.accepted (release_lease-Loses lease_id h.terminal) inv

  Later-IsLog :
      (t : Terminal) {h : History}
      → Later reprint (starts t) h
      → IsLog h.terminal h.issued h.accepted
  Later-IsLog t now_ = record {
    current_issued = λ l e. cc;
    accepted_issued = λ id sequence a. a;
    below = λ l sequence e a. absurd a;
    distinct = tt;
  }
  Later-IsLog t (then_ before step) = LeaseStep-IsLog step (Later-IsLog t before)

  -- In every history no command, that is no lease id with its sequence, is accepted twice.
  pub Later-Distinct :
      (t : Terminal) {h : History} → Later reprint (starts t) h → Distinct h.accepted
  Later-Distinct t later = (Later-IsLog t later).distinct
