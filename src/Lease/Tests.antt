-- ===== src/Lease/Tests.antt =====
-- The theorems at a terminal whose lease is taken over.
use astra_shell.Prelude.{
  String, ◌≡◌, ◌≢◌, ◌↔◌, refl, ap, ◌∙◌, inl, inr, [], ◌∷◌, Among, Distinct, Bool, true, false,
  str_eq, str_eq_iff, Option, none, some,
}
use astra_shell.Prelude.Result.{ok}
use astra_shell.Prelude.U64
use astra_shell.Lease.State.{Lease, Geometry, Terminal, expire_lease_if_due_at}
use astra_shell.Lease.Acquire.{
  LeaseRequest, check_request, expire_current, admit, acquire_resumable_lease_at,
}
use astra_shell.Lease.Commands.{complete, check_lease, write_input}
use astra_shell.Lease.History.{
  LeaseCommand, write, History, run, acquired, commanded, acquiring, commanding, Later, now_, then_,
  starts,
}
use astra_shell.Lease.Fencing.{Holds, Revoked, Refused, Later-Refused}
use astra_shell.Lease.Once.{Later-Distinct}
use astra_shell.Lease.Authority.{IsOk, May, acquire_iff}

abbrev plain : String → Option String
plain id = some id

abbrev geometry : Geometry
geometry = record { rows = 24; cols = 80; pixel_width = 0; pixel_height = 0 }

abbrev fresh_terminal : Terminal
fresh_terminal = record {
  lease = none;
  recovery = none;
  recovery_generation = 0;
  lease_events = [];
  input = [];
  grid = geometry;
  pty = geometry;
  rows = 24;
  cols = 80;
}

abbrev asking : Bool → LeaseRequest
asking takeover = record {
  read_only = false;
  takeover = takeover;
  resume_token = "";
  ttl = some 15;
  client_id = some "c1";
}

abbrev typing : LeaseCommand
typing = write (97 ∷ []) 3 complete

abbrev first : History
first = acquired plain (asking false) 1 "l1" "k1" (starts fresh_terminal)

abbrev typed : History
typed = commanded "l1" 1 typing first

abbrev taken : History
taken = acquired plain (asking true) 5 "l2" "k2" typed

abbrev typed_again : History
typed_again = commanded "l2" 1 typing taken

different : (s t : String) → str_eq s t ≡ false → s ≢ t
different s t h e = cc (h, (str_eq_iff s t).1 e)

typed_steps : Later plain (starts fresh_terminal) typed
typed_steps =
    then_ (then_ now_ (acquiring (asking false) 1 "l1" "k1" _ (λ e. e)))
      (commanding "l1" 1 typing _)

taken_issued : ¬ Among "l2" typed.issued
taken_issued (inl e) = different "l2" "l1" refl e
taken_issued (inr e) = e

taken_lease :
    taken.terminal.lease
    ≡ some (record { id = "l2"; resume_token = "k2"; last_sequence = 0; expires_at = some 20 })
unfolding acquire_resumable_lease_at check_request admit write_input check_lease
    expire_lease_if_due_at U64.checked_add
taken_lease = refl

still_first : Holds taken.terminal "l1" → ◌≡◌ {A = String} "l2" "l1"
still_first (l, e, i) =
    let current : Lease = record {
      id = "l2";
      resume_token = "k2";
      last_sequence = 0;
      expires_at = some 20;
    } in
    let same : current ≡ l = cc (taken_lease, e) in ap Lease.id same ∙ i

l1-Revoked : Revoked taken "l1"
l1-Revoked = (inr (inl refl), λ held. different "l2" "l1" refl (still_first held))

refused_example : Refused typed_again.terminal (run "l1" 2 typing typed_again.terminal)
refused_example =
    Later-Refused plain "l1" 2 typing (then_ now_ (commanding "l2" 1 typing taken)) l1-Revoked

distinct_example : Distinct typed_again.accepted
distinct_example = Later-Distinct plain fresh_terminal (
    then_ (then_ typed_steps (acquiring (asking true) 5 "l2" "k2" typed taken_issued))
      (commanding "l2" 1 typing taken))

checked : check_request plain (asking false) ≡ ok tt
unfolding check_request
checked = refl

granted_example :
    IsOk (acquire_resumable_lease_at plain (asking false) 1 "l1" "k1" fresh_terminal).0
    ↔ May (asking false) (expire_current fresh_terminal none 1)
granted_example = acquire_iff plain (asking false) 1 "l1" "k1" fresh_terminal checked refl
