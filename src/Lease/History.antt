-- ===== src/Lease/History.antt =====
-- src/terminal.rs: histories of a terminal's lease. A new lease has an id that was not issued before
-- (`Uuid::new_v4`). `issued` and `accepted` are the ids so far and the accepted commands, the newest first.
use astra_shell.Prelude.{ℕ, String, List, [], ◌∷◌, Among, Option, none}
use astra_shell.Prelude.Result.{Result, ok, err, panic}
use astra_shell.Lease.State.{Terminal, Geometry, LeaseError, expire_lease_if_due_at, release_lease}
use astra_shell.Lease.Acquire.{LeaseRequest, acquire_resumable_lease_at}
use astra_shell.Lease.Commands.{
  Commanded, Writing, Resizing, renew_lease_at, release_lease_command, write_input, resize,
}

-- The commands that carry a lease and a sequence.
pub data LeaseCommand : Type 0 where
  renew : (ttl checked_at now : ℕ) → LeaseCommand
  release : (now : ℕ) → LeaseCommand
  write : List ℕ → (now : ℕ) → Writing → LeaseCommand
  resize_to : Geometry → (now : ℕ) → Resizing → LeaseCommand

abbrev pub run : String → ℕ → LeaseCommand → Terminal → Commanded
run lease_id sequence (renew ttl checked_at now) t =
    renew_lease_at lease_id sequence ttl checked_at now t
run lease_id sequence (release now) t = release_lease_command lease_id sequence now t
run lease_id sequence (write bytes now writing) t =
    write_input lease_id sequence bytes now writing t
run lease_id sequence (resize_to g now resizing) t = resize lease_id sequence g now resizing t

pub record History : Type 0 where
  pub terminal : Terminal
  pub issued : List String
  pub accepted : List (String × ℕ)

abbrev pub log : String → ℕ → Result LeaseError Unit → List (String × ℕ) → List (String × ℕ)
log lease_id sequence (ok u) accepted = (lease_id, sequence) ∷ accepted
log lease_id sequence (err e) accepted = accepted
log lease_id sequence panic accepted = accepted

abbrev pub commanded : String → ℕ → LeaseCommand → History → History
commanded lease_id sequence command h =
    let out : Commanded = run lease_id sequence command h.terminal in
    record h { terminal = out.1; accepted = log lease_id sequence out.0 h.accepted }

module _ (reprint : String → Option String) where
  abbrev pub acquired : LeaseRequest → ℕ → String → String → History → History
  acquired r now new_id new_token h = record h {
    terminal = (acquire_resumable_lease_at reprint r now new_id new_token h.terminal).1;
    issued = new_id ∷ h.issued;
  }

  pub data LeaseStep : History → History → Type 0 where
    acquiring :
        (r : LeaseRequest) (now : ℕ) (new_id new_token : String) (h : History)
        → ¬ Among new_id h.issued
        → LeaseStep h (acquired r now new_id new_token h)
    commanding :
        (lease_id : String) (sequence : ℕ) (command : LeaseCommand) (h : History)
        → LeaseStep h (commanded lease_id sequence command h)
    expiring :
        (lease_id : String) (now : ℕ) (h : History)
        → LeaseStep h (record h { terminal = expire_lease_if_due_at lease_id now h.terminal })
    disconnecting :
        (lease_id : String) (h : History)
        → LeaseStep h (record h { terminal = release_lease lease_id h.terminal })

  pub data Later : History → History → Type 0 where
    now_ : {h : History} → Later h h
    then_ : {h i j : History} → Later h i → LeaseStep i j → Later h j

-- A terminal without a lease, and with no history.
abbrev pub starts : Terminal → History
starts t = record { terminal = record t { lease = none }; issued = []; accepted = [] }
