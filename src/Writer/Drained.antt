-- ===== src/Writer/Drained.antt =====
-- src/queued_writer.rs: the invariant of the writer and its drain.
use Prim.Native.Nat.{◌+◌, ◌-◌}
use mathlib.Core.List.{append-nil, append_assoc}
use astra_shell.Prelude.{
  ℕ, ◌≡◌, ◌≤◌, refl, sym, ap, ◌∙◌, List, [], ◌∷◌, ◌++◌, Bool, true, false, Option, none, some,
  length, arith, length-append,
}
use astra_shell.Prelude.U64
use astra_shell.Writer.Queue.{
  max_queued_bytes, Queue, fetch_sub, within_budget, reserved_as, reserve_bytes, reserve_from,
  hand_from, finish_from, handed, hand_over, receive_from, receive_next, finish_write, fail_write,
  QueueStep, reserving, handing, receiving, finishing, failing, shutting, ending, reserve_if,
  ended_if, end_drain, poll_shutdown, Queues, at_start, and_then,
}

abbrev pub bytes_of_held : Option (List ℕ) → List ℕ
bytes_of_held none = []
bytes_of_held (some bytes) = bytes

abbrev pub joined : List (List ℕ) → List ℕ
joined [] = []
joined (b ∷ rest) = b ++ joined rest

-- The bytes on their way: at the writer, in the channel, and reserved.
abbrev pub waiting : Queue → ℕ
waiting q =
    length (bytes_of_held q.writing) + length (joined q.sent) + length (bytes_of_held q.held)

pub record IsQueue (q : Queue) : Type 0 where
  pub in_budget : q.queued ≤ 20971520
  pub covers : waiting q ≤ q.queued
  pub exact : q.is_draining ≡ true → q.queued ≡ waiting q
  pub in_order :
      q.is_draining ≡ true → q.accepted ≡ q.written ++ (bytes_of_held q.writing ++ joined q.sent)

fetch_sub-sub : (a n : ℕ) → n ≤ a → a ≤ 20971520 → fetch_sub a n ≡ a - n
fetch_sub-sub a n l b = omega arith

joined-snoc : (bs : List (List ℕ)) (b : List ℕ) → joined (bs ++ b ∷ []) ≡ joined bs ++ b
joined-snoc [] b = append-nil b
joined-snoc (x ∷ bs) b = ap (λ ys. x ++ ys) (joined-snoc bs b) ∙ sym (append_assoc x (joined bs) b)

within_budget-some :
    (a n next : ℕ)
    → within_budget (U64.checked_add a n) ≡ some next
    → (next ≡ a + n) × (next ≤ 20971520)
unfolding U64.checked_add
within_budget-some a n next h = (ground arith, ground arith)

reserved-IsQueue :
    (q : Queue) (bytes : List ℕ) (next : Option ℕ)
    → q.held ≡ none
    → within_budget (U64.checked_add q.queued (length bytes)) ≡ next
    → IsQueue q
    → IsQueue (reserved_as q bytes next)
reserved-IsQueue q bytes none e w inv = inv
reserved-IsQueue q bytes (some next) e w inv =
    let (sum, small) = within_budget-some q.queued (length bytes) next w in
    let held : length (bytes_of_held q.held) ≡ 0 = rw e refl in
    record {
      in_budget = small;
      covers = omega (arith, inv.covers);
      exact = λ d. omega (arith, inv.exact d);
      in_order = inv.in_order;
    }

reserve_from-IsQueue :
    (bytes : List ℕ) (q : Queue) (held : Option (List ℕ))
    → q.held ≡ held
    → IsQueue q
    → IsQueue (reserve_from bytes q held)
reserve_from-IsQueue bytes q (some b) e inv = inv
reserve_from-IsQueue bytes q none e inv = reserved-IsQueue q bytes _ e refl inv

handed-IsQueue :
    (q : Queue) (bytes : List ℕ) (fits : Bool)
    → q.held ≡ some bytes
    → IsQueue q
    → IsQueue (handed q bytes fits)
handed-IsQueue q bytes true e inv =
    let held : length (bytes_of_held q.held) ≡ length bytes = rw e refl in
    let more : length (joined (q.sent ++ bytes ∷ [])) ≡ length (joined q.sent) + length bytes =
      ap length (joined-snoc q.sent bytes) ∙ length-append (joined q.sent) bytes in
    record {
      in_budget = inv.in_budget;
      covers = omega (arith, inv.covers);
      exact = λ d. omega (arith, inv.exact d);
      in_order = λ d.
          rw (inv.in_order d, joined-snoc q.sent bytes)
            (append_assoc q.written (bytes_of_held q.writing ++ joined q.sent) bytes
              ∙ ap (λ ys. q.written ++ ys)
                  (append_assoc (bytes_of_held q.writing) (joined q.sent) bytes));
    }
handed-IsQueue q bytes false e inv =
    let held : length (bytes_of_held q.held) ≡ length bytes = rw e refl in
    let less : fetch_sub q.queued (length bytes) ≡ q.queued - length bytes =
      fetch_sub-sub q.queued (length bytes) (omega (arith, inv.covers)) inv.in_budget in
    record {
      in_budget = omega (arith, inv.in_budget);
      covers = omega (arith, inv.covers);
      exact = λ d. omega (arith, inv.exact d);
      in_order = inv.in_order;
    }

hand_from-IsQueue :
    (q : Queue) (held : Option (List ℕ)) → q.held ≡ held → IsQueue q → IsQueue (hand_from q held)
hand_from-IsQueue q none e inv = inv
hand_from-IsQueue q (some bytes) e inv = handed-IsQueue q bytes _ e inv

received-IsQueue :
    (q : Queue) (writing : Option (List ℕ)) (sent : List (List ℕ))
    → q.writing ≡ writing
    → q.sent ≡ sent
    → IsQueue q
    → IsQueue (receive_from q writing sent)
received-IsQueue q (some bytes) sent e es inv = inv
received-IsQueue q none [] e es inv = inv
received-IsQueue q none (bytes ∷ rest) e es inv =
    let none_ : length (bytes_of_held q.writing) ≡ 0 = rw e refl in
    let both : length (joined q.sent) ≡ length bytes + length (joined rest) =
      rw es (length-append bytes (joined rest)) in
    record {
      in_budget = inv.in_budget;
      covers = omega (arith, inv.covers);
      exact = λ d. omega (arith, inv.exact d);
      in_order = λ d. rw (e, es) at (inv.in_order d);
    }

finish_from-IsQueue :
    (q : Queue) (writing : Option (List ℕ))
    → q.writing ≡ writing
    → IsQueue q
    → IsQueue (finish_from q writing)
finish_from-IsQueue q none e inv = inv
finish_from-IsQueue q (some bytes) e inv =
    let held : length (bytes_of_held q.writing) ≡ length bytes = rw e refl in
    let less : fetch_sub q.queued (length bytes) ≡ q.queued - length bytes =
      fetch_sub-sub q.queued (length bytes) (omega (arith, inv.covers)) inv.in_budget in
    record {
      in_budget = omega (arith, inv.in_budget);
      covers = omega (arith, inv.covers);
      exact = λ d. omega (arith, inv.exact d);
      in_order =
          λ d. (rw e at (inv.in_order d)) ∙ sym (append_assoc q.written bytes (joined q.sent));
    }

fail_write-IsQueue : (q : Queue) → IsQueue q → IsQueue (fail_write q)
unfolding fail_write
fail_write-IsQueue q inv = record {
  in_budget = inv.in_budget;
  covers = omega (arith, inv.covers);
  exact = λ d. cc;
  in_order = λ d. cc;
}

reserve_if-IsQueue :
    (b : Bool) (bytes : List ℕ) (q : Queue) → IsQueue q → IsQueue (reserve_if b bytes q)
reserve_if-IsQueue true bytes q inv = reserve_from-IsQueue bytes q q.held refl inv
reserve_if-IsQueue false bytes q inv = inv

ended_if-IsQueue : (b : Bool) (q : Queue) → IsQueue q → IsQueue (ended_if b q)
ended_if-IsQueue true q inv = record {
  in_budget = inv.in_budget;
  covers = inv.covers;
  exact = λ d. cc;
  in_order = λ d. cc;
}
ended_if-IsQueue false q inv = inv

poll_shutdown-IsQueue : (q : Queue) → IsQueue q → IsQueue (poll_shutdown q)
unfolding poll_shutdown
poll_shutdown-IsQueue q inv = record {
  in_budget = inv.in_budget;
  covers = inv.covers;
  exact = inv.exact;
  in_order = inv.in_order;
}

step-IsQueue : {q r : Queue} → QueueStep q r → IsQueue q → IsQueue r
unfolding reserve_bytes hand_over receive_next finish_write end_drain
step-IsQueue (reserving bytes q) inv = reserve_if-IsQueue _ bytes q inv
step-IsQueue (handing q) inv = hand_from-IsQueue q q.held refl inv
step-IsQueue (receiving q) inv = received-IsQueue q q.writing q.sent refl refl inv
step-IsQueue (finishing q) inv = finish_from-IsQueue q q.writing refl inv
step-IsQueue (failing q) inv = fail_write-IsQueue q inv
step-IsQueue (shutting q) inv = poll_shutdown-IsQueue q inv
step-IsQueue (ending q) inv = ended_if-IsQueue _ q inv

Queues-IsQueue : {q : Queue} → Queues q → IsQueue q
Queues-IsQueue at_start = record {
  in_budget = omega arith;
  covers = omega arith;
  exact = λ d. refl;
  in_order = λ d. refl;
}
Queues-IsQueue (and_then before step) = step-IsQueue step (Queues-IsQueue before)

length-zero : (xs : List ℕ) → length xs ≡ 0 → xs ≡ []
length-zero [] e = refl
length-zero (x ∷ xs) e = absurd (omega arith)

-- In every interleaving of the writer and its drain, the counter stays within the budget, and while the
-- drain runs it is exactly the bytes on their way; so when it is zero, all that was accepted has been
-- written, in order.
pub Queues-drained :
    {q : Queue}
    → Queues q
    → (q.queued ≤ max_queued_bytes)
      × (q.is_draining ≡ true → q.queued ≡ waiting q)
      × (q.is_draining ≡ true → q.queued ≡ 0 → q.written ≡ q.accepted)
Queues-drained {q} steps =
    let inv = Queues-IsQueue steps in
    (
      inv.in_budget,
      inv.exact,
      λ d z.
          let at_writer : bytes_of_held q.writing ≡ [] =
            length-zero _ (omega (arith, inv.covers)) in
          let in_channel : joined q.sent ≡ [] = length-zero _ (omega (arith, inv.covers)) in
          sym (inv.in_order d ∙ rw (at_writer, in_channel) (append-nil q.written)),
    )
