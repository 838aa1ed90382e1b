-- ===== src/Streaming/Stale.antt =====
-- src/terminal_streaming.rs: the updates that come too late for a replica.
use astra_shell.Prelude.{
  ℕ, ◌≡◌, ◌≢◌, ◌≤◌, ◌⊎◌, inl, inr, List, Option, none, some, true, false, arith,
}
use astra_shell.Prelude.Bytes.{bytes_eq, bytes_eq→eq, bytes_eq_refl}
use astra_shell.Terminal.State.{State}
use astra_shell.Streaming.Replica.{has_by, differs_in_epoch}

-- The current state is of the epoch of `s`, and of its generation or a later one.
abbrev pub Covers : Option State → State → Type 0
Covers none s = ⊥
Covers (some current) s = (current.epoch ≡ s.epoch) × (s.generation ≤ current.generation)

-- The current state is of another epoch than `s`.
abbrev pub IsElsewhere : Option State → State → Type 0
IsElsewhere none s = ⊥
IsElsewhere (some current) s = current.epoch ≢ s.epoch

-- A difference to `target` comes too late.
abbrev pub IsLate : Option State → State → Type 0
IsLate current target = IsElsewhere current target ⊎ Covers current target

bytes_eq-ne : (xs ys : List ℕ) → bytes_eq xs ys ≡ false → xs ≢ ys
bytes_eq-ne xs ys h e = ground (arith, bytes_eq_refl ys)

pub has_by-Covers :
    (o : Option State) (s : State) → has_by s.epoch s.generation o ≡ true → Covers o s
has_by-Covers none s h = cc
has_by-Covers (some current) s h =
    let same : bytes_eq current.epoch s.epoch ≡ true = ground arith in
    (bytes_eq→eq current.epoch s.epoch same, ground arith)

pub has_by-newer :
    (o : Option State) (s : State) → has_by s.epoch s.generation o ≡ false → ¬ Covers o s
has_by-newer none s h c = c
has_by-newer (some current) s h (same, later) = ground (arith, bytes_eq-ne current.epoch s.epoch)

pub differs_in_epoch-IsElsewhere :
    (o : Option State) (s : State) → differs_in_epoch s.epoch o ≡ true → IsElsewhere o s
differs_in_epoch-IsElsewhere none s h = cc
differs_in_epoch-IsElsewhere (some current) s h = bytes_eq-ne current.epoch s.epoch (ground arith)

pub differs_in_epoch-here :
    (o : Option State) (s : State) → differs_in_epoch s.epoch o ≡ false → ¬ IsElsewhere o s
differs_in_epoch-here none s h c = c
differs_in_epoch-here (some current) s h c =
    let same : bytes_eq current.epoch s.epoch ≡ true = ground arith in
    c (bytes_eq→eq current.epoch s.epoch same)

-- The epoch is not another one, and the current state does not cover the target.
pub in_time : (o : Option State) (s : State) → ¬ IsElsewhere o s → ¬ Covers o s → ¬ IsLate o s
in_time o s here newer (inl elsewhere) = here elsewhere
in_time o s here newer (inr covers) = newer covers
