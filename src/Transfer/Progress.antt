-- ===== src/Transfer/Progress.antt =====
-- src/terminal_streaming.rs: the chunks received so far, against the pieces that were sent.
use Prim.Native.Nat.{◌+◌}
use astra_shell.Prelude.{
  ℕ, ◌≡◌, ◌≤◌, ◌<◌, ◌⊎◌, inl, inr, refl, ap, zero, suc, List, [], ◌∷◌, ◌++◌, Option, none, some,
  length, get_elem?, set, arith, length-append,
}
use astra_shell.Prelude.Result.{ok}
use astra_shell.Transfer.Assembler.{empty_chunks, concat_chunks}

abbrev pub Chunks : Type 0
Chunks = List (Option (List ℕ))

abbrev pub Pieces : Type 0
Pieces = List (List ℕ)

-- The transfer's bytes.
abbrev pub whole : Pieces → List ℕ
whole [] = []
whole (x ∷ xs) = x ++ whole xs

-- There is a place for each piece, empty or with that piece.
abbrev pub Fills : Pieces → Chunks → Type 0
Fills [] [] = Unit {0}
Fills [] (c ∷ cs) = ⊥
Fills (x ∷ xs) [] = ⊥
Fills (x ∷ xs) (none ∷ cs) = Fills xs cs
Fills (x ∷ xs) (some y ∷ cs) = (y ≡ x) × Fills xs cs

abbrev pub filled : Chunks → ℕ
filled [] = 0
filled (none ∷ cs) = filled cs
filled (some y ∷ cs) = suc (filled cs)

abbrev pub filled_size : Chunks → ℕ
filled_size [] = 0
filled_size (none ∷ cs) = filled_size cs
filled_size (some y ∷ cs) = length y + filled_size cs

abbrev pub FilledAt : Chunks → ℕ → Type 0
FilledAt cs i = (y : List ℕ) × (get_elem? cs i ≡ some (some y))

pub Fills-length : (xs : Pieces) (cs : Chunks) → Fills xs cs → length cs ≡ length xs
Fills-length [] [] f = refl
Fills-length [] (c ∷ cs) f = absurd f
Fills-length (x ∷ xs) [] f = absurd f
Fills-length (x ∷ xs) (none ∷ cs) f = ap suc (Fills-length xs cs f)
Fills-length (x ∷ xs) (some y ∷ cs) (e, f) = ap suc (Fills-length xs cs f)

pub Fills-empty_chunks : (xs : Pieces) → Fills xs (empty_chunks (length xs))
unfolding empty_chunks
Fills-empty_chunks [] = tt
Fills-empty_chunks (x ∷ xs) = Fills-empty_chunks xs

pub filled-empty_chunks :
    (n : ℕ) → (filled (empty_chunks n) ≡ 0) × (filled_size (empty_chunks n) ≡ 0)
unfolding empty_chunks
filled-empty_chunks zero = (refl, refl)
filled-empty_chunks (suc n) = filled-empty_chunks n

pub Fills-set :
    (xs : Pieces) (cs : Chunks) (i : ℕ) (x : List ℕ)
    → Fills xs cs
    → get_elem? xs i ≡ some x
    → Fills xs (set cs i (some x))
Fills-set [] [] i x f e = cc
Fills-set [] (c ∷ cs) i x f e = absurd f
Fills-set (x' ∷ xs) [] i x f e = absurd f
Fills-set (x' ∷ xs) (none ∷ cs) zero x f e = (cc, f)
Fills-set (x' ∷ xs) (some y ∷ cs) zero x (h, f) e = (cc, f)
Fills-set (x' ∷ xs) (none ∷ cs) (suc i) x f e = Fills-set xs cs i x f e
Fills-set (x' ∷ xs) (some y ∷ cs) (suc i) x (h, f) e = (h, Fills-set xs cs i x f e)

-- What stands at the place of a piece: nothing yet, or the piece.
pub Fills-get_elem? :
    (xs : Pieces) (cs : Chunks) (i : ℕ) (x : List ℕ)
    → Fills xs cs
    → get_elem? xs i ≡ some x
    → (get_elem? cs i ≡ some none) ⊎ (get_elem? cs i ≡ some (some x))
Fills-get_elem? [] [] i x f e = cc
Fills-get_elem? [] (c ∷ cs) i x f e = absurd f
Fills-get_elem? (x' ∷ xs) [] i x f e = absurd f
Fills-get_elem? (x' ∷ xs) (none ∷ cs) zero x f e = inl refl
Fills-get_elem? (x' ∷ xs) (some y ∷ cs) zero x (h, f) e = inr (cc)
Fills-get_elem? (x' ∷ xs) (none ∷ cs) (suc i) x f e = Fills-get_elem? xs cs i x f e
Fills-get_elem? (x' ∷ xs) (some y ∷ cs) (suc i) x (h, f) e = Fills-get_elem? xs cs i x f e

pub filled-set :
    (cs : Chunks) (i : ℕ) (x : List ℕ)
    → get_elem? cs i ≡ some none
    → (filled (set cs i (some x)) ≡ filled cs + 1)
      × (filled_size (set cs i (some x)) ≡ filled_size cs + length x)
filled-set [] i x e = cc
filled-set (none ∷ cs) zero x e = (omega arith, omega arith)
filled-set (some y ∷ cs) zero x e = cc
filled-set (none ∷ cs) (suc i) x e = filled-set cs i x e
filled-set (some y ∷ cs) (suc i) x e =
    let (n, s) = filled-set cs i x e in (omega arith, omega arith)

pub filled-le-length : (cs : Chunks) → filled cs ≤ length cs
filled-le-length [] = omega arith
filled-le-length (none ∷ cs) = omega (arith, filled-le-length cs)
filled-le-length (some y ∷ cs) = omega (arith, filled-le-length cs)

pub filled_size-le-whole :
    (xs : Pieces) (cs : Chunks) → Fills xs cs → filled_size cs ≤ length (whole xs)
filled_size-le-whole [] [] f = omega arith
filled_size-le-whole [] (c ∷ cs) f = absurd f
filled_size-le-whole (x ∷ xs) [] f = absurd f
filled_size-le-whole (x ∷ xs) (none ∷ cs) f =
    omega (arith, length-append x (whole xs), filled_size-le-whole xs cs f)
filled_size-le-whole (x ∷ xs) (some y ∷ cs) (h, f) =
    omega (arith, length-append x (whole xs), filled_size-le-whole xs cs f, ap length h)

-- Once every place is filled, the places give the transfer's bytes.
pub concat_chunks-filled :
    (xs : Pieces) (cs : Chunks)
    → Fills xs cs
    → filled cs ≡ length cs
    → concat_chunks cs ≡ ok (whole xs)
unfolding concat_chunks
concat_chunks-filled [] [] f n = refl
concat_chunks-filled [] (c ∷ cs) f n = absurd f
concat_chunks-filled (x ∷ xs) [] f n = absurd f
concat_chunks-filled (x ∷ xs) (none ∷ cs) f n = absurd (omega (arith, filled-le-length cs))
concat_chunks-filled (x ∷ xs) (some y ∷ cs) (h, f) n =
    simp (concat_chunks-filled xs cs f (omega arith), h)

pub FilledAt-filled :
    (cs : Chunks) → ((i : ℕ) → i < length cs → FilledAt cs i) → filled cs ≡ length cs
FilledAt-filled [] all = refl
FilledAt-filled (none ∷ cs) all = let (y, e) = all 0 (omega arith) in cc
FilledAt-filled (some y ∷ cs) all = ap suc (FilledAt-filled cs (λ i l. all (suc i) (omega arith)))

pub FilledAt-set :
    (cs : Chunks) (i j : ℕ) (x : List ℕ) → FilledAt cs j → FilledAt (set cs i (some x)) j
FilledAt-set [] i j x (y, e) = cc
FilledAt-set (c ∷ cs) zero zero x (y, e) = (x, refl)
FilledAt-set (c ∷ cs) zero (suc j) x (y, e) = (y, e)
FilledAt-set (c ∷ cs) (suc i) zero x (y, e) = (y, e)
FilledAt-set (c ∷ cs) (suc i) (suc j) x (y, e) = FilledAt-set cs i j x (y, e)
