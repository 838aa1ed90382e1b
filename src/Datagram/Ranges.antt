-- ===== src/Datagram/Ranges.antt =====
-- src/terminal_datagram_v3.rs: the ranges of the fragments in the encoding.
use Prim.Native.Nat.{◌+◌, ◌-◌, ◌*◌, ◌/◌}
use native.Mathlib.Nat.{
  zero-mul, zero-div, add-mul, mul-div_cancel_left, le-div_iff_mul-le, div-mul-le_self,
  div-le_of_le-mul, mul-le-mul_right,
}
use astra_shell.Prelude.{ℕ, zero, suc, ◌≡◌, ◌≤◌, ◌<◌, refl, ap, List, [], ◌∷◌, ◌++◌, length, arith}
use astra_shell.Datagram.Prepare.{slice, cut}

pub cut-zero : (count total : ℕ) → 1 ≤ count → cut 0 count total ≡ 0
cut-zero count total l = simp (zero-mul, zero-div)

pub cut_self : (count total : ℕ) → 1 ≤ count → cut count count total ≡ total
cut_self count total l = mul-div_cancel_left total l

pub cut-step : (i count total : ℕ) → 1 ≤ count → cut i count total ≤ cut (i + 1) count total
cut-step i count total l =
    (le-div_iff_mul-le l).1 (omega (arith, div-mul-le_self (i * total) count, add-mul i 1 total))

pub cut-lt :
    (i count total : ℕ) → 1 ≤ count → count ≤ total → cut i count total < cut (i + 1) count total
cut-lt i count total l small = (le-div_iff_mul-le l).1 (
    omega (
      arith,
      div-mul-le_self (i * total) count,
      add-mul i 1 total,
      add-mul (i * total / count) 1 count,
    ))

pub cut-le : (i count total : ℕ) → i ≤ count → 1 ≤ count → cut i count total ≤ total
cut-le i count total b l = div-le_of_le-mul count (mul-le-mul_right total b)

pub length-slice : (xs : List ℕ) (a b : ℕ) → a ≤ b → b ≤ length xs → length (slice xs a b) ≡ b - a
length-slice [] a b l h = omega arith
length-slice (x ∷ xs) zero zero l h = refl
length-slice (x ∷ xs) zero (suc b) l h =
    omega (arith, length-slice xs 0 b (omega arith) (omega arith))
length-slice (x ∷ xs) (suc a) zero l h = absurd (omega arith)
length-slice (x ∷ xs) (suc a) (suc b) l h =
    omega (arith, length-slice xs a b (omega arith) (omega arith))

pub slice_none : (xs : List ℕ) (a : ℕ) → slice xs a a ≡ []
slice_none [] a = refl
slice_none (x ∷ xs) zero = refl
slice_none (x ∷ xs) (suc a) = slice_none xs a

pub slice_whole : (xs : List ℕ) → slice xs 0 (length xs) ≡ xs
slice_whole [] = refl
slice_whole (x ∷ xs) = ap (◌∷◌ x) (slice_whole xs)

pub slice_join :
    (xs : List ℕ) (a b c : ℕ) → a ≤ b → b ≤ c → slice xs a b ++ slice xs b c ≡ slice xs a c
slice_join [] a b c l h = refl
slice_join (x ∷ xs) zero zero c l h = refl
slice_join (x ∷ xs) zero (suc b) zero l h = absurd (omega arith)
slice_join (x ∷ xs) zero (suc b) (suc c) l h =
    ap (◌∷◌ x) (slice_join xs 0 b c (omega arith) (omega arith))
slice_join (x ∷ xs) (suc a) zero c l h = absurd (omega arith)
slice_join (x ∷ xs) (suc a) (suc b) zero l h = absurd (omega arith)
slice_join (x ∷ xs) (suc a) (suc b) (suc c) l h = slice_join xs a b c (omega arith) (omega arith)
