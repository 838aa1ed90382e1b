-- ===== src/Prelude/Int.antt =====
-- Signed numbers, for the values of `i32`; `negsuc n` is -(n + 1).
use Prim.Native.Nat.{ℕ}
use mathlib.Core.Path.{◌≡◌}
use mathlib.Core.Bool.{Bool, true}
use mathlib.Core.Option.{Option, none}
use native.Mathlib.Omega.{arith}
use astra_shell.Prelude.Tests.{◌==◌}
use mathlib.Core.List.{List}
use astra_shell.Prelude.Lists.{get_elem?}

pub data ℤ : Type 0 where
  pos negsuc : ℕ → ℤ

-- `try_from` of an enumeration whose variants are numbered from 0 on.
abbrev pub variant {ℓ} : {A : Type ℓ} → List A → ℤ → Option A
variant variants (pos n) = get_elem? variants n
variant variants (negsuc n) = none

-- The equality of `i32`.
abbrev pub int_eq : ℤ → ℤ → Bool
int_eq (pos n) (pos k) = n == k
int_eq (pos n) (negsuc k) = Bool.false
int_eq (negsuc n) (pos k) = Bool.false
int_eq (negsuc n) (negsuc k) = n == k

pub int_eq→eq : (a b : ℤ) → int_eq a b ≡ true → a ≡ b
int_eq→eq (pos n) (pos k) h = ground arith
int_eq→eq (pos n) (negsuc k) h = cc
int_eq→eq (negsuc n) (pos k) h = cc
int_eq→eq (negsuc n) (negsuc k) h = ground arith

pub int_eq_refl : (z : ℤ) → int_eq z z ≡ true
int_eq_refl (pos n) = ground arith
int_eq_refl (negsuc n) = ground arith
