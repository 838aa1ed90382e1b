-- ===== src/Prelude/U64.antt =====
-- The checked operations of `u64`: `none` where the result does not fit.
use Prim.Native.Nat.{ℕ, ◌+◌, ◌-◌, ◌*◌, ◌^◌}
use mathlib.Core.Path.{◌≡◌}
use native.Mathlib.Omega.{arith}
use mathlib.Core.Option.{Option, none, some}
use astra_shell.Prelude.Tests.{ltb, leb, if◌then◌else◌}

abbrev pub modulus : ℕ
modulus = 2 ^ 64

unfoldable pub checked_add : ℕ → ℕ → Option ℕ
checked_add a b = if ltb (a + b) modulus then some (a + b) else none

unfoldable pub checked_sub : ℕ → ℕ → Option ℕ
checked_sub a b = if leb b a then some (a - b) else none

unfoldable pub checked_mul : ℕ → ℕ → Option ℕ
checked_mul a b = if ltb (a * b) modulus then some (a * b) else none

pub checked_sub-add : (a b : ℕ) → checked_sub (a + b) b ≡ some a
unfolding checked_sub
checked_sub-add a b = ground arith
