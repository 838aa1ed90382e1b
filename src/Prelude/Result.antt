-- ===== src/Prelude/Result.antt =====
-- Rust's `Result`, with one more case for a panic (`expect` on a `None`).
use mathlib.Core.Path.{◌≡◌, refl}
use mathlib.Core.Logic.{◌⊎◌, inl, inr}
use mathlib.Core.Bool.{Bool, true, false}
use mathlib.Core.Option.{Option, none, some}

pub data Result {ℓ} (E A : Type ℓ) : Type ℓ where
  ok : A → Result E A
  err : E → Result E A
  panic : Result E A

infixl 5 ◌>>=◌ ◌>>◌
abbrev pub ◌>>=◌ {ℓ} : {E A B : Type ℓ} → Result E A → (A → Result E B) → Result E B
ok a >>= f = f a
err e >>= f = err e
panic >>= f = panic

abbrev pub ◌>>◌ : {E B : Type 0} → Result E Unit → Result E B → Result E B
m >> k = m >>= λ _. k

-- `ensure!(test, error)`.
abbrev pub ensure : {E : Type 0} → Bool → E → Result E Unit
ensure true e = ok tt
ensure false e = err e

-- `option.ok_or_else(|| error)?` and `option.context(error)?`.
abbrev pub ok_or {ℓ} : {E A : Type ℓ} → Option A → E → Result E A
ok_or none e = err e
ok_or (some a) e = ok a

-- `option.expect(..)`.
abbrev pub expect {ℓ} : {E A : Type ℓ} → Option A → Result E A
expect none = panic
expect (some a) = ok a

-- What a chain has done when it returns `out`: its first part returned a value.
abbrev pub Chains {ℓ} : {E A B : Type ℓ} → Result E A → (A → Result E B) → B → Type ℓ
Chains {A} first next out = (mid : A) × (first ≡ ok mid) × (next mid ≡ ok out)

pub chain_parts {ℓ} :
    {E A B : Type ℓ} (first : Result E A) (next : A → Result E B) {out : B}
    → (first >>= next) ≡ ok out
    → Chains first next out
chain_parts panic next done = cc
chain_parts (err _) next done = cc
chain_parts (ok mid) next done = (mid, refl, done)

-- To split on a computed result and keep the equation.
pub Result-cases {ℓ} :
    {E A : Type ℓ} (r : Result E A)
    → ((a : A) × (r ≡ ok a)) ⊎ (((e : E) × (r ≡ err e)) ⊎ (r ≡ panic))
Result-cases (ok a) = inl (a, refl)
Result-cases (err e) = inr (inl (e, refl))
Result-cases panic = inr (inr refl)
