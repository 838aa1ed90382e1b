-- ===== src/Prelude/Returns.antt =====
-- Chains of fallible steps, and whether they panic.
use mathlib.Core.Path.{◌≡◌, refl}
use mathlib.Core.Logic.{◌≢◌}
use mathlib.Core.Bool.{Bool, true, false}
use mathlib.Core.Option.{Option, none, some}
use astra_shell.Prelude.Result.{Result, ok, err, panic, ◌>>=◌, ensure, ok_or}

pub chain_returns :
    {E A B : Type 0} (first : Result E A) (next : A → Result E B)
    → first ≢ panic
    → ((a : A) → next a ≢ panic)
    → (first >>= next) ≢ panic
chain_returns (ok a) next f n = n a
chain_returns (err e) next f n = λ h. cc
chain_returns panic next f n = absurd (f refl)

pub ok_returns : {E A : Type 0} (a : A) → ◌≢◌ {A = Result E A} (ok a) panic
ok_returns a h = cc

pub ensure_returns : {E : Type 0} (b : Bool) (e : E) → ensure b e ≢ panic
ensure_returns true e h = cc
ensure_returns false e h = cc

pub ok_or_returns : {E A : Type 0} (o : Option A) (e : E) → ok_or o e ≢ panic
ok_or_returns none e h = cc
ok_or_returns (some a) e h = cc

pub guarded :
    {E B : Type 0} (b : Bool) (e : E) (next : Unit → Result E B)
    → ((u : Unit) → next u ≢ panic)
    → (ensure b e >>= next) ≢ panic
guarded true e next n = n tt
guarded false e next n = λ h. cc

-- The same with what the first part returned at hand.
pub chain_returns_ok :
    {E A B : Type 0} (first : Result E A) (next : A → Result E B)
    → first ≢ panic
    → ((a : A) → first ≡ ok a → next a ≢ panic)
    → (first >>= next) ≢ panic
chain_returns_ok (ok a) next f n = n a refl
chain_returns_ok (err e) next f n = λ h. cc
chain_returns_ok panic next f n = absurd (f refl)

pub ruleset returns = (chain_returns, ensure_returns, ok_or_returns, ok_returns)
