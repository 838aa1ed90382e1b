-- ===== src/Map/Order.antt =====
-- The order of texts, which is that of their bytes.
use Prim.Native.Nat.{ℕ, Ordering, compare as compare_ℕ, ◌<◌}
use Prim.Native.Char.{code}
use Prim.Native.String.{String, compare, then}
use Prim.Native.String.compare
use astra_shell.Prelude.{◌≡◌, sym, ap, ◌∙◌, arith, ◌⊎◌, inl, inr}

-- The first text stands before the second.
abbrev pub Before : String → String → Type 0
Before s t = compare s t ≡ Ordering.lt

-- The answer with the texts exchanged.
abbrev flip : Ordering → Ordering
flip Ordering.lt = Ordering.gt
flip Ordering.eq = Ordering.eq
flip Ordering.gt = Ordering.lt

then-flip : (m n : ℕ) (o : Ordering) → then (compare_ℕ n m) (flip o) ≡ flip (then (compare_ℕ m n) o)
then-flip m n o = ground arith

then_lt :
    (m n : ℕ) (o : Ordering)
    → then (compare_ℕ m n) o ≡ Ordering.lt
    → (m < n) ⊎ ((m ≡ n) × (o ≡ Ordering.lt))
then_lt m n o h = ground arith

then_of_lt : (m n : ℕ) (o : Ordering) → m < n → then (compare_ℕ m n) o ≡ Ordering.lt
then_of_lt m n o h = ground arith

then_of_eq : (m n : ℕ) (o : Ordering) → m ≡ n → then (compare_ℕ m n) o ≡ o
then_of_eq m n o h = ground arith

compare-flip : (s t : String) → compare t s ≡ flip (compare s t)
compare-flip String.[] String.[] = compare.nil-nil ∙ ap flip (sym compare.nil-nil)
compare-flip String.[] (String.◌∷◌ d t) =
    compare.cons-nil d t ∙ ap flip (sym (compare.nil-cons d t))
compare-flip (String.◌∷◌ c s) String.[] =
    compare.nil-cons c s ∙ ap flip (sym (compare.cons-nil c s))
compare-flip (String.◌∷◌ c s) (String.◌∷◌ d t) =
    compare.cons-cons d c t s
    ∙ ap (then (compare_ℕ (code d) (code c))) (compare-flip s t)
    ∙ then-flip (code c) (code d) (compare s t)
    ∙ ap flip (sym (compare.cons-cons c d s t))

pub gt_of_Before : (s t : String) → Before s t → compare t s ≡ Ordering.gt
gt_of_Before s t h = compare-flip s t ∙ ap flip h

pub Before-of_gt : (s t : String) → compare s t ≡ Ordering.gt → Before t s
Before-of_gt s t h = compare-flip s t ∙ ap flip h

pub Before-trans : (s t u : String) → Before s t → Before t u → Before s u
Before-trans s String.[] u h k = before_nil s h
  where
    before_nil : (s : String) → Before s String.[] → Before s u
    before_nil String.[] e = cc
    before_nil (String.◌∷◌ c s) e = cc (sym (compare.cons-nil c s) ∙ e)
Before-trans s (String.◌∷◌ d t) String.[] h k = cc (sym (compare.cons-nil d t) ∙ k)
Before-trans String.[] (String.◌∷◌ d t) (String.◌∷◌ e u) h k = compare.nil-cons e u
Before-trans (String.◌∷◌ c s) (String.◌∷◌ d t) (String.◌∷◌ e u) h k =
    compare.cons-cons c e s u
    ∙ chain (Before-trans s t u)
        (then_lt (code c) (code d) (compare s t) (sym (compare.cons-cons c d s t) ∙ h))
        (then_lt (code d) (code e) (compare t u) (sym (compare.cons-cons d e t u) ∙ k))
  where
    chain :
        (Before s t → Before t u → Before s u)
        → (code c < code d) ⊎ ((code c ≡ code d) × Before s t)
        → (code d < code e) ⊎ ((code d ≡ code e) × Before t u)
        → then (compare_ℕ (code c) (code e)) (compare s u) ≡ Ordering.lt
    chain ih (inl p) (inl q) = then_of_lt (code c) (code e) (compare s u) (omega arith)
    chain ih (inl p) (inr (q, _)) = then_of_lt (code c) (code e) (compare s u) (omega arith)
    chain ih (inr (p, _)) (inl q) = then_of_lt (code c) (code e) (compare s u) (omega arith)
    chain ih (inr (p, r)) (inr (q, r')) = then_of_eq _ _ _ (p ∙ q) ∙ ih r r'
