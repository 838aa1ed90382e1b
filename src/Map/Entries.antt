-- ===== src/Map/Entries.antt =====
-- Predicates on all entries of a map, and the number of entries.
use Prim.Native.Nat.{Ordering}
use Prim.Native.String.{compare}
use text.Mathlib.Text.{is_eq}
use astra_shell.Prelude.{
  ◌+◌, ◌≤◌, String, ◌≡◌, refl, ap, true, false, none, some, [], ◌∷◌, ◌++◌, arith, str_eq,
  str_eq_iff, inl, inr, Bool-cases, subst, length,
}
use astra_shell.Map.{Map, get, insert, remove}
use astra_shell.Map.Order.{Before}
use astra_shell.Map.Sorted.{IsSorted, After}

module _ {ℓ κ} {V : Type ℓ} (P : String → V → Type κ) where
  abbrev pub AllEntries : Map V → Type κ
  AllEntries [] = Unit
  AllEntries ((k, v) ∷ m) = P k v × AllEntries m

  pub insert-AllEntries :
      (k : String) (v : V) (m : Map V) → P k v → AllEntries m → AllEntries (insert k v m)
  unfolding insert
  insert-AllEntries k v [] p a = (p, tt)
  insert-AllEntries k v ((j, w) ∷ m) p (q, a) = go (insert-AllEntries k v m p a) (compare k j)
    where
      go :
          AllEntries (insert k v m)
          → (o : Ordering)
          → AllEntries (elim o [
            | Ordering.lt ↦ (k, v) ∷ (j, w) ∷ m
            | Ordering.eq ↦ (k, v) ∷ m
            | Ordering.gt ↦ (j, w) ∷ insert k v m
          ])
      go ih Ordering.lt = (p, (q, a))
      go ih Ordering.eq = (p, a)
      go ih Ordering.gt = (q, ih)

  pub remove-AllEntries : (k : String) (m : Map V) → AllEntries m → AllEntries (remove k m)
  unfolding remove
  remove-AllEntries k [] a = tt
  remove-AllEntries k ((j, w) ∷ m) (q, a) = elim (Bool-cases (str_eq j k)) [
    | inl e ↦ rw e (remove-AllEntries k m a)
    | inr e ↦ rw e (q, remove-AllEntries k m a)
  ]

  pub AllEntries-get : (k : String) (v : V) (m : Map V) → AllEntries m → get k m ≡ some v → P k v
  unfolding get
  AllEntries-get k v [] a e = cc
  AllEntries-get k v ((j, w) ∷ m) (q, a) e = elim (Bool-cases (str_eq j k)) [
    | inl same ↦ subst (λ i. P i v) ((str_eq_iff j k).0 same) (subst (P j) (value_at same) q)
    | inr other ↦ AllEntries-get k v m a (rw other at e)
  ]
    where
      value_at : str_eq j k ≡ true → w ≡ v
      value_at same = let e' : some w ≡ some v = rw same at e in cc

module _ {ℓ} {V : Type ℓ} where
  pub length-insert : (k : String) (v : V) (m : Map V) → length (insert k v m) ≤ length m + 1
  unfolding insert
  length-insert k v [] = omega arith
  length-insert k v ((j, w) ∷ m) = ground (arith, length-insert k v m)

  pub length-remove : (k : String) (m : Map V) → length (remove k m) ≤ length m
  unfolding remove
  length-remove k [] = omega arith
  length-remove k ((j, w) ∷ m) = ground (arith, length-remove k m)

  -- A key that stands behind all those of a map is not in it.
  pub get-behind :
      (k : String) (v : V) (acc rest : Map V) → IsSorted (acc ++ (k, v) ∷ rest) → get k acc ≡ none
  unfolding get
  get-behind k v [] rest s = refl
  get-behind k v ((j, w) ∷ acc) rest (a, s) = rw different (get-behind k v acc rest s)
    where
      before : (acc : Map V) → After j (acc ++ (k, v) ∷ rest) → Before j k
      before [] (b, _) = b
      before ((i, x) ∷ m) (_, b) = before m b

      different : str_eq j k ≡ false
      different = ap is_eq (before acc a)
