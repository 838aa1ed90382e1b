-- ===== src/Map/Sorted.antt =====
-- The order of the entries of a map, and its rebuilding from them.
use Prim.Native.Nat.{Ordering}
use Prim.Native.String.{compare}
use mathlib.Core.List.{append_assoc, append-nil}
use text.Mathlib.TextEquality.{path_by_compare}
use astra_shell.Prelude.{
  String, ◌≡◌, refl, sym, ap, ◌∙◌, List, [], ◌∷◌, ◌++◌, str_eq, inl, inr, Bool-cases, ◌⊎◌, subst,
}
use astra_shell.Map.{Map, insert, remove}
use astra_shell.Map.Order.{Before, gt_of_Before, Before-of_gt, Before-trans}

Ordering-cases : (o : Ordering) → (o ≡ Ordering.lt) ⊎ ((o ≡ Ordering.eq) ⊎ (o ≡ Ordering.gt))
Ordering-cases Ordering.lt = inl refl
Ordering-cases Ordering.eq = inr (inl refl)
Ordering-cases Ordering.gt = inr (inr refl)

module _ {ℓ} {V : Type ℓ} where
  -- Every key of the map stands behind `k`.
  abbrev pub After : String → Map V → Type 0
  After k [] = Unit {0}
  After k ((j, v) ∷ m) = Before k j × After k m

  abbrev pub IsSorted : Map V → Type 0
  IsSorted [] = Unit {0}
  IsSorted ((k, v) ∷ m) = After k m × IsSorted m

  After-trans : (k j : String) (m : Map V) → Before k j → After j m → After k m
  After-trans k j [] h a = tt
  After-trans k j ((i, v) ∷ m) h (b, a) = (Before-trans k j i h b, After-trans k j m h a)

  After-remove : (k j : String) (m : Map V) → After k m → After k (remove j m)
  unfolding remove
  After-remove k j [] a = tt
  After-remove k j ((i, v) ∷ m) (b, a) = elim (Bool-cases (str_eq i j)) [
    | inl e ↦ rw e (After-remove k j m a)
    | inr e ↦ rw e (b, After-remove k j m a)
  ]

  pub remove-IsSorted : (k : String) (m : Map V) → IsSorted m → IsSorted (remove k m)
  unfolding remove
  remove-IsSorted k [] s = tt
  remove-IsSorted k ((j, v) ∷ m) (a, s) = elim (Bool-cases (str_eq j k)) [
    | inl e ↦ rw e (remove-IsSorted k m s)
    | inr e ↦ rw e (After-remove j k m a, remove-IsSorted k m s)
  ]

  module _ (k j : String) (v w : V) (m : Map V) where
    insert_front : Before k j → insert k v ((j, w) ∷ m) ≡ (k, v) ∷ (j, w) ∷ m
    unfolding insert
    insert_front e = rw (e, insert)

    insert_over : compare k j ≡ Ordering.eq → insert k v ((j, w) ∷ m) ≡ (k, v) ∷ m
    unfolding insert
    insert_over e = rw (e, insert)

    insert_past : compare k j ≡ Ordering.gt → insert k v ((j, w) ∷ m) ≡ (j, w) ∷ insert k v m
    unfolding insert
    insert_past e = rw (e, insert)

  After-insert :
      (k j : String) (v : V) (m : Map V) → Before k j → After k m → After k (insert j v m)
  After-insert k j v [] h a = unfold insert in (h, tt)
  After-insert k j v ((i, w) ∷ m) h (b, a) = elim (Ordering-cases (compare j i)) [
    | inl e ↦ rw (insert_front j i v w m e) (h, (b, a))
    | inr (inl e) ↦ rw (insert_over j i v w m e) (h, a)
    | inr (inr e) ↦ rw (insert_past j i v w m e) (b, After-insert k j v m h a)
  ]

  pub insert-IsSorted : (k : String) (v : V) (m : Map V) → IsSorted m → IsSorted (insert k v m)
  insert-IsSorted k v [] s = unfold insert in (tt, tt)
  insert-IsSorted k v ((j, w) ∷ m) (a, s) = elim (Ordering-cases (compare k j)) [
    | inl e ↦ rw (insert_front k j v w m e) ((e, After-trans k j m e a), (a, s))
    | inr (inl e) ↦
        rw (insert_over k j v w m e) (subst (λ i. After i m) (sym (path_by_compare k j e)) a, s)
    | inr (inr e) ↦
        rw (insert_past k j v w m e)
          (After-insert j k v m (Before-of_gt k j e) a, insert-IsSorted k v m s)
  ]

  Before-append :
      (j k : String) (v : V) (acc rest : Map V) → After j (acc ++ (k, v) ∷ rest) → Before j k
  Before-append j k v [] rest (b, a) = b
  Before-append j k v ((i, w) ∷ acc) rest (b, a) = Before-append j k v acc rest a

  -- A key behind all others is inserted at the end.
  pub insert_last :
      (k : String) (v : V) (acc rest : Map V)
      → IsSorted (acc ++ (k, v) ∷ rest)
      → insert k v acc ≡ acc ++ (k, v) ∷ []
  insert_last k v [] rest s = unfold insert in refl
  insert_last k v ((j, w) ∷ acc) rest (a, s) =
      insert_past k j v w acc (gt_of_Before j k (Before-append j k v acc rest a))
      ∙ ap (◌∷◌ (j, w)) (insert_last k v acc rest s)

  -- The loop that inserts the entries of a list one by one.
  unfoldable pub insert_all : Map V → List (String × V) → Map V
  insert_all m [] = m
  insert_all m ((k, v) ∷ rest) = insert_all (insert k v m) rest

  insert_all-append :
      (acc rest : Map V) → IsSorted (acc ++ rest) → insert_all acc rest ≡ acc ++ rest
  unfolding insert_all
  insert_all-append acc [] s = sym (append-nil acc)
  insert_all-append acc ((k, v) ∷ rest) s =
      let e = append_assoc acc ((k, v) ∷ []) rest in
      ap (λ m. insert_all m rest) (insert_last k v acc rest s)
      ∙ insert_all-append (acc ++ (k, v) ∷ []) rest (subst IsSorted (sym e) s)
      ∙ e

  -- The entries of a map, inserted into the empty map, give the map back.
  pub insert_all-entries : (m : Map V) → IsSorted m → insert_all [] m ≡ m
  insert_all-entries m s = insert_all-append [] m s

  pub insert_all-IsSorted :
      (m : Map V) (rest : List (String × V)) → IsSorted m → IsSorted (insert_all m rest)
  unfolding insert_all
  insert_all-IsSorted m [] s = s
  insert_all-IsSorted m ((k, v) ∷ rest) s =
      insert_all-IsSorted (insert k v m) rest (insert-IsSorted k v m s)
