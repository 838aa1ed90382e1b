-- ===== src/Map.antt =====
-- `BTreeMap<String, V>`: the entries in the order of their keys. A `HashMap` whose order of
-- iteration does not show is this map too.
pub mod Order
pub mod Laws
pub mod Sorted
pub mod Entries
use Prim.Native.Nat.{Ordering}
use Prim.Native.String.{compare}
use astra_shell.Prelude.{
  is_some, String, Bool, true, false, Option, none, some, List, [], ◌∷◌, str_eq, if◌then◌else◌,
}

abbrev pub Map {ℓ} : Type ℓ → Type ℓ
Map V = List (String × V)

module _ {ℓ} {V : Type ℓ} where
  unfoldable pub get : String → Map V → Option V
  get k [] = none
  get k ((j, v) ∷ m) = if str_eq j k then some v else get k m

  unfoldable pub contains_key : String → Map V → Bool
  contains_key k m = is_some (get k m)

  unfoldable pub insert : String → V → Map V → Map V
  insert k v [] = (k, v) ∷ []
  insert k v ((j, w) ∷ m) = elim (compare k j) [
    | Ordering.lt ↦ (k, v) ∷ (j, w) ∷ m
    | Ordering.eq ↦ (k, v) ∷ m
    | Ordering.gt ↦ (j, w) ∷ insert k v m
  ]

  unfoldable pub remove : String → Map V → Map V
  remove k [] = []
  remove k ((j, v) ∷ m) = let rest = remove k m in if str_eq j k then rest else (j, v) ∷ rest
