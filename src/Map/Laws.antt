-- ===== src/Map/Laws.antt =====
-- What a lookup finds after an insertion or a removal.
use astra_shell.Prelude.{
  String, ◌≡◌, ◌≢◌, refl, false, ◌||◌, none, some, [], ◌∷◌, arith, str_eq, str_eq_iff,
  if◌then◌else◌,
}
use astra_shell.Map.{Map, get, insert, remove, contains_key}

module _ {ℓ} {V : Type ℓ} where
  pub get-insert :
      (k j : String) (v : V) (m : Map V)
      → get j (insert k v m) ≡ (if str_eq k j then some v else get j m)
  unfolding get insert
  get-insert k j v [] = refl
  get-insert k j v ((i, w) ∷ m) =
      ground (arith, str_eq_iff k j, str_eq_iff k i, str_eq_iff i j, get-insert k j v m)

  pub get-remove :
      (k j : String) (m : Map V) → get j (remove k m) ≡ (if str_eq k j then none else get j m)
  unfolding get remove
  get-remove k j [] = ground arith
  get-remove k j ((i, w) ∷ m) =
      ground (arith, get-remove k j m, str_eq_iff i k, str_eq_iff i j, str_eq_iff k j)

  pub contains_key-insert :
      (k j : String) (v : V) (m : Map V)
      → contains_key j (insert k v m) ≡ (str_eq k j || contains_key j m)
  unfolding contains_key
  contains_key-insert k j v m = rw (get-insert k j v m) (ground arith)

  pub get-insert_self : (k : String) (v : V) (m : Map V) → get k (insert k v m) ≡ some v
  get-insert_self k v m = ground (arith, get-insert k k v m, str_eq_iff k k)

  pub get-insert_other : (k j : String) (v : V) (m : Map V) → k ≢ j → get j (insert k v m) ≡ get j m
  get-insert_other k j v m ne = ground (arith, get-insert k j v m, str_eq_iff k j)

  pub get-remove_self : (k : String) (m : Map V) → get k (remove k m) ≡ none
  get-remove_self k m = ground (arith, get-remove k k m, str_eq_iff k k)

  pub get-remove_other : (k j : String) (m : Map V) → k ≢ j → get j (remove k m) ≡ get j m
  get-remove_other k j m ne = ground (arith, get-remove k j m, str_eq_iff k j)

  pub get-absent : (k : String) (m : Map V) → contains_key k m ≡ false → get k m ≡ none
  unfolding contains_key
  get-absent k m h = ground arith
