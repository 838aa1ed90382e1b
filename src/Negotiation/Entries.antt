-- ===== src/Negotiation/Entries.antt =====
-- src/negotiation.rs: what is known of each capability that is selected.
use astra_shell.Prelude.{
  ℕ, ◌+◌, ◌≤◌, ◌<◌, String, ◌≡◌, refl, ap, ◌∙◌, Bool, true, false, ◌&&◌, str_eq, str_eq_iff, arith,
  Option, none, some, List, [], ◌∷◌, length, min, max, leb, inl, inr, Bool-cases,
}
use astra_shell.Prelude.Result.{ok}
use astra_shell.Map.{Map}
use astra_shell.Map
use astra_shell.Map.Laws.{get-insert, contains_key-insert, get-insert_self}
use astra_shell.Map.Sorted.{IsSorted, insert-IsSorted, remove-IsSorted}
use astra_shell.Map.Entries.{
  AllEntries, insert-AllEntries, remove-AllEntries, length-insert, length-remove,
}
use astra_shell.Negotiation.Support.{CapabilityRange}
use astra_shell.Negotiation.Checks.{in_range, validate_capability_name, validate_ranges}
use astra_shell.Negotiation.Negotiate.{
  select_one, select_all, drop_if, drop_without, drop_unmet, ranges_by_name,
}

module _ (all : Map CapabilityRange) where
  -- The ranges of a list have valid names and versions from 1 on, and are found by their names.
  abbrev pub AreListed : List CapabilityRange → Type 0
  AreListed [] = Unit {0}
  AreListed (c ∷ rest) =
      (validate_capability_name c.name ≡ ok tt)
      × (0 < c.minimum_version)
      × (Map.get c.name all ≡ some c)
      × AreListed rest

-- One round of the loop of `validate_support`.
range_ok :
    (names : Map (Unit {0})) (c : CapabilityRange) (rest : List CapabilityRange)
    → validate_ranges names (c ∷ rest) ≡ ok tt
    → (validate_capability_name c.name ≡ ok tt)
      × (0 < c.minimum_version)
      × (Map.contains_key c.name names ≡ false)
      × (validate_ranges (Map.insert c.name tt names) rest ≡ ok tt)
unfolding validate_ranges
range_ok names c rest h = ground arith

seen_apart :
    (names : Map (Unit {0})) (j k : String)
    → Map.contains_key k names ≡ true
    → Map.contains_key j names ≡ false
    → str_eq j k ≡ false
seen_apart names j k seen new = elim (Bool-cases (str_eq j k)) [
  | inl same ↦ cc (ap (λ i. Map.contains_key i names) ((str_eq_iff j k).0 same))
  | inr other ↦ other
]

-- A name that is seen already is not redefined by the rest of the list.
ranges_by_name-keep :
    (k : String) (names : Map (Unit {0})) (rest : List CapabilityRange) (m : Map CapabilityRange)
    → Map.contains_key k names ≡ true
    → validate_ranges names rest ≡ ok tt
    → Map.get k (ranges_by_name m rest) ≡ Map.get k m
unfolding ranges_by_name
ranges_by_name-keep k names [] m seen h = refl
ranges_by_name-keep k names (c ∷ rest) m seen h =
    let (_, _, new, more) = range_ok names c rest h in
    ranges_by_name-keep k (Map.insert c.name tt names) rest (Map.insert c.name c m)
      (rw (contains_key-insert c.name k tt names, seen) (ground arith)) more
    ∙ rw (get-insert c.name k c m, seen_apart names c.name k seen new)

validate_ranges-AreListed :
    (names : Map (Unit {0})) (rest : List CapabilityRange) (m : Map CapabilityRange)
    → validate_ranges names rest ≡ ok tt
    → AreListed (ranges_by_name m rest) rest
unfolding ranges_by_name
validate_ranges-AreListed names [] m h = tt
validate_ranges-AreListed names (c ∷ rest) m h =
    let (name, positive, new, more) = range_ok names c rest h in
    (
      name,
      positive,
      ranges_by_name-keep c.name (Map.insert c.name tt names) rest (Map.insert c.name c m)
            (rw (contains_key-insert c.name c.name tt names)
              (ground (arith, str_eq_iff c.name c.name)))
            more
          ∙ get-insert_self c.name c m,
      validate_ranges-AreListed (Map.insert c.name tt names) rest (Map.insert c.name c m) more,
    )

-- What holds of a selected capability: a valid name, and a version from 1 on that is the greatest
-- in both the offer of the client and the range of the server.
module _ (offers : Map (ℕ × ℕ)) (all : Map CapabilityRange) where
  pub record IsSelected (k : String) (v : ℕ) : Type 0 where
    pub name : validate_capability_name k ≡ ok tt
    pub positive : 0 < v
    pub low : ℕ
    pub high : ℕ
    pub offered : Map.get k offers ≡ some (low, high)
    pub in_offer : in_range low high v ≡ true
    pub range : CapabilityRange
    pub supported : Map.get k all ≡ some range
    pub in_support : in_range range.minimum_version range.maximum_version v ≡ true
    pub greatest : v ≡ min high range.maximum_version

  select_one-Selected :
      (c : CapabilityRange) (m : Map ℕ)
      → validate_capability_name c.name ≡ ok tt
      → 0 < c.minimum_version
      → Map.get c.name all ≡ some c
      → AllEntries IsSelected m
      → AllEntries IsSelected (select_one c (Map.get c.name offers) m)
  select_one-Selected c m name positive listed a = go (Map.get c.name offers) refl
    where
      go :
          (o : Option (ℕ × ℕ))
          → Map.get c.name offers ≡ o
          → AllEntries IsSelected (select_one c o m)
      go none e = unfold select_one in a
      go (some (low, high)) e =
          let fits = leb (max low c.minimum_version) (min high c.maximum_version) in
          unfold select_one in
          elim (Bool-cases fits) [
            | inr out ↦ rw out a
            | inl within ↦ rw within (
                insert-AllEntries IsSelected c.name (min high c.maximum_version) m
                  (record {
                    name = name;
                    positive = ground arith;
                    low = low;
                    high = high;
                    offered = e;
                    in_offer = ground arith;
                    range = c;
                    supported = listed;
                    in_support = ground arith;
                    greatest = refl;
                  })
                  a)
          ]

  pub select_all-Selected :
      (rest : List CapabilityRange) (m : Map ℕ)
      → AreListed all rest
      → AllEntries IsSelected m
      → AllEntries IsSelected (select_all offers rest m)
  unfolding select_all
  select_all-Selected [] m l a = a
  select_all-Selected (c ∷ rest) m (name, positive, listed, more) a =
      select_all-Selected rest (select_one c (Map.get c.name offers) m) more
        (select_one-Selected c m name positive listed a)

-- What every removal keeps, the removals at the end keep.
module _ {ℓ} (P : Map ℕ → Type ℓ) (keep : (k : String) (m : Map ℕ) → P m → P (Map.remove k m)) where
  drop_if-keeps : (k : String) (b : Bool) (m : Map ℕ) → P m → P (drop_if k b m)
  drop_if-keeps k b m a = elim (Bool-cases (Map.contains_key k m && b)) [
    | inl e ↦ unfold drop_if in rw e (keep k m a)
    | inr e ↦ unfold drop_if in rw e a
  ]

  drop_without-keeps : (needed k : String) (m : Map ℕ) → P m → P (drop_without needed k m)
  drop_without-keeps needed k m a = elim (Bool-cases (Map.contains_key needed m)) [
    | inl e ↦ unfold drop_without in rw e a
    | inr e ↦ unfold drop_without in rw e (keep k m a)
  ]

  drop_unmet-keeps : (m : Map ℕ) → P m → P (drop_unmet m)
  unfolding drop_unmet
  drop_unmet-keeps m a = search (drop_if-keeps, drop_without-keeps) depth 12

select_one-IsSorted :
    (c : CapabilityRange) (o : Option (ℕ × ℕ)) (m : Map ℕ)
    → IsSorted m
    → IsSorted (select_one c o m)
select_one-IsSorted c none m s = unfold select_one in s
select_one-IsSorted c (some (low, high)) m s =
    unfold select_one in
    elim (Bool-cases (leb (max low c.minimum_version) (min high c.maximum_version))) [
      | inl e ↦ rw e (insert-IsSorted c.name (min high c.maximum_version) m s)
      | inr e ↦ rw e s
    ]

select_all-IsSorted :
    (offers : Map (ℕ × ℕ)) (rest : List CapabilityRange) (m : Map ℕ)
    → IsSorted m
    → IsSorted (select_all offers rest m)
unfolding select_all
select_all-IsSorted offers [] m s = s
select_all-IsSorted offers (c ∷ rest) m s =
    select_all-IsSorted offers rest (select_one c (Map.get c.name offers) m)
      (select_one-IsSorted c (Map.get c.name offers) m s)

length-select_one :
    (c : CapabilityRange) (o : Option (ℕ × ℕ)) (m : Map ℕ)
    → length (select_one c o m) ≤ length m + 1
length-select_one c none m = unfold select_one in omega arith
length-select_one c (some (low, high)) m =
    unfold select_one in ground (arith, length-insert c.name (min high c.maximum_version) m)

length-select_all :
    (offers : Map (ℕ × ℕ)) (rest : List CapabilityRange) (m : Map ℕ)
    → length (select_all offers rest m) ≤ length rest + length m
unfolding select_all
length-select_all offers [] m = omega arith
length-select_all offers (c ∷ rest) m = omega (
  arith,
  length-select_all offers rest (select_one c (Map.get c.name offers) m),
  length-select_one c (Map.get c.name offers) m,
)

-- What is known of the map of the selected capabilities.
pub record IsSelection (offers : Map (ℕ × ℕ)) (ranges : List CapabilityRange) (m : Map ℕ)
    : Type 0 where
  pub sorted : IsSorted m
  pub selected : AllEntries (IsSelected offers (ranges_by_name [] ranges)) m
  pub bounded : length m ≤ length ranges

drop_unmet-IsSelection :
    (offers : Map (ℕ × ℕ)) (ranges : List CapabilityRange) (m : Map ℕ)
    → IsSelection offers ranges m
    → IsSelection offers ranges (drop_unmet m)
drop_unmet-IsSelection offers ranges = drop_unmet-keeps (IsSelection offers ranges) λ k m s.
    record {
      sorted = remove-IsSorted k m s.sorted;
      selected = remove-AllEntries (IsSelected offers (ranges_by_name [] ranges)) k m s.selected;
      bounded = omega (arith, length-remove k m, s.bounded);
    }

pub negotiated-IsSelection :
    (offers : Map (ℕ × ℕ)) (ranges : List CapabilityRange)
    → validate_ranges [] ranges ≡ ok tt
    → IsSelection offers ranges (drop_unmet (select_all offers ranges []))
negotiated-IsSelection offers ranges h =
    drop_unmet-IsSelection offers ranges (select_all offers ranges []) (record {
      sorted = select_all-IsSorted offers ranges [] tt;
      selected =
          select_all-Selected offers (ranges_by_name [] ranges) ranges []
            (validate_ranges-AreListed [] ranges [] h) tt;
      bounded = omega (arith, length-select_all offers ranges []);
    })
