-- ===== src/Streaming/RowPatches.antt =====
-- src/terminal_streaming.rs: the patches of one list of rows to another, applied to the first.
use Prim.Native.Nat.{◌+◌, ◌^◌}
use mathlib.Core.List.{append_assoc}
use astra_shell.Prelude.{
  ℕ, zero, suc, ◌≡◌, ◌≤◌, ◌<◌, refl, sym, ap, ◌∙◌, List, [], ◌∷◌, ◌++◌, true, false, leb, ltb, ◌==◌,
  Option, none, some, length, get_elem?, set, length-append, get_elem?-append, set-append,
  get_elem?-lt, Bool-cases, Option-cases, inl, inr, arith,
}
use astra_shell.Prelude.Result.{ok}
use astra_shell.Terminal.State.{Anchor, Row}
use astra_shell.Terminal.Checks.{contains}
use astra_shell.Terminal.Diff.{row_eq}
use astra_shell.Terminal.Equality.{row_eq→eq}
use astra_shell.Datagram.Message.{TerminalViewportRowPatch}
use astra_shell.Streaming.Patches.{
  truncated, anchor_index, base_index_of, patch_from, patch_each, sparse_row_patches, spliced,
  apply_each_patch, apply_sparse_rows,
}
use astra_shell.Streaming.Splice.{IsShort, truncated_small, patch_from-spliced}

anchor_index-lt :
    (index : ℕ) (anchor : Anchor) (rows : List Row) (k : ℕ)
    → anchor_index index anchor rows ≡ some k
    → k < index + length rows
unfolding anchor_index
anchor_index-lt index anchor [] k h = cc
anchor_index-lt index anchor (row ∷ rows) k h =
    elim (Option-cases (anchor_index (suc index) anchor rows)) [
      | inl missing ↦ ground arith
      | inr (j, found) ↦
          omega (arith, anchor_index-lt (suc index) anchor rows j found, the_same j found)
    ]
  where
    the_same : (j : ℕ) → anchor_index (suc index) anchor rows ≡ some j → j ≡ k
    the_same j found = ground arith

base_index_of-lt :
    (base : List Row) (start : Option Anchor) (index : ℕ)
    → index < length base
    → base_index_of base start index < length base
base_index_of-lt base none index h = h
base_index_of-lt base (some anchor) index h = elim (Option-cases (anchor_index 0 anchor base)) [
  | inl missing ↦ rw missing h
  | inr (k, found) ↦ rw found (omega (arith, anchor_index-lt 0 anchor base k found))
]

-- Rows whose cells a `u32` can count.
abbrev pub AllShort : List Row → Type 0
AllShort [] = Unit {0}
AllShort (row ∷ rows) = IsShort row × AllShort rows

get_elem?-AllShort :
    (rows : List Row) (index : ℕ)
    → AllShort rows
    → index < length rows
    → (row : Row) × (get_elem? rows index ≡ some row) × IsShort row
get_elem?-AllShort [] index short h = absurd (omega arith)
get_elem?-AllShort (row ∷ rows) zero (short, all) h = (row, refl, short)
get_elem?-AllShort (row ∷ rows) (suc index) (short, all) h =
    get_elem?-AllShort rows index all (omega arith)

abbrev SeenBelow : List ℕ → ℕ → Type 0
SeenBelow [] bound = Unit {0}
SeenBelow (n ∷ seen) bound = (n < bound) × SeenBelow seen bound

SeenBelow-suc : (seen : List ℕ) (bound : ℕ) → SeenBelow seen bound → SeenBelow seen (suc bound)
SeenBelow-suc [] bound h = tt
SeenBelow-suc (n ∷ seen) bound (h, hs) = (omega arith, SeenBelow-suc seen bound hs)

contains-SeenBelow :
    (seen : List ℕ) (bound : ℕ) → SeenBelow seen bound → contains bound seen ≡ false
unfolding contains
contains-SeenBelow [] bound h = refl
contains-SeenBelow (n ∷ seen) bound (h, hs) = ground (arith, contains-SeenBelow seen bound hs)

snoc_cons : (xs : List Row) (y : Row) (ys : List Row) → (xs ++ y ∷ []) ++ ys ≡ xs ++ y ∷ ys
snoc_cons xs y ys = append_assoc xs (y ∷ []) ys

length-snoc : (xs : List Row) (y : Row) → length (xs ++ y ∷ []) ≡ suc (length xs)
length-snoc xs y = length-append xs (y ∷ []) ∙ omega arith

patch_indices :
    (old row : Row) (index base_index : ℕ)
    → ((patch_from old index base_index row).index ≡ truncated index)
      × ((patch_from old index base_index row).base_index ≡ truncated base_index)
unfolding patch_from
patch_indices old row index base_index = (refl, refl)

module _ (base : List Row) (short : AllShort base) (few : length base < 2 ^ 32) where
  -- What is made from an index on, and what it does to rows that are done up to there.
  abbrev Patches : ℕ → List ℕ → List Row → List Row → List Row → Type 0
  Patches index seen done rest rows =
      (patches : List TerminalViewportRowPatch) × (patch_each base index rows ≡ ok patches)
      × (length patches ≤ length rows)
      × (apply_each_patch base (done ++ rest) seen patches ≡ ok (done ++ rows))

  module _ (index : ℕ) (seen : List ℕ) (done : List Row) (same row : Row) (rest rows : List Row)
      (here : get_elem? base index ≡ some same) where
    kept_Patches :
        row_eq row same ≡ true
        → Patches (suc index) seen (done ++ row ∷ []) rest rows
        → Patches index seen done (same ∷ rest) (row ∷ rows)
    unfolding patch_each
    kept_Patches equal (patches, made, short_list, applied) =
        let row_same : row ≡ same = row_eq→eq row same equal in
        let start : done ++ same ∷ rest ≡ (done ++ row ∷ []) ++ rest =
          ap (λ r. done ++ r ∷ rest) (sym row_same) ∙ sym (snoc_cons done row rest) in
        (
          patches,
          simp (here, equal) made,
          omega arith,
          rw start applied ∙ ap ok (snoc_cons done row rows),
        )

    changed_Patches :
        row_eq row same ≡ false
        → length done ≡ index
        → index < length base
        → SeenBelow seen index
        → Patches (suc index) (index ∷ seen) (done ++ row ∷ []) rest rows
        → Patches index seen done (same ∷ rest) (row ∷ rows)
    unfolding patch_each apply_each_patch contains spliced
    changed_Patches differs at_index in_base below (patches, made, short_list, applied) =
        let base_index : ℕ = base_index_of base row.start index in
        let base_below = base_index_of-lt base row.start index in_base in
        let (old, found, old_short) = get_elem?-AllShort base base_index short base_below in
        let patch : TerminalViewportRowPatch = patch_from old index base_index row in
        let (its_index, its_base) = patch_indices old row index base_index in
        let small : patch.index ≡ index = its_index ∙ truncated_small index (omega arith) in
        let base_small : patch.base_index ≡ base_index =
          its_base ∙ truncated_small base_index (omega arith) in
        let row_back = patch_from-spliced old row index base_index old_short in
        let inside : ltb index (length base) ≡ true = ground arith in
        let fresh = contains-SeenBelow seen index below in
        let placed : set (done ++ same ∷ rest) index row ≡ (done ++ row ∷ []) ++ rest =
          rw (sym at_index) (set-append done same row rest) ∙ sym (snoc_cons done row rest) in
        (
          patch ∷ patches,
          simp (here, differs, found, made),
          omega arith,
          rw (small, base_small, found, row_back, inside, fresh, placed)
              (applied ∙ ap ok (snoc_cons done row rows)),
        )

  patch_each-Patches :
      (index : ℕ) (seen : List ℕ) (before done rest rows : List Row)
      → base ≡ before ++ rest
      → length before ≡ index
      → length done ≡ index
      → length rest ≡ length rows
      → SeenBelow seen index
      → Patches index seen done rest rows
  unfolding patch_each apply_each_patch
  patch_each-Patches index seen before done [] [] e lb ld lr below = ([], refl, omega arith, refl)
  patch_each-Patches index seen before done [] (row ∷ rows) e lb ld lr below = absurd (omega arith)
  patch_each-Patches index seen before done (same ∷ rest) [] e lb ld lr below = absurd (omega arith)
  patch_each-Patches index seen before done (same ∷ rest) (row ∷ rows) e lb ld lr below =
      let e' : base ≡ (before ++ same ∷ []) ++ rest = e ∙ sym (snoc_cons before same rest) in
      let lb' : length (before ++ same ∷ []) ≡ suc index = length-snoc before same ∙ ap suc lb in
      let ld' : length (done ++ row ∷ []) ≡ suc index = length-snoc done row ∙ ap suc ld in
      let lr' : length rest ≡ length rows = omega arith in
      let here : get_elem? base index ≡ some same =
        rw (e, sym lb) (get_elem?-append before same rest) in
      let in_base : index < length base = get_elem?-lt base index same here in
      let after : (seen' : List ℕ)
          → SeenBelow seen' (suc index)
          → Patches (suc index) seen' (done ++ row ∷ []) rest rows =
        λ seen' b.
          patch_each-Patches (suc index) seen' (before ++ same ∷ []) (done ++ row ∷ []) rest rows e'
            lb' ld' lr' b in
      elim (Bool-cases (row_eq row same)) [
        | inl equal ↦
            kept_Patches index seen done same row rest rows here equal
              (after seen (SeenBelow-suc seen index below))
        | inr differs ↦
            changed_Patches index seen done same row rest rows here differs ld in_base below
              (after (index ∷ seen) (omega arith, SeenBelow-suc seen index below))
      ]

-- The patches of one list of rows to another of the same length are made; the first list with the patches
-- applied is the second.
pub sparse_row_patches-apply_sparse_rows :
    (base target : List Row)
    → AllShort base
    → length base < 2 ^ 32
    → length base ≡ length target
    → (patches : List TerminalViewportRowPatch) × (sparse_row_patches base target ≡ ok patches)
      × (apply_sparse_rows base patches ≡ ok target)
unfolding sparse_row_patches apply_sparse_rows
sparse_row_patches-apply_sparse_rows base target short few lengths =
    let (patches, made, count, applied) =
      patch_each-Patches base short few 0 [] [] [] base target refl refl refl lengths tt in
    let same_length : (length base == length target) ≡ true = ground arith in
    let bound : leb (length patches) (length base) ≡ true = ground arith in
    (patches, simp (same_length, made), simp (bound, applied))
