-- ===== src/Streaming/Splice.antt =====
-- src/terminal_streaming.rs: the splice of one row, applied to its base.
use Prim.Native.Nat.{◌+◌, ◌-◌, ◌^◌}
use mathlib.Core.List.{reverse, reverse-cons, reverse-append, reverse-reverse, append_assoc}
use astra_shell.Prelude.{
  ℕ, suc, ◌≡◌, ◌<◌, refl, sym, ap, ◌∙◌, List, [], ◌∷◌, ◌++◌, true, leb, ltb, some, length, take,
  drop, take-append, drop-append, length-append, Bool-cases, inl, inr, arith,
}
use astra_shell.Prelude.Result.{ok}
use astra_shell.Prelude.U64
use astra_shell.Terminal.State.{Cell, Row}
use astra_shell.Terminal.Diff.{cell_eq}
use astra_shell.Terminal.Equality.{cell_eq→eq}
use astra_shell.Datagram.Message.{TerminalViewportRowPatch}
use astra_shell.Streaming.Patches.{common_prefix, truncated, row_metadata, patch_from, spliced}

-- Two lists with a common first part.
record Splits (xs ys : List Cell) (n : ℕ) : Type 0 where
  common : List Cell
  left : List Cell
  right : List Cell
  is_left : xs ≡ common ++ left
  is_right : ys ≡ common ++ right
  is_long : length common ≡ n

common_prefix-Splits : (xs ys : List Cell) → Splits xs ys (common_prefix xs ys)
unfolding common_prefix
common_prefix-Splits [] ys = record {
  common = [];
  left = [];
  right = ys;
  is_left = refl;
  is_right = refl;
  is_long = refl;
}
common_prefix-Splits (x ∷ xs) [] = record {
  common = [];
  left = x ∷ xs;
  right = [];
  is_left = refl;
  is_right = refl;
  is_long = refl;
}
common_prefix-Splits (x ∷ xs) (y ∷ ys) = elim (Bool-cases (cell_eq x y)) [
  | inl same ↦
      let s = common_prefix-Splits xs ys in
      let x_y : x ≡ y = cell_eq→eq x y same in
      rw same (record {
        common = x ∷ s.common;
        left = s.left;
        right = s.right;
        is_left = ap (◌∷◌ x) s.is_left;
        is_right = rw x_y (ap (◌∷◌ y) s.is_right);
        is_long = ap suc s.is_long;
      })
  | inr other ↦ rw other (record {
    common = [];
    left = x ∷ xs;
    right = y ∷ ys;
    is_left = refl;
    is_right = refl;
    is_long = refl;
  })
]

abbrev reversed_back : (zs c l : List Cell) → reverse zs ≡ c ++ l → zs ≡ reverse l ++ reverse c
reversed_back zs c l e = sym (reverse-reverse zs) ∙ ap reverse e ∙ reverse-append c l

-- Two lists with a common last part.
record Ends (xs ys : List Cell) (n : ℕ) : Type 0 where
  left : List Cell
  right : List Cell
  common : List Cell
  is_left : xs ≡ left ++ common
  is_right : ys ≡ right ++ common
  is_long : length common ≡ n

length-reverse : (xs : List Cell) → length (reverse xs) ≡ length xs
length-reverse [] = refl
length-reverse (x ∷ xs) =
    ap length (reverse-cons x xs)
    ∙ length-append (reverse xs) (x ∷ [])
    ∙ omega (arith, length-reverse xs)

common_suffix-Ends : (xs ys : List Cell) → Ends xs ys (common_prefix (reverse xs) (reverse ys))
common_suffix-Ends xs ys =
    let s = common_prefix-Splits (reverse xs) (reverse ys) in
    record {
      left = reverse s.left;
      right = reverse s.right;
      common = reverse s.common;
      is_left = reversed_back xs s.common s.left s.is_left;
      is_right = reversed_back ys s.common s.right s.is_right;
      is_long = length-reverse s.common ∙ s.is_long;
    }

drop_of : (n : ℕ) (xs c l : List Cell) → xs ≡ c ++ l → length c ≡ n → drop n xs ≡ l
drop_of n xs c l e h = rw (e, sym h) (drop-append c l)

take_of : (n : ℕ) (xs c l : List Cell) → xs ≡ c ++ l → length c ≡ n → take n xs ≡ c
take_of n xs c l e h = rw (e, sym h) (take-append c l)

-- A row whose cells a `u32` can count.
abbrev pub IsShort : Row → Type 0
IsShort row = length row.cells < 2 ^ 32

pub truncated_small : (n : ℕ) → n < 2 ^ 32 → truncated n ≡ n
truncated_small n h = omega arith

-- Two lists that differ between a common first and a common last part.
record Cut (xs ys : List Cell) (p q : ℕ) : Type 0 where
  first : List Cell
  left : List Cell
  right : List Cell
  last : List Cell
  is_left : xs ≡ first ++ left ++ last
  is_right : ys ≡ first ++ right ++ last
  first_long : length first ≡ p
  last_long : length last ≡ q

length-parts :
    (p q : ℕ) (xs c l z : List Cell)
    → xs ≡ c ++ l ++ z
    → length c ≡ p
    → length z ≡ q
    → length xs ≡ p + length l + q
length-parts p q xs c l z e h k =
    ap length e ∙ length-append (c ++ l) z ∙ omega (arith, length-append c l)

common_ends-Cut :
    (xs ys : List Cell)
    → Cut xs ys (common_prefix xs ys) (
        common_prefix
          (reverse (drop (common_prefix xs ys) xs))
          (reverse (drop (common_prefix xs ys) ys)))
common_ends-Cut xs ys =
    let p : ℕ = common_prefix xs ys in
    let s = common_prefix-Splits xs ys in
    let e = common_suffix-Ends (drop p xs) (drop p ys) in
    let left_tail = drop_of p xs s.common s.left s.is_left s.is_long in
    let right_tail = drop_of p ys s.common s.right s.is_right s.is_long in
    record {
      first = s.common;
      left = e.left;
      right = e.right;
      last = e.common;
      is_left =
          s.is_left
          ∙ ap (λ r. s.common ++ r) (sym left_tail ∙ e.is_left)
          ∙ sym (append_assoc s.common e.left e.common);
      is_right =
          s.is_right
          ∙ ap (λ r. s.common ++ r) (sym right_tail ∙ e.is_right)
          ∙ sym (append_assoc s.common e.right e.common);
      first_long = s.is_long;
      last_long = e.is_long;
    }

module _ (old row : Row) (short_old : IsShort old) (p q : ℕ)
    (cut : Cut old.cells row.cells p q) where
  abbrev patch_of : ℕ → ℕ → TerminalViewportRowPatch
  patch_of index base_index = record {
    index = truncated index;
    base_index = truncated base_index;
    metadata = some (row_metadata row);
    cell_start = truncated p;
    delete_count = truncated (length old.cells - p - q);
    cells = take (length row.cells - q - p) (drop p row.cells);
  }

  spliced-patch_of : (index base_index : ℕ) → spliced old (patch_of index base_index) ≡ ok row
  unfolding spliced U64.checked_add
  spliced-patch_of index base_index =
      let old_length =
        length-parts p q old.cells cut.first cut.left cut.last cut.is_left cut.first_long
          cut.last_long in
      let row_length =
        length-parts p q row.cells cut.first cut.right cut.last cut.is_right cut.first_long
          cut.last_long in
      let start : truncated p ≡ p = truncated_small p (omega arith) in
      let deleted : truncated (length old.cells - p - q) ≡ length cut.left =
        truncated_small (length old.cells - p - q) (omega arith) ∙ omega arith in
      let fits : ltb (p + length cut.left) (2 ^ 64) ≡ true = ground arith in
      let within : leb (p + length cut.left) (length old.cells) ≡ true = ground arith in
      let head : take p old.cells ≡ cut.first =
        take_of p old.cells cut.first (cut.left ++ cut.last)
          (cut.is_left ∙ append_assoc cut.first cut.left cut.last) cut.first_long in
      let row_tail : drop p row.cells ≡ cut.right ++ cut.last =
        drop_of p row.cells cut.first (cut.right ++ cut.last)
          (cut.is_right ∙ append_assoc cut.first cut.right cut.last) cut.first_long in
      let middle : take (length row.cells - q - p) (drop p row.cells) ≡ cut.right =
        take_of (length row.cells - q - p) (drop p row.cells) cut.right cut.last row_tail
          (omega arith) in
      let tail : drop (p + length cut.left) old.cells ≡ cut.last =
        drop_of (p + length cut.left) old.cells (cut.first ++ cut.left) cut.last cut.is_left
          (length-append cut.first cut.left ∙ omega (arith, cut.first_long)) in
      rw (start, deleted, fits, middle)
        (rw (within, head, tail) (ap (λ cs. ok (record row { cells = cs })) (sym cut.is_right)))

-- The patch from one row to another, applied to the first, gives the second.
pub patch_from-spliced :
    (old row : Row) (index base_index : ℕ)
    → IsShort old
    → spliced old (patch_from old index base_index row) ≡ ok row
unfolding patch_from
patch_from-spliced old row index base_index short =
    let p : ℕ = common_prefix old.cells row.cells in
    let q : ℕ = common_prefix (reverse (drop p old.cells)) (reverse (drop p row.cells)) in
    spliced-patch_of old row short p q (common_ends-Cut old.cells row.cells) index base_index
