-- ===== src/Terminal/Sound.antt =====
-- src/terminal_state_v2.rs: what the validation has established of the rows and cells it accepts.
use Prim.Native.Nat.{◌+◌}
use astra_shell.Prelude.{
  String, ◌&&◌, ℕ, ◌≡◌, ◌≤◌, ◌<◌, List, [], ◌∷◌, true, Option, none, some, ltb, leb, arith,
}
use astra_shell.Prelude.Result.{ok, ensure, chain_parts}
use astra_shell.Prelude.U64
use astra_shell.Terminal.State.{Anchor, Cell, Row}
use astra_shell.Terminal.Checks.{row_version_outside, required_anchor, key_lt, Libraries}
use astra_shell.Terminal.Rows.{
  checked_add_u32, check_cells, validate_cells, check_previous, check_next, check_rows,
  validate_rows,
}

-- Cells from left to right from the column `from` on, one or two columns wide, none beyond `cols`.
abbrev pub CellsPlaced : ℕ → ℕ → List Cell → Type 0
CellsPlaced cols from [] = Unit {0}
CellsPlaced cols from (c ∷ cs) =
    (from ≤ c.column)
    × (1 ≤ c.width)
    × (c.width ≤ 2)
    × (c.column + c.width ≤ cols)
    × CellsPlaced cols (c.column + c.width) cs

abbrev pub Behind : Option Anchor → Anchor → Type 0
Behind none a = Unit {0}
Behind (some p) a = key_lt p a ≡ true

-- Rows with anchors in strictly ascending order, behind the anchor `previous`.
abbrev pub Ascending : Option Anchor → List Row → Type 0
Ascending previous [] = Unit {0}
Ascending previous (r ∷ rs) =
    (a : Anchor) × (r.start ≡ some a) × Behind previous a × Ascending (some a) rs

-- The cells of each row fit, and the versions are those of this or of earlier generations.
abbrev pub AllPlaced : ℕ → ℕ → List Row → Type 0
AllPlaced cols generation [] = Unit {0}
AllPlaced cols generation (r ∷ rs) =
    (0 < r.row_version)
    × (r.row_version ≤ generation)
    × CellsPlaced cols 0 r.cells
    × AllPlaced cols generation rs

module _ (lib : Libraries) (cols : ℕ) (style_ids hyperlink_ids : List ℕ) where
  check_cells-CellsPlaced :
      (index from : ℕ) (cells : List Cell) (u : Unit {0})
      → (index ≡ 0 → from ≡ 0)
      → check_cells lib cols style_ids hyperlink_ids index from cells ≡ ok u
      → CellsPlaced cols from cells
  unfolding check_cells checked_add_u32
  check_cells-CellsPlaced index from [] u z h = tt
  check_cells-CellsPlaced index from (c ∷ cs) u z h =
      ground (arith, check_cells-CellsPlaced (index + 1) (c.column + c.width) cs u)

  validate_cells-CellsPlaced :
      (row : Row) (n m : ℕ)
      → validate_cells lib cols style_ids hyperlink_ids row n ≡ ok m
      → CellsPlaced cols 0 row.cells
  unfolding validate_cells U64.checked_add
  validate_cells-CellsPlaced row n m h = ground (arith, check_cells-CellsPlaced 0 0 row.cells tt)

  required_anchor-some :
      (o : Option Anchor) (name : String) (a : Anchor) → required_anchor o name ≡ ok a → o ≡ some a
  unfolding required_anchor
  required_anchor-some o name a h = ground arith

  check_previous-Behind :
      (previous : Option Anchor) (a : Anchor) (u : Unit {0})
      → check_previous lib cols style_ids hyperlink_ids previous a ≡ ok u
      → Behind previous a
  check_previous-Behind none a u h = tt
  check_previous-Behind (some p) a u h = ground arith

  module _ (generation : ℕ) where
    check_rows-Ascending :
        (previous : Option Anchor) (n m : ℕ) (rows : List Row)
        → check_rows lib cols style_ids hyperlink_ids generation previous n rows ≡ ok m
        → Ascending previous rows × AllPlaced cols generation rows
    unfolding check_rows
    check_rows-Ascending previous n m [] h = (tt, tt)
    check_rows-Ascending previous n m (r ∷ rs) h =
        let (a, anchored, h1) = chain_parts (required_anchor r.start "row anchor") _ h in
        let (u, version, h2) =
          chain_parts
            (ensure (ltb 0 r.row_version && leb r.row_version generation) row_version_outside) _
            h1 in
        let (v, behind, h3) =
          chain_parts (check_previous lib cols style_ids hyperlink_ids previous a) _ h2 in
        let (w, next, h4) = chain_parts (check_next lib cols style_ids hyperlink_ids r a rs) _ h3 in
        let (k, cells, h5) =
          chain_parts (validate_cells lib cols style_ids hyperlink_ids r n) _ h4 in
        let (ascending, placed) = check_rows-Ascending (some a) k m rs h5 in
        (
          (
            a,
            required_anchor-some r.start _ a anchored,
            check_previous-Behind previous a v behind,
            ascending,
          ),
          (ground arith, ground arith, validate_cells-CellsPlaced r n k cells, placed),
        )

    pub validate_rows-Ascending :
        (n m : ℕ) (rows : List Row)
        → validate_rows lib cols style_ids hyperlink_ids generation rows n ≡ ok m
        → Ascending none rows × AllPlaced cols generation rows
    unfolding validate_rows
    validate_rows-Ascending n m rows h = check_rows-Ascending none n m rows h
