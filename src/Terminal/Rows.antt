-- ===== src/Terminal/Rows.antt =====
-- src/terminal_state_v2.rs: the checks of rows and cells. The counter of the cells, `&mut usize` in the
-- source, is an argument and the result.
use Prim.Native.String.{len as text_len}
use Prim.Native.Nat.{◌+◌, ◌^◌}
use astra_shell.Prelude.{
  ℕ, List, [], ◌∷◌, Bool, true, false, not, ◌&&◌, ◌||◌, ltb, leb, ◌==◌, str_eq, if◌then◌else◌,
  Option, none, some, length,
}
use astra_shell.Prelude.Result.{Result, ok, ◌>>=◌, ◌>>◌, ensure, ok_or}
use astra_shell.Prelude.U64
use astra_shell.Terminal.State.{Anchor, Cell, Row}
use astra_shell.Terminal.Checks.{
  StateError, row_version_outside, anchors_unordered, line_changed, offset_overflows,
  offset_differs, line_not_advanced, cell_count_overflows, too_many_cells, grapheme_empty,
  not_one_grapheme, grapheme_too_large, width_invalid, column_overflows, beyond_cols, cells_overlap,
  style_unknown, hyperlink_unknown, max_cells, max_grapheme_bytes, contains, key_lt,
  required_anchor, Libraries,
}

-- `checked_add` of `u32`.
unfoldable pub checked_add_u32 : ℕ → ℕ → Option ℕ
checked_add_u32 a b = if ltb (a + b) (2 ^ 32) then some (a + b) else none

module _ (lib : Libraries) (cols : ℕ) (style_ids hyperlink_ids : List ℕ) where
  -- The loop of `validate_cells`, from the cell at `index` on.
  unfoldable pub check_cells : ℕ → ℕ → List Cell → Result StateError Unit
  check_cells index previous_end [] = ok tt
  check_cells index previous_end (cell ∷ rest) = do
    ensure (not (str_eq cell.grapheme "")) grapheme_empty
    ensure (lib.graphemes cell.grapheme == 1) not_one_grapheme
    ensure (leb (text_len cell.grapheme) max_grapheme_bytes) grapheme_too_large
    ensure (cell.width == 1 || cell.width == 2) width_invalid
    last ← ok_or (checked_add_u32 cell.column cell.width) column_overflows
    ensure (leb last cols) beyond_cols
    ensure (not (ltb 0 index) || leb previous_end cell.column) cells_overlap
    ensure (cell.style_id == 0 || contains cell.style_id style_ids) style_unknown
    ensure (cell.hyperlink_id == 0 || contains cell.hyperlink_id hyperlink_ids) hyperlink_unknown
    check_cells (index + 1) last rest

  unfoldable pub validate_cells : Row → ℕ → Result StateError ℕ
  validate_cells row cell_count = do
    count ← ok_or (U64.checked_add cell_count (length row.cells)) cell_count_overflows
    ensure (leb count max_cells) too_many_cells
    check_cells 0 0 row.cells
    ok count

  -- `if let Some(previous) = previous`.
  abbrev pub check_previous : Option Anchor → Anchor → Result StateError Unit
  check_previous none start = ok tt
  check_previous (some previous) start = ensure (key_lt previous start) anchors_unordered

  abbrev pub check_wrap : Bool → Anchor → Anchor → Result StateError Unit
  check_wrap true start next_start = do
    ensure (next_start.logical_line_id == start.logical_line_id) line_changed
    expected ← ok_or (checked_add_u32 start.cell_offset cols) offset_overflows
    ensure (next_start.cell_offset == expected) offset_differs
  check_wrap false start next_start =
      ensure (ltb start.logical_line_id next_start.logical_line_id) line_not_advanced

  -- `if let Some(next) = rows.get(index + 1)`.
  abbrev pub check_next : Row → Anchor → List Row → Result StateError Unit
  check_next row start [] = ok tt
  check_next row start (next ∷ rest) = do
    next_start ← required_anchor next.start "next row anchor"
    check_wrap row.wrapped_to_next start next_start

  module _ (generation : ℕ) where
    -- The loop of `validate_rows`, behind the anchor `previous`.
    unfoldable pub check_rows : Option Anchor → ℕ → List Row → Result StateError ℕ
    check_rows previous cell_count [] = ok cell_count
    check_rows previous cell_count (row ∷ rest) = do
      start ← required_anchor row.start "row anchor"
      ensure (ltb 0 row.row_version && leb row.row_version generation) row_version_outside
      check_previous previous start
      check_next row start rest
      count ← validate_cells row cell_count
      check_rows (some start) count rest

    unfoldable pub validate_rows : List Row → ℕ → Result StateError ℕ
    validate_rows rows cell_count = check_rows none cell_count rows
