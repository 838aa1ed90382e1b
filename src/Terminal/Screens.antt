-- ===== src/Terminal/Screens.antt =====
-- src/terminal_state_v2.rs: the checks of a screen and of the whole state. An index that is out of range
-- is a panic.
use Prim.Native.String.{len as text_len}
use Prim.Native.Nat.{◌+◌, ◌-◌, ◌%◌, ◌^◌}
use astra_shell.Prelude.{
  ℕ, List, [], ◌∷◌, Bool, true, false, ◌&&◌, ltb, leb, ◌==◌, Option, none, some, length, get_elem?,
}
use astra_shell.Prelude.Result.{Result, ok, ◌>>=◌, ◌>>◌, ensure, ok_or, expect}
use astra_shell.Prelude.Int.{variant}
use astra_shell.Prelude.U64
use astra_shell.Terminal.Enums.{ScreenKind, CursorShape}
use astra_shell.Terminal.State.{Cursor, Screen, State}
use astra_shell.Terminal.Checks.{
  StateError, schema_unsupported, epoch_length, generation_zero, rows_out_of_range,
  cols_out_of_range, state_too_large, title_too_large, directory_too_large, active_screen_unknown,
  active_screen_unspecified, modes_missing, palette_missing, primary_missing, alternate_missing,
  too_many_rows, too_many_cells, no_included_rows, alternate_has_history, viewport_overflows,
  viewport_not_included, vertical_margins, horizontal_margins, too_many_tab_stops, tab_stop_outside,
  tab_stops_unordered, starts_before_history, range_reversed, ends_after_history, boundaries_differ,
  cursor_outside, cursor_version_outside, shape_unknown, shape_unspecified, cursor_line_differs,
  cursor_offset_differs, schema_version, epoch_bytes, max_dimension, max_encoded_state_bytes,
  max_title_bytes, max_working_directory_bytes, max_included_rows, max_cells, one_to, key_le,
  anchor_eq, required_anchor, required_cursor, Libraries,
}
use astra_shell.Terminal.Tables.{validate_modes, validate_palette, validate_tables}
use astra_shell.Terminal.Rows.{validate_rows}

abbrev pub screen_kinds : List ScreenKind
screen_kinds = ScreenKind.unspecified ∷ ScreenKind.primary ∷ ScreenKind.alternate ∷ []

abbrev pub cursor_shapes : List CursorShape
cursor_shapes =
    CursorShape.unspecified ∷ CursorShape.block ∷ CursorShape.underline ∷ CursorShape.bar ∷ []

abbrev pub kind_specified : ScreenKind → Bool
kind_specified ScreenKind.unspecified = false
kind_specified ScreenKind.primary = true
kind_specified ScreenKind.alternate = true

abbrev pub shape_specified : CursorShape → Bool
shape_specified CursorShape.unspecified = false
shape_specified CursorShape.block = true
shape_specified CursorShape.underline = true
shape_specified CursorShape.bar = true

-- The loop over the tab stops.
unfoldable pub check_tab_stops : ℕ → Option ℕ → List ℕ → Result StateError Unit
check_tab_stops cols previous [] = ok tt
check_tab_stops cols none (stop ∷ rest) = do
  ensure (ltb stop cols) tab_stop_outside
  check_tab_stops cols (some stop) rest
check_tab_stops cols (some previous) (stop ∷ rest) = do
  ensure (ltb stop cols) tab_stop_outside
  ensure (ltb previous stop) tab_stops_unordered
  check_tab_stops cols (some stop) rest

unfoldable pub validate_margins_and_tabs : Screen → State → Result StateError Unit
validate_margins_and_tabs screen state = do
  ensure
      (ltb screen.scroll_margin_top screen.scroll_margin_bottom
        && leb screen.scroll_margin_bottom state.rows)
      vertical_margins
  ensure
      (ltb screen.scroll_margin_left screen.scroll_margin_right
        && leb screen.scroll_margin_right state.cols)
      horizontal_margins
  ensure (leb (length screen.tab_stops) state.cols) too_many_tab_stops
  check_tab_stops state.cols none screen.tab_stops

-- The sum of the offset and the column is a plain `+` of `u32`, which wraps around in a release.
unfoldable pub validate_cursor : Cursor → Screen → State → Result StateError Unit
validate_cursor cursor screen state = do
  ensure (ltb cursor.x state.cols && ltb cursor.y state.rows) cursor_outside
  ensure (ltb 0 cursor.version && leb cursor.version state.generation) cursor_version_outside
  shape ← ok_or (variant cursor_shapes cursor.shape) shape_unknown
  ensure (shape_specified shape) shape_unspecified
  row ← expect (get_elem? screen.included_rows (screen.viewport_start + cursor.y))
  row_start ← required_anchor row.start "cursor row anchor"
  anchor ← required_anchor cursor.anchor "cursor anchor"
  ensure (anchor.logical_line_id == row_start.logical_line_id) cursor_line_differs
  ensure (anchor.cell_offset == (row_start.cell_offset + cursor.x) % 2 ^ 32) cursor_offset_differs

abbrev pub check_saved : Option Cursor → Screen → State → Result StateError Unit
check_saved none screen state = ok tt
check_saved (some saved) screen state = validate_cursor saved screen state

-- `if alternate`.
abbrev pub check_alternate : Bool → ℕ → ℕ → ℕ → Result StateError Unit
check_alternate true viewport_start included rows =
    ensure (viewport_start == 0 && included == rows) alternate_has_history
check_alternate false viewport_start included rows = ok tt

module _ (lib : Libraries) where
  unfoldable pub validate_screen : Screen → Bool → State → List ℕ → List ℕ → ℕ → Result StateError ℕ
  validate_screen screen alternate state style_ids hyperlink_ids cell_count = do
    ensure (ltb 0 (length screen.included_rows)) no_included_rows
    check_alternate alternate screen.viewport_start (length screen.included_rows) state.rows
    viewport_end ← ok_or (U64.checked_add screen.viewport_start state.rows) viewport_overflows
    ensure (leb viewport_end (length screen.included_rows)) viewport_not_included
    validate_margins_and_tabs screen state
    oldest ← required_anchor screen.oldest_available "oldest available anchor"
    newest ← required_anchor screen.newest_available "newest available anchor"
    included_start ← required_anchor screen.included_start "included start anchor"
    included_end ← required_anchor screen.included_end "included end anchor"
    ensure (key_le oldest included_start) starts_before_history
    ensure (key_le included_start included_end) range_reversed
    ensure (key_le included_end newest) ends_after_history
    first_row ← expect (get_elem? screen.included_rows 0)
    first_start ← required_anchor first_row.start "first row anchor"
    last_row ← expect (get_elem? screen.included_rows (length screen.included_rows - 1))
    last_start ← required_anchor last_row.start "last row anchor"
    ensure (anchor_eq first_start included_start && anchor_eq last_start included_end)
        boundaries_differ
    count ←
        validate_rows lib state.cols style_ids hyperlink_ids state.generation screen.included_rows
          cell_count
    cursor ← required_cursor screen.cursor
    validate_cursor cursor screen state
    check_saved screen.saved_cursor screen state
    ok count

  unfoldable pub validate : State → Result StateError Unit
  validate state = do
    ensure (state.schema_version == schema_version) schema_unsupported
    ensure (length state.epoch == epoch_bytes) epoch_length
    ensure (ltb 0 state.generation) generation_zero
    ensure (one_to max_dimension state.rows) rows_out_of_range
    ensure (one_to max_dimension state.cols) cols_out_of_range
    ensure (leb (lib.state_len state) max_encoded_state_bytes) state_too_large
    ensure (leb (text_len state.title) max_title_bytes) title_too_large
    ensure (leb (text_len state.working_directory) max_working_directory_bytes) directory_too_large
    active ← ok_or (variant screen_kinds state.active_screen) active_screen_unknown
    ensure (kind_specified active) active_screen_unspecified
    modes ← ok_or state.modes modes_missing
    validate_modes modes
    palette ← ok_or state.palette palette_missing
    validate_palette palette
    ids ← validate_tables state.styles state.hyperlinks
    primary ← ok_or state.primary primary_missing
    alternate ← ok_or state.alternate alternate_missing
    ensure (leb (length primary.included_rows + length alternate.included_rows) max_included_rows)
        too_many_rows
    primary_count ← validate_screen primary false state ids.0 ids.1 0
    cell_count ← validate_screen alternate true state ids.0 ids.1 primary_count
    ensure (leb cell_count max_cells) too_many_cells
