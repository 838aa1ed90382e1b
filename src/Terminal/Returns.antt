-- ===== src/Terminal/Returns.antt =====
-- src/terminal_state_v2.rs: panics in the helpers, tables, rows and cells of the validation.
use Prim.Native.Nat.{◌+◌}
use astra_shell.Prelude.{
  ℕ, zero, suc, String, ◌≢◌, ◌≤◌, ◌<◌, List, [], ◌∷◌, ◌&&◌, Option, none, some, length, get_elem?,
  ltb, leb, arith,
}
use astra_shell.Prelude.Result.{Result, panic, ensure, ok_or, expect}
use astra_shell.Prelude.Returns.{
  chain_returns, chain_returns_ok, guarded, ok_returns, ensure_returns, ok_or_returns,
}
use astra_shell.Prelude.Int.{variant}
use astra_shell.Terminal.State.{
  Anchor, Cell, Row, Cursor, Screen, State, Color, Style, Hyperlink, Modes, Palette,
}
use astra_shell.Terminal.Checks.{
  foreground_missing, background_missing, underline_color_missing, cursor_outside, shape_unknown,
  required_anchor, required_cursor, Libraries,
}
use astra_shell.Terminal.Tables.{
  validate_modes, all_rgb, validate_palette, validate_color, validate_style, collect_styles,
  collect_hyperlinks, validate_tables,
}
use astra_shell.Terminal.Rows.{
  check_cells, validate_cells, check_previous, check_next, check_rows, validate_rows,
}
use astra_shell.Terminal.Screens.{
  cursor_shapes, shape_specified, check_tab_stops, validate_margins_and_tabs, validate_cursor,
}

pub required_anchor_returns : (o : Option Anchor) (name : String) → required_anchor o name ≢ panic
unfolding required_anchor
required_anchor_returns o name h = ground arith

pub required_cursor_returns : (o : Option Cursor) → required_cursor o ≢ panic
unfolding required_cursor
required_cursor_returns o h = ground arith

pub validate_modes_returns : (m : Modes) → validate_modes m ≢ panic
unfolding validate_modes
validate_modes_returns m h = ground arith

all_rgb_returns : (cs : List ℕ) → all_rgb cs ≢ panic
unfolding all_rgb
all_rgb_returns [] h = cc
all_rgb_returns (c ∷ cs) h = ground (arith, all_rgb_returns cs)

pub validate_palette_returns : (p : Palette) → validate_palette p ≢ panic
unfolding validate_palette
validate_palette_returns p h = grind (arith, all_rgb_returns)

validate_color_returns : (c : Color) → validate_color c ≢ panic
unfolding validate_color
validate_color_returns c h = ground arith

validate_style_returns : (s : Style) → validate_style s ≢ panic
unfolding validate_style
validate_style_returns s =
    chain_returns (ok_or s.foreground foreground_missing) _ (ok_or_returns _ _) λ foreground.
      chain_returns (validate_color foreground) _ (validate_color_returns foreground) λ _.
        chain_returns (ok_or s.background background_missing) _ (ok_or_returns _ _) λ background.
          chain_returns (validate_color background) _ (validate_color_returns background) λ _.
            chain_returns (ok_or s.underline_color underline_color_missing) _ (ok_or_returns _ _)
              λ color.
                chain_returns (validate_color color) _ (validate_color_returns color)
                  λ _ h. ground arith

collect_styles_returns : (ids : List ℕ) (ss : List Style) → collect_styles ids ss ≢ panic
unfolding collect_styles
collect_styles_returns ids [] h = cc
collect_styles_returns ids (s ∷ ss) h =
    ground (arith, validate_style_returns s, collect_styles_returns (s.id ∷ ids) ss)

collect_hyperlinks_returns :
    (ids : List ℕ) (ls : List Hyperlink) → collect_hyperlinks ids ls ≢ panic
unfolding collect_hyperlinks
collect_hyperlinks_returns ids [] h = cc
collect_hyperlinks_returns ids (l ∷ ls) h =
    ground (arith, collect_hyperlinks_returns (l.id ∷ ids) ls)

pub validate_tables_returns :
    (ss : List Style) (ls : List Hyperlink) → validate_tables ss ls ≢ panic
unfolding validate_tables
validate_tables_returns ss ls h =
    ground (arith, collect_styles_returns [] ss, collect_hyperlinks_returns [] ls)

module _ (lib : Libraries) (cols : ℕ) (style_ids hyperlink_ids : List ℕ) where
  check_cells_returns :
      (index from : ℕ) (cells : List Cell)
      → check_cells lib cols style_ids hyperlink_ids index from cells ≢ panic
  unfolding check_cells
  check_cells_returns index from [] h = cc
  check_cells_returns index from (c ∷ cs) h =
      grind (arith, λ (last : ℕ). check_cells_returns (index + 1) last cs)

  validate_cells_returns :
      (row : Row) (n : ℕ) → validate_cells lib cols style_ids hyperlink_ids row n ≢ panic
  unfolding validate_cells
  validate_cells_returns row n h = ground (arith, check_cells_returns 0 0 row.cells)

  check_next_returns :
      (row : Row) (a : Anchor) (rows : List Row)
      → check_next lib cols style_ids hyperlink_ids row a rows ≢ panic
  check_next_returns row a [] h = cc
  check_next_returns row a (next ∷ rest) h =
      ground (arith, required_anchor_returns next.start "next row anchor")

  check_previous_returns :
      (previous : Option Anchor) (a : Anchor)
      → check_previous lib cols style_ids hyperlink_ids previous a ≢ panic
  check_previous_returns none a h = cc
  check_previous_returns (some p) a h = ground arith

  check_rows_returns :
      (generation : ℕ) (previous : Option Anchor) (n : ℕ) (rows : List Row)
      → check_rows lib cols style_ids hyperlink_ids generation previous n rows ≢ panic
  unfolding check_rows
  check_rows_returns generation previous n [] = ok_returns n
  check_rows_returns generation previous n (r ∷ rs) =
      chain_returns (required_anchor r.start "row anchor") _
        (required_anchor_returns r.start "row anchor")
        λ a. guarded (ltb 0 r.row_version && leb r.row_version generation) _ _ λ _.
          chain_returns (check_previous lib cols style_ids hyperlink_ids previous a) _
            (check_previous_returns previous a)
            λ _.
              chain_returns (check_next lib cols style_ids hyperlink_ids r a rs) _
                (check_next_returns r a rs)
                λ _.
                  chain_returns (validate_cells lib cols style_ids hyperlink_ids r n) _
                    (validate_cells_returns r n) λ k. check_rows_returns generation (some a) k rs

  pub validate_rows_returns :
      (generation : ℕ) (rows : List Row) (n : ℕ)
      → validate_rows lib cols style_ids hyperlink_ids generation rows n ≢ panic
  unfolding validate_rows
  validate_rows_returns generation rows n = check_rows_returns generation none n rows

check_tab_stops_returns :
    (cols : ℕ) (previous : Option ℕ) (stops : List ℕ) → check_tab_stops cols previous stops ≢ panic
unfolding check_tab_stops
check_tab_stops_returns cols none [] h = cc
check_tab_stops_returns cols (some p) [] h = cc
check_tab_stops_returns cols none (s ∷ ss) h =
    ground (arith, check_tab_stops_returns cols (some s) ss)
check_tab_stops_returns cols (some p) (s ∷ ss) h =
    ground (arith, check_tab_stops_returns cols (some s) ss)

pub validate_margins_and_tabs_returns :
    (screen : Screen) (state : State) → validate_margins_and_tabs screen state ≢ panic
unfolding validate_margins_and_tabs
validate_margins_and_tabs_returns screen state h =
    ground (arith, check_tab_stops_returns state.cols none screen.tab_stops)

-- An index below the length is in range.
pub expect_get_elem?_returns :
    {A E : Type 0} (xs : List A) (i : ℕ)
    → i < length xs
    → ◌≢◌ {A = Result E A} (expect (get_elem? xs i)) panic
expect_get_elem?_returns [] i l = absurd (omega arith)
expect_get_elem?_returns (x ∷ xs) zero l = λ h. cc
expect_get_elem?_returns (x ∷ xs) (suc i) l = expect_get_elem?_returns xs i (omega arith)

pub validate_cursor_returns :
    (cursor : Cursor) (screen : Screen) (state : State)
    → screen.viewport_start + state.rows ≤ length screen.included_rows
    → validate_cursor cursor screen state ≢ panic
unfolding validate_cursor
validate_cursor_returns cursor screen state fits =
    chain_returns_ok (ensure (ltb cursor.x state.cols && ltb cursor.y state.rows) cursor_outside) _
      (ensure_returns _ _)
      λ _ inside. guarded (ltb 0 cursor.version && leb cursor.version state.generation) _ _ λ _.
        chain_returns (ok_or (variant cursor_shapes cursor.shape) shape_unknown) _
          (ok_or_returns _ _)
          λ shape. guarded (shape_specified shape) _ _ λ _.
            chain_returns
              (expect (get_elem? screen.included_rows (screen.viewport_start + cursor.y))) _
              (expect_get_elem?_returns screen.included_rows (screen.viewport_start + cursor.y)
                (ground arith))
              λ row.
                chain_returns (required_anchor row.start "cursor row anchor") _
                  (required_anchor_returns _ _)
                  λ row_start.
                    chain_returns (required_anchor cursor.anchor "cursor anchor") _
                      (required_anchor_returns _ _) λ anchor h. ground arith
