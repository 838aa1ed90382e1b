-- ===== src/Terminal/Total.antt =====
-- src/terminal_state_v2.rs: panics in the validation of screens, states and pages.
use Prim.Native.Nat.{◌+◌, ◌-◌}
use Prim.Native.String.{len as text_len}
use astra_shell.Prelude.{
  ℕ, ◌≡◌, ◌≢◌, ◌≤◌, ◌<◌, List, Bool, true, false, ◌&&◌, Option, none, some, length, get_elem?, ltb,
  leb, ◌==◌, refl, arith, if◌then◌else◌,
}
use astra_shell.Prelude.Result.{Result, ok, panic, ensure, ok_or, expect}
use astra_shell.Prelude.Returns.{
  chain_returns, chain_returns_ok, guarded, ok_returns, ensure_returns, ok_or_returns,
}
use astra_shell.Prelude.U64
use astra_shell.Prelude.Int.{variant}
use astra_shell.Terminal.State.{Anchor, Cursor, Screen, State, HistoryPage}
use astra_shell.Terminal.Checks.{
  StateError, schema_version, epoch_bytes, max_dimension, max_encoded_state_bytes, max_title_bytes,
  max_working_directory_bytes, max_included_rows, max_cells, one_to, key_le, key_lt,
  max_history_page_rows, max_encoded_history_page_bytes, anchor_eq, required_anchor,
  required_cursor, Libraries, viewport_overflows, no_included_rows, viewport_not_included,
  active_screen_unknown, modes_missing, palette_missing, primary_missing, alternate_missing,
}
use astra_shell.Terminal.Tables.{validate_modes, validate_palette, validate_tables}
use astra_shell.Terminal.Rows.{validate_rows}
use astra_shell.Terminal.Screens.{
  screen_kinds, kind_specified, validate_margins_and_tabs, validate_cursor, check_saved,
  check_alternate, validate_screen, validate,
}
use astra_shell.Terminal.Pages.{
  first_row, last_row, starts_at, bool_eq, is_empty, check_range, check_included,
  validate_history_page,
}
use astra_shell.Terminal.Returns.{
  required_anchor_returns, required_cursor_returns, validate_modes_returns,
  validate_palette_returns, validate_tables_returns, validate_rows_returns,
  validate_margins_and_tabs_returns, expect_get_elem?_returns, validate_cursor_returns,
}

branch_returns :
    (b : Bool) (x y : Result StateError Unit) → x ≢ panic → y ≢ panic → (if b then x else y) ≢ panic
branch_returns true x y p q = p
branch_returns false x y p q = q

check_alternate_returns : (b : Bool) (v n rows : ℕ) → check_alternate b v n rows ≢ panic
check_alternate_returns true v n rows h = ground arith
check_alternate_returns false v n rows h = cc

check_saved_returns :
    (saved : Option Cursor) (screen : Screen) (state : State)
    → screen.viewport_start + state.rows ≤ length screen.included_rows
    → check_saved saved screen state ≢ panic
check_saved_returns none screen state fits h = cc
check_saved_returns (some c) screen state fits h =
    ground (arith, validate_cursor_returns c screen state fits)

viewport_fits :
    (start rows n viewport_end : ℕ)
    → ok_or (U64.checked_add start rows) viewport_overflows ≡ ok viewport_end
    → leb viewport_end n ≡ true
    → start + rows ≤ n
unfolding U64.checked_add
viewport_fits start rows n viewport_end sum fits = ground arith

ensured : (b : Bool) (e : StateError) (u : Unit {0}) → ensure b e ≡ ok u → b ≡ true
ensured true e u h = refl
ensured false e u h = cc

module _ (lib : Libraries) where
  validate_screen_returns :
      (screen : Screen) (alternate : Bool) (state : State) (style_ids hyperlink_ids : List ℕ)
      (n : ℕ)
      → validate_screen lib screen alternate state style_ids hyperlink_ids n ≢ panic
  unfolding validate_screen
  validate_screen_returns screen alternate state style_ids hyperlink_ids n =
      let rows = screen.included_rows in
      chain_returns_ok (ensure (ltb 0 (length rows)) no_included_rows) _ (ensure_returns _ _)
        λ u some_row.
          chain_returns (check_alternate alternate screen.viewport_start (length rows) state.rows) _
            (check_alternate_returns alternate _ _ _)
            λ _.
              chain_returns_ok
                (ok_or (U64.checked_add screen.viewport_start state.rows) viewport_overflows) _
                (ok_or_returns _ _)
                λ viewport_end sum.
                  chain_returns_ok (ensure (leb viewport_end (length rows)) viewport_not_included) _
                    (ensure_returns _ _)
                    λ v in_rows.
                      let fits =
                        viewport_fits screen.viewport_start state.rows (length rows) viewport_end
                          sum (ensured _ _ v in_rows) in
                      let nonempty : 0 < length rows = ground arith in
                      let last_below : length rows - 1 < length rows = omega arith in
                      chain_returns (validate_margins_and_tabs screen state) _
                        (validate_margins_and_tabs_returns screen state)
                        λ _.
                          chain_returns
                            (required_anchor screen.oldest_available "oldest available anchor") _
                            (required_anchor_returns _ _)
                            λ oldest.
                              chain_returns
                                (required_anchor screen.newest_available "newest available anchor")
                                _ (required_anchor_returns _ _)
                                λ newest.
                                  chain_returns
                                    (required_anchor screen.included_start "included start anchor")
                                    _ (required_anchor_returns _ _)
                                    λ included_start.
                                      chain_returns
                                        (required_anchor screen.included_end "included end anchor")
                                        _ (required_anchor_returns _ _)
                                        λ included_end.
                                          guarded (key_le oldest included_start) _ _ λ _.
                                            guarded (key_le included_start included_end) _ _ λ _.
                                              guarded (key_le included_end newest) _ _ λ _.
                                                chain_returns (expect (get_elem? rows 0)) _
                                                  (expect_get_elem?_returns rows 0 nonempty)
                                                  λ first_row.
                                                    chain_returns
                                                      (required_anchor first_row.start
                                                        "first row anchor")
                                                      _ (required_anchor_returns _ _)
                                                      λ first_start.
                                                        chain_returns
                                                          (expect
                                                            (get_elem? rows (length rows - 1)))
                                                          _
                                                          (expect_get_elem?_returns rows
                                                            (length rows - 1) last_below)
                                                          λ last_row.
                                                            chain_returns
                                                            (required_anchor last_row.start
                                                            "last row anchor")
                                                            _ (required_anchor_returns _ _)
                                                            λ last_start.
                                                            guarded
                                                            (anchor_eq first_start included_start
                                                            && anchor_eq last_start included_end)
                                                            _ _
                                                            λ _.
                                                            chain_returns
                                                            (validate_rows lib state.cols style_ids
                                                            hyperlink_ids state.generation rows n)
                                                            _
                                                            (validate_rows_returns lib state.cols
                                                            style_ids hyperlink_ids state.generation
                                                            rows n)
                                                            λ count.
                                                            chain_returns
                                                            (required_cursor screen.cursor) _
                                                            (required_cursor_returns screen.cursor)
                                                            λ cursor.
                                                            chain_returns
                                                            (validate_cursor cursor screen state) _
                                                            (validate_cursor_returns cursor screen
                                                            state fits)
                                                            λ _.
                                                            chain_returns
                                                            (check_saved screen.saved_cursor screen
                                                            state)
                                                            _
                                                            (check_saved_returns screen.saved_cursor
                                                            screen state fits)
                                                            λ _. ok_returns count

  -- The validation of a state, with sums of `u32` that wrap around as in a release, returns on every
  -- state with a value or an error: no index of it is out of range.
  pub validate_returns : (state : State) → validate lib state ≢ panic
  unfolding validate
  validate_returns state = guarded (state.schema_version == schema_version) _ _ λ _.
      guarded (length state.epoch == epoch_bytes) _ _ λ _. guarded (ltb 0 state.generation) _ _ λ _.
        guarded (one_to max_dimension state.rows) _ _ λ _.
          guarded (one_to max_dimension state.cols) _ _ λ _.
            guarded (leb (lib.state_len state) max_encoded_state_bytes) _ _ λ _.
              guarded (leb (text_len state.title) max_title_bytes) _ _ λ _.
                guarded (leb (text_len state.working_directory) max_working_directory_bytes) _ _
                  λ _.
                    chain_returns
                      (ok_or (variant screen_kinds state.active_screen) active_screen_unknown) _
                      (ok_or_returns _ _)
                      λ active. guarded (kind_specified active) _ _ λ _.
                        chain_returns (ok_or state.modes modes_missing) _ (ok_or_returns _ _)
                          λ modes.
                            chain_returns (validate_modes modes) _ (validate_modes_returns modes)
                              λ _.
                                chain_returns (ok_or state.palette palette_missing) _
                                  (ok_or_returns _ _)
                                  λ palette.
                                    chain_returns (validate_palette palette) _
                                      (validate_palette_returns palette)
                                      λ _.
                                        chain_returns
                                          (validate_tables state.styles state.hyperlinks) _
                                          (validate_tables_returns _ _)
                                          λ ids.
                                            chain_returns (ok_or state.primary primary_missing) _
                                              (ok_or_returns _ _)
                                              λ primary.
                                                chain_returns
                                                  (ok_or state.alternate alternate_missing) _
                                                  (ok_or_returns _ _)
                                                  λ alternate.
                                                    guarded
                                                      (leb
                                                        (length primary.included_rows
                                                          + length alternate.included_rows)
                                                        max_included_rows)
                                                      _ _
                                                      λ _.
                                                        chain_returns
                                                          (validate_screen lib primary false state
                                                            ids.0 ids.1 0)
                                                          _
                                                          (validate_screen_returns primary false
                                                            state ids.0 ids.1 0)
                                                          λ primary_count.
                                                            chain_returns
                                                            (validate_screen lib alternate true
                                                            state ids.0 ids.1 primary_count)
                                                            _
                                                            (validate_screen_returns alternate true
                                                            state ids.0 ids.1 primary_count)
                                                            λ cell_count.
                                                            ensure_returns
                                                            (leb cell_count max_cells) _

  check_range_returns :
      (page : HistoryPage) (oldest newest : Anchor) → check_range lib page oldest newest ≢ panic
  unfolding check_range
  check_range_returns page oldest newest =
      chain_returns (required_anchor page.included_start "history included start anchor") _
        (required_anchor_returns _ _)
        λ included_start.
          chain_returns (required_anchor page.included_end "history included end anchor") _
            (required_anchor_returns _ _)
            λ included_end.
              guarded
                (key_le oldest included_start
                  && key_le included_start included_end
                  && key_le included_end newest)
                _ _
                λ _.
                  guarded
                    (starts_at (first_row page.included_rows) included_start
                      && starts_at (last_row page.included_rows) included_end)
                    _ _
                    λ _. guarded (bool_eq page.more_before (key_lt oldest included_start)) _ _ λ _.
                      chain_returns (validate_tables page.styles page.hyperlinks) _
                        (validate_tables_returns _ _)
                        λ ids.
                          chain_returns
                            (validate_rows lib page.cols ids.0 ids.1 page.generation
                              page.included_rows 0)
                            _
                            (validate_rows_returns lib page.cols ids.0 ids.1 page.generation
                              page.included_rows 0)
                            λ count. ok_returns tt

  check_included_returns :
      (page : HistoryPage) (oldest newest : Anchor) → check_included lib page oldest newest ≢ panic
  check_included_returns page oldest newest =
      guarded (leb (length page.included_rows) max_history_page_rows) _ _ λ _.
        branch_returns (is_empty page.included_rows) _ _ (ensure_returns _ _)
          (check_range_returns page oldest newest)

  -- The validation of a page of the history returns on every page, with a value or an error.
  pub validate_history_page_returns : (page : HistoryPage) → validate_history_page lib page ≢ panic
  unfolding validate_history_page
  validate_history_page_returns page = guarded (ltb 0 page.request_id) _ _ λ _.
      guarded (length page.epoch == epoch_bytes) _ _ λ _. guarded (ltb 0 page.generation) _ _ λ _.
        guarded (one_to max_dimension page.cols) _ _ λ _.
          guarded (leb (lib.page_len page) max_encoded_history_page_bytes) _ _ λ _.
            chain_returns (required_anchor page.oldest_available "history oldest available anchor")
              _ (required_anchor_returns _ _)
              λ oldest.
                chain_returns
                  (required_anchor page.newest_available "history newest available anchor") _
                  (required_anchor_returns _ _)
                  λ newest. guarded (key_le oldest newest) _ _ λ _.
                    branch_returns page.reset_required _ _ (ensure_returns _ _)
                      (check_included_returns page oldest newest)
