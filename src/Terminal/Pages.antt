-- ===== src/Terminal/Pages.antt =====
-- src/terminal_state_v2.rs: the checks of requests for pages of the history, and of the pages.
use astra_shell.Prelude.{
  List, [], ◌∷◌, Bool, true, false, not, ◌&&◌, ltb, leb, ◌==◌, Option, none, some, length,
  if◌then◌else◌,
}
use astra_shell.Prelude.Result.{Result, ok, ◌>>=◌, ◌>>◌, ensure}
use astra_shell.Terminal.State.{Anchor, Row, HistoryPage, HistoryPageRequest}
use astra_shell.Terminal.Checks.{
  StateError, request_id_zero, epoch_length, generation_zero, cols_out_of_range, page_too_large,
  available_reversed, reset_has_data, page_too_many_rows, empty_has_data, included_outside,
  page_boundaries_differ, continuation_differs, maximum_rows_range, epoch_bytes, max_dimension,
  max_encoded_history_page_bytes, max_history_page_rows, one_to, key_lt, key_le, anchor_eq,
  required_anchor, Libraries,
}
use astra_shell.Terminal.Tables.{validate_tables}
use astra_shell.Terminal.Rows.{validate_rows}

unfoldable pub validate_history_page_request : HistoryPageRequest → Result StateError Unit
validate_history_page_request request = do
  ensure (length request.epoch == epoch_bytes) epoch_length
  before ← required_anchor request.before "history request anchor"
  ensure (one_to max_history_page_rows request.maximum_rows) maximum_rows_range

abbrev pub is_empty {ℓ} : {A : Type ℓ} → List A → Bool
is_empty [] = true
is_empty (x ∷ xs) = false

abbrev pub is_none {ℓ} : {A : Type ℓ} → Option A → Bool
is_none none = true
is_none (some a) = false

-- `first` and `last` of a slice.
abbrev pub first_row : List Row → Option Row
first_row [] = none
first_row (row ∷ rest) = some row

abbrev pub last_row : List Row → Option Row
last_row [] = none
last_row (row ∷ []) = some row
last_row (row ∷ next ∷ rest) = last_row (next ∷ rest)

-- `row.and_then(|row| row.start.as_ref()) == Some(anchor)`.
abbrev pub starts_at : Option Row → Anchor → Bool
starts_at none anchor = false
starts_at (some row) anchor = elim row.start [ none ↦ false | some start ↦ anchor_eq start anchor ]

abbrev pub bool_eq : Bool → Bool → Bool
bool_eq true b = b
bool_eq false b = not b

-- No page data: the condition that the reset page and the empty page share.
abbrev pub has_no_range : HistoryPage → Bool
has_no_range page =
    is_none page.included_start
    && is_none page.included_end
    && is_empty page.styles
    && is_empty page.hyperlinks
    && not page.more_before

module _ (lib : Libraries) where
  -- What follows the two early returns, for a page with rows.
  unfoldable pub check_range : HistoryPage → Anchor → Anchor → Result StateError Unit
  check_range page oldest newest = do
    included_start ← required_anchor page.included_start "history included start anchor"
    included_end ← required_anchor page.included_end "history included end anchor"
    ensure
        (key_le oldest included_start
          && key_le included_start included_end
          && key_le included_end newest)
        included_outside
    ensure
        (starts_at (first_row page.included_rows) included_start
          && starts_at (last_row page.included_rows) included_end)
        page_boundaries_differ
    ensure (bool_eq page.more_before (key_lt oldest included_start)) continuation_differs
    ids ← validate_tables page.styles page.hyperlinks
    cell_count ← validate_rows lib page.cols ids.0 ids.1 page.generation page.included_rows 0
    ok tt

  abbrev pub check_included : HistoryPage → Anchor → Anchor → Result StateError Unit
  check_included page oldest newest = do
    ensure (leb (length page.included_rows) max_history_page_rows) page_too_many_rows
    (if is_empty page.included_rows
        then ensure (has_no_range page) empty_has_data
        else check_range page oldest newest)

  unfoldable pub validate_history_page : HistoryPage → Result StateError Unit
  validate_history_page page = do
    ensure (ltb 0 page.request_id) request_id_zero
    ensure (length page.epoch == epoch_bytes) epoch_length
    ensure (ltb 0 page.generation) generation_zero
    ensure (one_to max_dimension page.cols) cols_out_of_range
    ensure (leb (lib.page_len page) max_encoded_history_page_bytes) page_too_large
    oldest ← required_anchor page.oldest_available "history oldest available anchor"
    newest ← required_anchor page.newest_available "history newest available anchor"
    ensure (key_le oldest newest) available_reversed
    (if page.reset_required
        then ensure (is_empty page.included_rows && has_no_range page) reset_has_data
        else check_included page oldest newest)
