-- ===== src/Terminal/Checks.antt =====
-- src/terminal_state_v2.rs: the bounds, the messages of the errors, and the helpers of the validation.
use astra_shell.Prelude.{
  ℕ, String, List, [], ◌∷◌, Bool, false, not, ◌&&◌, ◌||◌, ltb, leb, ◌==◌, Option, ◌*◌,
}
use astra_shell.Prelude.Result.{Result, ok, ◌>>=◌, ◌>>◌, ensure, ok_or}
use astra_shell.Terminal.State.{Anchor, Cursor, State, HistoryPage}

abbrev pub schema_version : ℕ
schema_version = 2

abbrev pub epoch_bytes : ℕ
epoch_bytes = 16

abbrev pub max_encoded_state_bytes : ℕ
max_encoded_state_bytes = 8 * 1024 * 1024

abbrev pub max_encoded_history_page_bytes : ℕ
max_encoded_history_page_bytes = 4 * 1024 * 1024

abbrev pub max_dimension : ℕ
max_dimension = 1000

abbrev pub max_included_rows : ℕ
max_included_rows = 4096

abbrev pub max_history_page_rows : ℕ
max_history_page_rows = 512

abbrev pub max_cells : ℕ
max_cells = 1000000

abbrev pub max_grapheme_bytes : ℕ
max_grapheme_bytes = 256

abbrev pub max_styles : ℕ
max_styles = 4096

abbrev pub max_hyperlinks : ℕ
max_hyperlinks = 4096

abbrev pub max_hyperlink_uri_bytes : ℕ
max_hyperlink_uri_bytes = 16 * 1024

abbrev pub max_hyperlink_explicit_id_bytes : ℕ
max_hyperlink_explicit_id_bytes = 1024

abbrev pub max_title_bytes : ℕ
max_title_bytes = 512

abbrev pub max_working_directory_bytes : ℕ
max_working_directory_bytes = 16 * 1024

-- What the validation takes from other crates: the number of extended grapheme clusters of a text
-- (unicode-segmentation), and the encoded length of a message (prost).
pub record Libraries : Type 0 where
  pub graphemes : String → ℕ
  pub state_len : State → ℕ
  pub page_len : HistoryPage → ℕ

-- The messages of the errors.
pub data StateError : Type 0 where
  schema_unsupported epoch_length generation_zero rows_out_of_range cols_out_of_range : StateError
  state_too_large title_too_large directory_too_large : StateError
  active_screen_unknown active_screen_unspecified modes_missing palette_missing : StateError
  mouse_tracking_unknown mouse_encoding_unknown keyboard_encoding_unknown : StateError
  flags_require_kitty kitty_flags_unknown palette_length palette_rgb_range : StateError
  too_many_styles style_id_invalid too_many_hyperlinks hyperlink_id_invalid : StateError
  uri_empty uri_too_large explicit_id_too_large : StateError
  foreground_missing background_missing underline_color_missing : StateError
  intensity_unknown underline_unknown blink_unknown semantic_type_unknown vertical_align_unknown :
      StateError
  color_value_missing palette_index_range rgb_range : StateError
  primary_missing alternate_missing too_many_rows too_many_cells no_included_rows : StateError
  alternate_has_history viewport_overflows viewport_not_included : StateError
  vertical_margins horizontal_margins too_many_tab_stops tab_stop_outside tab_stops_unordered :
      StateError
  starts_before_history range_reversed ends_after_history boundaries_differ : StateError
  row_version_outside anchors_unordered line_changed offset_overflows offset_differs
        line_not_advanced :
      StateError
  cell_count_overflows grapheme_empty not_one_grapheme grapheme_too_large width_invalid : StateError
  column_overflows beyond_cols cells_overlap style_unknown hyperlink_unknown : StateError
  cursor_missing cursor_outside cursor_version_outside shape_unknown shape_unspecified : StateError
  cursor_line_differs cursor_offset_differs : StateError
  anchor_missing anchor_line_zero : String → StateError
  request_id_zero page_too_large available_reversed reset_has_data page_too_many_rows : StateError
  empty_has_data included_outside page_boundaries_differ continuation_differs : StateError
  maximum_rows_range : StateError

-- `contains` of a `HashSet` of numbers.
unfoldable pub contains : ℕ → List ℕ → Bool
contains n [] = false
contains n (m ∷ set) = n == m || contains n set

-- `(1..=high).contains(&n)`.
abbrev pub one_to : ℕ → ℕ → Bool
one_to high n = leb 1 n && leb n high

-- `anchor_key(a) < anchor_key(b)` and `<=`, on the pairs of line and offset.
unfoldable pub key_lt : Anchor → Anchor → Bool
key_lt a b =
    ltb a.logical_line_id b.logical_line_id
    || (a.logical_line_id == b.logical_line_id && ltb a.cell_offset b.cell_offset)

unfoldable pub key_le : Anchor → Anchor → Bool
key_le a b = not (key_lt b a)

-- The derived equality of anchors.
unfoldable pub anchor_eq : Anchor → Anchor → Bool
anchor_eq a b = a.logical_line_id == b.logical_line_id && a.cell_offset == b.cell_offset

unfoldable pub required_anchor : Option Anchor → String → Result StateError Anchor
required_anchor anchor name = do
  found ← ok_or anchor (anchor_missing name)
  ensure (not (found.logical_line_id == 0)) (anchor_line_zero name)
  ok found

unfoldable pub required_cursor : Option Cursor → Result StateError Cursor
required_cursor cursor = ok_or cursor cursor_missing
