-- ===== src/Terminal/Tests.antt =====
-- Runs of the validation and of the synchronisation, and the theorems at two states of two rows.
use astra_shell.Prelude.{
  ℕ, ◌≡◌, ◌≢◌, refl, String, List, [], ◌∷◌, true, false, Option, none, some, arith, zero, suc,
}
use astra_shell.Prelude.Int.{pos}
use astra_shell.Prelude.Result.{ok, err, panic}
use astra_shell.Terminal.State.{Anchor, Row, Screen, Modes, Palette, State, HistoryPage}
use astra_shell.Terminal.Checks.{
  line_not_advanced, required_anchor, required_cursor, key_le, key_lt, anchor_eq, contains,
  Libraries,
}
use astra_shell.Prelude.U64
use astra_shell.Terminal.Tables.{
  validate_modes, validate_palette, all_rgb, validate_tables, collect_styles, collect_hyperlinks,
}
use astra_shell.Terminal.Rows.{
  validate_rows, check_rows, validate_cells, check_cells, checked_add_u32,
}
use astra_shell.Terminal.Screens.{
  validate, validate_screen, validate_margins_and_tabs, check_tab_stops, validate_cursor,
}
use astra_shell.Terminal.Valid.{IsState, validate-IsState}
use astra_shell.Terminal.Total.{validate_returns}
use astra_shell.Terminal.Diff.{
  base_anchor, replacement, TerminalStateDiff, cell_eq, cells_eq, start_eq, bool_eq, row_eq,
  get_row, collect_rows, rows_by_anchor, diff_each, diff_rows, state_metadata, terminal_state_diff,
  apply_terminal_state_diff,
}
use astra_shell.Terminal.RoundTrip.{terminal_state_diff-apply_terminal_state_diff}
use astra_shell.Terminal.Window.{
  snapshot, AckDisposition, begin_initial, prepare_update, acknowledge,
}
use astra_shell.Terminal.Protocol.{System, ack_of, receive, delivered, Reach, begins, next}
use astra_shell.Terminal.Agreement.{IsValid, window, Prepared, prepare_update-Prepared}
use astra_shell.Terminal.Converges.{Reach-receive, Reach-acknowledge}
use astra_shell.Prelude.Bytes.{bytes_eq}

-- Every text is one cluster, and every message is 100 bytes long.
abbrev pub plain : Libraries
plain = record { graphemes = λ s. 1; state_len = λ s. 100; page_len = λ p. 100 }

abbrev black : ℕ → List ℕ
black zero = []
black (suc n) = 0 ∷ black n

abbrev at : ℕ → Anchor
at line = record { logical_line_id = line; cell_offset = 0 }

abbrev line : ℕ → ℕ → String → Row
line id version text = record {
  start = some (at id);
  row_version = version;
  cells = record { column = 0; grapheme = text; width = 1; style_id = 0; hyperlink_id = 0 } ∷ [];
  wrapped_to_next = false;
}

abbrev screen : ℕ → Row → Row → Screen
screen version first second = record {
  included_rows = first ∷ second ∷ [];
  viewport_start = 0;
  cursor = some (record {
    x = 1;
    y = 0;
    anchor = some (record { logical_line_id = 1; cell_offset = 1 });
    shape = pos 1;
    visible = true;
    version = version;
    wrap_pending = false;
  });
  saved_cursor = none;
  oldest_available = some (at 1);
  newest_available = some (at 2);
  included_start = some (at 1);
  included_end = some (at 2);
  scroll_margin_top = 0;
  scroll_margin_bottom = 2;
  scroll_margin_left = 0;
  scroll_margin_right = 4;
  tab_stops = [];
}

abbrev modes : Modes
modes = record {
  application_cursor_keys = false;
  application_keypad = false;
  bracketed_paste = true;
  focus_tracking = false;
  origin = false;
  insert = false;
  auto_wrap = true;
  reverse_wraparound = false;
  newline = false;
  left_right_margin = false;
  reverse_video = false;
  mouse_tracking = pos 0;
  mouse_encoding = pos 2;
  keyboard_encoding = pos 2;
  keyboard_flags = 5;
  alternate_scroll = false;
}

abbrev palette : Palette
palette = record {
  indexed_rgb = black 256;
  foreground_rgb = 0xffffff;
  background_rgb = 0;
  cursor_fg_rgb = 0;
  cursor_bg_rgb = 0xffffff;
  selection_fg_rgb = 0;
  selection_bg_rgb = 0xffffff;
}

abbrev state : ℕ → Screen → State
state generation primary = record {
  schema_version = 2;
  epoch = 7 ∷ 7 ∷ 7 ∷ 7 ∷ 7 ∷ 7 ∷ 7 ∷ 7 ∷ 7 ∷ 7 ∷ 7 ∷ 7 ∷ 7 ∷ 7 ∷ 7 ∷ 7 ∷ [];
  generation = generation;
  rows = 2;
  cols = 4;
  primary = some primary;
  alternate = some (screen 1 (line 1 1 "a") (line 2 1 "b"));
  active_screen = pos 1;
  styles = [];
  hyperlinks = [];
  modes = some modes;
  title = "shell";
  working_directory = "/";
  palette = some palette;
}

abbrev pub before : State
before = state 1 (screen 1 (line 1 1 "x") (line 2 1 "y"))

abbrev pub after : State
after = state 2 (screen 1 (line 1 1 "x") (line 2 2 "z"))

pub before_valid : validate plain before ≡ ok tt
unfolding validate validate_modes validate_palette all_rgb validate_tables collect_styles
    collect_hyperlinks validate_screen U64.checked_add validate_margins_and_tabs check_tab_stops
    required_anchor required_cursor key_le key_lt anchor_eq validate_rows check_rows validate_cells
    check_cells checked_add_u32 contains validate_cursor
before_valid = refl

pub after_valid : validate plain after ≡ ok tt
unfolding validate validate_modes validate_palette all_rgb validate_tables collect_styles
    collect_hyperlinks validate_screen U64.checked_add validate_margins_and_tabs check_tab_stops
    required_anchor required_cursor key_le key_lt anchor_eq validate_rows check_rows validate_cells
    check_cells checked_add_u32 contains validate_cursor
after_valid = refl

-- Rows whose anchors do not ascend are refused.
unordered_run :
    validate plain
      (state 1 (record (screen 1 (line 1 1 "x") (line 1 1 "y")) { included_end = some (at 1) }))
    ≡ err line_not_advanced
unfolding validate validate_modes validate_palette all_rgb validate_tables collect_styles
    collect_hyperlinks validate_screen U64.checked_add validate_margins_and_tabs check_tab_stops
    required_anchor required_cursor key_le key_lt anchor_eq validate_rows check_rows validate_cells
    check_cells checked_add_u32
unordered_run = refl

show_example : IsState before
show_example = validate-IsState plain before before_valid

returns_example : validate plain before ≢ panic
returns_example = validate_returns plain before

abbrev empty_page : HistoryPage
empty_page = record {
  request_id = 1;
  epoch = before.epoch;
  generation = 1;
  cols = 4;
  included_rows = [];
  oldest_available = some (at 1);
  newest_available = some (at 2);
  included_start = none;
  included_end = none;
  styles = [];
  hyperlinks = [];
  more_before = false;
  reset_required = true;
}

-- The difference names the first row by its anchor, and carries the second.
abbrev difference : TerminalStateDiff
difference = record {
  epoch = before.epoch;
  base_generation = 1;
  target_generation = 2;
  target_metadata = some (state_metadata after);
  primary_rows =
      record { source = some (base_anchor (at 1)) }
      ∷ record { source = some (replacement (line 2 2 "z")) }
      ∷ [];
  alternate_rows =
      record { source = some (base_anchor (at 1)) }
      ∷ record { source = some (base_anchor (at 2)) }
      ∷ [];
}

difference_run : terminal_state_diff plain before after ≡ ok difference
unfolding terminal_state_diff bytes_eq diff_rows rows_by_anchor collect_rows get_row diff_each
    row_eq start_eq cells_eq cell_eq bool_eq anchor_eq
difference_run = simp (before_valid, after_valid)

round_trip_example :
    (d : TerminalStateDiff) × (terminal_state_diff plain before after ≡ ok d)
    × (apply_terminal_state_diff plain before d ≡ ok after)
round_trip_example =
    terminal_state_diff-apply_terminal_state_diff plain before after before_valid after_valid refl
      (omega arith)

abbrev short : TerminalStateDiff → ℕ
short d = 10

idle_window_example :
    Prepared plain short
      (some before)
      after
      (prepare_update plain short after true (window (some before) none true))
idle_window_example =
    prepare_update-Prepared plain short (some before) after true true before_valid after_valid

-- The beginning of a history, and the client's receipt of the first snapshot.
abbrev begun : System
begun = record {
  window = window none (some before) false;
  transit = some (snapshot before);
  client = none;
}

abbrev received : System
received = record { window = window none (some before) false; transit = none; client = some before }

begun_run : Reach plain short before begun
unfolding begin_initial
begun_run = begins (window none (some before) false) refl

first_receipt : receive plain short (snapshot before) none ≡ ok before
unfolding receive
first_receipt = rw before_valid refl

received_run : Reach plain short before received
received_run = next begun_run (delivered (snapshot before) before refl first_receipt)

receive_example :
    (c : State) × (receive plain short (snapshot before) none ≡ ok c)
    × (◌≡◌ {A = Option State} (some before) (some c))
    × IsValid plain c
receive_example =
    Reach-receive plain short before before_valid begun (snapshot before) begun_run refl

acknowledge_example :
    (d : AckDisposition) × (acknowledge (ack_of before) received.window
      ≡ (ok d, window (some before) none false))
acknowledge_example =
    Reach-acknowledge plain short before before_valid received before received_run refl refl
