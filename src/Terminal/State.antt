-- ===== src/Terminal/State.antt =====
-- src/terminal_state_v2.rs: the messages. A field of an enumeration is its `i32`, a `Vec<u8>` a list of
-- numbers.
use astra_shell.Prelude.{ℕ, String, List, Bool, Option}
use astra_shell.Prelude.Int.{ℤ}

pub record Anchor : Type 0 where
  pub logical_line_id : ℕ
  pub cell_offset : ℕ

pub record Cell : Type 0 where
  pub column : ℕ
  pub grapheme : String
  pub width : ℕ
  pub style_id : ℕ
  pub hyperlink_id : ℕ

pub record Row : Type 0 where
  pub start : Option Anchor
  pub row_version : ℕ
  pub cells : List Cell
  pub wrapped_to_next : Bool

pub record Cursor : Type 0 where
  pub x : ℕ
  pub y : ℕ
  pub anchor : Option Anchor
  pub shape : ℤ
  pub visible : Bool
  pub version : ℕ
  pub wrap_pending : Bool

pub record Screen : Type 0 where
  pub included_rows : List Row
  pub viewport_start : ℕ
  pub cursor : Option Cursor
  pub saved_cursor : Option Cursor
  pub oldest_available : Option Anchor
  pub newest_available : Option Anchor
  pub included_start : Option Anchor
  pub included_end : Option Anchor
  pub scroll_margin_top : ℕ
  pub scroll_margin_bottom : ℕ
  pub scroll_margin_left : ℕ
  pub scroll_margin_right : ℕ
  pub tab_stops : List ℕ

-- `color::Value`.
pub data ColorValue : Type 0 where
  default_color : Bool → ColorValue
  palette_index rgb : ℕ → ColorValue

pub record Color : Type 0 where
  pub value : Option ColorValue

pub record Style : Type 0 where
  pub id : ℕ
  pub foreground : Option Color
  pub background : Option Color
  pub underline_color : Option Color
  pub intensity : ℤ
  pub underline : ℤ
  pub blink : ℤ
  pub italic : Bool
  pub reverse : Bool
  pub strikethrough : Bool
  pub invisible : Bool
  pub overline : Bool
  pub semantic_type : ℤ
  pub vertical_align : ℤ

pub record Hyperlink : Type 0 where
  pub id : ℕ
  pub uri : String
  pub explicit_id : String

pub record Modes : Type 0 where
  pub application_cursor_keys : Bool
  pub application_keypad : Bool
  pub bracketed_paste : Bool
  pub focus_tracking : Bool
  pub origin : Bool
  pub insert : Bool
  pub auto_wrap : Bool
  pub reverse_wraparound : Bool
  pub newline : Bool
  pub left_right_margin : Bool
  pub reverse_video : Bool
  pub mouse_tracking : ℤ
  pub mouse_encoding : ℤ
  pub keyboard_encoding : ℤ
  pub keyboard_flags : ℕ
  pub alternate_scroll : Bool

pub record Palette : Type 0 where
  pub indexed_rgb : List ℕ
  pub foreground_rgb : ℕ
  pub background_rgb : ℕ
  pub cursor_fg_rgb : ℕ
  pub cursor_bg_rgb : ℕ
  pub selection_fg_rgb : ℕ
  pub selection_bg_rgb : ℕ

pub record State : Type 0 where
  pub schema_version : ℕ
  pub epoch : List ℕ
  pub generation : ℕ
  pub rows : ℕ
  pub cols : ℕ
  pub primary : Option Screen
  pub alternate : Option Screen
  pub active_screen : ℤ
  pub styles : List Style
  pub hyperlinks : List Hyperlink
  pub modes : Option Modes
  pub title : String
  pub working_directory : String
  pub palette : Option Palette

pub record HistoryPageRequest : Type 0 where
  pub epoch : List ℕ
  pub before : Option Anchor
  pub maximum_rows : ℕ

pub record HistoryPage : Type 0 where
  pub request_id : ℕ
  pub epoch : List ℕ
  pub generation : ℕ
  pub cols : ℕ
  pub included_rows : List Row
  pub oldest_available : Option Anchor
  pub newest_available : Option Anchor
  pub included_start : Option Anchor
  pub included_end : Option Anchor
  pub styles : List Style
  pub hyperlinks : List Hyperlink
  pub more_before : Bool
  pub reset_required : Bool
