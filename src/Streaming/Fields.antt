-- ===== src/Streaming/Fields.antt =====
-- src/terminal_state_v2.rs: the derived equalities of the messages that a viewport difference compares.
use astra_shell.Prelude.{List, [], ◌∷◌, Bool, true, false, ◌&&◌, ◌==◌, str_eq, Option, none, some}
use astra_shell.Prelude.Int.{int_eq}
use astra_shell.Prelude.Bytes.{bytes_eq}
use astra_shell.Terminal.State.{
  ColorValue, default_color, palette_index, rgb, Color, Style, Hyperlink, Modes, Palette,
}
use astra_shell.Terminal.Diff.{bool_eq}

module _ {A : Type 0} (eq : A → A → Bool) where
  unfoldable pub list_eq : List A → List A → Bool
  list_eq [] [] = true
  list_eq [] (y ∷ ys) = false
  list_eq (x ∷ xs) [] = false
  list_eq (x ∷ xs) (y ∷ ys) = eq x y && list_eq xs ys

  unfoldable pub option_eq : Option A → Option A → Bool
  option_eq none none = true
  option_eq none (some y) = false
  option_eq (some x) none = false
  option_eq (some x) (some y) = eq x y

unfoldable pub color_value_eq : ColorValue → ColorValue → Bool
color_value_eq (default_color a) (default_color b) = bool_eq a b
color_value_eq (default_color a) (palette_index m) = false
color_value_eq (default_color a) (rgb m) = false
color_value_eq (palette_index n) (default_color b) = false
color_value_eq (palette_index n) (palette_index m) = n == m
color_value_eq (palette_index n) (rgb m) = false
color_value_eq (rgb n) (default_color b) = false
color_value_eq (rgb n) (palette_index m) = false
color_value_eq (rgb n) (rgb m) = n == m

unfoldable pub color_eq : Color → Color → Bool
color_eq c d = option_eq color_value_eq c.value d.value

unfoldable pub style_eq : Style → Style → Bool
style_eq s t =
    s.id == t.id
    && option_eq color_eq s.foreground t.foreground
    && option_eq color_eq s.background t.background
    && option_eq color_eq s.underline_color t.underline_color
    && int_eq s.intensity t.intensity
    && int_eq s.underline t.underline
    && int_eq s.blink t.blink
    && bool_eq s.italic t.italic
    && bool_eq s.reverse t.reverse
    && bool_eq s.strikethrough t.strikethrough
    && bool_eq s.invisible t.invisible
    && bool_eq s.overline t.overline
    && int_eq s.semantic_type t.semantic_type
    && int_eq s.vertical_align t.vertical_align

unfoldable pub hyperlink_eq : Hyperlink → Hyperlink → Bool
hyperlink_eq h k = h.id == k.id && str_eq h.uri k.uri && str_eq h.explicit_id k.explicit_id

unfoldable pub modes_eq : Modes → Modes → Bool
modes_eq m n =
    bool_eq m.application_cursor_keys n.application_cursor_keys
    && bool_eq m.application_keypad n.application_keypad
    && bool_eq m.bracketed_paste n.bracketed_paste
    && bool_eq m.focus_tracking n.focus_tracking
    && bool_eq m.origin n.origin
    && bool_eq m.insert n.insert
    && bool_eq m.auto_wrap n.auto_wrap
    && bool_eq m.reverse_wraparound n.reverse_wraparound
    && bool_eq m.newline n.newline
    && bool_eq m.left_right_margin n.left_right_margin
    && bool_eq m.reverse_video n.reverse_video
    && int_eq m.mouse_tracking n.mouse_tracking
    && int_eq m.mouse_encoding n.mouse_encoding
    && int_eq m.keyboard_encoding n.keyboard_encoding
    && m.keyboard_flags == n.keyboard_flags
    && bool_eq m.alternate_scroll n.alternate_scroll

unfoldable pub palette_eq : Palette → Palette → Bool
palette_eq p q =
    bytes_eq p.indexed_rgb q.indexed_rgb
    && p.foreground_rgb == q.foreground_rgb
    && p.background_rgb == q.background_rgb
    && p.cursor_fg_rgb == q.cursor_fg_rgb
    && p.cursor_bg_rgb == q.cursor_bg_rgb
    && p.selection_fg_rgb == q.selection_fg_rgb
    && p.selection_bg_rgb == q.selection_bg_rgb
