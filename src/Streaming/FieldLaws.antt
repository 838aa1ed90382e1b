-- ===== src/Streaming/FieldLaws.antt =====
-- src/terminal_state_v2.rs: the derived equalities against equality.
use astra_shell.Prelude.{
  ◌≡◌, refl, ap, List, [], ◌∷◌, Bool, true, false, ◌&&◌, Option, none, some, str_eq_iff, arith,
}
use astra_shell.Prelude.Int.{int_eq→eq}
use astra_shell.Prelude.Bytes.{bytes_eq→eq}
use astra_shell.Terminal.State.{
  ColorValue, default_color, palette_index, rgb, Color, Style, Hyperlink, Modes, Palette,
}
use astra_shell.Terminal.Equality.{bool_eq→eq}
use astra_shell.Streaming.Fields.{
  list_eq, option_eq, color_value_eq, color_eq, style_eq, hyperlink_eq, modes_eq, palette_eq,
}

module _ {A : Type 0} (eq : A → A → Bool) (eq→eq : (x y : A) → eq x y ≡ true → x ≡ y) where
  pub list_eq→eq : (xs ys : List A) → list_eq eq xs ys ≡ true → xs ≡ ys
  unfolding list_eq
  list_eq→eq [] [] h = refl
  list_eq→eq [] (y ∷ ys) h = cc
  list_eq→eq (x ∷ xs) [] h = cc
  list_eq→eq (x ∷ xs) (y ∷ ys) h = ground (arith, eq→eq x y, list_eq→eq xs ys)

  pub option_eq→eq : (a b : Option A) → option_eq eq a b ≡ true → a ≡ b
  unfolding option_eq
  option_eq→eq none none h = refl
  option_eq→eq none (some y) h = cc
  option_eq→eq (some x) none h = cc
  option_eq→eq (some x) (some y) h = ap some (eq→eq x y h)

color_value_eq→eq : (a b : ColorValue) → color_value_eq a b ≡ true → a ≡ b
unfolding color_value_eq
color_value_eq→eq (default_color a) (default_color b) h = ap default_color (bool_eq→eq a b h)
color_value_eq→eq (default_color a) (palette_index m) h = cc
color_value_eq→eq (default_color a) (rgb m) h = cc
color_value_eq→eq (palette_index n) (default_color b) h = cc
color_value_eq→eq (palette_index n) (palette_index m) h = ground arith
color_value_eq→eq (palette_index n) (rgb m) h = cc
color_value_eq→eq (rgb n) (default_color b) h = cc
color_value_eq→eq (rgb n) (palette_index m) h = cc
color_value_eq→eq (rgb n) (rgb m) h = ground arith

color_eq→eq : (c d : Color) → color_eq c d ≡ true → c ≡ d
unfolding color_eq
color_eq→eq c d h = ground (arith, option_eq→eq color_value_eq color_value_eq→eq c.value d.value)

and_parts : (a b : Bool) → (a && b) ≡ true → (a ≡ true) × (b ≡ true)
and_parts true b h = (refl, h)
and_parts false b h = cc

pub style_eq→eq : (s t : Style) → style_eq s t ≡ true → s ≡ t
unfolding style_eq
style_eq→eq s t h =
    let (h13, e13) = and_parts _ _ h in
    let (h12, e12) = and_parts _ _ h13 in
    let (h11, e11) = and_parts _ _ h12 in
    let (h10, e10) = and_parts _ _ h11 in
    let (h9, e9) = and_parts _ _ h10 in
    let (h8, e8) = and_parts _ _ h9 in
    let (h7, e7) = and_parts _ _ h8 in
    let (h6, e6) = and_parts _ _ h7 in
    let (h5, e5) = and_parts _ _ h6 in
    let (h4, e4) = and_parts _ _ h5 in
    let (h3, e3) = and_parts _ _ h4 in
    let (h2, e2) = and_parts _ _ h3 in
    let (e0, e1) = and_parts _ _ h2 in
    let f0 : s.id ≡ t.id = ground arith in
    let f1 : s.foreground ≡ t.foreground =
      option_eq→eq color_eq color_eq→eq s.foreground t.foreground e1 in
    let f2 : s.background ≡ t.background =
      option_eq→eq color_eq color_eq→eq s.background t.background e2 in
    let f3 : s.underline_color ≡ t.underline_color =
      option_eq→eq color_eq color_eq→eq s.underline_color t.underline_color e3 in
    let f4 : s.intensity ≡ t.intensity = int_eq→eq s.intensity t.intensity e4 in
    let f5 : s.underline ≡ t.underline = int_eq→eq s.underline t.underline e5 in
    let f6 : s.blink ≡ t.blink = int_eq→eq s.blink t.blink e6 in
    let f7 : s.italic ≡ t.italic = bool_eq→eq s.italic t.italic e7 in
    let f8 : s.reverse ≡ t.reverse = bool_eq→eq s.reverse t.reverse e8 in
    let f9 : s.strikethrough ≡ t.strikethrough = bool_eq→eq s.strikethrough t.strikethrough e9 in
    let f10 : s.invisible ≡ t.invisible = bool_eq→eq s.invisible t.invisible e10 in
    let f11 : s.overline ≡ t.overline = bool_eq→eq s.overline t.overline e11 in
    let f12 : s.semantic_type ≡ t.semantic_type = int_eq→eq s.semantic_type t.semantic_type e12 in
    let f13 : s.vertical_align ≡ t.vertical_align =
      int_eq→eq s.vertical_align t.vertical_align e13 in
    cc

pub hyperlink_eq→eq : (h k : Hyperlink) → hyperlink_eq h k ≡ true → h ≡ k
unfolding hyperlink_eq
hyperlink_eq→eq h k e =
    ground (arith, str_eq_iff h.uri k.uri, str_eq_iff h.explicit_id k.explicit_id)

pub modes_eq→eq : (m n : Modes) → modes_eq m n ≡ true → m ≡ n
unfolding modes_eq
modes_eq→eq m n h =
    let (h15, e15) = and_parts _ _ h in
    let (h14, e14) = and_parts _ _ h15 in
    let (h13, e13) = and_parts _ _ h14 in
    let (h12, e12) = and_parts _ _ h13 in
    let (h11, e11) = and_parts _ _ h12 in
    let (h10, e10) = and_parts _ _ h11 in
    let (h9, e9) = and_parts _ _ h10 in
    let (h8, e8) = and_parts _ _ h9 in
    let (h7, e7) = and_parts _ _ h8 in
    let (h6, e6) = and_parts _ _ h7 in
    let (h5, e5) = and_parts _ _ h6 in
    let (h4, e4) = and_parts _ _ h5 in
    let (h3, e3) = and_parts _ _ h4 in
    let (h2, e2) = and_parts _ _ h3 in
    let (e0, e1) = and_parts _ _ h2 in
    let f0 : m.application_cursor_keys ≡ n.application_cursor_keys =
      bool_eq→eq m.application_cursor_keys n.application_cursor_keys e0 in
    let f1 : m.application_keypad ≡ n.application_keypad =
      bool_eq→eq m.application_keypad n.application_keypad e1 in
    let f2 : m.bracketed_paste ≡ n.bracketed_paste =
      bool_eq→eq m.bracketed_paste n.bracketed_paste e2 in
    let f3 : m.focus_tracking ≡ n.focus_tracking =
      bool_eq→eq m.focus_tracking n.focus_tracking e3 in
    let f4 : m.origin ≡ n.origin = bool_eq→eq m.origin n.origin e4 in
    let f5 : m.insert ≡ n.insert = bool_eq→eq m.insert n.insert e5 in
    let f6 : m.auto_wrap ≡ n.auto_wrap = bool_eq→eq m.auto_wrap n.auto_wrap e6 in
    let f7 : m.reverse_wraparound ≡ n.reverse_wraparound =
      bool_eq→eq m.reverse_wraparound n.reverse_wraparound e7 in
    let f8 : m.newline ≡ n.newline = bool_eq→eq m.newline n.newline e8 in
    let f9 : m.left_right_margin ≡ n.left_right_margin =
      bool_eq→eq m.left_right_margin n.left_right_margin e9 in
    let f10 : m.reverse_video ≡ n.reverse_video = bool_eq→eq m.reverse_video n.reverse_video e10 in
    let f11 : m.mouse_tracking ≡ n.mouse_tracking =
      int_eq→eq m.mouse_tracking n.mouse_tracking e11 in
    let f12 : m.mouse_encoding ≡ n.mouse_encoding =
      int_eq→eq m.mouse_encoding n.mouse_encoding e12 in
    let f13 : m.keyboard_encoding ≡ n.keyboard_encoding =
      int_eq→eq m.keyboard_encoding n.keyboard_encoding e13 in
    let f14 : m.keyboard_flags ≡ n.keyboard_flags = ground arith in
    let f15 : m.alternate_scroll ≡ n.alternate_scroll =
      bool_eq→eq m.alternate_scroll n.alternate_scroll e15 in
    cc

pub palette_eq→eq : (p q : Palette) → palette_eq p q ≡ true → p ≡ q
unfolding palette_eq
palette_eq→eq p q h = ground (arith, bytes_eq→eq p.indexed_rgb q.indexed_rgb)
