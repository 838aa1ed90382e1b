-- ===== src/Terminal/Tables.antt =====
-- src/terminal_state_v2.rs: the checks of the modes, the palette and the tables of styles and
-- hyperlinks.
use Prim.Native.Nat.{bit_and}
use Prim.Native.String.{len as text_len}
use astra_shell.Prelude.{ℕ, List, [], ◌∷◌, ◌++◌, not, ◌&&◌, ltb, leb, ◌==◌, str_eq, length}
use astra_shell.Prelude.Result.{Result, ok, ◌>>=◌, ◌>>◌, ensure, ok_or}
use astra_shell.Prelude.Int.{variant}
use astra_shell.Terminal.Enums.{
  Intensity, Underline, Blink, SemanticType, VerticalAlign, MouseTracking, MouseEncoding,
  KeyboardEncoding,
}
use astra_shell.Terminal.State.{
  ColorValue, default_color, palette_index, rgb, Color, Style, Hyperlink, Modes, Palette,
}
use astra_shell.Terminal.Checks.{
  StateError, mouse_tracking_unknown, mouse_encoding_unknown, keyboard_encoding_unknown,
  flags_require_kitty, kitty_flags_unknown, palette_length, palette_rgb_range, too_many_styles,
  style_id_invalid, too_many_hyperlinks, hyperlink_id_invalid, uri_empty, uri_too_large,
  explicit_id_too_large, foreground_missing, background_missing, underline_color_missing,
  intensity_unknown, underline_unknown, blink_unknown, semantic_type_unknown,
  vertical_align_unknown, color_value_missing, palette_index_range, rgb_range, contains, max_styles,
  max_hyperlinks, max_hyperlink_uri_bytes, max_hyperlink_explicit_id_bytes,
}

abbrev pub intensities : List Intensity
intensities = Intensity.normal ∷ Intensity.bold ∷ Intensity.faint ∷ []

abbrev pub underlines : List Underline
underlines =
    Underline.none ∷ Underline.single ∷ Underline.double ∷ Underline.curly ∷ Underline.dotted
    ∷ Underline.dashed ∷ []

abbrev pub blinks : List Blink
blinks = Blink.none ∷ Blink.slow ∷ Blink.rapid ∷ []

abbrev pub semantic_types : List SemanticType
semantic_types = SemanticType.output ∷ SemanticType.input ∷ SemanticType.prompt ∷ []

abbrev pub vertical_aligns : List VerticalAlign
vertical_aligns = VerticalAlign.baseline ∷ VerticalAlign.superscript ∷ VerticalAlign.subscript ∷ []

abbrev pub mouse_trackings : List MouseTracking
mouse_trackings =
    MouseTracking.none ∷ MouseTracking.x10 ∷ MouseTracking.vt200 ∷ MouseTracking.button_event
    ∷ MouseTracking.any_event ∷ []

abbrev pub mouse_encodings : List MouseEncoding
mouse_encodings =
    MouseEncoding.default ∷ MouseEncoding.utf8 ∷ MouseEncoding.sgr ∷ MouseEncoding.sgr_pixels ∷ []

abbrev pub keyboard_encodings : List KeyboardEncoding
keyboard_encodings = KeyboardEncoding.xterm ∷ KeyboardEncoding.csi_u ∷ KeyboardEncoding.kitty ∷ []

-- `flags & !0x1f` on `u32`.
abbrev pub check_flags : KeyboardEncoding → ℕ → Result StateError Unit
check_flags KeyboardEncoding.xterm flags = ensure (flags == 0) flags_require_kitty
check_flags KeyboardEncoding.csi_u flags = ensure (flags == 0) flags_require_kitty
check_flags KeyboardEncoding.kitty flags =
    ensure (bit_and flags 0xffffffe0 == 0) kitty_flags_unknown

unfoldable pub validate_modes : Modes → Result StateError Unit
validate_modes modes = do
  tracking ← ok_or (variant mouse_trackings modes.mouse_tracking) mouse_tracking_unknown
  encoding ← ok_or (variant mouse_encodings modes.mouse_encoding) mouse_encoding_unknown
  keyboard ← ok_or (variant keyboard_encodings modes.keyboard_encoding) keyboard_encoding_unknown
  check_flags keyboard modes.keyboard_flags

unfoldable pub all_rgb : List ℕ → Result StateError Unit
all_rgb [] = ok tt
all_rgb (c ∷ rest) = do ensure (leb c 0x00ffffff) palette_rgb_range; all_rgb rest

unfoldable pub validate_palette : Palette → Result StateError Unit
validate_palette palette = do
  ensure (length palette.indexed_rgb == 256) palette_length
  all_rgb (
      palette.indexed_rgb
      ++ palette.foreground_rgb ∷ palette.background_rgb ∷ palette.cursor_fg_rgb
        ∷ palette.cursor_bg_rgb ∷ palette.selection_fg_rgb ∷ palette.selection_bg_rgb ∷ [])

abbrev pub check_color : ColorValue → Result StateError Unit
check_color (default_color b) = ok tt
check_color (palette_index index) = ensure (ltb index 256) palette_index_range
check_color (rgb value) = ensure (leb value 0x00ffffff) rgb_range

unfoldable pub validate_color : Color → Result StateError Unit
validate_color color = ok_or color.value color_value_missing >>= check_color

unfoldable pub validate_style : Style → Result StateError Unit
validate_style style = do
  foreground ← ok_or style.foreground foreground_missing
  validate_color foreground
  background ← ok_or style.background background_missing
  validate_color background
  underline_color ← ok_or style.underline_color underline_color_missing
  validate_color underline_color
  intensity ← ok_or (variant intensities style.intensity) intensity_unknown
  underline ← ok_or (variant underlines style.underline) underline_unknown
  blink ← ok_or (variant blinks style.blink) blink_unknown
  semantic_type ← ok_or (variant semantic_types style.semantic_type) semantic_type_unknown
  vertical_align ← ok_or (variant vertical_aligns style.vertical_align) vertical_align_unknown
  ok tt

-- The first loop of `validate_tables`, with the ids so far.
unfoldable pub collect_styles : List ℕ → List Style → Result StateError (List ℕ)
collect_styles ids [] = ok ids
collect_styles ids (style ∷ rest) = do
  validate_style style
  ensure (not (style.id == 0) && not (contains style.id ids)) style_id_invalid
  collect_styles (style.id ∷ ids) rest

-- The second loop.
unfoldable pub collect_hyperlinks : List ℕ → List Hyperlink → Result StateError (List ℕ)
collect_hyperlinks ids [] = ok ids
collect_hyperlinks ids (link ∷ rest) = do
  ensure (not (link.id == 0) && not (contains link.id ids)) hyperlink_id_invalid
  ensure (not (str_eq link.uri "")) uri_empty
  ensure (leb (text_len link.uri) max_hyperlink_uri_bytes) uri_too_large
  ensure (leb (text_len link.explicit_id) max_hyperlink_explicit_id_bytes) explicit_id_too_large
  collect_hyperlinks (link.id ∷ ids) rest

-- The ids of the styles and of the hyperlinks.
unfoldable pub validate_tables : List Style → List Hyperlink → Result StateError (List ℕ × List ℕ)
validate_tables styles hyperlinks = do
  ensure (leb (length styles) max_styles) too_many_styles
  style_ids ← collect_styles [] styles
  ensure (leb (length hyperlinks) max_hyperlinks) too_many_hyperlinks
  hyperlink_ids ← collect_hyperlinks [] hyperlinks
  ok (style_ids, hyperlink_ids)
