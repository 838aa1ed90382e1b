-- ===== src/Terminal/Enums.antt =====
-- src/terminal_state_v2.rs: the enumerations of the messages, their variants in the order of their
-- numbers.
pub data ScreenKind : Type 0 where
  unspecified primary alternate : ScreenKind

pub data CursorShape : Type 0 where
  unspecified block underline bar : CursorShape

pub data Intensity : Type 0 where
  normal bold faint : Intensity

pub data Underline : Type 0 where
  none single double curly dotted dashed : Underline

pub data Blink : Type 0 where
  none slow rapid : Blink

pub data SemanticType : Type 0 where
  output input prompt : SemanticType

pub data VerticalAlign : Type 0 where
  baseline superscript subscript : VerticalAlign

pub data MouseTracking : Type 0 where
  none x10 vt200 button_event any_event : MouseTracking

pub data MouseEncoding : Type 0 where
  default utf8 sgr sgr_pixels : MouseEncoding

pub data KeyboardEncoding : Type 0 where
  xterm csi_u kitty : KeyboardEncoding
