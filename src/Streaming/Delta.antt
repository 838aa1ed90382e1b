-- ===== src/Streaming/Delta.antt =====
-- src/terminal_streaming.rs: the difference of two viewport states, and its application.
use Prim.Native.Nat.{◌+◌, ◌/◌, ◌%◌}
use astra_shell.Prelude.{
  is_some, ℕ, String, List, [], ◌∷◌, Bool, true, false, not, ◌&&◌, ◌==◌, ltb, str_eq, if◌then◌else◌,
  Option, none, some, length,
}
use astra_shell.Prelude.Result.{Result, ok, ◌>>=◌, ◌>>◌, ensure, ok_or}
use astra_shell.Prelude.Bytes.{bytes_eq}
use astra_shell.Terminal.State.{Screen, State}
use astra_shell.Terminal.Checks.{Libraries}
use astra_shell.Terminal.Screens.{validate}
use astra_shell.Terminal.Diff.{TerminalStateDiff, state_metadata, apply_terminal_state_diff}
use astra_shell.Datagram.Message.{TerminalViewportRowPatch, TerminalViewportDatagram}
use astra_shell.Streaming.Fields.{list_eq, option_eq, style_eq, hyperlink_eq, modes_eq, palette_eq}
use astra_shell.Streaming.Errors.{
  StreamingError, of_state, of_sync, no_primary, no_alternate, has_scrollback, not_one_viewport,
  route_empty, generation_invalid, unknown_inherited, no_diff, no_metadata, styles_encoded,
  hyperlinks_encoded, modes_encoded, title_encoded, directory_encoded, palette_encoded,
  patches_without_flag, mixed_encodings, diff_base_invalid, diff_metadata_invalid, screen_missing,
  metadata_contains_rows, base_screen_missing, lift,
}
use astra_shell.Streaming.Patches.{sparse_row_patches, apply_sparse_rows}

abbrev pub inherit_styles : ℕ
inherit_styles = 1

abbrev pub inherit_hyperlinks : ℕ
inherit_hyperlinks = 2

abbrev pub inherit_modes : ℕ
inherit_modes = 4

abbrev pub inherit_title : ℕ
inherit_title = 8

abbrev pub inherit_working_directory : ℕ
inherit_working_directory = 16

abbrev pub inherit_palette : ℕ
inherit_palette = 32

-- `fields & flag != 0`, for one bit, and `fields & !KNOWN_INHERIT_MASK == 0`, where the mask is the lowest
-- six bits.
abbrev pub has_flag : ℕ → ℕ → Bool
has_flag fields flag = (fields / flag) % 2 == 1

abbrev pub is_known : ℕ → Bool
is_known fields = ltb fields 64

abbrev pub flag_if : Bool → ℕ → ℕ
flag_if set flag = if set then flag else 0

module _ (lib : Libraries) where
  unfoldable pub validate_viewport_state : State → Result StreamingError Unit
  validate_viewport_state state = do
    lift of_state (validate lib state)
    primary ← ok_or state.primary no_primary
    alternate ← ok_or state.alternate no_alternate
    ensure (primary.viewport_start == 0 && length primary.included_rows == state.rows)
        has_scrollback
    ensure (alternate.viewport_start == 0 && length alternate.included_rows == state.rows)
        not_one_viewport

-- Which fields of two states are equal.
pub record Shared : Type 0 where
  pub styles : Bool
  pub hyperlinks : Bool
  pub modes : Bool
  pub title : Bool
  pub working_directory : Bool
  pub palette : Bool

unfoldable pub shared : State → State → Shared
shared base target = record {
  styles = list_eq style_eq target.styles base.styles;
  hyperlinks = list_eq hyperlink_eq target.hyperlinks base.hyperlinks;
  modes = option_eq modes_eq target.modes base.modes;
  title = str_eq target.title base.title;
  working_directory = str_eq target.working_directory base.working_directory;
  palette = option_eq palette_eq target.palette base.palette;
}

-- The flags, each of which is set once, so that `|=` adds it.
unfoldable pub flags_of : Shared → ℕ
flags_of s =
    flag_if s.styles inherit_styles
    + flag_if s.hyperlinks inherit_hyperlinks
    + flag_if s.modes inherit_modes
    + flag_if s.title inherit_title
    + flag_if s.working_directory inherit_working_directory
    + flag_if s.palette inherit_palette

abbrev pub cleared_if {ℓ} : {A : Type ℓ} → Bool → A → A → A
cleared_if same empty own = if same then empty else own

unfoldable pub without_shared : Shared → State → State
without_shared s metadata = record metadata {
  styles = cleared_if s.styles [] metadata.styles;
  hyperlinks = cleared_if s.hyperlinks [] metadata.hyperlinks;
  modes = cleared_if s.modes none metadata.modes;
  title = cleared_if s.title "" metadata.title;
  working_directory = cleared_if s.working_directory "" metadata.working_directory;
  palette = cleared_if s.palette none metadata.palette;
}

abbrev pub screen_patches :
    Option Screen
    → Option Screen
    → StreamingError
    → Result StreamingError (List TerminalViewportRowPatch)
screen_patches base target missing = do
  original ← ok_or base missing
  wanted ← ok_or target missing
  sparse_row_patches original.included_rows wanted.included_rows

abbrev pub compact_diff : State → State → TerminalStateDiff
compact_diff base target = record {
  epoch = target.epoch;
  base_generation = base.generation;
  target_generation = target.generation;
  target_metadata = some (without_shared (shared base target) (state_metadata target));
  primary_rows = [];
  alternate_rows = [];
}

abbrev pub viewport_delta :
    String
    → String
    → State
    → State
    → List TerminalViewportRowPatch
    → List TerminalViewportRowPatch
    → TerminalViewportDatagram
viewport_delta terminal_id attachment_id base target primary_patches alternate_patches = record {
  terminal_id = terminal_id;
  attachment_id = attachment_id;
  diff = some (compact_diff base target);
  inherited_fields = flags_of (shared base target);
  sparse_rows = true;
  primary_patches = primary_patches;
  alternate_patches = alternate_patches;
  fragment = none;
}

unfoldable pub compact_viewport_datagram :
    String → String → State → State → Result StreamingError TerminalViewportDatagram
compact_viewport_datagram terminal_id attachment_id base target = do
  ensure (not (str_eq terminal_id "") && not (str_eq attachment_id "")) route_empty
  ensure (bytes_eq base.epoch target.epoch && ltb base.generation target.generation)
      generation_invalid
  primary_patches ← screen_patches base.primary target.primary no_primary
  alternate_patches ← screen_patches base.alternate target.alternate no_alternate
  ok (viewport_delta terminal_id attachment_id base target primary_patches alternate_patches)

abbrev pub is_nil {ℓ} : {A : Type ℓ} → List A → Bool
is_nil [] = true
is_nil (x ∷ xs) = false

-- One inherited field, which is not encoded as well.
abbrev pub inherited : {A : Type 0} → Bool → Bool → StreamingError → A → A → Result StreamingError A
inherited flagged is_empty encoded own base =
    if flagged then (do ensure is_empty encoded; ok base) else ok own

unfoldable pub with_inherited : State → ℕ → State → Result StreamingError State
with_inherited base fields metadata = do
  styles ←
      inherited (has_flag fields inherit_styles) (is_nil metadata.styles) styles_encoded
        metadata.styles base.styles
  hyperlinks ←
      inherited (has_flag fields inherit_hyperlinks) (is_nil metadata.hyperlinks) hyperlinks_encoded
        metadata.hyperlinks base.hyperlinks
  modes ←
      inherited (has_flag fields inherit_modes) (not (is_some metadata.modes)) modes_encoded
        metadata.modes base.modes
  title ←
      inherited (has_flag fields inherit_title) (str_eq metadata.title "") title_encoded
        metadata.title base.title
  working_directory ←
      inherited (has_flag fields inherit_working_directory) (str_eq metadata.working_directory "")
        directory_encoded metadata.working_directory base.working_directory
  palette ←
      inherited (has_flag fields inherit_palette) (not (is_some metadata.palette)) palette_encoded
        metadata.palette base.palette
  ok (record metadata {
    styles = styles;
    hyperlinks = hyperlinks;
    modes = modes;
    title = title;
    working_directory = working_directory;
    palette = palette;
  })

-- One round of the loop over the two screens.
unfoldable pub with_rows :
    Option Screen → Option Screen → List TerminalViewportRowPatch → Result StreamingError Screen
with_rows metadata base patches = do
  screen ← ok_or metadata screen_missing
  ensure (length screen.included_rows == 0) metadata_contains_rows
  original ← ok_or base base_screen_missing
  rows ← apply_sparse_rows original.included_rows patches
  ok (record screen { included_rows = rows })

module _ (lib : Libraries) where
  unfoldable pub apply_sparse_delta :
      State → TerminalViewportDatagram → TerminalStateDiff → State → Result StreamingError State
  apply_sparse_delta base delta diff metadata = do
    ensure (is_nil diff.primary_rows && is_nil diff.alternate_rows) mixed_encodings
    ensure
        (bytes_eq base.epoch diff.epoch
          && base.generation == diff.base_generation
          && ltb diff.base_generation diff.target_generation)
        diff_base_invalid
    ensure
        (bytes_eq metadata.epoch diff.epoch
          && metadata.generation == diff.target_generation
          && metadata.rows == base.rows
          && metadata.cols == base.cols)
        diff_metadata_invalid
    primary ← with_rows metadata.primary base.primary delta.primary_patches
    alternate ← with_rows metadata.alternate base.alternate delta.alternate_patches
    let target : State = record metadata { primary = some primary; alternate = some alternate }
    validate_viewport_state lib target
    ok target

  abbrev pub apply_full_delta :
      State → TerminalViewportDatagram → TerminalStateDiff → State → Result StreamingError State
  apply_full_delta base delta diff metadata = do
    ensure (is_nil delta.primary_patches && is_nil delta.alternate_patches) patches_without_flag
    lift of_sync
        (apply_terminal_state_diff lib base (record diff { target_metadata = some metadata }))

  unfoldable pub apply_compact_viewport_delta :
      State → TerminalViewportDatagram → Result StreamingError State
  apply_compact_viewport_delta base delta = do
    ensure (is_known delta.inherited_fields) unknown_inherited
    diff ← ok_or delta.diff no_diff
    own ← ok_or diff.target_metadata no_metadata
    metadata ← with_inherited base delta.inherited_fields own
    let sparse = apply_sparse_delta base delta diff metadata
    let full = apply_full_delta base delta diff metadata
    (if delta.sparse_rows then sparse else full)
