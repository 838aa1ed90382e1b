-- ===== src/Streaming/Inherit.antt =====
-- src/terminal_streaming.rs: the fields that a difference leaves out.
use Prim.Native.Nat.{◌+◌, ◌*◌, ◌/◌, ◌%◌, ◌≤◌}
use astra_shell.Prelude.{
  is_some, ℕ, ◌≡◌, refl, sym, [], Bool, true, false, not, ◌==◌, str_eq, str_eq_iff, none, arith,
}
use astra_shell.Prelude.Result.{ok}
use astra_shell.Terminal.State.{State}
use astra_shell.Terminal.Diff.{state_metadata}
use astra_shell.Streaming.Fields.{style_eq, hyperlink_eq, modes_eq, palette_eq}
use astra_shell.Streaming.FieldLaws.{
  list_eq→eq, option_eq→eq, style_eq→eq, hyperlink_eq→eq, modes_eq→eq, palette_eq→eq,
}
use astra_shell.Streaming.Errors.{
  StreamingError, styles_encoded, hyperlinks_encoded, modes_encoded, title_encoded,
  directory_encoded, palette_encoded,
}
use astra_shell.Streaming.Delta.{
  inherit_styles, inherit_hyperlinks, inherit_modes, inherit_title, inherit_working_directory,
  inherit_palette, has_flag, is_known, flag_if, Shared, shared, flags_of, cleared_if,
  without_shared, is_nil, inherited, with_inherited,
}

abbrev bit : Bool → ℕ
bit true = 1
bit false = 0

flag_if-bit : (set : Bool) (flag : ℕ) → flag_if set flag ≡ bit set * flag
flag_if-bit true flag = omega arith
flag_if-bit false flag = omega arith

bit_le : (set : Bool) → bit set ≤ 1
bit_le true = omega arith
bit_le false = omega arith

bit_flag : (set : Bool) → (bit set == 1) ≡ set
bit_flag true = refl
bit_flag false = refl

flags_value :
    (s : Shared)
    → flags_of s
      ≡ bit s.styles
        + bit s.hyperlinks * 2
        + bit s.modes * 4
        + bit s.title * 8
        + bit s.working_directory * 16
        + bit s.palette * 32
unfolding flags_of
flags_value s = omega (
  arith,
  flag_if-bit s.styles 1,
  flag_if-bit s.hyperlinks 2,
  flag_if-bit s.modes 4,
  flag_if-bit s.title 8,
  flag_if-bit s.working_directory 16,
  flag_if-bit s.palette 32,
)

pub record IsFlagged (s : Shared) (fields : ℕ) : Type 0 where
  pub known : is_known fields ≡ true
  pub styles : has_flag fields inherit_styles ≡ s.styles
  pub hyperlinks : has_flag fields inherit_hyperlinks ≡ s.hyperlinks
  pub modes : has_flag fields inherit_modes ≡ s.modes
  pub title : has_flag fields inherit_title ≡ s.title
  pub working_directory : has_flag fields inherit_working_directory ≡ s.working_directory
  pub palette : has_flag fields inherit_palette ≡ s.palette

flag_of :
    (fields flag : ℕ) (set : Bool) → (fields / flag) % 2 ≡ bit set → has_flag fields flag ≡ set
flag_of fields flag set e = rw e (bit_flag set)

pub flags_of-IsFlagged : (s : Shared) → IsFlagged s (flags_of s)
flags_of-IsFlagged s =
    let value = flags_value s in
    let l0 = bit_le s.styles in
    let l1 = bit_le s.hyperlinks in
    let l2 = bit_le s.modes in
    let l3 = bit_le s.title in
    let l4 = bit_le s.working_directory in
    let l5 = bit_le s.palette in
    record {
      known = ground arith;
      styles = flag_of (flags_of s) inherit_styles s.styles (omega arith);
      hyperlinks = flag_of (flags_of s) inherit_hyperlinks s.hyperlinks (omega arith);
      modes = flag_of (flags_of s) inherit_modes s.modes (omega arith);
      title = flag_of (flags_of s) inherit_title s.title (omega arith);
      working_directory =
          flag_of (flags_of s) inherit_working_directory s.working_directory (omega arith);
      palette = flag_of (flags_of s) inherit_palette s.palette (omega arith);
    }

-- A field that the sender leaves out exactly if it is equal to the base's.
inherited-cleared_if :
    {A : Type 0} (is_empty : A → Bool) (empty own base : A) (same flagged : Bool)
    (e : StreamingError)
    → flagged ≡ same
    → is_empty empty ≡ true
    → (same ≡ true → own ≡ base)
    → inherited flagged (is_empty (cleared_if same empty own)) e (cleared_if same empty own) base
      ≡ ok own
inherited-cleared_if is_empty empty own base true flagged e f h k = rw (f, h, sym (k refl)) refl
inherited-cleared_if is_empty empty own base false flagged e f h k = rw f refl

-- A field that the sender takes to be equal is equal.
module _ (base target : State) where
  styles_shared : (shared base target).styles ≡ true → target.styles ≡ base.styles
  unfolding shared
  styles_shared h = list_eq→eq style_eq style_eq→eq target.styles base.styles h

  hyperlinks_shared : (shared base target).hyperlinks ≡ true → target.hyperlinks ≡ base.hyperlinks
  unfolding shared
  hyperlinks_shared h = list_eq→eq hyperlink_eq hyperlink_eq→eq target.hyperlinks base.hyperlinks h

  modes_shared : (shared base target).modes ≡ true → target.modes ≡ base.modes
  unfolding shared
  modes_shared h = option_eq→eq modes_eq modes_eq→eq target.modes base.modes h

  title_shared : (shared base target).title ≡ true → target.title ≡ base.title
  unfolding shared
  title_shared h = (str_eq_iff target.title base.title).0 h

  directory_shared :
      (shared base target).working_directory ≡ true
      → target.working_directory ≡ base.working_directory
  unfolding shared
  directory_shared h = (str_eq_iff target.working_directory base.working_directory).0 h

  palette_shared : (shared base target).palette ≡ true → target.palette ≡ base.palette
  unfolding shared
  palette_shared h = option_eq→eq palette_eq palette_eq→eq target.palette base.palette h

-- The receiver gets back the metadata of the target.
pub with_inherited-without_shared :
    (base target : State)
    → with_inherited base
        (flags_of (shared base target))
        (without_shared (shared base target) (state_metadata target))
      ≡ ok (state_metadata target)
unfolding with_inherited without_shared state_metadata
with_inherited-without_shared base target =
    let s : Shared = shared base target in
    let f = flags_of-IsFlagged s in
    let styles =
      inherited-cleared_if is_nil [] target.styles base.styles s.styles _ styles_encoded f.styles
        refl (styles_shared base target) in
    let hyperlinks =
      inherited-cleared_if is_nil [] target.hyperlinks base.hyperlinks s.hyperlinks _
        hyperlinks_encoded f.hyperlinks refl (hyperlinks_shared base target) in
    let modes =
      inherited-cleared_if (λ o. not (is_some o)) none target.modes base.modes s.modes _
        modes_encoded f.modes refl (modes_shared base target) in
    let title =
      inherited-cleared_if (λ t. str_eq t "") "" target.title base.title s.title _ title_encoded
        f.title refl (title_shared base target) in
    let working_directory =
      inherited-cleared_if (λ t. str_eq t "") "" target.working_directory base.working_directory
        s.working_directory _ directory_encoded f.working_directory refl
        (directory_shared base target) in
    let palette =
      inherited-cleared_if (λ o. not (is_some o)) none target.palette base.palette s.palette _
        palette_encoded f.palette refl (palette_shared base target) in
    rw (styles, hyperlinks, modes, title, working_directory, palette) refl
