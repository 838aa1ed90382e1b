-- ===== src/Terminal/Valid.antt =====
-- src/terminal_state_v2.rs: what the validation has established of the screens and states it accepts.
use Prim.Native.Nat.{◌+◌}
use astra_shell.Prelude.{
  ℕ, ◌≡◌, ◌≤◌, ◌<◌, List, Bool, true, false, Option, none, some, length, refl, arith, inl, inr,
  Option-cases,
}
use astra_shell.Prelude.Result.{ok, ok_or, Result-cases}
use astra_shell.Prelude.U64
use astra_shell.Terminal.State.{Screen, State}
use astra_shell.Terminal.Checks.{epoch_bytes, max_dimension, max_included_rows, Libraries}
use astra_shell.Terminal.Tables.{validate_tables}
use astra_shell.Terminal.Rows.{validate_rows}
use astra_shell.Terminal.Screens.{validate_screen, validate}
use astra_shell.Terminal.Sound.{Ascending, AllPlaced, validate_rows-Ascending}

ok_or_found : {A E : Type 0} (o : Option A) (e : E) (a : A) → ok_or o e ≡ ok a → o ≡ some a
ok_or_found o e a h = ground arith

-- A screen that fits a state: the viewport lies within the rows that are included, and these are in
-- the order of their anchors with cells that fit.
pub record IsScreen (state : State) (screen : Screen) : Type 0 where
  pub viewport : screen.viewport_start + state.rows ≤ length screen.included_rows
  pub ascending : Ascending none screen.included_rows
  pub placed : AllPlaced state.cols state.generation screen.included_rows

-- A state that can be shown: two screens that fit, the alternate one without history.
pub record IsState (state : State) : Type 0 where
  pub epoch : length state.epoch ≡ epoch_bytes
  pub generation : 0 < state.generation
  pub rows : (1 ≤ state.rows) × (state.rows ≤ max_dimension)
  pub cols : (1 ≤ state.cols) × (state.cols ≤ max_dimension)
  pub primary : Screen
  pub alternate : Screen
  pub has_primary : state.primary ≡ some primary
  pub has_alternate : state.alternate ≡ some alternate
  pub few : length primary.included_rows + length alternate.included_rows ≤ max_included_rows
  pub primary_fits : IsScreen state primary
  pub alternate_fits : IsScreen state alternate
  pub no_history : (alternate.viewport_start ≡ 0) × (length alternate.included_rows ≡ state.rows)

module _ (lib : Libraries) (state : State) where
  module _ (screen : Screen) (alternate : Bool) (style_ids hyperlink_ids : List ℕ) (n m : ℕ)
      (h : validate_screen lib screen alternate state style_ids hyperlink_ids n ≡ ok m) where
    rows_validated :
        (k : ℕ) × (validate_rows lib state.cols style_ids hyperlink_ids state.generation
            screen.included_rows n
          ≡ ok k)
    unfolding validate_screen
    rows_validated =
        elim (Result-cases (
          validate_rows lib state.cols style_ids hyperlink_ids state.generation screen.included_rows
            n)) [
              | inl found ↦ found
              | inr (inl (e, wrong)) ↦ absurd (ground arith)
              | inr (inr wrong) ↦ absurd (ground arith)
            ]

    viewport_fits : screen.viewport_start + state.rows ≤ length screen.included_rows
    unfolding validate_screen U64.checked_add
    viewport_fits = ground arith

    validate_screen-IsScreen : IsScreen state screen
    validate_screen-IsScreen =
        let (k, valid) = rows_validated in
        let (ascending, placed) =
          validate_rows-Ascending lib state.cols style_ids hyperlink_ids state.generation n k
            screen.included_rows valid in
        record { viewport = viewport_fits; ascending = ascending; placed = placed }

    no_history_of :
        alternate ≡ true → (screen.viewport_start ≡ 0) × (length screen.included_rows ≡ state.rows)
    unfolding validate_screen
    no_history_of is_alternate = ground arith

  module _ (h : validate lib state ≡ ok tt) where
    screens_of : (p : Screen) × (q : Screen) × (state.primary ≡ some p) × (state.alternate ≡ some q)
    unfolding validate
    screens_of = elim (Option-cases state.primary) [
      | inl missing ↦ absurd (ground arith)
      | inr (p, has_p) ↦ elim (Option-cases state.alternate) [
        | inl missing ↦ absurd (ground arith)
        | inr (q, has_q) ↦ (p, q, has_p, has_q)
      ]
    ]

    tables_of : (ids : List ℕ × List ℕ) × (validate_tables state.styles state.hyperlinks ≡ ok ids)
    unfolding validate
    tables_of = elim (Result-cases (validate_tables state.styles state.hyperlinks)) [
      | inl found ↦ found
      | inr (inl (e, wrong)) ↦ absurd (ground arith)
      | inr (inr wrong) ↦ absurd (ground arith)
    ]

    module _ (p q : Screen) (has_p : state.primary ≡ some p) (has_q : state.alternate ≡ some q)
        (ids : List ℕ × List ℕ)
        (tables : validate_tables state.styles state.hyperlinks ≡ ok ids) where
      primary_of : (n : ℕ) × (validate_screen lib p false state ids.0 ids.1 0 ≡ ok n)
      unfolding validate
      primary_of = elim (Result-cases (validate_screen lib p false state ids.0 ids.1 0)) [
        | inl found ↦ found
        | inr (inl (e, wrong)) ↦ absurd (ground arith)
        | inr (inr wrong) ↦ absurd (ground arith)
      ]

      alternate_of : (n : ℕ) × (m : ℕ) × (validate_screen lib q true state ids.0 ids.1 n ≡ ok m)
      unfolding validate
      alternate_of =
          let (n, before) = primary_of in
          elim (Result-cases (validate_screen lib q true state ids.0 ids.1 n)) [
            | inl (m, found) ↦ (n, m, found)
            | inr (inl (e, wrong)) ↦ absurd (ground arith)
            | inr (inr wrong) ↦ absurd (ground arith)
          ]

      dimensions :
          (length state.epoch ≡ epoch_bytes)
          × (0 < state.generation)
          × (1 ≤ state.rows)
          × (state.rows ≤ max_dimension)
          × (1 ≤ state.cols)
          × (state.cols ≤ max_dimension)
          × (length p.included_rows + length q.included_rows ≤ max_included_rows)
      unfolding validate
      dimensions = ground arith

    -- A state that the validation accepts can be shown. Its epoch, generation and dimensions are in
    -- range; it has both screens, with at most 4096 rows together; on each the viewport lies within the
    -- rows, their anchors ascend strictly, their versions are at most the generation, and their cells
    -- lie side by side within the columns; the alternate screen is exactly its viewport.
    pub validate-IsState : IsState state
    validate-IsState =
        let (p, q, has_p, has_q) = screens_of in
        let (ids, tables) = tables_of in
        let (n, primary) = primary_of p q has_p has_q ids tables in
        let (k, m, alternate) = alternate_of p q has_p has_q ids tables in
        let (epoch, generation, low_rows, high_rows, low_cols, high_cols, few) =
          dimensions p q has_p has_q ids tables in
        record {
          epoch = epoch;
          generation = generation;
          rows = (low_rows, high_rows);
          cols = (low_cols, high_cols);
          primary = p;
          alternate = q;
          has_primary = has_p;
          has_alternate = has_q;
          few = few;
          primary_fits = validate_screen-IsScreen p false ids.0 ids.1 0 n primary;
          alternate_fits = validate_screen-IsScreen q true ids.0 ids.1 k m alternate;
          no_history = no_history_of q true ids.0 ids.1 k m alternate refl;
        }
