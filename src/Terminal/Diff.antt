-- ===== src/Terminal/Diff.antt =====
-- src/terminal_sync.rs: the difference of two states and its application; its messages are those of
-- src/protocol.rs. The map of the rows by anchor (a `BTreeMap`) is a list of its entries.
use mathlib.Core.Option
use astra_shell.Prelude.{
  is_some, ℕ, List, [], ◌∷◌, Bool, true, false, not, ◌&&◌, ◌||◌, ltb, leb, ◌==◌, str_eq,
  if◌then◌else◌, Option, none, some, length,
}
use astra_shell.Prelude.Result.{Result, ok, err, panic, ◌>>=◌, ◌>>◌, ensure, ok_or, expect}
use astra_shell.Prelude.Bytes.{bytes_eq}
use astra_shell.Terminal.State.{Anchor, Cell, Row, Screen, State}
use astra_shell.Terminal.Checks.{anchor_eq, epoch_bytes, max_included_rows, Libraries}
use astra_shell.Terminal.Screens.{validate}

-- `terminal_state_row::Source`.
pub data Source : Type 0 where
  base_anchor : Anchor → Source
  replacement : Row → Source

pub record TerminalStateRow : Type 0 where
  pub source : Option Source

pub record TerminalStateDiff : Type 0 where
  pub epoch : List ℕ
  pub base_generation : ℕ
  pub target_generation : ℕ
  pub target_metadata : Option State
  pub primary_rows : List TerminalStateRow
  pub alternate_rows : List TerminalStateRow

-- The messages of the errors.
pub data SyncError : Type 0 where
  already_in_flight ack_pending ack_epoch_invalid ack_generation_zero ack_unmatched ack_differs :
      SyncError
  base_invalid target_invalid crosses_epochs not_advancing : SyncError
  base_primary_missing base_alternate_missing target_primary_missing target_alternate_missing :
      SyncError
  diff_epoch_invalid base_epoch_changed base_generation_differs metadata_missing : SyncError
  target_epoch_changed target_generation_differs metadata_has_rows reconstructed_invalid : SyncError
  target_row_unanchored too_many_rows source_missing base_row_unavailable row_unanchored
        anchor_repeated :
      SyncError
  state_row_unanchored state_anchor_repeated : SyncError

-- `.context(message)`.
abbrev pub context : {A E : Type 0} → SyncError → Result E A → Result SyncError A
context e (ok a) = ok a
context e (err _) = err e
context e panic = panic

-- The derived equalities of cells and rows.
unfoldable pub cell_eq : Cell → Cell → Bool
cell_eq c d =
    c.column == d.column
    && str_eq c.grapheme d.grapheme
    && c.width == d.width
    && c.style_id == d.style_id
    && c.hyperlink_id == d.hyperlink_id

unfoldable pub cells_eq : List Cell → List Cell → Bool
cells_eq [] [] = true
cells_eq [] (d ∷ ds) = false
cells_eq (c ∷ cs) [] = false
cells_eq (c ∷ cs) (d ∷ ds) = cell_eq c d && cells_eq cs ds

unfoldable pub start_eq : Option Anchor → Option Anchor → Bool
start_eq none none = true
start_eq none (some b) = false
start_eq (some a) none = false
start_eq (some a) (some b) = anchor_eq a b

unfoldable pub bool_eq : Bool → Bool → Bool
bool_eq true b = b
bool_eq false b = not b

unfoldable pub row_eq : Row → Row → Bool
row_eq r s =
    start_eq r.start s.start
    && r.row_version == s.row_version
    && cells_eq r.cells s.cells
    && bool_eq r.wrapped_to_next s.wrapped_to_next

abbrev pub RowMap : Type 0
RowMap = List (Anchor × Row)

unfoldable pub get_row : Anchor → RowMap → Option Row
get_row anchor [] = none
get_row anchor ((key, row) ∷ rest) = if anchor_eq key anchor then some row else get_row anchor rest

-- The loop of `rows_by_anchor`.
unfoldable pub collect_rows : RowMap → List Row → Result SyncError RowMap
collect_rows m [] = ok m
collect_rows m (row ∷ rest) = do
  anchor ← ok_or row.start state_row_unanchored
  ensure (not (is_some (get_row anchor m))) state_anchor_repeated
  collect_rows ((anchor, row) ∷ m) rest

unfoldable pub rows_by_anchor : List Row → Result SyncError RowMap
rows_by_anchor rows = collect_rows [] rows

abbrev pub is_same : Option Row → Row → Bool
is_same none row = false
is_same (some base_row) row = row_eq base_row row

-- The loop of `diff_rows`.
unfoldable pub diff_each : RowMap → List Row → Result SyncError (List TerminalStateRow)
diff_each base_rows [] = ok []
diff_each base_rows (row ∷ rest) = do
  anchor ← ok_or row.start target_row_unanchored
  let source : Source =
      if is_same (get_row anchor base_rows) row then base_anchor anchor else replacement row
  sources ← diff_each base_rows rest
  ok (record { source = some source } ∷ sources)

unfoldable pub diff_rows : Screen → Screen → Result SyncError (List TerminalStateRow)
diff_rows base target = do
  base_rows ← rows_by_anchor base.included_rows
  diff_each base_rows target.included_rows

abbrev pub resolve : RowMap → Source → Result SyncError Row
resolve base_rows (base_anchor anchor) = ok_or (get_row anchor base_rows) base_row_unavailable
resolve base_rows (replacement row) = ok row

-- `contains` of the set of anchors seen.
unfoldable pub seen_anchor : Anchor → List Anchor → Bool
seen_anchor anchor [] = false
seen_anchor anchor (a ∷ seen) = anchor_eq anchor a || seen_anchor anchor seen

-- The loop of `apply_rows`.
unfoldable pub apply_each :
    RowMap → List Anchor → List TerminalStateRow → Result SyncError (List Row)
apply_each base_rows seen [] = ok []
apply_each base_rows seen (row ∷ rest) = do
  source ← ok_or row.source source_missing
  reconstructed ← resolve base_rows source
  anchor ← ok_or reconstructed.start row_unanchored
  ensure (not (seen_anchor anchor seen)) anchor_repeated
  rows ← apply_each base_rows (anchor ∷ seen) rest
  ok (reconstructed ∷ rows)

unfoldable pub apply_rows : Screen → List TerminalStateRow → Result SyncError (List Row)
apply_rows base rows = do
  ensure (leb (length rows) max_included_rows) too_many_rows
  base_rows ← rows_by_anchor base.included_rows
  apply_each base_rows [] rows

abbrev pub screen_metadata : Screen → Screen
screen_metadata screen = record screen { included_rows = [] }

unfoldable pub state_metadata : State → State
state_metadata state = record state {
  primary = Option.map screen_metadata state.primary;
  alternate = Option.map screen_metadata state.alternate;
}

abbrev pub has_no_rows : Option Screen → Bool
has_no_rows none = false
has_no_rows (some screen) = length screen.included_rows == 0

module _ (lib : Libraries) where
  unfoldable pub terminal_state_diff : State → State → Result SyncError TerminalStateDiff
  terminal_state_diff base target = do
    context base_invalid (validate lib base)
    context target_invalid (validate lib target)
    ensure (bytes_eq base.epoch target.epoch) crosses_epochs
    ensure (ltb base.generation target.generation) not_advancing
    base_primary ← ok_or base.primary base_primary_missing
    base_alternate ← ok_or base.alternate base_alternate_missing
    target_primary ← ok_or target.primary target_primary_missing
    target_alternate ← ok_or target.alternate target_alternate_missing
    primary_rows ← diff_rows base_primary target_primary
    alternate_rows ← diff_rows base_alternate target_alternate
    ok (record {
      epoch = target.epoch;
      base_generation = base.generation;
      target_generation = target.generation;
      target_metadata = some (state_metadata target);
      primary_rows = primary_rows;
      alternate_rows = alternate_rows;
    })

  unfoldable pub apply_terminal_state_diff : State → TerminalStateDiff → Result SyncError State
  apply_terminal_state_diff base diff = do
    context base_invalid (validate lib base)
    ensure (length diff.epoch == epoch_bytes) diff_epoch_invalid
    ensure (bytes_eq base.epoch diff.epoch) base_epoch_changed
    ensure (base.generation == diff.base_generation) base_generation_differs
    ensure (ltb diff.base_generation diff.target_generation) not_advancing
    metadata ← ok_or diff.target_metadata metadata_missing
    ensure (bytes_eq metadata.epoch diff.epoch) target_epoch_changed
    ensure (metadata.generation == diff.target_generation) target_generation_differs
    ensure (has_no_rows metadata.primary && has_no_rows metadata.alternate) metadata_has_rows
    base_primary ← ok_or base.primary base_primary_missing
    primary_rows ← apply_rows base_primary diff.primary_rows
    primary ← expect metadata.primary
    base_alternate ← ok_or base.alternate base_alternate_missing
    alternate_rows ← apply_rows base_alternate diff.alternate_rows
    alternate ← expect metadata.alternate
    let target : State = record metadata {
      primary = some (record primary { included_rows = primary_rows });
      alternate = some (record alternate { included_rows = alternate_rows });
    }
    context reconstructed_invalid (validate lib target)
    ok target
