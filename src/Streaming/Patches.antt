-- ===== src/Streaming/Patches.antt =====
-- src/terminal_streaming.rs: `sparse_row_patches` and `apply_sparse_rows`. The map of the anchors of the base
-- is a search for the last row with the anchor.
use Prim.Native.Nat.{◌-◌, ◌%◌, ◌^◌}
use mathlib.Core.List.{reverse}
use astra_shell.Prelude.{
  ℕ, suc, List, [], ◌∷◌, ◌++◌, not, ◌&&◌, ◌==◌, leb, ltb, if◌then◌else◌, Option, none, some, length,
  get_elem?, set, take, drop,
}
use astra_shell.Prelude.Result.{Result, ok, ◌>>=◌, ◌>>◌, ensure, ok_or, expect}
use astra_shell.Prelude.U64
use astra_shell.Terminal.State.{Anchor, Cell, Row}
use astra_shell.Terminal.Checks.{contains}
use astra_shell.Terminal.Diff.{start_eq, cell_eq, row_eq}
use astra_shell.Datagram.Message.{TerminalViewportRowPatch}
use astra_shell.Streaming.Errors.{
  StreamingError, geometry_changed, too_many_patches, index_invalid, base_index_invalid,
  splice_overflow, splice_exceeds, row_metadata_missing, row_metadata_has_cells,
}

-- `zip`, `take_while(|(a, b)| a == b)` and `count`.
unfoldable pub common_prefix : List Cell → List Cell → ℕ
common_prefix [] ds = 0
common_prefix (c ∷ cs) [] = 0
common_prefix (c ∷ cs) (d ∷ ds) =
    let rest = common_prefix cs ds in if cell_eq c d then suc rest else 0

-- `n as u32`.
abbrev pub truncated : ℕ → ℕ
truncated n = n % 2 ^ 32

abbrev pub or_else : Option ℕ → Option ℕ → Option ℕ
or_else none b = b
or_else (some a) b = some a

-- `anchors.get(..)`: a later row with the same anchor has replaced an earlier one.
unfoldable pub anchor_index : ℕ → Anchor → List Row → Option ℕ
anchor_index index anchor [] = none
anchor_index index anchor (row ∷ rows) =
    or_else (anchor_index (suc index) anchor rows)
      (if start_eq row.start (some anchor) then some index else none)

abbrev pub base_index_of : List Row → Option Anchor → ℕ → ℕ
base_index_of base none index = index
base_index_of base (some anchor) index = chosen (anchor_index 0 anchor base)
  where
    chosen : Option ℕ → ℕ
    chosen none = index
    chosen (some found) = found

abbrev pub row_metadata : Row → Row
row_metadata row = record row { cells = [] }

unfoldable pub patch_from : Row → ℕ → ℕ → Row → TerminalViewportRowPatch
patch_from old index base_index row =
    let prefix : ℕ = common_prefix old.cells row.cells in
    let suffix : ℕ =
      common_prefix (reverse (drop prefix old.cells)) (reverse (drop prefix row.cells)) in
    record {
      index = truncated index;
      base_index = truncated base_index;
      metadata = some (row_metadata row);
      cell_start = truncated prefix;
      delete_count = truncated (length old.cells - prefix - suffix);
      cells = take (length row.cells - suffix - prefix) (drop prefix row.cells);
    }

-- The loop over the rows of the target, from an index on. An index out of the base panics.
unfoldable pub patch_each :
    List Row → ℕ → List Row → Result StreamingError (List TerminalViewportRowPatch)
patch_each base index [] = ok []
patch_each base index (row ∷ rows) = do
  same ← expect (get_elem? base index)
  let base_index : ℕ = base_index_of base row.start index
  let rest = patch_each base (suc index) rows
  let made = (do
    old ← expect (get_elem? base base_index)
    patches ← rest
    ok (patch_from old index base_index row ∷ patches))
  (if row_eq row same then rest else made)

unfoldable pub sparse_row_patches :
    List Row → List Row → Result StreamingError (List TerminalViewportRowPatch)
sparse_row_patches base target = do
  ensure (length base == length target) geometry_changed
  patch_each base 0 target

-- `usize::checked_add`; the check of a sum of two `u32` in 64 bits.
unfoldable pub spliced : Row → TerminalViewportRowPatch → Result StreamingError Row
spliced old patch = do
  end ← ok_or (U64.checked_add patch.cell_start patch.delete_count) splice_overflow
  ensure (leb end (length old.cells)) splice_exceeds
  row ← ok_or patch.metadata row_metadata_missing
  ensure (length row.cells == 0) row_metadata_has_cells
  ok (record row { cells = take patch.cell_start old.cells ++ patch.cells ++ drop end old.cells })

-- The loop over the patches; `seen` are the indices so far.
unfoldable pub apply_each_patch :
    List Row → List Row → List ℕ → List TerminalViewportRowPatch → Result StreamingError (List Row)
apply_each_patch base target seen [] = ok target
apply_each_patch base target seen (patch ∷ patches) = do
  ensure (ltb patch.index (length base) && not (contains patch.index seen)) index_invalid
  old ← ok_or (get_elem? base patch.base_index) base_index_invalid
  row ← spliced old patch
  apply_each_patch base (set target patch.index row) (patch.index ∷ seen) patches

unfoldable pub apply_sparse_rows :
    List Row → List TerminalViewportRowPatch → Result StreamingError (List Row)
apply_sparse_rows base patches = do
  ensure (leb (length patches) (length base)) too_many_patches
  apply_each_patch base base [] patches
