-- ===== src/Streaming/RoundTrip.antt =====
-- src/terminal_streaming.rs: a difference, applied to its base.
use Prim.Native.Nat.{◌+◌, ◌^◌}
use astra_shell.Prelude.{
  ℕ, String, ◌≡◌, ◌≢◌, ◌≤◌, ◌<◌, refl, sym, subst, ◌∙◌, List, [], ◌∷◌, true, not, ltb, ◌==◌, str_eq,
  str_eq_iff, some, length, arith,
}
use astra_shell.Prelude.Result.{Result, ok, ◌>>◌, chain_parts}
use astra_shell.Prelude.Bytes.{bytes_eq, bytes_eq_refl}
use astra_shell.Terminal.State.{Cell, Row, Screen, State}
use astra_shell.Terminal.Checks.{Libraries, max_dimension}
use astra_shell.Terminal.Screens.{validate}
use astra_shell.Terminal.Sound.{CellsPlaced, AllPlaced}
use astra_shell.Terminal.Valid.{IsState, validate-IsState}
use astra_shell.Terminal.Diff.{state_metadata, screen_metadata}
use astra_shell.Datagram.Message.{TerminalViewportRowPatch, TerminalViewportDatagram}
use astra_shell.Streaming.Errors.{StreamingError, of_state, lift, no_primary, no_alternate}
use astra_shell.Streaming.RowPatches.{AllShort, sparse_row_patches-apply_sparse_rows}
use astra_shell.Streaming.Delta.{
  validate_viewport_state, shared, screen_patches, compact_diff, viewport_delta,
  compact_viewport_datagram, with_rows, apply_sparse_delta, apply_compact_viewport_delta,
}
use astra_shell.Streaming.Inherit.{flags_of-IsFlagged, with_inherited-without_shared}

lift_ok :
    {E A : Type 0} (wrap : E → StreamingError) (r : Result E A) (a : A)
    → lift wrap r ≡ ok a
    → r ≡ ok a
lift_ok wrap r a h = ground arith

length-CellsPlaced :
    (cols from : ℕ) (cells : List Cell)
    → from ≤ cols
    → CellsPlaced cols from cells
    → length cells + from ≤ cols
length-CellsPlaced cols from [] h placed = omega arith
length-CellsPlaced cols from (c ∷ cells) h (after, wide, narrow, within, placed) =
    omega (arith, length-CellsPlaced cols (c.column + c.width) cells within placed)

AllPlaced-AllShort :
    (cols generation : ℕ) (rows : List Row)
    → cols ≤ max_dimension
    → AllPlaced cols generation rows
    → AllShort rows
AllPlaced-AllShort cols generation [] h placed = tt
AllPlaced-AllShort cols generation (row ∷ rows) h (positive, bounded, placed, all) = (
  omega (arith, length-CellsPlaced cols 0 row.cells (omega arith) placed),
  AllPlaced-AllShort cols generation rows h all,
)

module _ (lib : Libraries) where
  abbrev pub IsViewport : State → Type 0
  IsViewport state = validate_viewport_state lib state ≡ ok tt

  -- What a viewport state has.
  record Shown (state : State) : Type 0 where
    valid : IsState state
    primary_rows : length valid.primary.included_rows ≡ state.rows
    alternate_rows : length valid.alternate.included_rows ≡ state.rows

  valid_of : (state : State) → IsViewport state → validate lib state ≡ ok tt
  unfolding validate_viewport_state
  valid_of state h =
      let (u, first, rest) = chain_parts (lift of_state (validate lib state)) _ h in
      lift_ok of_state (validate lib state) tt first

  shown : (state : State) → IsViewport state → Shown state
  unfolding validate_viewport_state
  shown state h =
      let v = validate-IsState lib state (valid_of state h) in
      let has_p = v.has_primary in
      let has_a = v.has_alternate in
      let valid = valid_of state h in
      record { valid = v; primary_rows = ground arith; alternate_rows = ground arith }

screen_exchanged :
    (p q : Screen) (missing : StreamingError)
    → AllShort p.included_rows
    → length p.included_rows < 2 ^ 32
    → length p.included_rows ≡ length q.included_rows
    → (patches : List TerminalViewportRowPatch) × (screen_patches (some p) (some q) missing
        ≡ ok patches)
      × (with_rows (some (screen_metadata q)) (some p) patches ≡ ok q)
unfolding with_rows
screen_exchanged p q missing short few lengths =
    let (patches, made, applied) =
      sparse_row_patches-apply_sparse_rows p.included_rows q.included_rows short few lengths in
    (patches, made, rw applied refl)

record Metadata (t m : State) (p q : Screen) : Type 0 where
  epoch : m.epoch ≡ t.epoch
  generation : m.generation ≡ t.generation
  rows : m.rows ≡ t.rows
  cols : m.cols ≡ t.cols
  primary : m.primary ≡ some (screen_metadata p)
  alternate : m.alternate ≡ some (screen_metadata q)
  -- A state is its metadata with the screens put back.
  restored : record m { primary = some p; alternate = some q } ≡ t

state_metadata-Metadata :
    (t : State) (p q : Screen)
    → t.primary ≡ some p
    → t.alternate ≡ some q
    → Metadata t (state_metadata t) p q
unfolding state_metadata
state_metadata-Metadata t p q e f = record {
  epoch = refl;
  generation = refl;
  rows = refl;
  cols = refl;
  primary = rw e refl;
  alternate = rw f refl;
  restored = ground arith;
}

not_empty : (text : String) → text ≢ "" → not (str_eq text "") ≡ true
not_empty text h = ground (arith, str_eq_iff text "")

==_refl : (n : ℕ) → (n == n) ≡ true
==_refl n = ground arith

module _ (lib : Libraries) (base target : State) (valid_base : IsViewport lib base)
    (valid_target : IsViewport lib target) (same_epoch : base.epoch ≡ target.epoch)
    (newer : base.generation < target.generation) (same_rows : target.rows ≡ base.rows)
    (same_cols : target.cols ≡ base.cols) where
  module _ (p q p' q' : Screen) (ps qs : List TerminalViewportRowPatch)
      (has_p : base.primary ≡ some p) (has_q : base.alternate ≡ some q) (m : State)
      (meta : Metadata target m p' q')
      (p_applied : with_rows (some (screen_metadata p')) (some p) ps ≡ ok p')
      (q_applied : with_rows (some (screen_metadata q')) (some q) qs ≡ ok q') where
    sparse_applied :
        (delta : TerminalViewportDatagram)
        → delta.primary_patches ≡ ps
        → delta.alternate_patches ≡ qs
        → apply_sparse_delta lib base delta (compact_diff base target) m ≡ ok target
    unfolding apply_sparse_delta
    sparse_applied delta its_ps its_qs =
        let epochs : bytes_eq base.epoch target.epoch ≡ true =
          rw same_epoch (bytes_eq_refl target.epoch) in
        let later : ltb base.generation target.generation ≡ true = ground arith in
        let rows : (m.rows == base.rows) ≡ true = rw (meta.rows, same_rows) (==_refl base.rows) in
        let cols : (m.cols == base.cols) ≡ true = rw (meta.cols, same_cols) (==_refl base.cols) in
        let its_epoch : bytes_eq m.epoch target.epoch ≡ true =
          rw meta.epoch (bytes_eq_refl target.epoch) in
        let its_generation : (m.generation == target.generation) ≡ true =
          rw meta.generation (==_refl target.generation) in
        let accepted =
          subst (λ (s : State). (validate_viewport_state lib s >> ok s) ≡ ok target)
            (sym meta.restored) (rw valid_target refl) in
        rw
          (
            epochs,
            later,
            ==_refl base.generation,
            rows,
            cols,
            its_epoch,
            its_generation,
            meta.primary,
            meta.alternate,
            has_p,
            has_q,
            its_ps,
            its_qs,
          )
          (rw (p_applied, q_applied) accepted)

  -- Between two viewport states of one epoch and one size, the second of a later generation, a difference
  -- is made for every route that is not empty, and its application to the first gives exactly the second.
  pub compact_viewport_datagram-apply_compact_viewport_delta :
      (terminal_id attachment_id : String)
      → terminal_id ≢ ""
      → attachment_id ≢ ""
      → (d : TerminalViewportDatagram) × (compact_viewport_datagram terminal_id attachment_id base
            target
          ≡ ok d)
        × (apply_compact_viewport_delta lib base d ≡ ok target)
  unfolding compact_viewport_datagram apply_compact_viewport_delta
  compact_viewport_datagram-apply_compact_viewport_delta terminal_id attachment_id has_terminal
        has_attachment =
      let b = shown lib base valid_base in
      let t = shown lib target valid_target in
      let (cols_low, cols_high) = b.valid.cols in
      let (rows_low, rows_high) = b.valid.rows in
      let short_p =
        AllPlaced-AllShort base.cols base.generation b.valid.primary.included_rows cols_high
          b.valid.primary_fits.placed in
      let short_q =
        AllPlaced-AllShort base.cols base.generation b.valid.alternate.included_rows cols_high
          b.valid.alternate_fits.placed in
      let p_length = b.primary_rows in
      let q_length = b.alternate_rows in
      let (ps, p_made, p_applied) =
        screen_exchanged b.valid.primary t.valid.primary no_primary short_p (omega arith)
          (b.primary_rows ∙ sym same_rows ∙ sym t.primary_rows) in
      let (qs, q_made, q_applied) =
        screen_exchanged b.valid.alternate t.valid.alternate no_alternate short_q (omega arith)
          (b.alternate_rows ∙ sym same_rows ∙ sym t.alternate_rows) in
      let named : not (str_eq terminal_id "") ≡ true = not_empty terminal_id has_terminal in
      let routed : not (str_eq attachment_id "") ≡ true = not_empty attachment_id has_attachment in
      let epochs : bytes_eq base.epoch target.epoch ≡ true =
        rw same_epoch (bytes_eq_refl target.epoch) in
      let later : ltb base.generation target.generation ≡ true = ground arith in
      let known = (flags_of-IsFlagged (shared base target)).known in
      let back = with_inherited-without_shared base target in
      let meta =
        state_metadata-Metadata target t.valid.primary t.valid.alternate t.valid.has_primary
          t.valid.has_alternate in
      let d : TerminalViewportDatagram =
        viewport_delta terminal_id attachment_id base target ps qs in
      let rows_back =
        sparse_applied b.valid.primary b.valid.alternate t.valid.primary t.valid.alternate ps qs
          b.valid.has_primary b.valid.has_alternate (state_metadata target) meta p_applied q_applied
          d refl refl in
      (
        d,
        simp (
          named, routed, epochs, later, b.valid.has_primary, b.valid.has_alternate,
          t.valid.has_primary, t.valid.has_alternate, p_made, q_made,
        ),
        rw (known, back) rows_back,
      )
