-- ===== src/Terminal/RoundTrip.antt =====
-- src/terminal_sync.rs: the difference of two states, applied to the first.
use astra_shell.Prelude.{
  ℕ, ◌≡◌, ◌≤◌, ◌<◌, refl, sym, ap, subst, List, [], ◌∷◌, true, false, Option, none, some, length,
  leb, ltb, ◌==◌, inl, inr, Bool-cases, Option-cases, arith, if◌then◌else◌, suc,
}
use astra_shell.Prelude.Result.{ok, ◌>>◌}
use astra_shell.Terminal.State.{Anchor, Row, Screen, State}
use astra_shell.Terminal.Checks.{key_lt, max_included_rows, Libraries}
use astra_shell.Terminal.Screens.{validate}
use astra_shell.Terminal.Diff.{
  Source, base_anchor, replacement, TerminalStateRow, TerminalStateDiff, RowMap, get_row,
  collect_rows, rows_by_anchor, is_same, row_eq, diff_each, diff_rows, resolve, seen_anchor,
  apply_each, apply_rows, state_metadata, context, reconstructed_invalid, terminal_state_diff,
  apply_terminal_state_diff,
}
use astra_shell.Terminal.Sound.{Ascending, Behind}
use astra_shell.Terminal.Valid.{validate-IsState}
use astra_shell.Terminal.Equality.{
  key_lt_trans, key_lt-anchor_eq, key_lt-anchor_eq_after, row_eq→eq,
}
use astra_shell.Prelude.Bytes.{bytes_eq, bytes_eq_refl}

-- Every key of the map comes before the anchor.
abbrev KeysBefore : RowMap → Anchor → Type 0
KeysBefore [] a = Unit {0}
KeysBefore ((k, r) ∷ m) a = (key_lt k a ≡ true) × KeysBefore m a

KeysBefore-trans : (m : RowMap) (a b : Anchor) → KeysBefore m a → key_lt a b ≡ true → KeysBefore m b
KeysBefore-trans [] a b h l = tt
KeysBefore-trans ((k, r) ∷ m) a b (h, hs) l = (key_lt_trans k a b h l, KeysBefore-trans m a b hs l)

get_row-before : (m : RowMap) (a : Anchor) → KeysBefore m a → get_row a m ≡ none
unfolding get_row
get_row-before [] a h = refl
get_row-before ((k, r) ∷ m) a (h, hs) = ground (arith, key_lt-anchor_eq k a, get_row-before m a hs)

-- Rows in ascending order have distinct anchors, so that the map of them is made.
collect_rows-Ascending :
    (previous : Option Anchor) (m : RowMap) (rows : List Row)
    → ((a : Anchor) → Behind previous a → KeysBefore m a)
    → Ascending previous rows
    → (m' : RowMap) × (collect_rows m rows ≡ ok m')
unfolding collect_rows
collect_rows-Ascending previous m [] before h = (m, refl)
collect_rows-Ascending previous m (r ∷ rs) before (a, anchored, behind, h) =
    let (m', e) =
      collect_rows-Ascending (some a) ((a, r) ∷ m) rs
        (λ b l. (l, KeysBefore-trans m a b (before a behind) l)) h in
    (m', simp (anchored, get_row-before m a (before a behind), e))

rows_by_anchor-Ascending :
    (rows : List Row) → Ascending none rows → (m : RowMap) × (rows_by_anchor rows ≡ ok m)
unfolding rows_by_anchor
rows_by_anchor-Ascending rows h = collect_rows-Ascending none [] rows (λ a u. tt) h

-- Every anchor seen comes before the anchor.
abbrev SeenBefore : List Anchor → Anchor → Type 0
SeenBefore [] a = Unit {0}
SeenBefore (s ∷ seen) a = (key_lt s a ≡ true) × SeenBefore seen a

SeenBefore-trans :
    (seen : List Anchor) (a b : Anchor) → SeenBefore seen a → key_lt a b ≡ true → SeenBefore seen b
SeenBefore-trans [] a b h l = tt
SeenBefore-trans (s ∷ seen) a b (h, hs) l = (key_lt_trans s a b h l, SeenBefore-trans seen a b hs l)

seen_anchor-before :
    (seen : List Anchor) (a : Anchor) → SeenBefore seen a → seen_anchor a seen ≡ false
unfolding seen_anchor
seen_anchor-before [] a h = refl
seen_anchor-before (s ∷ seen) a (h, hs) =
    ground (arith, key_lt-anchor_eq_after s a, seen_anchor-before seen a hs)

-- What the two sides exchange for the rows.
abbrev Exchanged : RowMap → List Anchor → List Row → Type 0
Exchanged m seen rows =
    (sources : List TerminalStateRow) × (diff_each m rows ≡ ok sources)
    × (length sources ≡ length rows)
    × (apply_each m seen sources ≡ ok rows)

-- The source that the difference names for a row is resolved to that row.
abbrev source_of : RowMap → Anchor → Row → Source
source_of m a r = if is_same (get_row a m) r then base_anchor a else replacement r

resolve-source_of : (m : RowMap) (a : Anchor) (r : Row) → resolve m (source_of m a r) ≡ ok r
resolve-source_of m a r = elim (Option-cases (get_row a m)) [
  | inl missing ↦ rw missing refl
  | inr (b, found) ↦ elim (Bool-cases (row_eq b r)) [
    | inl same ↦ simp (found, same) (ap ok (row_eq→eq b r same))
    | inr other ↦ simp (found, other)
  ]
]

diff_each-apply_each :
    (m : RowMap) (previous : Option Anchor) (seen : List Anchor) (rows : List Row)
    → ((a : Anchor) → Behind previous a → SeenBefore seen a)
    → Ascending previous rows
    → Exchanged m seen rows
unfolding diff_each apply_each
diff_each-apply_each m previous seen [] before h = ([], refl, refl, refl)
diff_each-apply_each m previous seen (r ∷ rs) before (a, anchored, behind, h) =
    let (sources, d, l, e) =
      diff_each-apply_each m (some a) (a ∷ seen) rs
        (λ b l. (l, SeenBefore-trans seen a b (before a behind) l)) h in
    (
      record { source = some (source_of m a r) } ∷ sources,
      simp (anchored, d),
      ap suc l,
      simp (resolve-source_of m a r, anchored, seen_anchor-before seen a (before a behind), e),
    )

-- The rows of a screen, through the difference to it.
diff_rows-apply_rows :
    (base target : Screen)
    → Ascending none base.included_rows
    → Ascending none target.included_rows
    → length target.included_rows ≤ max_included_rows
    → (sources : List TerminalStateRow) × (diff_rows base target ≡ ok sources)
      × (apply_rows base sources ≡ ok target.included_rows)
unfolding diff_rows apply_rows
diff_rows-apply_rows base target b t few =
    let (m, e) = rows_by_anchor-Ascending base.included_rows b in
    let (sources, d, l, a) = diff_each-apply_each m none [] target.included_rows (λ a u. tt) t in
    let short : leb (length sources) max_included_rows ≡ true = ground arith in
    (sources, simp (e, d), simp (short, e, a))

==_refl : (n : ℕ) → (n == n) ≡ true
==_refl n = ground arith

-- A state is its metadata with the rows of the screens put back.
restored :
    (t : State) (p q : Screen)
    → t.primary ≡ some p
    → t.alternate ≡ some q
    → record t { primary = some p; alternate = some q } ≡ t
restored t p q e f = ground arith

module _ (lib : Libraries) (base target : State) (valid_base : validate lib base ≡ ok tt)
    (valid_target : validate lib target ≡ ok tt) (same_epoch : base.epoch ≡ target.epoch)
    (newer : base.generation < target.generation) where
  -- Two valid states of one epoch, the second of a later generation, have a difference, and its
  -- application to the first gives exactly the second.
  pub terminal_state_diff-apply_terminal_state_diff :
      (d : TerminalStateDiff) × (terminal_state_diff lib base target ≡ ok d)
      × (apply_terminal_state_diff lib base d ≡ ok target)
  unfolding terminal_state_diff apply_terminal_state_diff state_metadata
  terminal_state_diff-apply_terminal_state_diff =
      let b = validate-IsState lib base valid_base in
      let t = validate-IsState lib target valid_target in
      let (ps, pd, pa) =
        diff_rows-apply_rows b.primary t.primary b.primary_fits.ascending t.primary_fits.ascending
          (omega (arith, t.few)) in
      let (qs, qd, qa) =
        diff_rows-apply_rows b.alternate t.alternate b.alternate_fits.ascending
          t.alternate_fits.ascending (omega (arith, t.few)) in
      let epochs : bytes_eq base.epoch target.epoch ≡ true =
        rw same_epoch (bytes_eq_refl target.epoch) in
      let later : ltb base.generation target.generation ≡ true = ground arith in
      let accepted =
        subst (λ (s : State). (context reconstructed_invalid (validate lib s) >> ok s) ≡ ok target)
          (sym (restored target t.primary t.alternate t.has_primary t.has_alternate))
          (rw valid_target refl) in
      (
        record {
          epoch = target.epoch;
          base_generation = base.generation;
          target_generation = target.generation;
          target_metadata = some (state_metadata target);
          primary_rows = ps;
          alternate_rows = qs;
        },
        simp (
          valid_base, valid_target, epochs, later, b.has_primary, b.has_alternate, t.has_primary,
          t.has_alternate, pd, qd,
        ),
        simp
            (
              valid_base, epochs, later, b.has_primary, b.has_alternate, t.has_primary,
              t.has_alternate, pa, qa, t.epoch, bytes_eq_refl, ==_refl,
            )
            accepted,
      )
