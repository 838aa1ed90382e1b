-- ===== src/Datagram/Attempts.antt =====
-- src/terminal_datagram_v3.rs: the loops of `prepare` over the packets and over the counts.
use Prim.Native.Nat.{◌+◌}
use native.Mathlib.Nat.{eq-or-lt_of_le}
use astra_shell.Prelude.{
  ℕ, zero, suc, ◌≡◌, ◌≢◌, ◌≤◌, ◌<◌, sym, true, false, leb, none, some, Bool-cases, Option-cases,
  inl, inr, arith, le→leb,
}
use astra_shell.Prelude.Result.{ok, ok_or, chain_parts}
use astra_shell.Prelude.U64
use astra_shell.Datagram.Message.{Formats}
use astra_shell.Datagram.Prepare.{
  size_overflow, ViewportTransfer, packet_len, with_count, wire_size, identified, affordable,
  try_counts,
}

module _ (f : Formats) (keyframe_bytes : ℕ) (counted out : ViewportTransfer) (total : ℕ) where
  affordable-some :
      leb keyframe_bytes total ≡ false
      → affordable f keyframe_bytes counted total ≡ ok (some out)
      → out ≡ identified f counted
  affordable-some fine h = let same = rw fine at h in cc

  affordable_none :
      leb keyframe_bytes total ≡ true → affordable f keyframe_bytes counted total ≢ ok (some out)
  affordable_none dear h = let none_ = rw dear at h in cc

module _ (f : Formats) (payload_budget : ℕ) where
  -- Each of these packets is within the budget.
  abbrev pub Within : ViewportTransfer → ℕ → ℕ → Type 0
  Within t more index = (j : ℕ) → index ≤ j → j < index + more → packet_len f t j ≤ payload_budget

  -- Their bytes.
  abbrev pub sum_len : ViewportTransfer → ℕ → ℕ → ℕ
  sum_len t zero index = 0
  sum_len t (suc more) index = packet_len f t index + sum_len t more (index + 1)

  Within-suc :
      (t : ViewportTransfer) (more index : ℕ)
      → packet_len f t index ≤ payload_budget
      → Within t more (index + 1)
      → Within t (suc more) index
  Within-suc t more index here rest j l h = elim (eq-or-lt_of_le l) [
    | inl same ↦ rw (sym same) here
    | inr later ↦ rest j (omega arith) (omega arith)
  ]

  pub wire_size-Within :
      (t : ViewportTransfer) (more index wire_bytes total : ℕ)
      → wire_size f t payload_budget more index wire_bytes ≡ ok (some total)
      → Within t more index × (total ≡ wire_bytes + sum_len t more index)
  unfolding wire_size U64.checked_add
  wire_size-Within t zero index wire_bytes total h = (λ j l b. absurd (omega arith), ground arith)
  wire_size-Within t (suc more) index wire_bytes total h =
      elim (Bool-cases (leb (packet_len f t index) payload_budget)) [
        | inr large ↦ absurd (ground arith)
        | inl small ↦
            let (sum, added, next) =
              chain_parts (ok_or (U64.checked_add wire_bytes (packet_len f t index)) size_overflow)
                _ (rw small at h) in
            let (within, e) = wire_size-Within t more (index + 1) sum total next in
            let here : sum ≡ wire_bytes + packet_len f t index = ground arith in
            (Within-suc t more index (ground arith) within, omega arith)
      ]

  pub wire_size-over :
      (t : ViewportTransfer) (more index wire_bytes : ℕ)
      → wire_size f t payload_budget more index wire_bytes ≡ ok none
      → ¬ Within t more index
  unfolding wire_size U64.checked_add
  wire_size-over t zero index wire_bytes h within = cc
  wire_size-over t (suc more) index wire_bytes h within =
      let here : packet_len f t index ≤ payload_budget = within index (omega arith) (omega arith) in
      let (sum, added, next) =
        chain_parts (ok_or (U64.checked_add wire_bytes (packet_len f t index)) size_overflow) _
          (rw (le→leb _ _ here) at h) in
      wire_size-over t more (index + 1) sum next (λ j l b. within j (omega arith) (omega arith))

  -- What the loop over the counts ends with: the first count at which each packet fits.
  pub record Found (keyframe_bytes : ℕ) (t : ViewportTransfer) (least : ℕ) (more : ℕ)
      (out : ViewportTransfer) : Type 0 where
    pub at_count : ℕ
    pub from_least : least ≤ at_count
    pub to_most : at_count < least + more
    pub is_out : out ≡ identified f (with_count t at_count)
    pub fits : Within (with_count t at_count) at_count 0
    pub cheap : sum_len (with_count t at_count) at_count 0 < keyframe_bytes
    pub others_over : (c : ℕ) → least ≤ c → c < at_count → ¬ Within (with_count t c) c 0

  Found-suc :
      {keyframe_bytes : ℕ} {t : ViewportTransfer} {least more : ℕ} {out : ViewportTransfer}
      → ¬ Within (with_count t least) least 0
      → Found keyframe_bytes t (least + 1) more out
      → Found keyframe_bytes t least (suc more) out
  Found-suc {least} over found = record {
    at_count = found.at_count;
    from_least = omega (arith, found.from_least);
    to_most = omega (arith, found.to_most);
    is_out = found.is_out;
    fits = found.fits;
    cheap = found.cheap;
    others_over = λ c l b. elim (eq-or-lt_of_le l) [
      | inl same ↦ rw (sym same) over
      | inr later ↦ found.others_over c (omega arith) b
    ];
  }

  pub try_counts-Found :
      (keyframe_bytes : ℕ) (t : ViewportTransfer) (more least : ℕ) (out : ViewportTransfer)
      → try_counts f t payload_budget keyframe_bytes more least ≡ ok (some out)
      → Found keyframe_bytes t least more out
  unfolding try_counts
  try_counts-Found keyframe_bytes t zero least out h = cc
  try_counts-Found keyframe_bytes t (suc more) least out h =
      let (size, measured, next) =
        chain_parts (wire_size f (with_count t least) payload_budget least 0 0) _ h in
      elim (Option-cases size) [
        | inl over ↦
            Found-suc (wire_size-over (with_count t least) least 0 0 (rw over at measured))
              (try_counts-Found keyframe_bytes t more (least + 1) out (rw over at next))
        | inr (total, e) ↦
            let (within, sum) =
              wire_size-Within (with_count t least) least 0 0 total (rw e at measured) in
            elim (Bool-cases (leb keyframe_bytes total)) [
              | inl dear ↦ absurd (affordable_none f keyframe_bytes _ out total dear (rw e at next))
              | inr fine ↦ record {
                at_count = least;
                from_least = omega arith;
                to_most = omega arith;
                is_out = affordable-some f keyframe_bytes _ out total fine (rw e at next);
                fits = within;
                cheap = ground arith;
                others_over = λ c l b. absurd (omega arith);
              }
            ]
      ]
