-- ===== src/Datagram/Prepared.antt =====
-- src/terminal_datagram_v3.rs: what `prepare` establishes of a transfer.
use Prim.Native.Nat.{◌+◌, ◌-◌, ◌*◌, ◌/◌, ◌^◌, min}
use astra_shell.Prelude.{
  is_some, ℕ, zero, suc, ◌≡◌, ◌≢◌, ◌≤◌, ◌<◌, refl, List, length, Option, some, true, not, ◌&&◌,
  ◌||◌, ◌==◌, leb, ltb, str_eq, not-str_eq, arith, Bool-cases, inl, inr,
}
use astra_shell.Prelude.Result.{Result, ok, ensure, ok_or, chain_parts}
use astra_shell.Prelude.U64
use astra_shell.Terminal.Diff.{TerminalStateDiff}
use astra_shell.Datagram.Message.{
  max_working_bytes, max_fragments, TerminalViewportDatagram, Formats,
}
use astra_shell.Datagram.Prepare.{
  DatagramError, nested_fragment, transfer_id, empty_route, no_diff, generation_invalid,
  length_not_u32, ViewportTransfer, working_bytes_fit, packet, with_count, try_counts, Choice,
  choose, compressed, first_transfer, cut_up, prepare_diff, prepare,
}
use astra_shell.Datagram.Attempts.{Within, sum_len, Found, try_counts-Found}
use astra_shell.Datagram.Packets.{
  body, packet-body, encoded_len-body, packet_len-with_id, length-transfer_id, with_id,
}

pub working_bytes_fit-bound :
    (raw_length encoded_length : ℕ)
    → working_bytes_fit raw_length encoded_length ≡ true
    → (1 ≤ encoded_length) × (raw_length + 2 * encoded_length + 1 ≤ 65535)
unfolding working_bytes_fit U64.checked_mul U64.checked_add
working_bytes_fit-bound raw_length encoded_length h = (ground arith, ground arith)

sum_len-with_id :
    (f : Formats) (payload_budget : ℕ) (t : ViewportTransfer) (id : List ℕ) (more index : ℕ)
    → length id ≡ length t.header.transfer_id
    → sum_len f payload_budget (with_id t id) more index ≡ sum_len f payload_budget t more index
sum_len-with_id f payload_budget t id zero index e = refl
sum_len-with_id f payload_budget t id (suc more) index e =
    rw (packet_len-with_id f t id index e, sum_len-with_id f payload_budget t id more (index + 1) e)
      refl

module _ (f : Formats) (delta : TerminalViewportDatagram) (payload_budget keyframe_bytes : ℕ) where
  abbrev tried : TerminalStateDiff → Choice f → Result DatagramError (Option ViewportTransfer)
  tried diff chosen =
      try_counts f (first_transfer f delta payload_budget keyframe_bytes diff chosen) payload_budget
        keyframe_bytes (min max_fragments (length chosen.1)) 1

  -- The checks that a prepared transfer has passed, and the attempts it comes from.
  record Admitted (out : ViewportTransfer) : Type 0 where
    diff : TerminalStateDiff
    chosen : Choice f
    scratch : working_bytes_fit (f.encoded_len delta) (length chosen.1) ≡ true
    is_tried : tried diff chosen ≡ ok (some out)

  cut_up-Admitted :
      (diff : TerminalStateDiff) (chosen : Choice f) (out : ViewportTransfer)
      → cut_up f delta payload_budget keyframe_bytes diff chosen ≡ ok (some out)
      → Admitted out
  cut_up-Admitted diff chosen out h =
      elim (Bool-cases (working_bytes_fit (f.encoded_len delta) (length chosen.1))) [
        | inr outside ↦ let h1 = rw outside at h in cc
        | inl inside ↦
            let (u, e, h1) =
              chain_parts (ensure (ltb (length chosen.1) (2 ^ 32)) length_not_u32) _
                (rw inside at h) in
            let (u, e, h2) =
              chain_parts (ensure (ltb (f.encoded_len delta) (2 ^ 32)) length_not_u32) _ h1 in
            record { diff = diff; chosen = chosen; scratch = inside; is_tried = h2 }
      ]

  prepare_diff-Admitted :
      (diff : TerminalStateDiff) (out : ViewportTransfer)
      → prepare_diff f delta payload_budget keyframe_bytes diff ≡ ok (some out)
      → Admitted out
  prepare_diff-Admitted diff out h =
      let (u, e, h1) =
        chain_parts
          (ensure
            (length diff.epoch == 16
              && ltb 0 diff.base_generation
              && ltb diff.base_generation diff.target_generation)
            generation_invalid)
          _ h in
      let maximum : ℕ = (max_working_bytes - f.encoded_len delta - 1) / 2 in
      elim (Bool-cases (maximum == 0)) [
        | inl full ↦ let h2 = rw full at h1 in cc
        | inr room ↦
            let (bytes, e, h2) =
              chain_parts (compressed f (f.encode_to_vec delta) maximum) _ (rw room at h1) in
            cut_up-Admitted diff (choose f (f.encode_to_vec delta) bytes) out h2
      ]

  prepare-Admitted :
      (out : ViewportTransfer)
      → prepare f delta payload_budget keyframe_bytes ≡ ok (some out)
      → Admitted out × (delta.terminal_id ≢ "") × (delta.attachment_id ≢ "")
  unfolding prepare
  prepare-Admitted out h =
      elim (Bool-cases (
        f.encoded_len delta == 0
        || leb max_working_bytes (f.encoded_len delta)
        || payload_budget == 0)) [
          | inl outside ↦ let h1 = rw outside at h in cc
          | inr inside ↦
              let (u, e, h1) =
                chain_parts (ensure (not (is_some delta.fragment)) nested_fragment) _
                  (rw inside at h) in
              let (u, route, h2) =
                chain_parts
                  (ensure (not (str_eq delta.terminal_id "") && not (str_eq delta.attachment_id ""))
                    empty_route)
                  _ h1 in
              let (diff, e, h3) = chain_parts (ok_or delta.diff no_diff) _ h2 in
              (
                prepare_diff-Admitted diff out h3,
                (not-str_eq delta.terminal_id "").0 (ground arith),
                (not-str_eq delta.attachment_id "").0 (ground arith),
              )
        ]

  -- A transfer that may be sent.
  pub record Prepared (out : ViewportTransfer) : Type 0 where
    pub has_packets : 1 ≤ out.header.count
    pub few_packets : out.header.count ≤ 128
    pub packets :
        (i : ℕ)
        → i < out.header.count
        → (p : TerminalViewportDatagram) × (packet out i ≡ ok p)
          × (f.encoded_len p ≤ payload_budget)
    pub least :
        (c : ℕ) → 1 ≤ c → c < out.header.count → ¬ Within f payload_budget (with_count out c) c 0
    pub cheap : sum_len f payload_budget out out.header.count 0 < keyframe_bytes
    pub scratch : f.encoded_len delta + 2 * length out.encoded + 1 ≤ 65535

  -- A transfer with the first count at which its packets fit, and another identity.
  abbrev attempt : TerminalStateDiff → Choice f → ℕ → ViewportTransfer
  attempt diff chosen c =
      with_count (first_transfer f delta payload_budget keyframe_bytes diff chosen) c

  Found-Prepared :
      (out : ViewportTransfer) (a : Admitted out)
      → delta.terminal_id ≢ ""
      → delta.attachment_id ≢ ""
      → Found f payload_budget keyframe_bytes
          (first_transfer f delta payload_budget keyframe_bytes a.diff a.chosen)
          1
          (min max_fragments (length a.chosen.1))
          out
      → Prepared out
  Found-Prepared out a terminal attachment found =
      let n = found.at_count in
      let id = transfer_id f (attempt a.diff a.chosen n).header in
      let id_length : length id ≡ 16 = length-transfer_id f (attempt a.diff a.chosen n).header in
      let sent : ViewportTransfer = with_id (attempt a.diff a.chosen n) id in
      let small : n ≤ length a.chosen.1 = omega (arith, found.to_most) in
      rw found.is_out (record {
        has_packets = found.from_least;
        few_packets = omega (arith, found.to_most);
        packets = λ i l. (
          body sent i,
          packet-body sent i l,
          omega (
            arith,
            encoded_len-body f sent i l small refl terminal attachment,
            packet_len-with_id f (attempt a.diff a.chosen n) id i id_length,
            found.fits i (omega arith) (omega arith),
          ),
        );
        least = λ c l b within. found.others_over c l b (λ j low high. omega (
          arith,
          within j low high,
          packet_len-with_id f (attempt a.diff a.chosen c) id j id_length,
        ));
        cheap = omega (
          arith,
          sum_len-with_id f payload_budget (attempt a.diff a.chosen n) id n 0 id_length,
          found.cheap,
        );
        scratch = (working_bytes_fit-bound (f.encoded_len delta) (length a.chosen.1) a.scratch).1;
      })

  -- A transfer that is prepared has at most 128 packets, each of them encoded within the budget, while no
  -- smaller count of packets would fit; their computed sizes together are less than the keyframe's, and
  -- the raw length with twice the encoded one stays below 65535.
  pub prepare-Prepared :
      (out : ViewportTransfer)
      → prepare f delta payload_budget keyframe_bytes ≡ ok (some out)
      → Prepared out
  prepare-Prepared out h =
      let (a, terminal, attachment) = prepare-Admitted out h in
      Found-Prepared out a terminal attachment (
        try_counts-Found f payload_budget keyframe_bytes _ (min max_fragments (length a.chosen.1)) 1
          out a.is_tried)
