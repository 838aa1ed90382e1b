-- ===== src/Datagram/Packets.antt =====
-- src/terminal_datagram_v3.rs: the packets of a transfer, their sizes and their bytes together.
use Prim.Native.Nat.{◌+◌, ◌-◌}
use astra_shell.Prelude.{
  ℕ, zero, suc, ◌≡◌, ◌≢◌, ◌≤◌, ◌<◌, refl, sym, ap, ◌∙◌, List, [], ◌++◌, length, none, some, true,
  ltb, le→leb, arith,
}
use astra_shell.Prelude.Result.{Result, ok, ◌>>=◌}
use astra_shell.Datagram.Message.{
  TerminalViewportFragment, TerminalViewportDatagram, envelope, varint_len, Formats,
}
use astra_shell.Datagram.Prepare.{
  DatagramError, ViewportTransfer, slice, cut, balanced_range, packet, packet_len, transfer_id,
}
use astra_shell.Datagram.Ranges.{
  cut-zero, cut_self, cut-step, cut-lt, cut-le, length-slice, slice_none, slice_whole, slice_join,
}

-- The bytes of a fragment.
abbrev pub part : ViewportTransfer → ℕ → List ℕ
part t i =
    slice t.encoded (cut i t.header.count (length t.encoded))
      (cut (i + 1) t.header.count (length t.encoded))

abbrev pub body : ViewportTransfer → ℕ → TerminalViewportDatagram
body t i =
    envelope t.terminal_id t.attachment_id (record t.header { index = i; payload = part t i })

lt→ltb : (a b : ℕ) → a < b → ltb a b ≡ true
lt→ltb a b l = ground arith

pub packet-body : (t : ViewportTransfer) (i : ℕ) → i < t.header.count → packet t i ≡ ok (body t i)
unfolding packet balanced_range
packet-body t i l =
    let n = t.header.count in
    let total = length t.encoded in
    simp (
      lt→ltb i n l,
      le→leb _ _ (cut-step i n total (omega arith)),
      le→leb _ _ (cut-le (i + 1) n total (omega arith) (omega arith)),
    )

-- The bytes of so many packets.
unfoldable pub bytes_of : TerminalViewportDatagram → List ℕ
bytes_of d = elim d.fragment [ none ↦ [] | some fragment ↦ fragment.payload ]

unfoldable pub bodies : ViewportTransfer → ℕ → ℕ → Result DatagramError (List ℕ)
bodies t zero i = ok []
bodies t (suc more) i = do p ← packet t i; rest ← bodies t more (i + 1); ok (bytes_of p ++ rest)

bodies-slice :
    (t : ViewportTransfer) (more i : ℕ)
    → i + more ≡ t.header.count
    → 1 ≤ t.header.count
    → bodies t more i
      ≡ ok (slice t.encoded (cut i t.header.count (length t.encoded)) (length t.encoded))
unfolding bodies bytes_of
bodies-slice t zero i e l =
    let same : i ≡ t.header.count = omega arith in
    rw (same, cut_self t.header.count (length t.encoded) l, slice_none t.encoded (length t.encoded))
      refl
bodies-slice t (suc more) i e l =
    let n = t.header.count in
    let total = length t.encoded in
    simp (
      packet-body t i (omega arith),
      bodies-slice t more (i + 1) (omega arith) l,
      slice_join t.encoded _ _ total (cut-step i n total l)
          (cut-le (i + 1) n total (omega arith) l),
    )

-- The bytes of all packets of a transfer, one behind the other, are its encoding.
pub bodies-encoded :
    (t : ViewportTransfer) → 1 ≤ t.header.count → bodies t t.header.count 0 ≡ ok t.encoded
bodies-encoded t l =
    bodies-slice t t.header.count 0 (omega arith) l
    ∙ rw (cut-zero t.header.count (length t.encoded) l, slice_whole t.encoded) refl

abbrev pub with_id : ViewportTransfer → List ℕ → ViewportTransfer
with_id t id =
    let header : TerminalViewportFragment = record t.header { transfer_id = id } in
    record t { header = header }

module _ (f : Formats) where
  length-part :
      (t : ViewportTransfer) (i : ℕ)
      → i < t.header.count
      → length (part t i)
        ≡ cut (i + 1) t.header.count (length t.encoded) - cut i t.header.count (length t.encoded)
  length-part t i l =
      let n = t.header.count in
      let total = length t.encoded in
      length-slice t.encoded _ _ (cut-step i n total (omega arith))
        (cut-le (i + 1) n total (omega arith) (omega arith))

  pub part-pos :
      (t : ViewportTransfer) (i : ℕ)
      → i < t.header.count
      → t.header.count ≤ length t.encoded
      → 1 ≤ length (part t i)
  part-pos t i l small =
      omega
        (arith, length-part t i l, cut-lt i t.header.count (length t.encoded) (omega arith) small)

  pub encoded_len-body :
      (t : ViewportTransfer) (i : ℕ)
      → i < t.header.count
      → t.header.count ≤ length t.encoded
      → t.header.payload ≡ []
      → t.terminal_id ≢ ""
      → t.attachment_id ≢ ""
      → f.encoded_len (body t i) ≡ packet_len f t i
  unfolding packet_len balanced_range
  encoded_len-body t i l small empty terminal attachment =
      let fragment : TerminalViewportFragment = record t.header { index = i; payload = part t i } in
      let bare : record fragment { payload = [] } ≡ record t.header { index = i } =
        ap (λ (p : List ℕ). record fragment { payload = p }) (sym empty) in
      let data_length : ℕ = length (part t i) in
      let inside : f.fragment_len fragment
          ≡ f.fragment_len (record t.header { index = i })
            + 1
            + varint_len data_length
            + data_length =
        omega
          (arith, f.fragment_len-payload fragment (part-pos t i l small), ap f.fragment_len bare) in
      f.encoded_len-envelope t.terminal_id t.attachment_id fragment terminal attachment
      ∙ rw (inside, length-part t i l) (omega arith)

  pub length-transfer_id : (h : TerminalViewportFragment) → length (transfer_id f h) ≡ 16
  unfolding transfer_id
  length-transfer_id h = length-slice _ 0 16 (omega arith) (omega (arith, f.length-digest _))

  -- The identity of the transfer does not change the size of a packet.
  pub packet_len-with_id :
      (t : ViewportTransfer) (id : List ℕ) (i : ℕ)
      → length id ≡ length t.header.transfer_id
      → packet_len f (with_id t id) i ≡ packet_len f t i
  unfolding packet_len balanced_range
  packet_len-with_id t id i e =
      let same = f.fragment_len-transfer_id (record t.header { index = i }) id e in simp same
