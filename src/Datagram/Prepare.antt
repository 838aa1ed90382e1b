-- ===== src/Datagram/Prepare.antt =====
-- src/terminal_datagram_v3.rs: `ViewportTransfer`.
use Prim.Native.Nat.{◌+◌, ◌-◌, ◌*◌, ◌/◌, ◌%◌, ◌^◌, max, min}
use Prim.Native.String.{len}
use astra_shell.Prelude.{
  is_some, ℕ, zero, suc, String, List, [], ◌∷◌, ◌++◌, Bool, false, not, ◌&&◌, ◌||◌, leb, ltb, ◌==◌,
  str_eq, if◌then◌else◌, Option, none, some, length,
}
use astra_shell.Prelude.Int.{ℤ, pos, negsuc}
use astra_shell.Prelude.Result.{Result, ok, err, panic, ◌>>=◌, ◌>>◌, ensure, ok_or}
use astra_shell.Prelude.U64
use astra_shell.Payload.Encoded.{saturating_add}
use astra_shell.Terminal.Diff.{TerminalStateDiff}
use astra_shell.Datagram.Message.{
  max_working_bytes, max_fragments, TerminalViewportFragmentEncoding, raw, zstd, encoding_code,
  TerminalViewportFragment, TerminalViewportDatagram, envelope, varint_len, Formats,
}

-- The messages of the errors.
pub data DatagramError : Type 0 where
  nested_fragment empty_route no_diff generation_invalid compressor_failed length_not_u32
        size_overflow :
      DatagramError

pub record ViewportTransfer : Type 0 where
  pub terminal_id : String
  pub attachment_id : String
  pub header : TerminalViewportFragment
  pub encoded : List ℕ

abbrev pub id_domain : List ℕ
id_domain =
    97 ∷ 115 ∷ 116 ∷ 114 ∷ 97 ∷ 45 ∷ 118 ∷ 105 ∷ 101 ∷ 119 ∷ 112 ∷ 111 ∷ 114 ∷ 116 ∷ 45 ∷ 118 ∷ 51
    ∷ []

-- `xs[start..end].to_vec()`, for a range within the list.
abbrev pub slice : List ℕ → ℕ → ℕ → List ℕ
slice [] start end = []
slice (x ∷ xs) zero zero = []
slice (x ∷ xs) zero (suc end) = x ∷ slice xs zero end
slice (x ∷ xs) (suc start) zero = []
slice (x ∷ xs) (suc start) (suc end) = slice xs start end

-- `is_some_and(|value| value <= MAX_WORKING_BYTES)`.
abbrev pub is_within : Result Unit ℕ → Bool
is_within (ok value) = leb value max_working_bytes
is_within (err e) = false
is_within panic = false

unfoldable pub working_bytes_fit : ℕ → ℕ → Bool
working_bytes_fit raw_length encoded_length =
    ltb 0 raw_length
    && ltb 0 encoded_length
    && is_within (do
      twice ← ok_or (U64.checked_mul encoded_length 2) tt
      sum ← ok_or (U64.checked_add twice raw_length) tt
      ok_or (U64.checked_add sum 1) tt)

-- The start of the range of a fragment, which is the end of the range before it.
abbrev pub cut : ℕ → ℕ → ℕ → ℕ
cut index count total = index * total / count

unfoldable pub balanced_range : ℕ → ℕ → ℕ → ℕ × ℕ
balanced_range index count total = (cut index count total, cut (index + 1) count total)

-- `u32::to_be_bytes`, and `i32 as u32`.
abbrev pub to_be_bytes : ℕ → List ℕ
to_be_bytes n = n / 2 ^ 24 % 2 ^ 8 ∷ n / 2 ^ 16 % 2 ^ 8 ∷ n / 2 ^ 8 % 2 ^ 8 ∷ n % 2 ^ 8 ∷ []

abbrev pub as_u32 : ℤ → ℕ
as_u32 (pos n) = n
as_u32 (negsuc n) = 2 ^ 32 - 1 - n

module _ (f : Formats) where
  unfoldable pub transfer_id : TerminalViewportFragment → List ℕ
  transfer_id header =
      slice
        (f.digest (
          id_domain
          ++ header.sha256
          ++ to_be_bytes (as_u32 header.encoding)
          ++ to_be_bytes header.total_encoded
          ++ to_be_bytes header.raw_length
          ++ to_be_bytes header.count))
        0 16

  unfoldable pub packet_len : ViewportTransfer → ℕ → ℕ
  packet_len t index =
      let range : ℕ × ℕ = balanced_range index t.header.count (length t.encoded) in
      let data_length : ℕ = range.1 - range.0 in
      let header : TerminalViewportFragment = record t.header { index = index } in
      let inner : ℕ = f.fragment_len header + 1 + varint_len data_length + data_length in
      let outer_route : ℕ =
        1
        + varint_len (len t.terminal_id)
        + len t.terminal_id
        + 1
        + varint_len (len t.attachment_id)
        + len t.attachment_id in
      outer_route + 1 + varint_len inner + inner

-- An assertion that fails, and a range out of bounds, are panics.
unfoldable pub packet : ViewportTransfer → ℕ → Result DatagramError TerminalViewportDatagram
packet t index =
    let range : ℕ × ℕ = balanced_range index t.header.count (length t.encoded) in
    if ltb index t.header.count && leb range.0 range.1 && leb range.1 (length t.encoded)
    then ok (
        envelope t.terminal_id t.attachment_id
          (record t.header { index = index; payload = slice t.encoded range.0 range.1 }))
    else panic

abbrev pub with_count : ViewportTransfer → ℕ → ViewportTransfer
with_count t count =
    let header : TerminalViewportFragment = record t.header { count = count } in
    record t { header = header }

-- What fits: the bytes of all packets together, or none if a packet is over the budget.
module _ (f : Formats) (t : ViewportTransfer) (payload_budget : ℕ) where
  unfoldable pub wire_size : ℕ → ℕ → ℕ → Result DatagramError (Option ℕ)
  wire_size zero index wire_bytes = ok (some wire_bytes)
  wire_size (suc more) index wire_bytes =
      let size : ℕ = packet_len f t index in
      let rest = wire_size more (index + 1) in
      if not (leb size payload_budget)
      then ok none
      else ok_or (U64.checked_add wire_bytes size) size_overflow >>= rest

module _ (f : Formats) where
  abbrev pub identified : ViewportTransfer → ViewportTransfer
  identified t =
      let header : TerminalViewportFragment = record t.header {
        transfer_id = transfer_id f t.header;
      } in
      record t { header = header }

module _ (f : Formats) (keyframe_bytes : ℕ) where
  abbrev pub affordable : ViewportTransfer → ℕ → Result DatagramError (Option ViewportTransfer)
  affordable counted wire_bytes =
      if leb keyframe_bytes wire_bytes then ok none else ok (some (identified f counted))

  abbrev pub decided :
      ViewportTransfer
      → Result DatagramError (Option ViewportTransfer)
      → Option ℕ
      → Result DatagramError (Option ViewportTransfer)
  decided counted rest none = rest
  decided counted rest (some wire_bytes) = affordable counted wire_bytes

module _ (f : Formats) (t : ViewportTransfer) (payload_budget keyframe_bytes : ℕ) where
  -- `for count in count..`, with so many counts left.
  unfoldable pub try_counts : ℕ → ℕ → Result DatagramError (Option ViewportTransfer)
  try_counts zero count = ok none
  try_counts (suc more) count =
      let counted : ViewportTransfer = with_count t count in
      let rest = try_counts more (count + 1) in
      wire_size f counted payload_budget count 0 0 >>= decided f keyframe_bytes counted rest

module _ (f : Formats) where
  abbrev pub Choice : Type 0
  Choice = TerminalViewportFragmentEncoding × List ℕ

  abbrev pub choose : List ℕ → Option (List ℕ) → Choice
  choose raw_bytes none = (raw, raw_bytes)
  choose raw_bytes (some bytes) =
      if leb (saturating_add (length bytes) (max 64 ((length raw_bytes + 19) / 20)))
        (length raw_bytes)
      then (zstd, bytes)
      else (raw, raw_bytes)

  -- The compressed bytes, where compression is tried.
  abbrev pub compressed : List ℕ → ℕ → Result DatagramError (Option (List ℕ))
  compressed raw_bytes maximum_encoded =
      if leb 1024 (length raw_bytes)
      then (do
        ensure f.has_compressor compressor_failed
        ok (f.compress_to_buffer raw_bytes maximum_encoded))
      else ok none

  abbrev pub first_header : TerminalStateDiff → Choice → ℕ → List ℕ → TerminalViewportFragment
  first_header diff chosen raw_length sha256 = record {
    epoch = diff.epoch;
    base_generation = diff.base_generation;
    target_generation = diff.target_generation;
    transfer_id = 0 ∷ 0 ∷ 0 ∷ 0 ∷ 0 ∷ 0 ∷ 0 ∷ 0 ∷ 0 ∷ 0 ∷ 0 ∷ 0 ∷ 0 ∷ 0 ∷ 0 ∷ 0 ∷ [];
    index = 0;
    count = 1;
    total_encoded = length chosen.1;
    raw_length = raw_length;
    encoding = encoding_code chosen.0;
    sha256 = sha256;
    payload = [];
  }

  module _ (delta : TerminalViewportDatagram) (payload_budget keyframe_bytes : ℕ) where
    abbrev pub first_transfer : TerminalStateDiff → Choice → ViewportTransfer
    first_transfer diff chosen = record {
      terminal_id = delta.terminal_id;
      attachment_id = delta.attachment_id;
      header = first_header diff chosen (f.encoded_len delta) (f.digest (f.encode_to_vec delta));
      encoded = chosen.1;
    }

    abbrev pub cut_up : TerminalStateDiff → Choice → Result DatagramError (Option ViewportTransfer)
    cut_up diff chosen =
        if not (working_bytes_fit (f.encoded_len delta) (length chosen.1)) then ok none else (do
          ensure (ltb (length chosen.1) (2 ^ 32)) length_not_u32
          ensure (ltb (f.encoded_len delta) (2 ^ 32)) length_not_u32
          try_counts f (first_transfer diff chosen) payload_budget keyframe_bytes
              (min max_fragments (length chosen.1)) 1)

    abbrev pub prepare_diff : TerminalStateDiff → Result DatagramError (Option ViewportTransfer)
    prepare_diff diff = do
      ensure
          (length diff.epoch == 16
            && ltb 0 diff.base_generation
            && ltb diff.base_generation diff.target_generation)
          generation_invalid
      let maximum_encoded = (max_working_bytes - f.encoded_len delta - 1) / 2
      (if maximum_encoded == 0
          then ok none
          else compressed (f.encode_to_vec delta) maximum_encoded >>= λ bytes.
              cut_up diff (choose (f.encode_to_vec delta) bytes))

    -- `ViewportTransfer::prepare`.
    unfoldable pub prepare : Result DatagramError (Option ViewportTransfer)
    prepare =
        if f.encoded_len delta == 0
          || leb max_working_bytes (f.encoded_len delta)
          || payload_budget == 0
        then ok none
        else (do
          ensure (not (is_some delta.fragment)) nested_fragment
          ensure (not (str_eq delta.terminal_id "") && not (str_eq delta.attachment_id ""))
              empty_route
          diff ← ok_or delta.diff no_diff
          prepare_diff diff)
