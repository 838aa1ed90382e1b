-- ===== src/Datagram/Message.antt =====
-- src/terminal_datagram_v3.rs: the messages (of src/protocol.rs), the libraries, and the sizes of packets.
use Prim.Native.Nat.{◌+◌, ◌/◌, ◌^◌}
use Prim.Native.String.{len}
use astra_shell.Prelude.{
  ℕ, zero, suc, String, ◌≡◌, ◌≤◌, ◌≢◌, List, [], Bool, false, leb, if◌then◌else◌, Option, none,
  some, length,
}
use astra_shell.Prelude.Int.{ℤ, pos}
use astra_shell.Terminal.State.{Row, Cell}
use astra_shell.Terminal.Diff.{TerminalStateDiff}

abbrev pub max_working_bytes : ℕ
max_working_bytes = 65535

abbrev pub max_fragments : ℕ
max_fragments = 128

pub data TerminalViewportFragmentEncoding : Type 0 where
  raw zstd : TerminalViewportFragmentEncoding

abbrev pub encoding_code : TerminalViewportFragmentEncoding → ℤ
encoding_code raw = pos 0
encoding_code zstd = pos 1

pub record TerminalViewportFragment : Type 0 where
  pub epoch : List ℕ
  pub base_generation : ℕ
  pub target_generation : ℕ
  pub transfer_id : List ℕ
  pub index : ℕ
  pub count : ℕ
  pub total_encoded : ℕ
  pub raw_length : ℕ
  pub encoding : ℤ
  pub sha256 : List ℕ
  pub payload : List ℕ

pub record TerminalViewportRowPatch : Type 0 where
  pub index : ℕ
  pub base_index : ℕ
  pub metadata : Option Row
  pub cell_start : ℕ
  pub delete_count : ℕ
  pub cells : List Cell

pub record TerminalViewportDatagram : Type 0 where
  pub terminal_id : String
  pub attachment_id : String
  pub diff : Option TerminalStateDiff
  pub inherited_fields : ℕ
  pub sparse_rows : Bool
  pub primary_patches : List TerminalViewportRowPatch
  pub alternate_patches : List TerminalViewportRowPatch
  pub fragment : Option TerminalViewportFragment

-- `TerminalViewportDatagram { terminal_id, attachment_id, fragment, ..Default::default() }`.
abbrev pub envelope : String → String → TerminalViewportFragment → TerminalViewportDatagram
envelope terminal_id attachment_id fragment = record {
  terminal_id = terminal_id;
  attachment_id = attachment_id;
  diff = none;
  inherited_fields = 0;
  sparse_rows = false;
  primary_patches = [];
  alternate_patches = [];
  fragment = some fragment;
}

-- `while value >= 128`; a fuel of `value` rounds is enough.
unfoldable pub varint_loop : ℕ → ℕ → ℕ → ℕ
varint_loop zero value bytes = bytes
varint_loop (suc fuel) value bytes =
    let rest = varint_loop fuel (value / 2 ^ 7) (bytes + 1) in if leb 128 value then rest else bytes

abbrev pub varint_len : ℕ → ℕ
varint_len value = varint_loop value value 1

-- The size of the text or bytes field of a message: its tag, its length and its bytes.
abbrev pub field_len : ℕ → ℕ
field_len n = 1 + varint_len n + n

-- What the crates prost, zstd and sha2 give: the encoded length of a datagram and of a fragment, the bytes
-- of a datagram, the level-1 compressor with a bounded destination, and the digest. The laws are the
-- Protocol Buffers encoding of the fields that a packet adds to its header.
pub record Formats : Type 0 where
  pub encoded_len : TerminalViewportDatagram → ℕ
  pub fragment_len : TerminalViewportFragment → ℕ
  pub encode_to_vec : TerminalViewportDatagram → List ℕ
  pub has_compressor : Bool
  pub compress_to_buffer : List ℕ → ℕ → Option (List ℕ)
  pub digest : List ℕ → List ℕ
  pub length-encode_to_vec :
      (d : TerminalViewportDatagram) → length (encode_to_vec d) ≡ encoded_len d
  pub length-digest : (bytes : List ℕ) → length (digest bytes) ≡ 32
  pub fragment_len-payload :
      (f : TerminalViewportFragment)
      → 1 ≤ length f.payload
      → fragment_len f ≡ fragment_len (record f { payload = [] }) + field_len (length f.payload)
  pub fragment_len-transfer_id :
      (f : TerminalViewportFragment) (id : List ℕ)
      → length id ≡ length f.transfer_id
      → fragment_len (record f { transfer_id = id }) ≡ fragment_len f
  pub encoded_len-envelope :
      (terminal_id attachment_id : String) (f : TerminalViewportFragment)
      → terminal_id ≢ ""
      → attachment_id ≢ ""
      → encoded_len (envelope terminal_id attachment_id f)
        ≡ field_len (len terminal_id) + field_len (len attachment_id) + field_len (fragment_len f)
