-- ===== src/Datagram/Tests.antt =====
-- The theorems at a transfer of two packets.
use Prim.Native.Nat.{◌+◌, ◌-◌, ◌^◌}
use Prim.Native.String.{len}
use astra_shell.Prelude.{
  ℕ, zero, suc, String, ◌≡◌, ◌≤◌, ◌<◌, refl, ap, List, [], ◌∷◌, length, Option, none, some, true,
  false, arith,
}
use astra_shell.Prelude.Result.{ok}
use astra_shell.Terminal.Diff.{TerminalStateDiff}
use astra_shell.Payload.RunLength.{zeros}
use astra_shell.Datagram.Message.{
  raw, TerminalViewportFragment, TerminalViewportDatagram, field_len, varint_len, varint_loop,
  Formats,
}
use astra_shell.Datagram.Prepare.{
  ViewportTransfer, prepare, first_transfer, with_count, balanced_range, packet_len, transfer_id,
  wire_size, try_counts, working_bytes_fit,
}
use astra_shell.Datagram.Prepared.{Prepared, prepare-Prepared}
use astra_shell.Datagram.Packets.{bodies, bodies-encoded}
use astra_shell.Datagram.Varint.{varint_len-groups}
use astra_shell.Prelude.U64

abbrev pub payload_part : List ℕ → ℕ
payload_part [] = 0
payload_part (b ∷ bytes) = field_len (suc (length bytes))

pub payload_part-field_len :
    (bytes : List ℕ) → 1 ≤ length bytes → payload_part bytes ≡ field_len (length bytes)
payload_part-field_len [] l = absurd (omega arith)
payload_part-field_len (b ∷ bytes) l = refl

abbrev pub fragment_size : TerminalViewportFragment → ℕ
fragment_size h = 40 + payload_part h.payload

abbrev pub size_of : String → String → Option TerminalViewportFragment → ℕ
size_of terminal_id attachment_id none = 20
size_of terminal_id attachment_id (some h) =
    field_len (len terminal_id) + field_len (len attachment_id) + field_len (fragment_size h)

pub length-zeros : (n : ℕ) → length (zeros n) ≡ n
length-zeros zero = refl
length-zeros (suc n) = ap suc (length-zeros n)

abbrev pub formats : Formats
formats = record {
  encoded_len = λ d. size_of d.terminal_id d.attachment_id d.fragment;
  fragment_len = fragment_size;
  encode_to_vec = λ d. zeros (size_of d.terminal_id d.attachment_id d.fragment);
  has_compressor = true;
  compress_to_buffer = λ bytes limit. none;
  digest = λ bytes. zeros 32;
  length-encode_to_vec = λ d. length-zeros _;
  length-digest = λ bytes. refl;
  fragment_len-payload = λ h l. omega (arith, payload_part-field_len h.payload l);
  fragment_len-transfer_id = λ h id e. refl;
  encoded_len-envelope = λ terminal attachment h t a. refl;
}

abbrev some_diff : TerminalStateDiff
some_diff = record {
  epoch = zeros 16;
  base_generation = 7;
  target_generation = 9;
  target_metadata = none;
  primary_rows = [];
  alternate_rows = [];
}

abbrev delta : TerminalViewportDatagram
delta = record {
  terminal_id = "t";
  attachment_id = "a";
  diff = some some_diff;
  inherited_fields = 0;
  sparse_rows = false;
  primary_patches = [];
  alternate_patches = [];
  fragment = none;
}

abbrev two_packets : ViewportTransfer
two_packets = with_count (first_transfer formats delta 60 1000 some_diff (raw, zeros 20)) 2

prepare_run : prepare formats delta 60 1000 ≡ ok (some two_packets)
unfolding prepare balanced_range packet_len transfer_id wire_size try_counts working_bytes_fit
    varint_loop U64.checked_add U64.checked_mul
prepare_run = refl

two_packets-Prepared : Prepared formats delta 60 1000 two_packets
two_packets-Prepared = prepare-Prepared formats delta 60 1000 two_packets prepare_run

encoded_example : bodies two_packets 2 0 ≡ ok (zeros 20)
encoded_example = bodies-encoded two_packets (omega arith)

groups_example :
    (300 < 128 ^ varint_len 300) × (2 ≤ varint_len 300 → 128 ^ (varint_len 300 - 1) ≤ 300)
groups_example = varint_len-groups 300
