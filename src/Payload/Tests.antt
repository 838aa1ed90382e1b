-- ===== src/Payload/Tests.antt =====
-- The theorems at payloads that are compressed and that are not.
use astra_shell.Prelude.{◌≡◌, ◌≤◌, refl, [], ◌∷◌, true, length}
use astra_shell.Prelude.Int.{pos}
use astra_shell.Prelude.Result.{ok}
use astra_shell.Payload.Encoded.{EncodedPayload, is_zstd, encode, decode}
use astra_shell.Payload.Files.{WriteFileChunkRequest, encode_upload, decode_upload}
use astra_shell.Payload.RoundTrip.{decode-encode, decode_bounds, decode_upload-encode_upload}
use astra_shell.Payload.RunLength.{zeros, plain}

abbrev frame : EncodedPayload
frame = record {
  payload = 0x28 ∷ 0xb5 ∷ 0x2f ∷ 0xfd ∷ 1100 ∷ [];
  encoding = pos 1;
  uncompressed_size = 1100;
}

encode_run : encode plain (zeros 1100) true 1048576 ≡ ok frame
unfolding encode
encode_run = refl

decode_example : decode plain frame true 1048576 (zeros 32) ≡ ok (zeros 1100)
decode_example = decode-encode plain (zeros 1100) true 1048576 frame encode_run

accepted_example :
    (zeros 32 ≡ zeros 32)
    × (length (zeros 1100) ≤ 1048576)
    × (is_zstd frame.encoding ≡ true → true ≡ true)
accepted_example = decode_bounds plain frame true 1048576 (zeros 32) (zeros 1100) decode_example

abbrev chunk : WriteFileChunkRequest
chunk = record {
  transfer_id = "t1";
  offset = 0;
  payload = zeros 1100;
  sha256 = zeros 32;
  encoding = pos 0;
  uncompressed_size = 0;
}

abbrev sent : WriteFileChunkRequest
sent = record chunk { payload = frame.payload; encoding = pos 1; uncompressed_size = 1100 }

upload_run : encode_upload plain chunk true ≡ ok sent
unfolding encode_upload encode
upload_run = refl

upload_example : decode_upload plain sent true ≡ ok chunk
upload_example = decode_upload-encode_upload plain chunk sent true upload_run
