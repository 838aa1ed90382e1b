-- ===== src/Payload/Encoded.antt =====
-- src/compression.rs: `EncodedPayload`. The compression (zstd) and the digest (SHA-256) are parameters.
use Prim.Native.Nat.{◌+◌, ◌-◌, ◌/◌, ◌^◌, max, min}
use astra_shell.Prelude.{
  ℕ, ◌≡◌, ◌≤◌, List, [], ◌∷◌, Bool, true, false, ◌&&◌, ltb, leb, ◌==◌, if◌then◌else◌, Option, some,
  length,
}
use astra_shell.Prelude.Int.{ℤ, pos, negsuc, variant}
use astra_shell.Prelude.Result.{Result, ok, err, ◌>>=◌, ◌>>◌, ensure, ok_or}
use astra_shell.Prelude.Bytes.{bytes_eq}

abbrev pub min_input_bytes : ℕ
min_input_bytes = 1024

abbrev pub min_saving_bytes : ℕ
min_saving_bytes = 64

-- `PayloadEncoding` of src/protocol.rs.
pub data PayloadEncoding : Type 0 where
  raw zstd : PayloadEncoding

abbrev pub encodings : List PayloadEncoding
encodings = raw ∷ zstd ∷ []

-- The messages of the errors.
pub data PayloadError : Type 0 where
  raw_too_large compression_failed size_not_u32 encoded_too_large encoding_unknown : PayloadError
  raw_has_metadata not_negotiated uncompressed_too_large digest_length digest_differs : PayloadError
  magic_invalid decompression_failed size_differs trailing_data upload_not_raw : PayloadError

-- `starts_with(&[0x28, 0xb5, 0x2f, 0xfd])`.
unfoldable pub has_prefix : List ℕ → List ℕ → Bool
has_prefix [] bytes = true
has_prefix (p ∷ prefix) [] = false
has_prefix (p ∷ prefix) (b ∷ bytes) = p == b && has_prefix prefix bytes

abbrev pub zstd_magic : List ℕ
zstd_magic = 0x28 ∷ 0xb5 ∷ 0x2f ∷ 0xfd ∷ []

-- What the crates zstd and sha2 give. `decompress bytes limit` reads at most `limit` bytes of one frame,
-- and gives them with the input behind the frame. A compressed text is one frame, begins with the magic
-- number, and is read back whole.
pub record Codecs : Type 0 where
  pub compress : List ℕ → Option (List ℕ)
  pub decompress : List ℕ → ℕ → Option (List ℕ × List ℕ)
  pub sha256 : List ℕ → List ℕ
  pub compress-magic :
      (bytes frame : List ℕ) → compress bytes ≡ some frame → has_prefix zstd_magic frame ≡ true
  pub decompress-compress :
      (bytes frame : List ℕ) (limit : ℕ)
      → compress bytes ≡ some frame
      → length bytes ≤ limit
      → decompress frame limit ≡ some (bytes, [])
  pub length-sha256 : (bytes : List ℕ) → length (sha256 bytes) ≡ 32

pub record EncodedPayload : Type 0 where
  pub payload : List ℕ
  pub encoding : ℤ
  pub uncompressed_size : ℕ

-- `saturating_add` of `usize`.
abbrev pub saturating_add : ℕ → ℕ → ℕ
saturating_add a b = min (a + b) (2 ^ 64 - 1)

-- `MIN_SAVING_BYTES.max(data.len().div_ceil(20))`.
abbrev pub saving : ℕ → ℕ
saving n = max min_saving_bytes ((n + 19) / 20)

abbrev pub raw_payload : List ℕ → EncodedPayload
raw_payload bytes = record { payload = bytes; encoding = pos 0; uncompressed_size = 0 }

abbrev pub check_kind : ℕ → Bool → ℕ → PayloadEncoding → Result PayloadError Unit
check_kind uncompressed_size enabled maximum raw = ensure (uncompressed_size == 0) raw_has_metadata
check_kind uncompressed_size enabled maximum zstd = do
  ensure enabled not_negotiated
  ensure (ltb 0 uncompressed_size && leb uncompressed_size maximum) uncompressed_too_large

unfoldable pub validate_header : ℤ → ℕ → ℕ → Bool → ℕ → Result PayloadError Unit
validate_header encoding uncompressed_size wire_size enabled maximum = do
  ensure (leb wire_size maximum) encoded_too_large
  kind ← ok_or (variant encodings encoding) encoding_unknown
  check_kind uncompressed_size enabled maximum kind

abbrev pub is_zstd : ℤ → Bool
is_zstd (pos n) = n == 1
is_zstd (negsuc n) = false

module _ (codecs : Codecs) where
  abbrev pub smaller_frame : List ℕ → List ℕ → Result PayloadError EncodedPayload
  smaller_frame bytes frame =
      if leb (saturating_add (length frame) (saving (length bytes))) (length bytes)
      then (if ltb (length bytes) (2 ^ 32)
          then ok (record { payload = frame; encoding = pos 1; uncompressed_size = length bytes })
          else err size_not_u32)
      else ok (raw_payload bytes)

  unfoldable pub encode : List ℕ → Bool → ℕ → Result PayloadError EncodedPayload
  encode bytes enabled maximum = do
    ensure (leb (length bytes) maximum) raw_too_large
    (if enabled && leb min_input_bytes (length bytes)
        then ok_or (codecs.compress bytes) compression_failed >>= smaller_frame bytes
        else ok (raw_payload bytes))

  abbrev pub decompress_frame : EncodedPayload → Result PayloadError (List ℕ)
  decompress_frame p = do
    ensure (has_prefix zstd_magic p.payload) magic_invalid
    read ← ok_or (codecs.decompress p.payload (p.uncompressed_size + 1)) decompression_failed
    ensure (length read.0 == p.uncompressed_size) size_differs
    ensure (length read.1 == 0) trailing_data
    ok read.0

  unfoldable pub decode_bytes : EncodedPayload → Bool → ℕ → Result PayloadError (List ℕ)
  decode_bytes p enabled maximum = do
    validate_header p.encoding p.uncompressed_size (length p.payload) enabled maximum
    (if is_zstd p.encoding then decompress_frame p else ok p.payload)

  unfoldable pub decode : EncodedPayload → Bool → ℕ → List ℕ → Result PayloadError (List ℕ)
  decode p enabled maximum digest = do
    ensure (length digest == 32) digest_length
    bytes ← decode_bytes p enabled maximum
    ensure (bytes_eq (codecs.sha256 bytes) digest) digest_differs
    ok bytes
