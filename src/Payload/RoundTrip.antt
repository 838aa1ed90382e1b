-- ===== src/Payload/RoundTrip.antt =====
-- src/compression.rs: the encoding of payloads against their decoding.
use Prim.Native.Nat.{◌+◌, ◌^◌}
use astra_shell.Prelude.{
  ℕ, ◌≡◌, ◌≤◌, refl, List, Bool, true, ◌&&◌, ltb, leb, ◌==◌, Option, none, some, length, Bool-cases,
  inl, inr, arith,
}
use astra_shell.Prelude.Int.{ℤ, pos, negsuc}
use astra_shell.Prelude.Result.{Result, ok, ◌>>=◌, ensure, ok_or, chain_parts}
use astra_shell.Prelude.Bytes.{bytes_eq→eq, bytes_eq_refl}
use astra_shell.Payload.Encoded.{
  PayloadError, EncodedPayload, Codecs, min_input_bytes, raw_too_large, compression_failed,
  saturating_add, upload_not_raw, saving, raw_payload, smaller_frame, is_zstd, validate_header,
  encode, decode_bytes, decode,
}
use astra_shell.Payload.Files.{
  WriteFileChunkRequest, encode_upload, decode_upload, is_zero, max_file_chunk_size,
}

is_zero→eq : (z : ℤ) → is_zero z ≡ true → z ≡ pos 0
is_zero→eq (pos n) h = ground arith
is_zero→eq (negsuc n) h = cc

module _ (codecs : Codecs) where
  -- The two forms that an encoded payload has.
  pub data Encodes (bytes : List ℕ) (maximum : ℕ) : Bool → EncodedPayload → Type 0 where
    as_raw :
        {enabled : Bool}
        → length bytes ≤ maximum
        → Encodes bytes maximum enabled (raw_payload bytes)
    as_frame :
        {frame : List ℕ}
        → length bytes ≤ maximum
        → 1 ≤ length bytes
        → length frame ≤ length bytes
        → codecs.compress bytes ≡ some frame
        → Encodes bytes maximum true
            (record { payload = frame; encoding = pos 1; uncompressed_size = length bytes })

  raw-Encodes :
      (bytes : List ℕ) (enabled : Bool) (maximum : ℕ) (p : EncodedPayload)
      → leb (length bytes) maximum ≡ true
      → ◌≡◌ {A = Result PayloadError EncodedPayload} (ok (raw_payload bytes)) (ok p)
      → Encodes bytes maximum enabled p
  raw-Encodes bytes enabled maximum p small h =
      let same : p ≡ raw_payload bytes = cc in rw same (as_raw (ground arith))

  frame-Encodes :
      (bytes : List ℕ) (maximum : ℕ) (p : EncodedPayload) (compressed : Option (List ℕ))
      → codecs.compress bytes ≡ compressed
      → leb (length bytes) maximum ≡ true
      → leb min_input_bytes (length bytes) ≡ true
      → (ok_or compressed compression_failed >>= smaller_frame codecs bytes) ≡ ok p
      → Encodes bytes maximum true p
  frame-Encodes bytes maximum p none c small long h = cc
  frame-Encodes bytes maximum p (some frame) c small long h =
      elim (Bool-cases
        (leb (saturating_add (length frame) (saving (length bytes))) (length bytes))) [
          | inr large ↦ raw-Encodes bytes true maximum p small (rw large at h)
          | inl smaller ↦ elim (Bool-cases (ltb (length bytes) (2 ^ 32))) [
            | inr wide ↦ absurd (ground arith)
            | inl fits ↦
                let same : p ≡ record {
                  payload = frame;
                  encoding = pos 1;
                  uncompressed_size = length bytes;
                } =
                  ground arith in
                rw same (as_frame (ground arith) (ground arith) (ground arith) c)
          ]
        ]

  encode-Encodes :
      (bytes : List ℕ) (enabled : Bool) (maximum : ℕ) (p : EncodedPayload)
      → encode codecs bytes enabled maximum ≡ ok p
      → Encodes bytes maximum enabled p
  unfolding encode
  encode-Encodes bytes enabled maximum p h =
      let (u, small, h1) = chain_parts (ensure (leb (length bytes) maximum) raw_too_large) _ h in
      let fits : leb (length bytes) maximum ≡ true = ground arith in
      elim (Bool-cases enabled) [
        | inr off ↦ raw-Encodes bytes enabled maximum p fits (rw off at h1)
        | inl on ↦ elim (Bool-cases (leb min_input_bytes (length bytes))) [
          | inr short ↦ raw-Encodes bytes enabled maximum p fits (rw (on, short) at h1)
          | inl long ↦ rw on (
              frame-Encodes bytes maximum p (codecs.compress bytes) refl fits long
                (rw (on, long) at h1))
        ]
      ]

  decode_bytes-Encodes :
      {bytes : List ℕ} {enabled : Bool} {maximum : ℕ} {p : EncodedPayload}
      → Encodes bytes maximum enabled p
      → decode_bytes codecs p enabled maximum ≡ ok bytes
  unfolding decode_bytes validate_header
  decode_bytes-Encodes {bytes} (as_raw small) = ground arith
  decode_bytes-Encodes {bytes} (as_frame {frame} small some_ smaller compressed) = ground (
    arith,
    codecs.compress-magic bytes frame compressed,
    codecs.decompress-compress bytes frame (length bytes + 1) compressed (omega arith),
  )

  -- What is encoded for a link is decoded there to the same bytes, whether or not it was compressed.
  pub decode-encode :
      (bytes : List ℕ) (enabled : Bool) (maximum : ℕ) (p : EncodedPayload)
      → encode codecs bytes enabled maximum ≡ ok p
      → decode codecs p enabled maximum (codecs.sha256 bytes) ≡ ok bytes
  unfolding decode
  decode-encode bytes enabled maximum p h = simp (
    codecs.length-sha256 bytes,
    decode_bytes-Encodes (encode-Encodes bytes enabled maximum p h),
    bytes_eq_refl,
  )

  -- Bytes that are accepted have the digest that was announced, and are within the limit, however they
  -- were compressed; a compressed payload is accepted only if compression was negotiated.
  pub decode_bounds :
      (p : EncodedPayload) (enabled : Bool) (maximum : ℕ) (digest bytes : List ℕ)
      → decode codecs p enabled maximum digest ≡ ok bytes
      → (codecs.sha256 bytes ≡ digest)
        × (length bytes ≤ maximum)
        × (is_zstd p.encoding ≡ true → enabled ≡ true)
  unfolding decode decode_bytes validate_header
  decode_bounds p enabled maximum digest bytes h =
      (ground (arith, bytes_eq→eq (codecs.sha256 bytes) digest), ground arith, λ z. ground arith)

  upload_of : WriteFileChunkRequest → EncodedPayload → WriteFileChunkRequest
  upload_of chunk p = record chunk {
    payload = p.payload;
    encoding = p.encoding;
    uncompressed_size = p.uncompressed_size;
  }

  decode_upload-upload_of :
      (chunk : WriteFileChunkRequest) (p : EncodedPayload) (enabled : Bool)
      → chunk.encoding ≡ pos 0
      → chunk.uncompressed_size ≡ 0
      → decode_bytes codecs p enabled max_file_chunk_size ≡ ok chunk.payload
      → decode_upload codecs (upload_of chunk p) enabled ≡ ok chunk
  unfolding decode_upload upload_of
  decode_upload-upload_of chunk p enabled z n decoded = ground arith

  -- A chunk of raw bytes comes through the encoding of an upload and its decoding unchanged.
  pub decode_upload-encode_upload :
      (chunk sent : WriteFileChunkRequest) (enabled : Bool)
      → encode_upload codecs chunk enabled ≡ ok sent
      → decode_upload codecs sent enabled ≡ ok chunk
  unfolding encode_upload upload_of
  decode_upload-encode_upload chunk sent enabled h =
      let (u, raw_, h1) =
        chain_parts (ensure (is_zero chunk.encoding && chunk.uncompressed_size == 0) upload_not_raw)
          _ h in
      let (p, e, h2) = chain_parts (encode codecs chunk.payload enabled max_file_chunk_size) _ h1 in
      let same : sent ≡ upload_of chunk p = cc in
      rw same (
        decode_upload-upload_of chunk p enabled (ground (arith, is_zero→eq chunk.encoding))
          (ground arith)
          (decode_bytes-Encodes (encode-Encodes chunk.payload enabled max_file_chunk_size p e)))
