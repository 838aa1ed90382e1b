-- ===== src/Payload/Files.antt =====
-- src/compression.rs: the payloads of uploads and downloads; the messages are those of src/protocol.rs.
use astra_shell.Prelude.{ℕ, String, List, Bool, ◌&&◌, ◌==◌, ◌*◌}
use astra_shell.Prelude.Int.{ℤ, pos, negsuc}
use astra_shell.Prelude.Result.{Result, ok, ◌>>=◌, ◌>>◌, ensure}
use astra_shell.Payload.Encoded.{PayloadError, upload_not_raw, Codecs, encode, decode, decode_bytes}

abbrev pub max_file_chunk_size : ℕ
max_file_chunk_size = 1024 * 1024

pub record WriteFileChunkRequest : Type 0 where
  pub transfer_id : String
  pub offset : ℕ
  pub payload : List ℕ
  pub sha256 : List ℕ
  pub encoding : ℤ
  pub uncompressed_size : ℕ

pub record FileChunkResponse : Type 0 where
  pub offset : ℕ
  pub payload : List ℕ
  pub sha256 : List ℕ
  pub eof : Bool
  pub encoding : ℤ
  pub uncompressed_size : ℕ

abbrev pub is_zero : ℤ → Bool
is_zero (pos n) = n == 0
is_zero (negsuc n) = Bool.false

module _ (codecs : Codecs) where
  unfoldable pub encode_upload :
      WriteFileChunkRequest → Bool → Result PayloadError WriteFileChunkRequest
  encode_upload chunk enabled = do
    ensure (is_zero chunk.encoding && chunk.uncompressed_size == 0) upload_not_raw
    p ← encode codecs chunk.payload enabled max_file_chunk_size
    ok (record chunk {
      payload = p.payload;
      encoding = p.encoding;
      uncompressed_size = p.uncompressed_size;
    })

  unfoldable pub decode_upload :
      WriteFileChunkRequest → Bool → Result PayloadError WriteFileChunkRequest
  decode_upload chunk enabled = do
    bytes ←
        decode_bytes codecs
          (record {
            payload = chunk.payload;
            encoding = chunk.encoding;
            uncompressed_size = chunk.uncompressed_size;
          })
          enabled max_file_chunk_size
    ok (record chunk { payload = bytes; encoding = pos 0; uncompressed_size = 0 })

  unfoldable pub encode_download : FileChunkResponse → Bool → Result PayloadError FileChunkResponse
  encode_download chunk enabled = do
    p ← encode codecs chunk.payload enabled max_file_chunk_size
    ok (record chunk {
      payload = p.payload;
      encoding = p.encoding;
      uncompressed_size = p.uncompressed_size;
    })

  unfoldable pub decode_download : FileChunkResponse → Bool → Result PayloadError FileChunkResponse
  decode_download chunk enabled = do
    bytes ←
        decode codecs
          (record {
            payload = chunk.payload;
            encoding = chunk.encoding;
            uncompressed_size = chunk.uncompressed_size;
          })
          enabled max_file_chunk_size chunk.sha256
    ok (record chunk { payload = bytes; encoding = pos 0; uncompressed_size = 0 })
