-- ===== src/Transfer/Assembler.antt =====
-- src/terminal_streaming.rs: `TransferAssembler`. What an error leaves behind is returned with it.
use Prim.Native.Nat.{◌+◌}
use astra_shell.Prelude.{
  ℕ, List, [], ◌∷◌, ◌++◌, Bool, not, ◌&&◌, ltb, leb, ◌==◌, if◌then◌else◌, Option, none, some,
  length, get_elem?, set,
}
use astra_shell.Prelude.Int.{ℤ, int_eq}
use astra_shell.Prelude.Result.{Result, ok, err, panic, ◌>>=◌, ◌>>◌, ensure}
use astra_shell.Prelude.Bytes.{bytes_eq}
use astra_shell.Prelude.U64
use astra_shell.Payload.Encoded.{PayloadError, Codecs, validate_header, decode}

abbrev pub max_transfer_chunks : ℕ
max_transfer_chunks = 4096

pub record TransferChunk : Type 0 where
  pub transfer_id : List ℕ
  pub chunk_index : ℕ
  pub chunk_count : ℕ
  pub total_size : ℕ
  pub sha256 : List ℕ
  pub payload : List ℕ
  pub encoding : ℤ
  pub uncompressed_size : ℕ

pub record PendingTransfer : Type 0 where
  pub transfer_id : List ℕ
  pub total_size : ℕ
  pub sha256 : List ℕ
  pub chunks : List (Option (List ℕ))
  pub received_size : ℕ
  pub received_chunks : ℕ
  pub encoding : ℤ
  pub uncompressed_size : ℕ

pub record TransferAssembler : Type 0 where
  pub pending : Option PendingTransfer
  pub allow_zstd : Bool

-- The messages of the errors.
pub data TransferError : Type 0 where
  id_invalid digest_invalid count_invalid index_invalid too_large : TransferError
  transfer_changed not_first metadata_changed chunk_changed size_overflowed size_exceeded :
      TransferError
  chunk_missing size_differs : TransferError
  invalid_payload : PayloadError → TransferError

abbrev pub lifted : {A : Type 0} → Result PayloadError A → Result TransferError A
lifted (ok a) = ok a
lifted (err e) = err (invalid_payload e)
lifted panic = panic

-- `vec![None; n]`.
unfoldable pub empty_chunks : ℕ → List (Option (List ℕ))
empty_chunks ℕ.zero = []
empty_chunks (ℕ.suc n) = none ∷ empty_chunks n

-- `collect::<Result<Vec<_>>>()` and `concat`.
unfoldable pub concat_chunks : List (Option (List ℕ)) → Result TransferError (List ℕ)
concat_chunks [] = ok []
concat_chunks (none ∷ rest) = err chunk_missing
concat_chunks (some bytes ∷ rest) = do tail ← concat_chunks rest; ok (bytes ++ tail)

-- The checks of a chunk by itself.
unfoldable pub check_chunk : TransferChunk → Bool → ℕ → Result TransferError Unit
check_chunk chunk allow_zstd maximum_size = do
  ensure (length chunk.transfer_id == 16) id_invalid
  ensure (length chunk.sha256 == 32) digest_invalid
  ensure (leb 1 chunk.chunk_count && leb chunk.chunk_count max_transfer_chunks) count_invalid
  ensure (ltb chunk.chunk_index chunk.chunk_count) index_invalid
  ensure (leb chunk.total_size maximum_size) too_large
  lifted (
      validate_header chunk.encoding chunk.uncompressed_size chunk.total_size allow_zstd
        maximum_size)

abbrev pub started : TransferChunk → PendingTransfer
started chunk = record {
  transfer_id = chunk.transfer_id;
  total_size = chunk.total_size;
  sha256 = chunk.sha256;
  chunks = empty_chunks chunk.chunk_count;
  received_size = 0;
  received_chunks = 0;
  encoding = chunk.encoding;
  uncompressed_size = chunk.uncompressed_size;
}

-- The transfer that the chunk belongs to, begun by its first chunk.
unfoldable pub pending_for :
    TransferChunk → Option PendingTransfer → Result TransferError PendingTransfer
pending_for chunk (some pending) = do
  ensure (bytes_eq pending.transfer_id chunk.transfer_id) transfer_changed
  ok pending
pending_for chunk none = do ensure (chunk.chunk_index == 0) not_first; ok (started chunk)

abbrev pub same_metadata : PendingTransfer → TransferChunk → Bool
same_metadata pending chunk =
    bytes_eq pending.transfer_id chunk.transfer_id
    && pending.total_size == chunk.total_size
    && bytes_eq pending.sha256 chunk.sha256
    && int_eq pending.encoding chunk.encoding
    && pending.uncompressed_size == chunk.uncompressed_size
    && length pending.chunks == chunk.chunk_count

abbrev pub Pushed : Type 0
Pushed = Result TransferError (Option (List ℕ)) × TransferAssembler

abbrev pub keep : Bool → PendingTransfer → TransferAssembler
keep allow_zstd pending = record { pending = some pending; allow_zstd = allow_zstd }

module _ (codecs : Codecs) (allow_zstd : Bool) (maximum_size : ℕ) where
  -- What follows the last chunk: the transfer is taken, and its bytes are decoded.
  unfoldable pub finish : PendingTransfer → Result TransferError (Option (List ℕ))
  finish pending = do
    encoded ← concat_chunks pending.chunks
    ensure (length encoded == pending.total_size) size_differs
    bytes ← lifted (
        decode codecs
          (record {
            payload = encoded;
            encoding = pending.encoding;
            uncompressed_size = pending.uncompressed_size;
          })
          allow_zstd maximum_size pending.sha256)
    ok (some bytes)

  abbrev pub store_sized : PendingTransfer → TransferChunk → Option ℕ → Pushed
  store_sized pending chunk none = (err size_overflowed, keep allow_zstd pending)
  store_sized pending chunk (some size) =
      let sized : PendingTransfer = record pending { received_size = size } in
      let stored : PendingTransfer = record sized {
        received_chunks = pending.received_chunks + 1;
        chunks = set pending.chunks chunk.chunk_index (some chunk.payload);
      } in
      if not (leb size pending.total_size)
      then (err size_exceeded, keep allow_zstd sized)
      else if not (stored.received_chunks == length stored.chunks)
      then (ok none, keep allow_zstd stored)
      else (finish stored, record { pending = none; allow_zstd = allow_zstd })

  -- `pending.chunks[chunk_index]`; an index out of range is a panic.
  abbrev pub store : PendingTransfer → TransferChunk → Option (Option (List ℕ)) → Pushed
  store pending chunk none = (panic, keep allow_zstd pending)
  store pending chunk (some (some existing)) =
      if bytes_eq existing chunk.payload
      then (ok none, keep allow_zstd pending)
      else (err chunk_changed, keep allow_zstd pending)
  store pending chunk (some none) =
      store_sized pending chunk (U64.checked_add pending.received_size (length chunk.payload))

  abbrev pub receive_chunk : PendingTransfer → TransferChunk → Pushed
  receive_chunk pending chunk =
      if same_metadata pending chunk
      then store pending chunk (get_elem? pending.chunks chunk.chunk_index)
      else (err metadata_changed, keep allow_zstd pending)

  abbrev pub push_checked :
      Option PendingTransfer → TransferChunk → Result TransferError PendingTransfer → Pushed
  push_checked before chunk (ok pending) = receive_chunk pending chunk
  push_checked before chunk (err e) = (err e, record { pending = before; allow_zstd = allow_zstd })
  push_checked before chunk panic = (panic, record { pending = before; allow_zstd = allow_zstd })

-- `TransferAssembler::push`.
unfoldable pub push : Codecs → ℕ → TransferChunk → TransferAssembler → Pushed
push codecs maximum_size chunk a =
    push_checked codecs a.allow_zstd maximum_size a.pending chunk
      (do check_chunk chunk a.allow_zstd maximum_size; pending_for chunk a.pending)
