-- ===== src/Transfer/Sender.antt =====
-- src/terminal_streaming.rs: a transfer as its sender cuts it, and what an assembler makes of its chunks.
use Prim.Native.Nat.{◌^◌}
use astra_shell.Prelude.{
  ℕ, ◌≡◌, ◌≤◌, ◌<◌, refl, zero, suc, List, [], ◌∷◌, Bool, true, ltb, ◌==◌, Option, none, some,
  length, get_elem?, arith,
}
use astra_shell.Prelude.Int.{int_eq_refl, ℤ}
use astra_shell.Prelude.Result.{Result, ok, err, panic, ◌>>=◌}
use astra_shell.Prelude.Bytes.{bytes_eq_refl}
use astra_shell.Payload.Encoded.{PayloadError, Codecs, validate_header, decode}
use astra_shell.Transfer.Assembler.{
  TransferChunk, PendingTransfer, TransferAssembler, TransferError, lifted, empty_chunks, started,
  same_metadata, Pushed, push,
}
use astra_shell.Transfer.Progress.{
  Chunks, Pieces, whole, Fills, filled, filled_size, Fills-length, filled-empty_chunks,
}

pub count_eq_refl : (n : ℕ) → (n == n) ≡ true
count_eq_refl n = ground arith

pub lt→ltb : (a b : ℕ) → a < b → ltb a b ≡ true
lt→ltb a b l = ground arith

-- A transfer as its sender cuts it, and what a chunk of it says.
pub record Transfer : Type 0 where
  pub transfer_id : List ℕ
  pub sha256 : List ℕ
  pub pieces : Pieces
  pub encoding : ℤ
  pub uncompressed_size : ℕ

abbrev pub piece_at : Pieces → ℕ → List ℕ
piece_at [] i = []
piece_at (x ∷ xs) zero = x
piece_at (x ∷ xs) (suc i) = piece_at xs i

pub piece_at-get_elem? :
    (xs : Pieces) (i : ℕ) → i < length xs → get_elem? xs i ≡ some (piece_at xs i)
piece_at-get_elem? [] i l = absurd (omega arith)
piece_at-get_elem? (x ∷ xs) zero l = refl
piece_at-get_elem? (x ∷ xs) (suc i) l = piece_at-get_elem? xs i (omega arith)

abbrev pub chunk_of : Transfer → ℕ → TransferChunk
chunk_of t i = record {
  transfer_id = t.transfer_id;
  chunk_index = i;
  chunk_count = length t.pieces;
  total_size = length (whole t.pieces);
  sha256 = t.sha256;
  payload = piece_at t.pieces i;
  encoding = t.encoding;
  uncompressed_size = t.uncompressed_size;
}

-- What the assembler gives for the chunks of these indices: the first outcome that is not "more to come".
abbrev pub after :
    Pushed
    → (TransferAssembler → Result TransferError (Option (List ℕ)))
    → Result TransferError (Option (List ℕ))
after (ok none, a) next = next a
after (ok (some bytes), a) next = ok (some bytes)
after (err e, a) next = err e
after (panic, a) next = panic

unfoldable pub assembled :
    Codecs → ℕ → Transfer → List ℕ → TransferAssembler → Result TransferError (Option (List ℕ))
assembled codecs maximum_size t [] = λ a. ok none
assembled codecs maximum_size t (i ∷ is) =
    λ a. after (push codecs maximum_size (chunk_of t i) a) (assembled codecs maximum_size t is)

abbrev pub Within : ℕ → List ℕ → Type 0
Within n [] = Unit {0}
Within n (i ∷ is) = (i < n) × Within n is

-- The transfer's bytes as `decode` returns them.
abbrev pub decoded : Codecs → Bool → ℕ → Transfer → Result TransferError (Option (List ℕ))
decoded codecs allow_zstd maximum_size t =
    lifted (
      decode codecs
        (record {
          payload = whole t.pieces;
          encoding = t.encoding;
          uncompressed_size = t.uncompressed_size;
        })
        allow_zstd maximum_size t.sha256)
    >>= λ bytes. ok (some bytes)

-- A transfer that the assembler may receive: every chunk of it passes the checks of a chunk.
pub record Admissible (maximum_size : ℕ) (allow_zstd : Bool) (t : Transfer) : Type 0 where
  pub id_size : length t.transfer_id ≡ 16
  pub digest_size : length t.sha256 ≡ 32
  pub has_pieces : 1 ≤ length t.pieces
  pub few_pieces : length t.pieces ≤ 4096
  pub bounded : length (whole t.pieces) ≤ maximum_size
  pub word : length (whole t.pieces) < 2 ^ 32
  pub header :
      validate_header t.encoding t.uncompressed_size
        (length (whole t.pieces))
        allow_zstd
        maximum_size
      ≡ ok tt

-- The pending transfer when these places are filled.
abbrev pub pending_of : Transfer → Chunks → PendingTransfer
pending_of t cs = record {
  transfer_id = t.transfer_id;
  total_size = length (whole t.pieces);
  sha256 = t.sha256;
  chunks = cs;
  received_size = filled_size cs;
  received_chunks = filled cs;
  encoding = t.encoding;
  uncompressed_size = t.uncompressed_size;
}

pub started-pending_of :
    (t : Transfer) → started (chunk_of t 0) ≡ pending_of t (empty_chunks (length t.pieces))
started-pending_of t = let (n, s) = filled-empty_chunks (length t.pieces) in simp (n, s)

pub same_metadata-pending_of :
    (t : Transfer) (cs : Chunks) (i : ℕ)
    → Fills t.pieces cs
    → same_metadata (pending_of t cs) (chunk_of t i) ≡ true
same_metadata-pending_of t cs i f = ground (
  arith,
  bytes_eq_refl t.transfer_id,
  bytes_eq_refl t.sha256,
  int_eq_refl t.encoding,
  Fills-length t.pieces cs f,
)

pub after-some :
    (r : Result PayloadError (List ℕ)) (a : TransferAssembler)
    (next : TransferAssembler → Result TransferError (Option (List ℕ)))
    → after (lifted r >>= λ bytes. ok (some bytes), a) next
      ≡ (lifted r >>= λ bytes. ok (some bytes))
after-some (ok bytes) a next = refl
after-some (err e) a next = refl
after-some panic a next = refl
