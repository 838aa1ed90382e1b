-- ===== src/Transfer/Complete.antt =====
-- src/terminal_streaming.rs: the chunks of one transfer, received by an assembler.
use Prim.Native.Nat.{◌+◌, ◌^◌}
use astra_shell.Prelude.{
  Among, ℕ, ◌≡◌, ◌≤◌, ◌<◌, ◌⊎◌, inl, inr, refl, sym, List, [], ◌∷◌, Bool, ◌==◌, if◌then◌else◌, none,
  some, length, get_elem?, set, arith, get_elem?-set_self, Bool-cases, not, le→leb,
}
use astra_shell.Prelude.Result.{ok}
use astra_shell.Prelude.Bytes.{bytes_eq_refl}
use astra_shell.Prelude.U64
use astra_shell.Payload.Encoded.{Codecs}
use astra_shell.Transfer.Assembler.{
  empty_chunks, check_chunk, pending_for, Pushed, keep, finish, receive_chunk, push,
}
use astra_shell.Transfer.Progress.{
  Chunks, whole, Fills, filled, filled_size, FilledAt, Fills-length, Fills-empty_chunks,
  filled-empty_chunks, Fills-set, Fills-get_elem?, filled-set, filled-le-length,
  filled_size-le-whole, concat_chunks-filled, FilledAt-filled, FilledAt-set,
}
use astra_shell.Transfer.Sender.{
  Transfer, piece_at, chunk_of, after, assembled, Within, decoded, Admissible, pending_of,
  count_eq_refl, lt→ltb, piece_at-get_elem?, started-pending_of, same_metadata-pending_of,
  after-some,
}

module _ (codecs : Codecs) (maximum_size : ℕ) (allow_zstd : Bool) (t : Transfer) where
  check_chunk-chunk_of :
      (i : ℕ)
      → Admissible maximum_size allow_zstd t
      → i < length t.pieces
      → check_chunk (chunk_of t i) allow_zstd maximum_size ≡ ok tt
  unfolding check_chunk
  check_chunk-chunk_of i ad l =
      ground
        (arith, ad.id_size, ad.digest_size, ad.has_pieces, ad.few_pieces, ad.bounded, ad.header)

  -- One chunk, when these places are filled.
  received : Chunks → ℕ → Pushed
  received cs i = receive_chunk codecs allow_zstd maximum_size (pending_of t cs) (chunk_of t i)

  received-again :
      (cs : Chunks) (i : ℕ)
      → Fills t.pieces cs
      → get_elem? cs i ≡ some (some (piece_at t.pieces i))
      → received cs i ≡ (ok none, keep allow_zstd (pending_of t cs))
  unfolding received
  received-again cs i f e =
      simp (same_metadata-pending_of t cs i f, e, bytes_eq_refl (piece_at t.pieces i))

  finish-pending_of :
      (cs : Chunks)
      → Fills t.pieces cs
      → filled cs ≡ length cs
      → finish codecs allow_zstd maximum_size (pending_of t cs)
        ≡ decoded codecs allow_zstd maximum_size t
  unfolding finish
  finish-pending_of cs f n =
      let joined = concat_chunks-filled t.pieces cs f n in
      rw (joined, count_eq_refl (length (whole t.pieces))) refl

  -- The next piece, at its empty place.
  placed : Chunks → ℕ → Chunks
  placed cs i = set cs i (some (piece_at t.pieces i))

  size-fits :
      (cs : Chunks) (i : ℕ)
      → Fills t.pieces cs
      → i < length t.pieces
      → get_elem? cs i ≡ some none
      → (filled_size cs + length (piece_at t.pieces i) ≡ filled_size (placed cs i))
        × (filled_size (placed cs i) ≤ length (whole t.pieces))
        × (filled cs + 1 ≡ filled (placed cs i))
  unfolding placed
  size-fits cs i f l e =
      let piece = piece_at t.pieces i in
      let (n, s) = filled-set cs i piece e in
      (
        sym s,
        filled_size-le-whole t.pieces _
            (Fills-set t.pieces cs i piece f (piece_at-get_elem? t.pieces i l)),
        sym n,
      )

  received-placed :
      (cs : Chunks) (i : ℕ)
      → Fills t.pieces cs
      → i < length t.pieces
      → length (whole t.pieces) < 2 ^ 32
      → get_elem? cs i ≡ some none
      → received cs i ≡ (
          if not (filled (placed cs i) == length (placed cs i))
          then (ok none, keep allow_zstd (pending_of t (placed cs i)))
          else (
            finish codecs allow_zstd maximum_size (pending_of t (placed cs i)),
            record { pending = none; allow_zstd = allow_zstd },
          ))
  unfolding received placed U64.checked_add
  received-placed cs i f l word e =
      let (size, le, count) = size-fits cs i f l e in
      simp (
        same_metadata-pending_of t cs i f,
        e,
        size,
        count,
        le→leb _ _ le,
        lt→ltb (filled_size (placed cs i)) (2 ^ 64) (omega arith),
      )

  push-received :
      (cs : Chunks) (i : ℕ)
      → Admissible maximum_size allow_zstd t
      → i < length t.pieces
      → push codecs maximum_size (chunk_of t i) (keep allow_zstd (pending_of t cs)) ≡ received cs i
  unfolding push received pending_for
  push-received cs i ad l = simp (check_chunk-chunk_of i ad l, bytes_eq_refl t.transfer_id)

  push-started :
      Admissible maximum_size allow_zstd t
      → push codecs maximum_size (chunk_of t 0) (record { pending = none; allow_zstd = allow_zstd })
        ≡ received (empty_chunks (length t.pieces)) 0
  unfolding push received pending_for
  push-started ad = simp (check_chunk-chunk_of 0 ad ad.has_pieces, started-pending_of t)

  -- Every piece stands at its place, or its chunk is still to come.
  Coming : Chunks → List ℕ → Type 0
  Coming cs order = (j : ℕ) → j < length t.pieces → FilledAt cs j ⊎ Among j order

  Finishes : Chunks → List ℕ → Type 0
  Finishes cs order =
      Fills t.pieces cs
      → Within (length t.pieces) order
      → Coming cs order
      → filled cs < length cs
      → assembled codecs maximum_size t order (keep allow_zstd (pending_of t cs))
        ≡ decoded codecs allow_zstd maximum_size t

  Coming-again :
      (cs : Chunks) (i : ℕ) (is : List ℕ) → FilledAt cs i → Coming cs (i ∷ is) → Coming cs is
  unfolding Coming
  Coming-again cs i is here coming j l = elim (coming j l) [
    | inl at_ ↦ inl at_
    | inr (inl same) ↦ inl (rw same here)
    | inr (inr later) ↦ inr later
  ]

  Coming-placed :
      (cs : Chunks) (i : ℕ) (is : List ℕ)
      → get_elem? cs i ≡ some none
      → Coming cs (i ∷ is)
      → Coming (placed cs i) is
  unfolding Coming placed
  Coming-placed cs i is e coming j l = elim (coming j l) [
    | inl at_ ↦ inl (FilledAt-set cs i j (piece_at t.pieces i) at_)
    | inr (inl same) ↦ inl (piece_at t.pieces i, rw same (get_elem?-set_self cs i _ none e))
    | inr (inr later) ↦ inr later
  ]

  received-Finishes :
      (cs : Chunks) (i : ℕ) (is : List ℕ)
      → Admissible maximum_size allow_zstd t
      → ((cs' : Chunks) → Finishes cs' is)
      → Fills t.pieces cs
      → Within (length t.pieces) (i ∷ is)
      → Coming cs (i ∷ is)
      → filled cs < length cs
      → after (received cs i) (assembled codecs maximum_size t is)
        ≡ decoded codecs allow_zstd maximum_size t
  unfolding Finishes placed
  received-Finishes cs i is ad rest f (l, ls) coming few =
      let piece = piece_at-get_elem? t.pieces i l in
      let word : length (whole t.pieces) < 2 ^ 32 = ad.word in
      elim (Fills-get_elem? t.pieces cs i (piece_at t.pieces i) f piece) [
        | inr here ↦
            rw (received-again cs i f here)
              (rest cs f ls (Coming-again cs i is (_, here) coming) few)
        | inl empty ↦
            let f' : Fills t.pieces (placed cs i) =
              Fills-set t.pieces cs i (piece_at t.pieces i) f piece in
            rw (received-placed cs i f l word empty)
              (elim (Bool-cases (filled (placed cs i) == length (placed cs i))) [
                | inl full ↦
                    rw (full, finish-pending_of (placed cs i) f' (ground arith)) (after-some _ _ _)
                | inr more ↦ rw more (
                    rest (placed cs i) f' ls (Coming-placed cs i is empty coming)
                      (ground (arith, filled-le-length (placed cs i))))
              ])
      ]

  Finishes-all :
      Admissible maximum_size allow_zstd t → (order : List ℕ) (cs : Chunks) → Finishes cs order
  unfolding Finishes Coming assembled
  Finishes-all ad [] cs f ls coming few =
      let at_ : (j : ℕ) → j < length cs → FilledAt cs j = λ j l.
        elim (coming j (omega (arith, Fills-length t.pieces cs f))) [
          | inl there ↦ there
          | inr later ↦ absurd later
        ] in
      absurd (omega (arith, FilledAt-filled cs at_))
  Finishes-all ad (i ∷ is) cs f ls coming few =
      rw (push-received cs i ad ls.0)
        (received-Finishes cs i is ad (Finishes-all ad is) f ls coming few)

  -- Chunks of one admissible transfer, its first chunk first and then in any order and with repetitions,
  -- among which each piece occurs, end with the transfer's bytes decoded, or the decoder's error.
  pub assembled-decoded :
      (order : List ℕ)
      → Admissible maximum_size allow_zstd t
      → Within (length t.pieces) order
      → ((j : ℕ) → j < length t.pieces → Among j (0 ∷ order))
      → assembled codecs maximum_size t
          (0 ∷ order)
          (record { pending = none; allow_zstd = allow_zstd })
        ≡ decoded codecs allow_zstd maximum_size t
  unfolding assembled Coming
  assembled-decoded order ad ls all =
      let cs = empty_chunks (length t.pieces) in
      let f = Fills-empty_chunks t.pieces in
      let (n, s) = filled-empty_chunks (length t.pieces) in
      rw (push-started ad) (
        received-Finishes cs 0 order ad (Finishes-all ad order) f (ad.has_pieces, ls)
          (λ j l. inr (all j l)) (omega (arith, Fills-length t.pieces cs f, ad.has_pieces)))
