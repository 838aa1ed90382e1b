-- ===== src/Transfer/Tests.antt =====
-- The theorems at a transfer of three pieces.
use astra_shell.Prelude.{Among, ℕ, ◌≡◌, ◌<◌, refl, inl, inr, [], ◌∷◌, true, none, zero, suc, arith}
use astra_shell.Prelude.Int.{pos}
use astra_shell.Payload.Encoded.{validate_header}
use astra_shell.Payload.RunLength.{zeros, plain}
use astra_shell.Transfer.Sender.{Transfer, assembled, decoded, Admissible}
use astra_shell.Transfer.Complete.{assembled-decoded}

abbrev three : Transfer
three = record {
  transfer_id = zeros 16;
  sha256 = zeros 32;
  pieces = (1 ∷ 2 ∷ []) ∷ (3 ∷ []) ∷ (4 ∷ 5 ∷ []) ∷ [];
  encoding = pos 0;
  uncompressed_size = 0;
}

three-Admissible : Admissible 1000 true three
unfolding validate_header
three-Admissible = record {
  id_size = refl;
  digest_size = refl;
  has_pieces = omega arith;
  few_pieces = omega arith;
  bounded = omega arith;
  word = omega arith;
  header = refl;
}

covers_all : (j : ℕ) → j < 3 → Among j (0 ∷ 2 ∷ 0 ∷ 1 ∷ [])
covers_all zero l = inl refl
covers_all (suc zero) l = inr (inr (inr (inl refl)))
covers_all (suc (suc zero)) l = inr (inl refl)
covers_all (suc (suc (suc j))) l = absurd (omega arith)

assembled_example :
    assembled plain 1000 three (0 ∷ 2 ∷ 0 ∷ 1 ∷ []) (record { pending = none; allow_zstd = true })
    ≡ decoded plain true 1000 three
assembled_example =
    assembled-decoded plain 1000 true three (2 ∷ 0 ∷ 1 ∷ []) three-Admissible
      (omega arith, (omega arith, (omega arith, tt))) covers_all
