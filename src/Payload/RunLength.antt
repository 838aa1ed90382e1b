-- ===== src/Payload/RunLength.antt =====
-- A stand-in for zstd at which the theorems are tried: it compresses runs of zeros only, to the magic
-- number and the length.
use astra_shell.Prelude.{
  ℕ, ◌≡◌, ◌≤◌, refl, ap, zero, suc, List, [], ◌∷◌, Bool, true, ◌&&◌, ◌==◌, if◌then◌else◌, Option,
  none, some, length, arith, inl, inr, Bool-cases,
}
use astra_shell.Payload.Encoded.{Codecs, zstd_magic, has_prefix}

abbrev pub zeros : ℕ → List ℕ
zeros zero = []
zeros (suc n) = 0 ∷ zeros n

abbrev pub all_zero : List ℕ → Bool
all_zero [] = true
all_zero (b ∷ bytes) = b == 0 && all_zero bytes

zeros-length : (bytes : List ℕ) → all_zero bytes ≡ true → zeros (length bytes) ≡ bytes
zeros-length [] h = refl
zeros-length (b ∷ bytes) h = ground (arith, zeros-length bytes)

abbrev pub run_length : List ℕ → Option (List ℕ)
run_length bytes =
    if all_zero bytes then some (0x28 ∷ 0xb5 ∷ 0x2f ∷ 0xfd ∷ length bytes ∷ []) else none

abbrev pub expand : List ℕ → ℕ → Option (List ℕ × List ℕ)
expand (a ∷ b ∷ c ∷ d ∷ n ∷ []) limit = some (zeros n, [])
expand _ limit = none

pub run_length-magic :
    (bytes frame : List ℕ) → run_length bytes ≡ some frame → has_prefix zstd_magic frame ≡ true
unfolding has_prefix
run_length-magic bytes frame h = ground arith

pub expand-run_length :
    (bytes frame : List ℕ) (limit : ℕ)
    → run_length bytes ≡ some frame
    → length bytes ≤ limit
    → expand frame limit ≡ some (bytes, [])
expand-run_length bytes frame limit h l = elim (Bool-cases (all_zero bytes)) [
  | inl zeros_only ↦
      let same : frame ≡ 0x28 ∷ 0xb5 ∷ 0x2f ∷ 0xfd ∷ length bytes ∷ [] = ground arith in
      rw same (ap (λ bs. some (bs, [])) (zeros-length bytes zeros_only))
  | inr other ↦ absurd (ground arith)
]

abbrev pub plain : Codecs
plain = record {
  compress = run_length;
  decompress = expand;
  sha256 = λ bytes. zeros 32;
  compress-magic = run_length-magic;
  decompress-compress = expand-run_length;
  length-sha256 = λ bytes. refl;
}
