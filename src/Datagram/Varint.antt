-- ===== src/Datagram/Varint.antt =====
-- src/terminal_datagram_v3.rs: `varint_len` and the groups of seven bits.
use Prim.Native.Nat.{◌+◌, ◌-◌, ◌*◌, ◌/◌, ◌^◌}
use native.Mathlib.Nat.{pow-succ'}
use astra_shell.Prelude.{
  ℕ, zero, suc, ◌≡◌, ◌≤◌, ◌<◌, refl, leb, leb→le, Bool-cases, inl, inr, arith,
}
use astra_shell.Datagram.Message.{varint_loop, varint_len}

-- What the loop adds to its count: one less than the number of groups.
abbrev Groups : ℕ → ℕ → Type 0
Groups value more = (value < 128 ^ (more + 1)) × (1 ≤ more → 128 ^ more ≤ value)

pow_next : (n : ℕ) → 128 ^ (n + 1) ≡ 128 * 128 ^ n
pow_next n = let e : n + 1 ≡ suc n = omega arith in rw e (pow-succ' 128 n)

pow_first : (n : ℕ) → n ≡ 0 → 128 ^ n ≡ 1
pow_first n e = rw e refl

Groups-suc : (value more : ℕ) → 128 ≤ value → Groups (value / 128) more → Groups value (more + 1)
Groups-suc value more large (below, above) = (
  omega (arith, below, pow_next (more + 1)),
  λ l. elim (Bool-cases (leb 1 more)) [
    | inl again ↦
        let part : 128 ^ more ≤ value / 128 = above (leb→le 1 more again) in
        omega (arith, pow_next more)
    | inr first ↦
        let one_group : 128 ^ more ≡ 1 = pow_first more (ground arith) in
        omega (arith, pow_next more)
  ],
)

varint_loop-Groups :
    (fuel value bytes : ℕ)
    → value ≤ fuel
    → (more : ℕ) × (varint_loop fuel value bytes ≡ bytes + more) × Groups value more
unfolding varint_loop
varint_loop-Groups zero value bytes l = (0, omega arith, (omega arith, λ h. absurd (omega arith)))
varint_loop-Groups (suc fuel) value bytes l = elim (Bool-cases (leb 128 value)) [
  | inr small ↦ (0, rw small (omega arith), (ground arith, λ h. absurd (omega arith)))
  | inl large ↦
      let big : 128 ≤ value = ground arith in
      let (more, e, g) = varint_loop-Groups fuel (value / 128) (bytes + 1) (omega arith) in
      (more + 1, rw large (omega arith), Groups-suc value more big g)
]

Groups-counted :
    (value more n : ℕ)
    → n ≡ 1 + more
    → Groups value more
    → (value < 128 ^ n) × (2 ≤ n → 128 ^ (n - 1) ≤ value)
Groups-counted value more n e (below, above) =
    let next : n ≡ more + 1 = omega arith in
    let last : n - 1 ≡ more = omega arith in (rw next below, λ l. rw last (above (omega arith)))

-- A length is printed in that many groups of seven bits, and in no fewer.
pub varint_len-groups :
    (value : ℕ)
    → (value < 128 ^ varint_len value)
      × (2 ≤ varint_len value → 128 ^ (varint_len value - 1) ≤ value)
varint_len-groups value =
    let (more, e, g) = varint_loop-Groups value value 1 (omega arith) in
    Groups-counted value more (varint_len value) e g
