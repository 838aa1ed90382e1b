-- ===== src/Streaming/Kept.antt =====
-- src/terminal_streaming.rs: what the maps of states keep, and within which limit.
use Prim.Native.Nat.{compare, Ordering}
use astra_shell.Prelude.{
  ℕ, zero, suc, ◌≡◌, refl, sym, subst, ap, ◌∙◌, [], ◌∷◌, ltb, leb, ◌==◌, Option, none, some, length,
  arith, Bool-cases, Option-cases, inl, inr,
}
use astra_shell.Terminal.State.{State}
use astra_shell.Streaming.Generations.{States, get, insert, retain_from, evict, trim, remember_in}
use astra_shell.Streaming.Replica.{
  is_pinned, behind, without_removable, trim_retained, remember_retained,
}

abbrev pub IfSome : (State → Type 0) → Option State → Type 0
IfSome K none = Unit {0}
IfSome K (some s) = K s

-- Every entry stands under its generation, and satisfies `K`.
module _ (K : State → Type 0) where
  abbrev pub AllKept : States → Type 0
  AllKept [] = Unit {0}
  AllKept ((k, s) ∷ states) = ((s.generation ≡ k) × K s) × AllKept states

  abbrev pub IfKept : Option States → Type 0
  IfKept none = Unit {0}
  IfKept (some states) = AllKept states

  pub get-AllKept :
      (generation : ℕ) (states : States) (s : State)
      → AllKept states
      → get generation states ≡ some s
      → (s.generation ≡ generation) × K s
  unfolding get
  get-AllKept generation [] s all h = cc
  get-AllKept generation ((k, t) ∷ states) s ((numbered, kept), all) h =
      elim (Bool-cases (k == generation)) [
        | inl same ↦
            let t_s : t ≡ s = ground arith in
            let k_g : k ≡ generation = ground arith in
            (sym (ap State.generation t_s) ∙ numbered ∙ k_g, subst K t_s kept)
        | inr other ↦ get-AllKept generation states s all (rw other at h)
      ]

  pub insert-AllKept :
      (generation : ℕ) (s : State) (states : States)
      → s.generation ≡ generation
      → K s
      → AllKept states
      → AllKept (insert generation s states)
  unfolding insert
  insert-AllKept generation s [] numbered kept all = ((numbered, kept), tt)
  insert-AllKept generation s ((k, t) ∷ states) numbered kept (first, all) =
      elim (compare generation k)
        as (λ o. AllKept (elim o [
          | Ordering.lt ↦ (generation, s) ∷ (k, t) ∷ states
          | Ordering.eq ↦ (generation, s) ∷ states
          | Ordering.gt ↦ (k, t) ∷ insert generation s states
        ])) [
          | Ordering.lt ↦ ((numbered, kept), (first, all))
          | Ordering.eq ↦ ((numbered, kept), all)
          | Ordering.gt ↦ (first, insert-AllKept generation s states numbered kept all)
        ]

  pub retain_from-AllKept :
      (bound : ℕ) (states : States) → AllKept states → AllKept (retain_from bound states)
  unfolding retain_from
  retain_from-AllKept bound [] all = tt
  retain_from-AllKept bound ((k, s) ∷ states) (first, all) = elim (Bool-cases (leb bound k)) [
    | inl within ↦ rw within (first, retain_from-AllKept bound states all)
    | inr below ↦ rw below (retain_from-AllKept bound states all)
  ]

  evict-IfKept : (kept : ℕ) (states : States) → AllKept states → IfKept (evict kept states)
  unfolding evict
  evict-IfKept kept [] all = tt
  evict-IfKept kept ((k, s) ∷ []) (first, all) = elim (Bool-cases (k == kept)) [
    | inl same ↦ rw same tt
    | inr other ↦ rw other tt
  ]
  evict-IfKept kept ((k, s) ∷ (j, t) ∷ states) (first, (second, all)) =
      elim (Bool-cases (k == kept)) [
        | inl same ↦ rw same (first, all)
        | inr other ↦ rw other (second, all)
      ]

  trim-AllKept :
      (fuel limit kept : ℕ) (states : States)
      → AllKept states
      → AllKept (trim fuel limit kept states)
  unfolding trim
  trim-AllKept zero limit kept states all = all
  trim-AllKept (suc fuel) limit kept states all = elim (Bool-cases (ltb limit (length states))) [
    | inr within ↦ rw within all
    | inl over ↦ elim (Option-cases (evict kept states)) [
      | inl stuck ↦ rw (over, stuck) all
      | inr (fewer, next) ↦
          let rest : AllKept fewer = subst IfKept next (evict-IfKept kept states all) in
          rw (over, next) (trim-AllKept fuel limit kept fewer rest)
    ]
  ]

  pub remember_in-AllKept :
      (limit kept : ℕ) (s : State) (states : States)
      → K s
      → AllKept states
      → AllKept (remember_in limit kept s states)
  unfolding remember_in
  remember_in-AllKept limit kept s states k all =
      let more : States = insert s.generation s states in
      trim-AllKept (length more) limit kept more (insert-AllKept s.generation s states refl k all)

  behind-IfKept :
      (k : ℕ) (s : State) (rest : Option States)
      → (s.generation ≡ k) × K s
      → IfKept rest
      → IfKept (behind (k, s) rest)
  behind-IfKept k s none first all = tt
  behind-IfKept k s (some states) first all = (first, all)

  without_removable-IfKept :
      (pinned : Option ℕ) (states : States)
      → AllKept states
      → IfKept (without_removable pinned states)
  unfolding without_removable
  without_removable-IfKept pinned [] all = tt
  without_removable-IfKept pinned ((k, s) ∷ states) (first, all) =
      elim (Bool-cases (is_pinned k pinned)) [
        | inl same ↦ rw same (
            behind-IfKept k s (without_removable pinned states) first
              (without_removable-IfKept pinned states all))
        | inr other ↦ rw other all
      ]

  trim_retained-AllKept :
      (fuel limit : ℕ) (pinned : Option ℕ) (states : States)
      → AllKept states
      → AllKept (trim_retained fuel limit pinned states)
  unfolding trim_retained
  trim_retained-AllKept zero limit pinned states all = all
  trim_retained-AllKept (suc fuel) limit pinned states all =
      elim (Bool-cases (ltb limit (length states))) [
        | inr within ↦ rw within all
        | inl over ↦ elim (Option-cases (without_removable pinned states)) [
          | inl stuck ↦ rw (over, stuck) all
          | inr (fewer, next) ↦
              let rest : AllKept fewer =
                subst IfKept next (without_removable-IfKept pinned states all) in
              rw (over, next) (trim_retained-AllKept fuel limit pinned fewer rest)
        ]
      ]

  pub remember_retained-AllKept :
      (s : State) (pinned : Option ℕ) (limit : ℕ) (states : States)
      → K s
      → AllKept states
      → AllKept (remember_retained s pinned limit states)
  unfolding remember_retained
  remember_retained-AllKept s pinned limit states k all =
      let more : States = insert s.generation s states in
      trim_retained-AllKept (length more) limit pinned more
        (insert-AllKept s.generation s states refl k all)

pub AllKept-weaken :
    (K L : State → Type 0) (more : (s : State) → K s → L s) (states : States)
    → AllKept K states
    → AllKept L states
AllKept-weaken K L more [] all = tt
AllKept-weaken K L more ((k, s) ∷ states) ((numbered, kept), all) =
    ((numbered, more s kept), AllKept-weaken K L more states all)

pub IfSome-weaken :
    (K L : State → Type 0) (more : (s : State) → K s → L s) (o : Option State)
    → IfSome K o
    → IfSome L o
IfSome-weaken K L more none kept = tt
IfSome-weaken K L more (some s) kept = more s kept
