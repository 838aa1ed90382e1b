-- ===== src/Streaming/Generations.antt =====
-- src/terminal_streaming.rs: the maps of states by generation (`BTreeMap<u64, State>`), as lists of their
-- entries in the order of the generations.
use Prim.Native.Nat.{compare, Ordering}
use astra_shell.Prelude.{
  ℕ, zero, suc, List, [], ◌∷◌, ◌==◌, ltb, leb, if◌then◌else◌, Option, none, some, length,
}
use astra_shell.Terminal.State.{State}

abbrev pub States : Type 0
States = List (ℕ × State)

unfoldable pub get : ℕ → States → Option State
get generation [] = none
get generation ((k, s) ∷ states) = if k == generation then some s else get generation states

unfoldable pub insert : ℕ → State → States → States
insert generation state [] = (generation, state) ∷ []
insert generation state ((k, s) ∷ states) = elim (compare generation k) [
  | Ordering.lt ↦ (generation, state) ∷ (k, s) ∷ states
  | Ordering.eq ↦ (generation, state) ∷ states
  | Ordering.gt ↦ (k, s) ∷ insert generation state states
]

-- `retain(|generation, _| *generation >= bound)`.
unfoldable pub retain_from : ℕ → States → States
retain_from bound [] = []
retain_from bound ((k, s) ∷ states) =
    let rest = retain_from bound states in if leb bound k then (k, s) ∷ rest else rest

-- The entry that is removed next: the oldest one, but not the one of the generation `kept`. A loop ends when
-- there is none.
abbrev pub without_next : ℕ × State → States → Option States
without_next first [] = none
without_next first (next ∷ states) = some (first ∷ states)

unfoldable pub evict : ℕ → States → Option States
evict kept [] = none
evict kept ((k, s) ∷ states) = if k == kept then without_next (k, s) states else some states

-- `while states.len() > limit`, with as many rounds as there are entries.
abbrev pub evicted_or : States → (States → States) → Option States → States
evicted_or states next none = states
evicted_or states next (some fewer) = next fewer

unfoldable pub trim : ℕ → ℕ → ℕ → States → States
trim zero limit kept states = states
trim (suc fuel) limit kept states =
    let next : States → States = λ fewer. trim fuel limit kept fewer in
    if ltb limit (length states) then evicted_or states next (evict kept states) else states

unfoldable pub remember_in : ℕ → ℕ → State → States → States
remember_in limit kept state states =
    let more : States = insert state.generation state states in trim (length more) limit kept more
