-- ===== src/Streaming/Limits.antt =====
-- src/terminal_streaming.rs: the states that a window retains.
use Prim.Native.Nat.{◌+◌}
use astra_shell.Prelude.{
  ℕ, zero, suc, ◌≡◌, ◌≤◌, ◌<◌, refl, [], ◌∷◌, ltb, ◌==◌, some, length, arith, Bool-cases, inl, inr,
}
use astra_shell.Terminal.State.{State}
use astra_shell.Streaming.Generations.{States, insert, evict, trim, remember_in}
use astra_shell.Streaming.Window.{StreamingStateWindow, remember}

-- From two entries on, one is evicted.
evict_one :
    (kept : ℕ) (states : States)
    → 1 < length states
    → (fewer : States) × (evict kept states ≡ some fewer) × (suc (length fewer) ≡ length states)
unfolding evict
evict_one kept [] h = absurd (omega arith)
evict_one kept ((k, s) ∷ []) h = absurd (omega arith)
evict_one kept ((k, s) ∷ (j, t) ∷ states) h = elim (Bool-cases (k == kept)) [
  | inl same ↦ ((k, s) ∷ states, rw same refl, refl)
  | inr other ↦ ((j, t) ∷ states, rw other refl, refl)
]

length-trim :
    (fuel limit kept : ℕ) (states : States)
    → 0 < limit
    → length states ≤ fuel + limit
    → length (trim fuel limit kept states) ≤ limit
unfolding trim
length-trim zero limit kept states positive h = omega arith
length-trim (suc fuel) limit kept states positive h =
    elim (Bool-cases (ltb limit (length states))) [
      | inr within ↦ rw within (ground arith)
      | inl over ↦
          let (fewer, evicted, count) = evict_one kept states (ground arith) in
          rw (over, evicted) (length-trim fuel limit kept fewer positive (omega arith))
    ]

-- A window that remembers a state retains at most as many states as its limit, so that its loop, with one
-- round for each entry, has come to its end.
pub length-remember :
    (s : State) (w : StreamingStateWindow)
    → 0 < w.retained_generations
    → length (remember s w).sent ≤ w.retained_generations
unfolding remember remember_in
length-remember s w positive =
    let more : States = insert s.generation s w.sent in
    length-trim (length more) w.retained_generations w.base.generation more positive (omega arith)
