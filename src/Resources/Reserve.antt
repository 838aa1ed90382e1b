-- ===== src/Resources/Reserve.antt =====
-- src/resources.rs: what `ResourcePool::reserve` and the drop of a reservation compute.
use astra_shell.Prelude.{
  sym, ◌∙◌, true, ℕ, ◌<◌, ◌≤◌, ltb, false, List, [], ◌∷◌, ◌≡◌, refl, ◌⊎◌, inl, inr, Bool-cases, ◌≢◌,
  some, arith, Option-cases, String,
}
use astra_shell.Prelude.Result.{Result, ok, err, panic, ◌>>◌, Result-cases}
use astra_shell.Resources.Claim.{ResourceClaim, dimensions, value, checked_add}
use astra_shell.Resources.ClaimLaws.{
  add, FitsIn, greatest, FitsIn-trans, checked_add-eq-add, checked_add-fits, checked_add-FitsIn,
  checked_sub-add,
}
use astra_shell.Resources.Limits.{as_claim}
use astra_shell.Resources.Pool.{
  ResourcePool, QuotaExceeded, check_limits, counter_exceeded, reserve, release,
}

not_ltb : {a b : ℕ} → a ≤ b → ltb b a ≡ false
not_ltb h = ground arith

check_limits-FitsIn :
    (s : String) (u n l c : ResourceClaim)
    → check_limits s u n l (dimensions c) ≡ ok tt
    → FitsIn n l
unfolding check_limits dimensions value
check_limits-FitsIn s u n l c h = ground arith

check_limits-ok :
    (s : String) (u n l c : ResourceClaim)
    → FitsIn n l
    → check_limits s u n l (dimensions c) ≡ ok tt
unfolding check_limits dimensions value
check_limits-ok s u n l c h = simp (
  not_ltb h.connections,
  not_ltb h.streams,
  not_ltb h.workers,
  not_ltb h.terminals,
  not_ltb h.attachments,
  not_ltb h.terminal_memory_bytes,
  not_ltb h.history_bytes,
  not_ltb h.forward_connections,
  not_ltb h.forward_buffer_bytes,
  not_ltb h.file_handles,
  not_ltb h.uploads,
  not_ltb h.upload_bytes,
)

-- The report names a dimension of the claim that does not fit, with the three numbers of that dimension.
pub record Reports (s : String) (u n l c : ResourceClaim) (q : QuotaExceeded) : Type 0 where
  pub scope : q.scope ≡ s
  pub requested : value c q.resource ≡ some q.requested
  pub current : value u q.resource ≡ some q.current
  pub limit : value l q.resource ≡ some q.limit
  pub wanted : ℕ
  pub wanted_value : value n q.resource ≡ some wanted
  pub exceeds : q.limit < wanted

-- Every name of the list is a dimension, and the list holds the values of `c`.
abbrev Known :
    ResourceClaim → ResourceClaim → ResourceClaim → ResourceClaim → List (String × ℕ) → Type 0
Known u n l c [] = Unit {0}
Known u n l c ((r, x) ∷ rest) =
    (value c r ≡ some x)
    × ((a : ℕ) × (value u r ≡ some a))
    × ((b : ℕ) × (value l r ≡ some b))
    × ((w : ℕ) × (value n r ≡ some w))
    × Known u n l c rest

dimensions-Known : (u n l c : ResourceClaim) → Known u n l c (dimensions c)
unfolding value
dimensions-Known u n l c = (
  refl,
  (u.connections, refl),
  (l.connections, refl),
  (n.connections, refl),
  (
    refl,
    (u.streams, refl),
    (l.streams, refl),
    (n.streams, refl),
    (
      refl,
      (u.workers, refl),
      (l.workers, refl),
      (n.workers, refl),
      (
        refl,
        (u.terminals, refl),
        (l.terminals, refl),
        (n.terminals, refl),
        (
          refl,
          (u.attachments, refl),
          (l.attachments, refl),
          (n.attachments, refl),
          (
            refl,
            (u.terminal_memory_bytes, refl),
            (l.terminal_memory_bytes, refl),
            (n.terminal_memory_bytes, refl),
            (
              refl,
              (u.history_bytes, refl),
              (l.history_bytes, refl),
              (n.history_bytes, refl),
              (
                refl,
                (u.forward_connections, refl),
                (l.forward_connections, refl),
                (n.forward_connections, refl),
                (
                  refl,
                  (u.forward_buffer_bytes, refl),
                  (l.forward_buffer_bytes, refl),
                  (n.forward_buffer_bytes, refl),
                  (
                    refl,
                    (u.file_handles, refl),
                    (l.file_handles, refl),
                    (n.file_handles, refl),
                    (
                      refl,
                      (u.uploads, refl),
                      (l.uploads, refl),
                      (n.uploads, refl),
                      (
                        refl,
                        (u.upload_bytes, refl),
                        (l.upload_bytes, refl),
                        (n.upload_bytes, refl),
                        (tt),
                      ),
                    ),
                  ),
                ),
              ),
            ),
          ),
        ),
      ),
    ),
  ),
)

-- One round of the loop, at a name that is a dimension.
module _ (s : String) (u n l : ResourceClaim) (r : String) (x : ℕ) (rest : List (String × ℕ))
    {a b w : ℕ} (ka : value u r ≡ some a) (kb : value l r ≡ some b) (kw : value n r ≡ some w) where
  check_limits-over :
      ltb b w ≡ true
      → check_limits s u n l ((r, x) ∷ rest)
        ≡ err (record { scope = s; resource = r; requested = x; current = a; limit = b })
  unfolding check_limits
  check_limits-over over = simp (ka, kb, kw, over)

  check_limits-within :
      ltb b w ≡ false → check_limits s u n l ((r, x) ∷ rest) ≡ check_limits s u n l rest
  unfolding check_limits
  check_limits-within within = simp (ka, kb, kw, within)

check_list-Reports :
    (s : String) (u n l c : ResourceClaim) (ds : List (String × ℕ)) (q : QuotaExceeded)
    → Known u n l c ds
    → check_limits s u n l ds ≡ err q
    → Reports s u n l c q
check_list-Reports s u n l c [] q k h = unfold check_limits in cc
check_list-Reports s u n l c ((r, x) ∷ rest) q (kc, (a, ka), (b, kb), (w, kw), ks) h =
    elim (Bool-cases (ltb b w)) [
      | inl over ↦
          let e = sym (check_limits-over s u n l r x rest ka kb kw over) ∙ h in
          record {
            scope = cc;
            requested = cc;
            current = cc;
            limit = cc;
            wanted = w;
            wanted_value = cc;
            exceeds = ground arith;
          }
      | inr within ↦
          check_list-Reports s u n l c rest q ks
            (sym (check_limits-within s u n l r x rest ka kb kw within) ∙ h)
    ]

check_limits-ne-panic :
    (s : String) (u n l c : ResourceClaim) → check_limits s u n l (dimensions c) ≢ panic
unfolding check_limits dimensions value
check_limits-ne-panic s u n l c h = ground arith

check_limits-Reports :
    (s : String) (u n l c : ResourceClaim) (q : QuotaExceeded)
    → check_limits s u n l (dimensions c) ≡ err q
    → Reports s u n l c q
check_limits-Reports s u n l c q h =
    check_list-Reports s u n l c (dimensions c) q (dimensions-Known u n l c) h

module _ (pool : ResourcePool) (claim : ResourceClaim) where
  abbrev checked : Result QuotaExceeded Unit
  checked =
      check_limits pool.scope pool.usage (add pool.usage claim) (as_claim pool.limits)
        (dimensions claim)

  abbrev pub reserved : ResourcePool
  reserved = record pool { usage = add pool.usage claim }

  reserve_cases :
      ((¬ FitsIn (add pool.usage claim) greatest)
        × (reserve pool claim ≡ err (counter_exceeded pool.scope)))
      ⊎ (FitsIn (add pool.usage claim) greatest × (reserve pool claim ≡ (checked >> ok reserved)))
  unfolding reserve
  reserve_cases = elim (Option-cases (checked_add pool.usage claim)) [
    | inl e ↦ inl (λ fits. cc (e, checked_add-fits pool.usage claim fits), rw e refl)
    | inr (next, e) ↦
        inr (
          checked_add-FitsIn pool.usage claim e,
          rw (e, checked_add-eq-add pool.usage claim e) refl,
        )
  ]

  -- What the reservation comes to: the sums leave `u64`, or they stay within it and either fit the limits
  -- or exceed one of them.
  pub data Outcome (r : Result QuotaExceeded ResourcePool) : Type 0 where
    admitted :
        r ≡ ok reserved
        → FitsIn (add pool.usage claim) greatest
        → FitsIn (add pool.usage claim) (as_claim pool.limits)
        → Outcome r
    overflows :
        r ≡ err (counter_exceeded pool.scope) → ¬ FitsIn (add pool.usage claim) greatest → Outcome r
    refused :
        (q : QuotaExceeded)
        → r ≡ err q
        → FitsIn (add pool.usage claim) greatest
        → Reports pool.scope pool.usage (add pool.usage claim) (as_claim pool.limits) claim q
        → Outcome r

  checked-Outcome :
      FitsIn (add pool.usage claim) greatest
      → reserve pool claim ≡ (checked >> ok reserved)
      → Outcome (reserve pool claim)
  checked-Outcome small e = elim (Result-cases checked) [
    | inl (tt, fine) ↦
        admitted (rw (e, fine)) small (check_limits-FitsIn pool.scope pool.usage _ _ claim fine)
    | inr (inl (q, over)) ↦
        refused q (rw (e, over)) small (check_limits-Reports pool.scope pool.usage _ _ claim q over)
    | inr (inr broken) ↦
        absurd (check_limits-ne-panic pool.scope pool.usage _ (as_claim pool.limits) claim broken)
  ]

  -- A reservation reports an exceeded counter exactly if the sum of usage and claim leaves `u64` in some
  -- dimension. Else it adds the claim to the usage if each sum is within its limit; and else it is refused
  -- with a report of a dimension whose sum exceeds its limit, with the numbers of that dimension. It
  -- never panics.
  pub reserve-Outcome : Outcome (reserve pool claim)
  reserve-Outcome = elim reserve_cases [
    | inl (large, e) ↦ overflows e large
    | inr (small, e) ↦ checked-Outcome small e
  ]

  -- The claim is admitted whenever the sum is within the limits, which are `u64` numbers.
  pub reserve_admits :
      FitsIn (as_claim pool.limits) greatest
      → FitsIn (add pool.usage claim) (as_claim pool.limits)
      → reserve pool claim ≡ ok reserved
  unfolding reserve
  reserve_admits small fits = simp (
    checked_add-fits pool.usage claim (FitsIn-trans fits small),
    check_limits-ok pool.scope pool.usage (add pool.usage claim) (as_claim pool.limits) claim fits,
  )

-- The drop of a reservation takes its claim back.
pub release-reserved :
    {E : Type 0} (pool : ResourcePool) (rest claim : ResourceClaim)
    → pool.usage ≡ add rest claim
    → release {E = E} pool claim ≡ ok (record pool { usage = rest })
unfolding release
release-reserved pool rest claim e = simp (e, checked_sub-add rest claim)
