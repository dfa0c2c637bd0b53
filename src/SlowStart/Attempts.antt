-- ===== src/SlowStart/Attempts.antt =====
-- How many calls a slow start makes.
use churnless.Base.{
  ℕ, zero, suc, ◌+◌, ◌-◌, ◌*◌, ◌≤◌, ◌<◌, ◌≡◌, refl, min, none, Option-cases, inl, inr, Bool-cases,
  arith, ◌==◌,
}
use churnless.Action.{ok, Action}
use churnless.SlowStart.{Batch, run_batch, batches, slow_start_batch}

module _ {W : Type 0} (call : Action W (Unit {0})) (calls : W → ℕ)
    (counts : (w : W) → calls (call w).1 ≡ suc (calls w)) where
  run_batch_calls : (n : ℕ) (w : W) → calls (run_batch call n w).1 ≡ calls w + n
  unfolding run_batch
  run_batch_calls zero w = omega arith
  run_batch_calls (suc n) w = omega (arith, counts w, run_batch_calls n (call w).1)

  run_batch_successes :
      (n : ℕ) (w : W)
      → ((run_batch call n w).0.successes ≤ n)
        × ((run_batch call n w).0.error ≡ none → (run_batch call n w).0.successes ≡ n)
  unfolding run_batch
  run_batch_successes zero w = (omega arith, λ _. refl)
  run_batch_successes (suc n) w = ground (arith, run_batch_successes n (call w).1)

  -- What holds of the batches from a point where every call so far has succeeded.
  pub record Bounded (count initial start : ℕ) (r : Batch × W) : Type 0 where
    pub within : calls r.1 ≤ start + count
    pub doubled : calls r.1 ≤ start + 2 * r.0.successes + initial
    pub all_made : r.0.error ≡ none → (r.0.successes ≡ count) × (calls r.1 ≡ start + count)

  batches-Bounded :
      (fuel remaining size successes count initial start : ℕ) (w : W)
      → remaining < fuel
      → successes + remaining ≡ count
      → size ≤ remaining
      → (size ≡ 0 → remaining ≡ 0)
      → size ≤ successes + initial
      → calls w ≡ start + successes
      → Bounded count initial start (batches call fuel remaining size successes w)
  unfolding batches
  batches-Bounded zero remaining size successes count initial start w f s le z d c =
      absurd (omega arith)
  batches-Bounded (suc fuel) remaining size successes count initial start w f s le z d c =
      elim (Bool-cases (size == 0)) [
        | inl empty ↦ rw empty (ground arith)
        | inr full ↦ elim (Option-cases (run_batch call size w).0.error) [
          | inr (e, failed) ↦
              rw (full, failed) (ground (arith, run_batch_calls size w, run_batch_successes size w))
          | inl clean ↦
              let all = (run_batch_successes size w).1 clean in
              rw (full, clean)
                (batches-Bounded fuel (remaining - size) (min (2 * size) (remaining - size))
                  (successes + (run_batch call size w).0.successes) count initial start
                  (run_batch call size w).1 (ground arith) (omega (arith, all)) (omega arith)
                  (λ e. ground arith) (omega (arith, all))
                  (omega (arith, all, run_batch_calls size w)))
        ]
      ]

  slow_start_Bounded :
      (count initial : ℕ) (w : W)
      → 0 < initial
      → Bounded count initial (calls w) (slow_start_batch call count initial w)
  unfolding slow_start_batch
  slow_start_Bounded count initial w h =
      batches-Bounded (count + 1) count (min count initial) 0 count initial (calls w) w
        (omega arith) (omega arith) (omega arith) (λ e. omega arith) (omega arith) (omega arith)

  -- For a call that is counted by `calls`, and an initial batch that is not empty: a slow start makes at
  -- most `count` calls, and at most `initial` more than twice its successes.
  pub slow_start_attempts :
      (count initial : ℕ) (w : W)
      → 0 < initial
      → let r = slow_start_batch call count initial w in
        (calls r.1 ≤ calls w + count) × (calls r.1 ≤ calls w + 2 * r.0.successes + initial)
  slow_start_attempts count initial w h =
      let b = slow_start_Bounded count initial w h in (b.within, b.doubled)

  -- For a call that is counted by `calls`, and an initial batch that is not empty: a slow start that
  -- reports no error has made `count` calls, and all of them succeeded.
  pub slow_start_complete :
      (count initial : ℕ) (w : W)
      → 0 < initial
      → (slow_start_batch call count initial w).0.error ≡ none
      → let r = slow_start_batch call count initial w in
        (r.0.successes ≡ count) × (calls r.1 ≡ calls w + count)
  slow_start_complete count initial w h e = (slow_start_Bounded count initial w h).all_made e

module _ {W : Type 0} (call : Action W (Unit {0})) (succeeds : (w : W) → (call w).0 ≡ ok tt) where
  run_batch_clean : (n : ℕ) (w : W) → (run_batch call n w).0.error ≡ none
  unfolding run_batch
  run_batch_clean zero w = refl
  run_batch_clean (suc n) w = rw (succeeds w) (run_batch_clean n (call w).1)

  batches_clean :
      (fuel remaining size successes : ℕ) (w : W)
      → (batches call fuel remaining size successes w).0.error ≡ none
  unfolding batches
  batches_clean zero remaining size successes w = refl
  batches_clean (suc fuel) remaining size successes w = elim (Bool-cases (size == 0)) [
    | inl empty ↦ rw empty refl
    | inr full ↦
        rw (full, run_batch_clean size w)
          (batches_clean fuel (remaining - size) (min (2 * size) (remaining - size))
            (successes + (run_batch call size w).0.successes) (run_batch call size w).1)
  ]

  -- A slow start of a call that never fails reports no error.
  pub slow_start_clean :
      (count initial : ℕ) (w : W) → (slow_start_batch call count initial w).0.error ≡ none
  unfolding slow_start_batch
  slow_start_clean count initial w = batches_clean (count + 1) count (min count initial) 0 w
