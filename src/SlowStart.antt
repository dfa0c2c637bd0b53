-- ===== src/SlowStart.antt =====
-- SlowStartBatch of internal/kubecompat/pods.go: batches that double while every call succeeds.
-- The calls of a batch run at once; here they run in turn, which is one of the orders possible, and
-- the error that is reported is the first in that order.
pub mod Attempts
use churnless.Base.{ℕ, zero, suc, ◌+◌, ◌-◌, ◌*◌, min, Option, none, some, ◌==◌, if◌then◌else◌}
use churnless.Action.{Error, Result, ok, err, Action}

pub record Batch : Type 0 where
  pub successes : ℕ
  pub error : Option Error

abbrev pub count_result : Result (Unit {0}) → Batch → Batch
count_result (ok _) b = record b { successes = suc b.successes }
count_result (err e) b = record b { error = some e }

module _ {W : Type 0} (call : Action W (Unit {0})) where
  -- Every call of the batch is made, whatever the others return.
  unfoldable pub run_batch : ℕ → W → Batch × W
  run_batch zero w = (record { successes = 0; error = none }, w)
  run_batch (suc n) w =
      let (r, w') = call w in let (b, w'') = run_batch n w' in (count_result r b, w'')

  unfoldable pub batches : ℕ → ℕ → ℕ → ℕ → W → Batch × W
  unfolding run_batch
  batches zero remaining size successes w = (record { successes = successes; error = none }, w)
  batches (suc fuel) remaining size successes w =
      let (b, w') = run_batch size w in
      let next =
        batches fuel (remaining - size) (min (2 * size) (remaining - size))
          (successes + b.successes) w' in
      if size == 0 then (record { successes = successes; error = none }, w) else elim b.error [
        | some e ↦ (record { successes = successes + b.successes; error = some e }, w')
        | none ↦ next
      ]

  -- A batch takes at least one call off what remains, so `count + 1` rounds are enough.
  unfoldable pub slow_start_batch : ℕ → ℕ → W → Batch × W
  unfolding batches
  slow_start_batch count initial_batch_size =
      batches (count + 1) count (min count initial_batch_size) 0

-- BurstReplicas; SlowStartInitialBatchSize is a constant of the upstream package.
abbrev pub burst_replicas : ℕ
burst_replicas = 500
