-- ===== src/Deployment/Descent.antt =====
-- A rolling update ends: each step brings the fleet nearer to its goal.
use churnless.Base.{
  ℕ, ◌+◌, ◌-◌, ◌<◌, ◌≡◌, refl, inl, inr, false, Bool-cases, some, List, [], ◌∷◌, All, arith,
  if◌then◌else◌,
}
use churnless.Int32.{ℤ, pos}
use churnless.Api.{ReplicaSet}
use churnless.Deployment.Totals.{is_same, desired_replicas}
use churnless.Deployment.Counts.{spec_count, status_count, sum_old}
use churnless.Deployment.Fleet.{HasOnce, scaled, with_replicas, is_same_self}
use churnless.Deployment.Rolling.{rolling_target}
use churnless.Deployment.Plan.{numbers_of, InRange}
use churnless.Deployment.Moves.{Shrinks, decrease_bounds, rolling_target-cases}

-- How far a count is from the desired one.
abbrev pub off : ℕ → ℕ → ℕ
off d c = (d - c) + (c - d)

-- The replicas that old ReplicaSets still have, and those that the current one lacks or has too many.
abbrev pub left : ℕ → ℕ → ReplicaSet → List ReplicaSet → ℕ
left d c current rss = sum_old current rss + off d c

-- What the current ReplicaSet asks for after a step.
abbrev pub count_after : ReplicaSet → ReplicaSet → ℕ → ℕ
count_after current t k = if is_same t current then k else spec_count current

is_same-scaled : (a b : ReplicaSet) (n : ℕ) → is_same (with_replicas a n) b ≡ is_same a b
unfolding is_same
is_same-scaled a b n = refl

-- Scaling the current ReplicaSet leaves the old ones alone.
sum_old-scaled_current :
    (current : ReplicaSet) (n : ℕ) (rss : List ReplicaSet)
    → sum_old current (scaled current n rss) ≡ sum_old current rss
unfolding sum_old
sum_old-scaled_current current n [] = refl
sum_old-scaled_current current n (rs ∷ rss) = elim (Bool-cases (is_same rs current)) [
  | inl same ↦
      rw (same, is_same-scaled rs current n, same)
        (omega (arith, sum_old-scaled_current current n rss))
  | inr other ↦ rw (other, other) (omega (arith, sum_old-scaled_current current n rss))
]

others-scaled_old :
    (current t : ReplicaSet) (k : ℕ) (rss : List ReplicaSet)
    → All (λ other. is_same other t ≡ false) rss
    → sum_old current (scaled t k rss) ≡ sum_old current rss
unfolding sum_old
others-scaled_old current t k [] a = refl
others-scaled_old current t k (rs ∷ rss) a =
    rw a.0 (omega (arith, others-scaled_old current t k rss a.1))

-- Scaling an old ReplicaSet changes their sum by its share alone.
sum_old-scaled :
    (current t : ReplicaSet) (k : ℕ) (rss : List ReplicaSet)
    → is_same t current ≡ false
    → HasOnce t rss
    → sum_old current (scaled t k rss) + spec_count t ≡ sum_old current rss + k
unfolding sum_old desired_replicas
sum_old-scaled current t k [] old h = elim h [ ]
sum_old-scaled current t k (rs ∷ rss) old (inl (e, a)) =
    rw (e, is_same_self t, is_same-scaled t current k, old)
      (omega (arith, others-scaled_old current t k rss a))
sum_old-scaled current t k (rs ∷ rss) old (inr (ne, h)) =
    rw ne (omega (arith, sum_old-scaled current t k rss old h))

-- The step brings the fleet nearer to its goal.
abbrev pub Descends : ℕ → ReplicaSet → List ReplicaSet → ReplicaSet → ℕ → Type 0
Descends d current rss t k =
    left d (count_after current t k) current (scaled t k rss)
    < left d (spec_count current) current rss

module _ {d s u : ℕ} {current : ReplicaSet} {rss : List ReplicaSet}
    (r : InRange d s u current rss) where
  current-Descends :
      (n : ℕ) → off d n < off d (spec_count current) → Descends d current rss current n
  current-Descends n h =
      rw (is_same_self current) (omega (arith, h, sum_old-scaled_current current n rss))

  old-Descends :
      (t : ReplicaSet) (k : ℕ)
      → Shrinks (numbers_of d u current rss) current t rss k
      → Descends d current rss t k
  old-Descends t k h =
      let b = decrease_bounds (numbers_of d u current rss) (spec_count t) (status_count t) in
      rw h.old (omega (arith, h.kept, h.shrinks, b, sum_old-scaled current t k rss h.old h.once))

  -- For ReplicaSets with counts in range (InRange), each step that the rolling update takes lowers the
  -- number of old replicas that are left and of current ones that are missing or too many.
  pub rolling_target-Descends :
      (t : ReplicaSet) (k : ℤ)
      → rolling_target (pos d) (pos s) (pos u) current rss ≡ some (t, k)
      → (n : ℕ) × (k ≡ pos n) × Descends d current rss t n
  rolling_target-Descends =
      rolling_target-cases r (Descends d current rss) (λ up room. current-Descends _ (omega arith))
        old-Descends (λ apart empty. current-Descends d (ground arith))
