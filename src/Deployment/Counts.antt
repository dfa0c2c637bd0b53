-- ===== src/Deployment/Counts.antt =====
-- The sums of Deployment/Totals as natural numbers: what the int32 loops compute where no count is
-- negative and no sum reaches 2 ^ 31.
use churnless.Base.{
  ℕ, ◌+◌, ◌≤◌, ◌<◌, ◌≡◌, ap, ◌∙◌, inl, inr, min, Bool-cases, List, [], ◌∷◌, All, arith,
  if◌then◌else◌,
}
use churnless.Int32.{pos, pos_part, limit}
use churnless.Int32.Bounds.{add32_pos, min_pos}
use churnless.Api.{ReplicaSet}
use churnless.Deployment.Totals.{
  replicas_of, is_same, replica_spec_from, total_replica_spec, available_from,
  total_available_replicas, old_replicas_from, total_old_replicas,
}

abbrev pub spec_count : ReplicaSet → ℕ
spec_count rs = pos_part (replicas_of rs)

abbrev pub status_count : ReplicaSet → ℕ
status_count rs = pos_part rs.status.available_replicas

-- No count is negative.
pub record IsCounted (rs : ReplicaSet) : Type 0 where
  pub spec_eq : replicas_of rs ≡ pos (spec_count rs)
  pub status_eq : rs.status.available_replicas ≡ pos (status_count rs)

-- An available replica counts only while the specification still asks for it.
abbrev pub available_count : ReplicaSet → ℕ
available_count rs = min (status_count rs) (spec_count rs)

unfoldable pub sum_spec : List ReplicaSet → ℕ
sum_spec [] = 0
sum_spec (rs ∷ rss) = spec_count rs + sum_spec rss

unfoldable pub sum_available : List ReplicaSet → ℕ
sum_available [] = 0
sum_available (rs ∷ rss) = available_count rs + sum_available rss

unfoldable pub sum_old : ReplicaSet → List ReplicaSet → ℕ
sum_old current [] = 0
sum_old current (rs ∷ rss) = (if is_same rs current then 0 else spec_count rs) + sum_old current rss

pub sum_available-le : (rss : List ReplicaSet) → sum_available rss ≤ sum_spec rss
unfolding sum_available sum_spec
sum_available-le [] = omega arith
sum_available-le (rs ∷ rss) = omega (arith, sum_available-le rss)

pub sum_old-le : (current : ReplicaSet) (rss : List ReplicaSet) → sum_old current rss ≤ sum_spec rss
unfolding sum_old sum_spec
sum_old-le current [] = omega arith
sum_old-le current (rs ∷ rss) = ground (arith, sum_old-le current rss)

replica_spec_from_pos :
    (a : ℕ) (rss : List ReplicaSet)
    → All IsCounted rss
    → a + sum_spec rss < limit
    → replica_spec_from (pos a) rss ≡ pos (a + sum_spec rss)
unfolding replica_spec_from sum_spec
replica_spec_from_pos a [] c h = ground arith
replica_spec_from_pos a (rs ∷ rss) c h =
    rw
      (
        c.0.spec_eq,
        add32_pos a (spec_count rs) (omega arith),
        replica_spec_from_pos (a + spec_count rs) rss c.1 (omega arith),
      )
      (ground arith)

available_from_pos :
    (a : ℕ) (rss : List ReplicaSet)
    → All IsCounted rss
    → a + sum_available rss < limit
    → available_from (pos a) rss ≡ pos (a + sum_available rss)
unfolding available_from sum_available
available_from_pos a [] c h = ground arith
available_from_pos a (rs ∷ rss) c h =
    rw
      (
        c.0.spec_eq,
        c.0.status_eq,
        min_pos,
        add32_pos a (available_count rs) (omega arith),
        available_from_pos (a + available_count rs) rss c.1 (omega arith),
      )
      (ground arith)

old_replicas_from_pos :
    (current : ReplicaSet) (a : ℕ) (rss : List ReplicaSet)
    → All IsCounted rss
    → a + sum_spec rss < limit
    → old_replicas_from current (pos a) rss ≡ pos (a + sum_old current rss)
unfolding old_replicas_from sum_old sum_spec
old_replicas_from_pos current a [] c h = ground arith
old_replicas_from_pos current a (rs ∷ rss) c h = elim (Bool-cases (is_same rs current)) [
  | inl same ↦ rw (same, old_replicas_from_pos current a rss c.1 (omega arith)) (ground arith)
  | inr other ↦
      rw
        (
          other,
          c.0.spec_eq,
          add32_pos a (spec_count rs) (omega arith),
          old_replicas_from_pos current (a + spec_count rs) rss c.1 (omega arith),
        )
        (ground arith)
]

-- The loops compute the sums.
pub total_replica_spec-eq :
    (rss : List ReplicaSet)
    → All IsCounted rss
    → sum_spec rss < limit
    → total_replica_spec rss ≡ pos (sum_spec rss)
unfolding total_replica_spec
total_replica_spec-eq rss c h = replica_spec_from_pos 0 rss c (omega arith) ∙ ap pos (omega arith)

pub total_available_replicas-eq :
    (rss : List ReplicaSet)
    → All IsCounted rss
    → sum_spec rss < limit
    → total_available_replicas rss ≡ pos (sum_available rss)
unfolding total_available_replicas
total_available_replicas-eq rss c h =
    available_from_pos 0 rss c (omega (arith, sum_available-le rss)) ∙ ap pos (omega arith)

pub total_old_replicas-eq :
    (current : ReplicaSet) (rss : List ReplicaSet)
    → All IsCounted rss
    → sum_spec rss < limit
    → total_old_replicas current rss ≡ pos (sum_old current rss)
unfolding total_old_replicas
total_old_replicas-eq current rss c h =
    old_replicas_from_pos current 0 rss c (omega arith) ∙ ap pos (omega arith)
