-- ===== src/Deployment/Plan.antt =====
-- The RollingUpdate decision over natural numbers, and that `rolling_target` makes it.
use churnless.Base.{
  ℕ, ◌+◌, ◌-◌, ◌≤◌, ◌<◌, ◌≡◌, refl, min, ◌||◌, ◌&&◌, not, Option, none, some, List, [], ◌∷◌, All,
  arith, ltb, ◌==◌, if◌then◌else◌,
}
use churnless.Int32.{ℤ, pos, limit, add32, sub32, min_ℤ}
use churnless.Int32.Bounds.{add32_pos, sub32_pos, max_sub32, min_pos}
use churnless.Api.{ReplicaSet}
use churnless.Deployment.Totals.{is_same}
use churnless.Deployment.Counts.{
  spec_count, status_count, IsCounted, sum_spec, sum_available, sum_old, sum_available-le,
  total_replica_spec-eq, total_available_replicas-eq, total_old_replicas-eq,
}
use churnless.Deployment.Fleet.{Distinct, HasOnce, All-HasOnce, sum_spec-split}
use churnless.Deployment.Rolling.{
  Budget, decrease_of, scale_down_loop, budget_of, settle, or_settle, rolling_target,
}

-- The numbers of a rollout: what is wanted, what there is, and the floor of availability.
pub record Numbers : Type 0 where
  pub desired : ℕ
  pub current : ℕ
  pub total : ℕ
  pub available : ℕ
  pub floor : ℕ

unfoldable pub decrease_count : Numbers → ℕ → ℕ → ℕ
decrease_count n spec status =
    let decrease = min spec (spec - status + (n.available - n.floor)) in
    if ltb 0 (n.total - n.desired)
    then min decrease (n.total - n.desired)
    else min decrease (n.desired - n.current)

abbrev pub to_budget : Numbers → Budget
to_budget n = record {
  desired = pos n.desired;
  current_replicas = pos n.current;
  total = pos n.total;
  total_available = pos n.available;
  min_available = pos n.floor;
}

pub record IsSmall (n : Numbers) : Type 0 where
  pub desired_small : n.desired < limit
  pub total_small : n.total + n.total < limit
  pub available_le : n.available ≤ n.total
  pub current_le : n.current ≤ n.total
  pub floor_le : n.floor ≤ n.desired

decrease_of-eq :
    (n : Numbers) (rs : ReplicaSet)
    → IsSmall n
    → IsCounted rs
    → spec_count rs ≤ n.total
    → status_count rs < limit
    → decrease_of (to_budget n) rs ≡ pos (decrease_count n (spec_count rs) (status_count rs))
unfolding decrease_of decrease_count
decrease_of-eq n rs s c le small =
    rw
      (
        c.spec_eq,
        c.status_eq,
        max_sub32 (spec_count rs) (status_count rs) (omega arith) small,
        max_sub32 n.available n.floor (omega arith) (omega arith),
        max_sub32 n.total n.desired (omega arith) (omega arith),
        max_sub32 n.desired n.current (omega arith) (omega arith),
        add32_pos (spec_count rs - status_count rs) (n.available - n.floor) (omega arith),
        min_pos,
        min_pos,
        min_pos,
      )
      (ground arith)

unfoldable pub plan_loop : Numbers → ReplicaSet → List ReplicaSet → Option (ReplicaSet × ℕ)
plan_loop n current [] = none
plan_loop n current (old ∷ rss) =
    let rest = plan_loop n current rss in
    if is_same old current || spec_count old == 0
    then rest
    else (let decrease = decrease_count n (spec_count old) (status_count old) in
        if ltb 0 decrease then some (old, spec_count old - decrease) else rest)

abbrev pub or_then : Option (ReplicaSet × ℕ) → Option (ReplicaSet × ℕ) → Option (ReplicaSet × ℕ)
or_then none d = d
or_then (some t) d = some t

unfoldable pub plan_settle : ℕ → ReplicaSet → List ReplicaSet → Option (ReplicaSet × ℕ)
plan_settle desired current rss =
    if not (spec_count current == desired) && sum_old current rss == 0
    then some (current, desired)
    else none

abbrev pub numbers_of : ℕ → ℕ → ReplicaSet → List ReplicaSet → Numbers
numbers_of desired unavailable current rss = record {
  desired = desired;
  current = spec_count current;
  total = sum_spec rss;
  available = sum_available rss;
  floor = desired - unavailable;
}

unfoldable pub plan : ℕ → ℕ → ℕ → ReplicaSet → List ReplicaSet → Option (ReplicaSet × ℕ)
plan desired surge unavailable current rss =
    if ltb (spec_count current) desired && ltb (sum_spec rss) (desired + surge)
    then some (
      current,
      spec_count current + min (desired - spec_count current) (desired + surge - sum_spec rss),
    )
    else or_then (plan_loop (numbers_of desired unavailable current rss) current rss)
        (plan_settle desired current rss)

abbrev pub to_target : Option (ReplicaSet × ℕ) → Option (ReplicaSet × ℤ)
to_target none = none
to_target (some (rs, n)) = some (rs, pos n)

-- Counts as the API server and the validation leave them, far from the limits of int32.
pub record InRange (desired surge unavailable : ℕ) (current : ReplicaSet) (rss : List ReplicaSet)
    : Type 0 where
  pub counted : All IsCounted rss
  pub status_small : All (λ rs. status_count rs < limit) rss
  pub distinct : Distinct rss
  pub current_once : HasOnce current rss
  pub total_small : sum_spec rss + sum_spec rss < limit
  pub desired_small : desired + surge < limit
  pub unavailable_le : unavailable ≤ desired

module _ {d s u : ℕ} {current : ReplicaSet} {rss : List ReplicaSet}
    (r : InRange d s u current rss) where
  pub current-IsCounted : IsCounted current
  current-IsCounted = All-HasOnce IsCounted current rss r.counted r.current_once

  pub current_le : spec_count current ≤ sum_spec rss
  current_le = omega (arith, sum_spec-split current rss r.current_once)

numbers_of-IsSmall :
    (d s u : ℕ) (current : ReplicaSet) (rss : List ReplicaSet)
    → InRange d s u current rss
    → IsSmall (numbers_of d u current rss)
numbers_of-IsSmall d s u current rss r = omega (arith, sum_available-le rss, current_le r)

pub decrease_count-le : (n : Numbers) (spec status : ℕ) → decrease_count n spec status ≤ spec
unfolding decrease_count
decrease_count-le n spec status = ground arith

scale_down_loop-eq :
    (n : Numbers) (current : ReplicaSet) (rss : List ReplicaSet)
    → IsSmall n
    → All IsCounted rss
    → All (λ rs. status_count rs < limit) rss
    → sum_spec rss ≤ n.total
    → scale_down_loop (to_budget n) current rss ≡ to_target (plan_loop n current rss)
unfolding scale_down_loop plan_loop sum_spec
scale_down_loop-eq n current [] s c h le = refl
scale_down_loop-eq n current (old ∷ rss) s c h le =
    let decrease = decrease_count n (spec_count old) (status_count old) in
    rw (decrease_of-eq n old s c.0 (omega arith) h.0) (
      ground (
        arith,
        c.0.spec_eq,
        decrease_count-le n (spec_count old) (status_count old),
        sub32_pos (spec_count old) decrease,
        scale_down_loop-eq n current rss s c.1 h.1 (omega arith),
      ))

settle-eq :
    (d : ℕ) (current : ReplicaSet) (rss : List ReplicaSet)
    → IsCounted current
    → All IsCounted rss
    → sum_spec rss < limit
    → settle (pos d) current rss ≡ to_target (plan_settle d current rss)
unfolding plan_settle
settle-eq d current rss k c h =
    rw (total_old_replicas-eq current rss c h) (ground (arith, k.spec_eq))

or_settle-eq :
    (a b : Option (ReplicaSet × ℕ))
    → or_settle (to_target a) (to_target b) ≡ to_target (or_then a b)
or_settle-eq none b = refl
or_settle-eq (some t) b = refl

budget_of-eq :
    (d s u : ℕ) (current : ReplicaSet) (rss : List ReplicaSet)
    → InRange d s u current rss
    → budget_of (pos d) (pos u) current rss ≡ to_budget (numbers_of d u current rss)
budget_of-eq d s u current rss r =
    rw
      (
        total_replica_spec-eq rss r.counted (omega (arith, r)),
        total_available_replicas-eq rss r.counted (omega (arith, r)),
        max_sub32 d u (omega (arith, r)) (omega (arith, r)),
      )
      (ground (arith, (current-IsCounted r).spec_eq))

increase-eq :
    (c d total ceiling : ℕ)
    → c < d
    → total < ceiling
    → d < limit
    → ceiling < limit
    → add32 (pos c) (min_ℤ (sub32 (pos d) (pos c)) (sub32 (pos ceiling) (pos total)))
      ≡ pos (c + min (d - c) (ceiling - total))
increase-eq c d total ceiling h k dl cl = rw (
  sub32_pos d c (omega arith) dl,
  sub32_pos ceiling total (omega arith) cl,
  min_pos,
  add32_pos c (min (d - c) (ceiling - total)) (omega arith),
)

-- On counts in range, the int32 code makes the decision of `plan`, which computes with natural numbers.
pub rolling_target-eq :
    (d s u : ℕ) (current : ReplicaSet) (rss : List ReplicaSet)
    → InRange d s u current rss
    → rolling_target (pos d) (pos s) (pos u) current rss ≡ to_target (plan d s u current rss)
unfolding rolling_target plan
rolling_target-eq d s u current rss r =
    rw
      (
        budget_of-eq d s u current rss r,
        scale_down_loop-eq (numbers_of d u current rss) current rss
            (numbers_of-IsSmall d s u current rss r) r.counted r.status_small (omega arith),
        settle-eq d current rss (current-IsCounted r) r.counted (omega (arith, r)),
        or_settle-eq,
        total_replica_spec-eq rss r.counted (omega (arith, r)),
        add32_pos d s r.desired_small,
      )
      (ground (
        arith,
        (current-IsCounted r).spec_eq,
        increase-eq (spec_count current) d (sum_spec rss) (d + s),
      ))
