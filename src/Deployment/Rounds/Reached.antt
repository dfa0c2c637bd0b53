-- ===== src/Deployment/Rounds/Reached.antt =====
-- What holds in every state that a rollout can reach.
use churnless.Base.{ℕ, ◌+◌, ◌≤◌, ◌<◌, ◌≡◌, refl, subst, inl, inr, max, Bool-cases, some, map, arith}
use churnless.Int32.{pos, limit}
use churnless.Api.{ReplicaSet, ReplicaSetStatus}
use churnless.Deployment.Totals.{is_same, desired_replicas}
use churnless.Deployment.Counts.{spec_count, status_count, IsCounted, sum_spec}
use churnless.Deployment.Fleet.{scaled, is_same_comm}
use churnless.Deployment.Rolling.{rolling_target}
use churnless.Deployment.Plan.{InRange}
use churnless.Deployment.Surge.{StaysWithin, rolling_target-StaysWithin}
use churnless.Deployment.Descent.{left, count_after, Descends, rolling_target-Descends}
use churnless.Deployment.Rounds.{
  Fleet, changed, scale_to, with_status, IsReport, Step, roll, observe, Reach, here, next, rolls,
}
use churnless.Deployment.Rounds.Kept.{
  scale_to-KeepsUid, All-map, Distinct-changed, HasOnce-changed, sum_old-changed, sum_old-same,
  sum_spec-changed, IsCounted-scale_to, status_count-scale_to,
}

-- The counts are in range and the total is at most `most`.
pub record IsWithin (most d s u : ℕ) (fleet : Fleet) : Type 0 where
  pub range : InRange d s u fleet.current fleet.sets
  pub total_le : sum_spec fleet.sets ≤ most

abbrev pub left_of : ℕ → Fleet → ℕ
left_of d fleet = left d (spec_count fleet.current) fleet.current fleet.sets

-- The number that rolling_target gives is the one that its theorems speak of.
same_count : {k n : ℕ} → ◌≡◌ {A = churnless.Int32.ℤ} (pos k) (pos n) → n ≡ k
same_count e = cc e

abbrev IsGood : (ReplicaSet → ReplicaSetStatus) → ReplicaSet → Type 0
IsGood report rs =
    IsCounted (with_status report rs) × (status_count (with_status report rs) < limit)

module _ {d s u : ℕ} {fleet : Fleet} (r : InRange d s u fleet.current fleet.sets) where
  roll-StaysWithin :
      (t : ReplicaSet) (k : ℕ)
      → rolling_target (pos d) (pos s) (pos u) fleet.current fleet.sets ≡ some (t, pos k)
      → StaysWithin d s u fleet.sets t k
  roll-StaysWithin t k e =
      let (n, same, within) = rolling_target-StaysWithin r t (pos k) e in
      subst (λ m. StaysWithin d s u fleet.sets t m) (same_count same) within

  roll-InRange :
      (t : ReplicaSet) (k : ℕ)
      → sum_spec (scaled t k fleet.sets) + sum_spec (scaled t k fleet.sets) < limit
      → InRange d s u (scale_to t k fleet.current) (map (scale_to t k) fleet.sets)
  roll-InRange t k small = record {
    counted =
        All-map IsCounted IsCounted (scale_to t k) fleet.sets (IsCounted-scale_to t k) r.counted;
    status_small =
        All-map (λ rs. status_count rs < limit) (λ rs. status_count rs < limit) (scale_to t k)
          fleet.sets (λ rs h. omega (arith, h, status_count-scale_to t k rs)) r.status_small;
    distinct = Distinct-changed (scale_to t k) (scale_to-KeepsUid t k) fleet.sets r.distinct;
    current_once =
        HasOnce-changed (scale_to t k) (scale_to-KeepsUid t k) fleet.current fleet.sets
          r.current_once;
    total_small = small;
    desired_small = r.desired_small;
    unavailable_le = r.unavailable_le;
  }

  observe-InRange :
      (report : ReplicaSet → ReplicaSetStatus)
      → IsReport report fleet
      → InRange d s u (with_status report fleet.current) (map (with_status report) fleet.sets)
  observe-InRange report h = record {
    counted = All-map (IsGood report) IsCounted (with_status report) fleet.sets (λ rs g. g.0) h;
    status_small =
        All-map (IsGood report) (λ rs. status_count rs < limit) (with_status report) fleet.sets
          (λ rs g. g.1) h;
    distinct = Distinct-changed (with_status report) (λ rs. refl) fleet.sets r.distinct;
    current_once =
        HasOnce-changed (with_status report) (λ rs. refl) fleet.current fleet.sets r.current_once;
    total_small = rw (sum_spec-changed (with_status report) (λ rs. refl) fleet.sets) r.total_small;
    desired_small = r.desired_small;
    unavailable_le = r.unavailable_le;
  }

pub spec_count-scale_to :
    (t : ReplicaSet) (k : ℕ) (current : ReplicaSet)
    → spec_count (scale_to t k current) ≡ count_after current t k
unfolding desired_replicas
spec_count-scale_to t k current = elim (Bool-cases (is_same current t)) [
  | inl same ↦ elim (Bool-cases (is_same t current)) [
    | inl back ↦ rw (same, back) refl
    | inr other ↦ absurd (cc (same, is_same_comm t current other))
  ]
  | inr other ↦ rw (other, is_same_comm current t other) refl
]

module _ (d s u : ℕ) where
  pub Step-IsWithin :
      (most : ℕ) {f g : Fleet}
      → d + s ≤ most
      → most + most < limit
      → IsWithin most d s u f
      → Step d s u f g
      → IsWithin most d s u g
  Step-IsWithin most {f} enough small i (roll t k e) =
      let w = roll-StaysWithin i.range t k e in
      let total : sum_spec (scaled t k f.sets) ≤ most = omega (arith, w.surge_kept, i.total_le) in
      record { range = roll-InRange i.range t k (omega (arith, total)); total_le = total }
  Step-IsWithin most enough small i (observe report h) = record {
    range = observe-InRange i.range report h;
    total_le = omega (arith, sum_spec-changed (with_status report) (λ rs. refl) _, i.total_le);
  }

  Reach-IsWithin :
      (most : ℕ) {start fleet : Fleet}
      → d + s ≤ most
      → most + most < limit
      → IsWithin most d s u start
      → Reach d s u start fleet
      → IsWithin most d s u fleet
  Reach-IsWithin most enough small i here = i
  Reach-IsWithin most enough small i (next r step) =
      Step-IsWithin most enough small (Reach-IsWithin most enough small i r) step

  -- From a fleet whose counts are in range, and with twice the larger of its total and
  -- desired + maxSurge below 2 ^ 31: however the runs of a rolling update and the reports of the
  -- ReplicaSets follow one another, the counts stay in range, and the total never passes
  -- desired + maxSurge, or what it was at the start.
  pub Reach-surge :
      {start fleet : Fleet}
      → InRange d s u start.current start.sets
      → let most = max (sum_spec start.sets) (d + s) in
        most + most < limit
        → Reach d s u start fleet
        → InRange d s u fleet.current fleet.sets
          × (sum_spec fleet.sets ≤ max (sum_spec start.sets) (d + s))
  Reach-surge {start} i small r =
      let most = max (sum_spec start.sets) (d + s) in
      let w =
        Reach-IsWithin most (omega arith) small (record { range = i; total_le = omega arith }) r in
      (w.range, w.total_le)

  pub roll-left :
      {f : Fleet} (t : ReplicaSet) (k : ℕ)
      → InRange d s u f.current f.sets
      → rolling_target (pos d) (pos s) (pos u) f.current f.sets ≡ some (t, pos k)
      → left_of d (changed (scale_to t k) f) < left_of d f
  roll-left {f = f} t k i e =
      let (n, same, down) = rolling_target-Descends i t (pos k) e in
      let down' = subst (λ m. Descends d f.current f.sets t m) (same_count same) down in
      rw
        (
          sum_old-same (scale_to t k) (scale_to-KeepsUid t k) f.current (scaled t k f.sets),
          spec_count-scale_to t k f.current,
        )
        down'

  pub observe-left :
      (f : Fleet) (report : ReplicaSet → ReplicaSetStatus)
      → left_of d (changed (with_status report) f) ≡ left_of d f
  observe-left f report =
      rw (sum_old-changed (with_status report) (λ rs. refl) (λ rs. refl) f.current f.sets) refl

  rolls-IsWithin :
      (most : ℕ) {start fleet : Fleet}
      → d + s ≤ most
      → most + most < limit
      → IsWithin most d s u start
      → (r : Reach d s u start fleet) → rolls r + left_of d fleet ≤ left_of d start
  unfolding rolls
  rolls-IsWithin most enough small i here = omega arith
  rolls-IsWithin most enough small i (next {f} r (roll t k e)) =
      let w = Reach-IsWithin most enough small i r in
      omega (arith, rolls-IsWithin most enough small i r, roll-left {f = f} t k w.range e)
  rolls-IsWithin most enough small i (next {f} r (observe report h)) =
      omega (arith, rolls-IsWithin most enough small i r, observe-left f report)

  -- Under the same conditions: the runs that scale a ReplicaSet are no more than the old replicas at
  -- the start, and the current ones that were missing or too many, whatever is reported in between.
  pub rolls-le :
      {start fleet : Fleet}
      → InRange d s u start.current start.sets
      → let most = max (sum_spec start.sets) (d + s) in
        most + most < limit
        → (r : Reach d s u start fleet) → rolls r + left_of d fleet ≤ left_of d start
  rolls-le {start} i small r =
      rolls-IsWithin (max (sum_spec start.sets) (d + s)) (omega arith) small
        (record { range = i; total_le = omega arith }) r
