-- ===== src/Deployment/Rolling.antt =====
-- The RollingUpdate part of `rollout`: which ReplicaSet to scale next, and to what.
use churnless.Base.{◌&&◌, ◌||◌, not, Option, none, some, List, [], ◌∷◌, if◌then◌else◌}
use churnless.Int32.{ℤ, pos, add32, sub32, min_ℤ, max_ℤ, ltb_ℤ, eqb_ℤ}
use churnless.Api.{ReplicaSet}
use churnless.Deployment.Totals.{
  replicas_of, is_same, total_replica_spec, total_available_replicas, total_old_replicas,
  desired_replicas,
}

-- The numbers that the loop over the old ReplicaSets reads: all int32.
pub record Budget : Type 0 where
  pub desired : ℤ
  pub current_replicas : ℤ
  pub total : ℤ
  pub total_available : ℤ
  pub min_available : ℤ

unfoldable pub decrease_of : Budget → ReplicaSet → ℤ
decrease_of b old =
    let old_replicas = replicas_of old in
    let unavailable_old = max_ℤ (sub32 old_replicas old.status.available_replicas) (pos 0) in
    let available_budget = max_ℤ (sub32 b.total_available b.min_available) (pos 0) in
    let excess = max_ℤ (sub32 b.total b.desired) (pos 0) in
    let needed = max_ℤ (sub32 b.desired b.current_replicas) (pos 0) in
    let decrease = min_ℤ old_replicas (add32 unavailable_old available_budget) in
    if ltb_ℤ (pos 0) excess then min_ℤ decrease excess else min_ℤ decrease needed

-- The first old ReplicaSet that can give up replicas, with the count that it keeps.
unfoldable pub scale_down_loop : Budget → ReplicaSet → List ReplicaSet → Option (ReplicaSet × ℤ)
unfolding decrease_of is_same desired_replicas
scale_down_loop b current [] = none
scale_down_loop b current (old ∷ rss) =
    let rest = scale_down_loop b current rss in
    let old_replicas = replicas_of old in
    if is_same old current || eqb_ℤ old_replicas (pos 0)
    then rest
    else (let decrease = decrease_of b old in
        if ltb_ℤ (pos 0) decrease then some (old, sub32 old_replicas decrease) else rest)

abbrev pub budget_of : ℤ → ℤ → ReplicaSet → List ReplicaSet → Budget
budget_of desired max_unavailable current rss = record {
  desired = desired;
  current_replicas = replicas_of current;
  total = total_replica_spec rss;
  total_available = total_available_replicas rss;
  min_available = max_ℤ (sub32 desired max_unavailable) (pos 0);
}

-- What `rollout` does once no old ReplicaSet can shrink.
abbrev pub settle : ℤ → ReplicaSet → List ReplicaSet → Option (ReplicaSet × ℤ)
settle desired current rss =
    if not (eqb_ℤ (replicas_of current) desired) && eqb_ℤ (total_old_replicas current rss) (pos 0)
    then some (current, desired)
    else none

abbrev pub or_settle : Option (ReplicaSet × ℤ) → Option (ReplicaSet × ℤ) → Option (ReplicaSet × ℤ)
or_settle none d = d
or_settle (some t) d = some t

-- `none` where `rollout` returns with nothing to change.
unfoldable pub rolling_target : ℤ → ℤ → ℤ → ReplicaSet → List ReplicaSet → Option (ReplicaSet × ℤ)
unfolding scale_down_loop
rolling_target desired max_surge max_unavailable current rss =
    let total = total_replica_spec rss in
    let current_replicas = replicas_of current in
    let ceiling = add32 desired max_surge in
    if ltb_ℤ current_replicas desired && ltb_ℤ total ceiling
    then (let increase = min_ℤ (sub32 desired current_replicas) (sub32 ceiling total) in
        some (current, add32 current_replicas increase))
    else or_settle (scale_down_loop (budget_of desired max_unavailable current rss) current rss)
        (settle desired current rss)
