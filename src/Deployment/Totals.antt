-- ===== src/Deployment/Totals.antt =====
-- The sums over the ReplicaSets of a Deployment, as int32 loops.
use churnless.Base.{Bool, Option, none, some, List, [], ◌∷◌, str_eq, if◌then◌else◌}
use churnless.Int32.{ℤ, pos, add32, min_ℤ}
use churnless.Api.{ReplicaSet}

-- A nil count means one replica.
unfoldable pub desired_replicas : Option ℤ → ℤ
desired_replicas none = pos 1
desired_replicas (some n) = n

abbrev pub replicas_of : ReplicaSet → ℤ
replicas_of rs = desired_replicas rs.spec.replicas

-- The ReplicaSets of a Deployment are told apart by their UIDs.
unfoldable pub is_same : ReplicaSet → ReplicaSet → Bool
is_same a b = str_eq a.metadata.uid b.metadata.uid

unfoldable pub replica_spec_from : ℤ → List ReplicaSet → ℤ
replica_spec_from total [] = total
replica_spec_from total (rs ∷ rss) = replica_spec_from (add32 total (replicas_of rs)) rss

unfoldable pub total_replica_spec : List ReplicaSet → ℤ
unfolding replica_spec_from
total_replica_spec rss = replica_spec_from (pos 0) rss

unfoldable pub available_from : ℤ → List ReplicaSet → ℤ
available_from total [] = total
available_from total (rs ∷ rss) =
    available_from (add32 total (min_ℤ rs.status.available_replicas (replicas_of rs))) rss

unfoldable pub total_available_replicas : List ReplicaSet → ℤ
unfolding available_from
total_available_replicas rss = available_from (pos 0) rss

unfoldable pub old_replicas_from : ReplicaSet → ℤ → List ReplicaSet → ℤ
old_replicas_from current total [] = total
old_replicas_from current total (rs ∷ rss) =
    old_replicas_from current (if is_same rs current then total else add32 total (replicas_of rs))
      rss

unfoldable pub total_old_replicas : ReplicaSet → List ReplicaSet → ℤ
unfolding old_replicas_from is_same
total_old_replicas current rss = old_replicas_from current (pos 0) rss

abbrev pub add_optional : ℤ → Option ℤ → ℤ
add_optional total none = total
add_optional total (some n) = add32 total n

unfoldable pub old_observed_from : ReplicaSet → ℤ → List ReplicaSet → ℤ
old_observed_from current total [] = total
old_observed_from current total (rs ∷ rss) =
    old_observed_from current
      (if is_same rs current
        then total
        else add_optional (add32 total rs.status.replicas) rs.status.terminating_replicas)
      rss

unfoldable pub total_old_observed_pods : ReplicaSet → List ReplicaSet → ℤ
unfolding old_observed_from is_same
total_old_observed_pods current rss = old_observed_from current (pos 0) rss
