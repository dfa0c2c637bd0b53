-- ===== src/Witnesses/Rounds.antt =====
-- The theorems on whole rollouts at concrete ReplicaSets.
use churnless.Base.{
  ℕ, ◌+◌, ◌≤◌, ◌<◌, ◌≡◌, refl, inl, inr, max, map, All, if◌then◌else◌, true, false, Option, none,
  some, List, [], ◌∷◌, arith,
}
use churnless.Int32.{ℤ, pos, negsuc, eqb_ℤ, limit}
use churnless.Api.{ReplicaSet}
use churnless.Examples.{
  Cluster, same_replicas, example_upstream, example_api, example_deployment, new_set, cluster,
}
use churnless.Deployment.Totals.{is_same}
use churnless.Deployment.Counts.{spec_count, sum_spec, sum_old}
use churnless.Deployment.Plan.{InRange, plan, to_target, rolling_target-eq}
use churnless.Deployment.Rolling.{rolling_target}
use churnless.Deployment.Fleet.{HasOnce, scaled, with_replicas}
use churnless.Deployment.Actions.{rolling_rollout}
use churnless.Deployment.Reconcile.{reconcile}
use churnless.Deployment.Paused.{CountsRollouts, reconcile-paused}
use churnless.Deployment.Rounds.{Fleet, changed, scale_to, roll, Reach, here, next, rolls}
use churnless.Deployment.Rounds.Reached.{left_of, Reach-surge, rolls-le}
use churnless.Deployment.Rounds.Converges.{rounds, rounds-done}
use churnless.Deployment.Rounds.Refines.{ShowsScaling, Outcome, rolling_rollout-Outcome}
use churnless.Witnesses.Rollouts.{fleet, fleet-InRange, first_step, cluster-CountsReads, web_key}

abbrev at_first : Fleet
at_first = record { current = new_set; sets = fleet }

at_first_small : max (sum_spec fleet) (3 + 1) + max (sum_spec fleet) (3 + 1) < limit
unfolding sum_spec churnless.Deployment.Totals.desired_replicas
at_first_small = ground arith

one_roll : Reach 3 1 1 at_first (changed (scale_to new_set 1) at_first)
one_roll = next here (roll new_set 1 first_step)

Reach-surge_example :
    let after = changed (scale_to new_set 1) at_first in
    InRange 3 1 1 after.current after.sets × (sum_spec after.sets ≤ max (sum_spec fleet) (3 + 1))
Reach-surge_example = Reach-surge 3 1 1 fleet-InRange at_first_small one_roll

rolls-le_example :
    rolls one_roll + left_of 3 (changed (scale_to new_set 1) at_first) ≤ left_of 3 at_first
rolls-le_example = rolls-le 3 1 1 fleet-InRange at_first_small one_roll

rounds-done_example :
    let final = rounds 6 3 1 1 at_first in
    (spec_count final.current ≡ 3) × (sum_old final.current final.sets ≡ 0)
unfolding sum_old is_same churnless.Deployment.Totals.desired_replicas
rounds-done_example =
    rounds-done 3 1 1 6 at_first fleet-InRange at_first_small (λ h. omega arith) (omega arith)

-- Where a ReplicaSet stands in the list as it was read, writing it back changes it alone.
others-written :
    (rs : ReplicaSet) (n : ℕ) (rss : List ReplicaSet)
    → All (λ other. is_same other rs ≡ false) rss
    → map (λ r. if is_same r rs then with_replicas rs n else r) rss ≡ scaled rs n rss
others-written rs n [] a = refl
others-written rs n (r ∷ rss) a = rw (a.0, others-written rs n rss a.1) refl

scaled-written :
    (rs : ReplicaSet) (n : ℕ) (rss : List ReplicaSet)
    → HasOnce rs rss
    → map (λ r. if is_same r rs then with_replicas rs n else r) rss ≡ scaled rs n rss
scaled-written rs n [] h = elim h [ ]
scaled-written rs n (r ∷ rss) (inl (e, a)) = rw (e, others-written rs n rss a) refl
scaled-written rs n (r ∷ rss) (inr (ne, h)) = rw (ne, scaled-written rs n rss h) refl

example_shows : ShowsScaling example_api (λ w. w.replica_sets)
unfolding is_same
example_shows = record {
  patched = λ rs n w once differs. inl (scaled-written rs n w.replica_sets once);
}

rolling_rollout-Outcome_example :
    let (answer, w) =
      rolling_rollout example_upstream example_api example_deployment new_set fleet cluster in
    Outcome 3 1 1 at_first answer w.replica_sets
unfolding churnless.Deployment.Totals.desired_replicas churnless.Deployment.Limits.rolling_limits
    churnless.Int32.min_ℤ
rolling_rollout-Outcome_example =
    rolling_rollout-Outcome example_upstream example_api (λ w. w.replica_sets) example_shows
      example_deployment 3 1 1 new_set fleet cluster refl refl fleet-InRange refl

same_replicas_refl : (n : Option ℤ) → same_replicas n n ≡ true
same_replicas_refl none = refl
same_replicas_refl (some (pos n)) = ground arith
same_replicas_refl (some (negsuc n)) = ground arith

cluster-CountsRollouts : CountsRollouts example_api (λ w. w.rescaled)
cluster-CountsRollouts = record {
  reads = cluster-CountsReads (λ w. w.rescaled) (λ w d. omega arith);
  patch = λ a b. record { at = λ w. omega arith };
  delete_native = λ m. record { at = λ w. omega arith };
  create = λ rs none_yet. record { at = λ w. rw none_yet (omega arith) };
  patch_rs = λ a b replicas template. record {
    at = λ w. rw (replicas, same_replicas_refl a.spec.replicas) (omega arith);
  };
}

abbrev paused_cluster : Cluster
paused_cluster = record cluster {
  deployment =
      some (record example_deployment { spec = record example_deployment.spec { paused = true } });
}

reconcile-paused_example :
    (reconcile example_upstream example_api web_key paused_cluster).1.rescaled ≤ 0
reconcile-paused_example =
    reconcile-paused example_upstream example_api (λ w. w.rescaled) cluster-CountsRollouts
      (record { answered = λ a b still. record { at = λ w. still } }) web_key paused_cluster
      paused_cluster
      (record example_deployment { spec = record example_deployment.spec { paused = true } }) refl
      refl

rolling_target-eq_example :
    rolling_target (pos 3) (pos 1) (pos 1) new_set fleet ≡ to_target (plan 3 1 1 new_set fleet)
rolling_target-eq_example = rolling_target-eq 3 1 1 new_set fleet fleet-InRange
