-- ===== src/Deployment/Complete.antt =====
-- What deploymentComplete and observedInPlaceStatus promise about the cluster.
use churnless.Base.{
  ◌≡◌, refl, sym, subst, inl, inr, Bool, true, false, ◌&&◌, Bool-cases, some, Option-cases, List,
  str_eq, eq_iff, arith,
}
use churnless.Int32.{ℤ, pos, ltb_ℤ, eqb_ℤ}
use churnless.Api.{ReplicaSet, Deployment, InPlaceUpdateStatus}
use churnless.Upstream.{Upstream}
use churnless.Workload.Template.{mutable_pod_policy_for, revision}
use churnless.Deployment.Totals.{
  desired_replicas, replicas_of, total_old_replicas, total_old_observed_pods,
}
use churnless.Deployment.Status.{observed_in_place_status, deployment_complete}

module _ (up : Upstream) where
  -- The status of the ReplicaSet speaks of the template that it has now.
  pub record IsCurrent (rs : ReplicaSet) (status : InPlaceUpdateStatus) : Type 0 where
    pub observed : ltb_ℤ rs.status.observed_generation rs.metadata.generation ≡ false
    pub reported : rs.status.in_place ≡ some status
    pub revision_eq :
        status.revision
        ≡ revision up (mutable_pod_policy_for rs.metadata.annotations) rs.spec.template

  report_cases :
      (rs : ReplicaSet)
      → eqb_ℤ (observed_in_place_status up rs).updated_replicas (pos 0) ≡ false
      → IsCurrent rs (observed_in_place_status up rs)
  unfolding observed_in_place_status
  report_cases rs h = elim (Option-cases rs.status.in_place) [
    | inl e ↦ absurd (ground (arith, rw (observed_in_place_status, e) at h))
    | inr (s, e) ↦
        let wanted =
          revision up (mutable_pod_policy_for rs.metadata.annotations) rs.spec.template in
        elim (Bool-cases (ltb_ℤ rs.status.observed_generation rs.metadata.generation)) [
          | inl stale ↦ absurd (ground (arith, rw (observed_in_place_status, stale) at h))
          | inr fresh ↦ elim (Bool-cases (str_eq s.revision wanted)) [
            | inr other ↦
                absurd (ground (arith, rw (observed_in_place_status, fresh, e, other) at h))
            | inl match ↦
                let is_s : observed_in_place_status up rs ≡ s =
                  rw (observed_in_place_status, fresh, e, match) refl in
                subst (λ x. IsCurrent rs x) (sym is_s)
                  (record {
                    observed = fresh;
                    reported = e;
                    revision_eq = ground (arith, eq_iff s.revision wanted);
                  })
          ]
        ]
  ]

  all_of :
      (a b c d e f : Bool)
      → (a && b && c && d && e && f) ≡ true
      → (a ≡ true) × (b ≡ true) × (c ≡ true) × (d ≡ true) × (e ≡ true) × (f ≡ true)
  all_of a b c d e f h = ground arith

  -- A Deployment that wants replicas and counts as complete has no old replica and no Pod of an old
  -- ReplicaSet left, all its replicas are asked for and available, and they are all updated and ready
  -- by a report on the current template that its ReplicaSet has made since its last change.
  pub deployment_complete-IsCurrent :
      (workload : Deployment) (current : ReplicaSet) (rss : List ReplicaSet)
      → eqb_ℤ (desired_replicas workload.spec.replicas) (pos 0) ≡ false
      → deployment_complete up workload current rss ≡ true
      → let desired = desired_replicas workload.spec.replicas in
        (eqb_ℤ (total_old_replicas current rss) (pos 0) ≡ true)
        × (eqb_ℤ (total_old_observed_pods current rss) (pos 0) ≡ true)
        × (eqb_ℤ (replicas_of current) desired ≡ true)
        × (eqb_ℤ current.status.available_replicas desired ≡ true)
        × (status : InPlaceUpdateStatus) × IsCurrent current status
        × (eqb_ℤ status.updated_replicas desired ≡ true)
        × (eqb_ℤ status.ready_updated_replicas desired ≡ true)
  unfolding deployment_complete
  deployment_complete-IsCurrent workload current rss some_wanted h =
      let (old, observed, spec, updated, ready, live) = all_of _ _ _ _ _ _ h in
      let desired = desired_replicas workload.spec.replicas in
      let report = report_cases current (
        replaced (observed_in_place_status up current).updated_replicas desired updated
          some_wanted) in
      (old, observed, spec, live, observed_in_place_status up current, report, updated, ready)
    where
      replaced : (a b : ℤ) → eqb_ℤ a b ≡ true → eqb_ℤ b (pos 0) ≡ false → eqb_ℤ a (pos 0) ≡ false
      replaced a b e ne = ground arith
