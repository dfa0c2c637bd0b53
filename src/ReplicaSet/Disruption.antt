-- ===== src/ReplicaSet/Disruption.antt =====
-- The two controllers together: how many Pods an in-place update takes down at a time.
use churnless.Base.{
  ℕ, ◌+◌, ◌-◌, ◌≤◌, ◌<◌, ◌≡◌, ◌∙◌, sym, subst, ◌⊎◌, inl, inr, max, false, some, String, List, All,
  arith, str_eq,
}
use churnless.Int32.{ℤ, pos, limit}
use churnless.Api.{Deployment, ReplicaSet, Pod}
use churnless.Action.{ok}
use churnless.Upstream.{Upstream}
use churnless.Client.{Client}
use churnless.Workload.Template.{mutable_pod_policy_for}
use churnless.Workload.Progress.{all_pods}
use churnless.Workload.Update.{update_pods}
use churnless.Workload.Update.Flight.{in_flight, update_pods_flight}
use churnless.Deployment.Totals.{desired_replicas}
use churnless.Deployment.Counts.{IsCounted, sum_spec, sum_available}
use churnless.Deployment.Limits.{is_recreate, deployment_fenceposts, deployment_parallelism}
use churnless.Deployment.Parallelism.{deployment_parallelism_bound}
use churnless.Deployment.Actions.{synced}
use churnless.ReplicaSet.Pods.{replica_set_parallelism}
use churnless.ReplicaSet.Handoff.{replica_set_parallelism-synced}

split : (a b n missing most : ℕ) → a ≤ max b n → n + missing ≤ most → (a ≤ b) ⊎ (a + missing ≤ most)
split a b n missing most h k = ground (arith, h, k)

module _ (up : Upstream) (api : Client up.Selector) where
  -- What the ReplicaSet controller does to the Pods of a ReplicaSet, as `converge` does it.
  abbrev pub updates :
      ReplicaSet → List Pod → api.World → churnless.Action.Result (List Pod) × api.World
  updates rs pods =
      update_pods up api (mutable_pod_policy_for rs.metadata.annotations) rs.spec.template all_pods
        (replica_set_parallelism up rs) pods

  abbrev pub flying : ReplicaSet → List Pod → ℕ
  flying rs =
      in_flight up api (mutable_pod_policy_for rs.metadata.annotations) rs.spec.template all_pods

  -- For a Deployment that is not Recreate and wants `d` > 0 replicas, whose maxUnavailable resolves to
  -- `m`, and whose counts are not negative and fit int32 together: once the Deployment controller has
  -- written the budget `p` into a ReplicaSet, as a text that is not empty and that strconv.Atoi reads, a
  -- successful update of any Pods by the ReplicaSet controller leaves no more of them in flight than
  -- before, or so many that with the replicas that were missing they do not pass `m` (or 1, where `m`
  -- is 0).
  pub in_place_disruption :
      (deployment : Deployment) (rss : List ReplicaSet) (rs : ReplicaSet) (revision : String)
      (d m : ℕ) (surge p : ℤ) (pods after : List Pod) (w w' : api.World)
      → 0 < d
      → desired_replicas deployment.spec.replicas ≡ pos d
      → is_recreate deployment.spec.strategy.type ≡ false
      → up.resolve_fenceposts
          (deployment_fenceposts deployment).0
          (deployment_fenceposts deployment).1
          (pos d)
        ≡ ok (surge, pos m)
      → All IsCounted rss
      → sum_spec rss < limit
      → deployment_parallelism up deployment rss ≡ ok p
      → up.atoi (up.itoa p) ≡ some p
      → str_eq (up.itoa p) "" ≡ false
      → updates (synced up deployment rs revision p) pods w ≡ (ok after, w')
      → let written = synced up deployment rs revision p in
        (flying written after ≤ flying written pods)
        ⊎ (flying written after + (d - sum_available rss) ≤ max m 1)
  in_place_disruption deployment rss rs revision d m surge p pods after w w' some_wanted wants
        rolling limits counted small budget reads some_text run =
      let (n, value, spent, _) =
        deployment_parallelism_bound up deployment rss d m surge some_wanted wants rolling limits
          counted small in
      let same : p ≡ pos n = cc (sym budget ∙ value) in
      let written = synced up deployment rs revision p in
      let read : replica_set_parallelism up written ≡ pos n =
        subst (λ z. replica_set_parallelism up (synced up deployment rs revision z) ≡ pos n)
          (sym same)
          (replica_set_parallelism-synced up deployment rs revision n
            (subst (λ z. up.atoi (up.itoa z) ≡ some z) same reads)
            (subst (λ z. str_eq (up.itoa z) "" ≡ false) same some_text)) in
      let le =
        update_pods_flight up api (mutable_pod_policy_for written.metadata.annotations)
          written.spec.template all_pods n pods after w w' (rw read at run) in
      elim spent [
        | inl none_left ↦ inl (omega (arith, le, none_left))
        | inr within ↦ split _ _ n _ (max m 1) le within
      ]
