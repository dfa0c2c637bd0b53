-- ===== src/Workload/Update.antt =====
-- updatePods: patches Pods to the template, within a budget of Pods in flight.
pub mod Accepted
pub mod Budget
pub mod Converges
pub mod Flight
pub mod History
pub mod Idle
pub mod Outdated
pub mod Rollout
use churnless.Base.{
  ℕ, suc, ◌+◌, Bool, true, false, ◌&&◌, ◌||◌, not, Option, some, String, List, [], ◌∷◌, ltb, leb,
  count_if, sort_stable, if◌then◌else◌,
}
use churnless.Int32.{ℤ, pos, ltb_ℤ}
use churnless.StringMap.{put}
use churnless.Api.{PodTemplateSpec, Pod}
use churnless.Action.{
  StatusReason, bad_request, forbidden, invalid, method_not_allowed, not_found, Error, Result, ok,
  err, Action, pure, fail, lift, ◌>>=◌, ◌>>◌, attempt, wrapping, ignoring_not_found, wrap,
}
use churnless.Upstream.{Upstream}
use churnless.Client.{Client}
use churnless.Workload.Template.{MutablePodPolicy, revision, revision_annotation}
use churnless.Workload.Images.{set_pod_images}
use churnless.Workload.Metadata.{set_pod_metadata}
use churnless.Workload.Resources.{pod_has_resizable_resources, set_pod_resizable_resources}
use churnless.Workload.Progress.{resize_infeasible, spec_matches, ready_and_observed}

abbrev pub is_fallback_reason : StatusReason → Bool
is_fallback_reason bad_request = true
is_fallback_reason forbidden = true
is_fallback_reason invalid = true
is_fallback_reason method_not_allowed = true
is_fallback_reason not_found = true
is_fallback_reason _ = false

unfoldable pub fallback_from_resize_error : Error → Bool
fallback_from_resize_error e = is_fallback_reason e.reason

abbrev pub created_before : Pod → Pod → Bool
created_before left right = ltb left.metadata.creation_timestamp right.metadata.creation_timestamp

module _ (up : Upstream) (policy : MutablePodPolicy) (template : PodTemplateSpec) where
  unfoldable pub is_in_flight : Pod → Bool
  is_in_flight pod =
      not (resize_infeasible policy pod)
      && spec_matches up policy pod template
      && not (ready_and_observed up policy pod template)

  -- The labels and annotations that a patch gives the Pod.
  unfoldable pub with_metadata : Pod → Pod
  with_metadata pod =
      let marked = set_pod_metadata up pod template in
      record marked {
        metadata = record marked.metadata {
          annotations =
              put revision_annotation (revision up policy template) marked.metadata.annotations;
        };
      }

module _ (up : Upstream) (api : Client up.Selector) (policy : MutablePodPolicy)
    (template : PodTemplateSpec) where
  -- The Pod in memory after the request, whether it was accepted or the Pod was deleted for it.
  unfoldable pub resize_or_replace : Pod → Action api.World Pod
  unfolding fallback_from_resize_error
  resize_or_replace pod = do
    wanted ← lift (set_pod_resizable_resources pod template)
    answer ← attempt (api.resize_pod wanted)
    elim answer [
      | ok resized ↦ pure resized
      | err e ↦ elim (fallback_from_resize_error e) [
        | false ↦ fail (wrap "resize Pod" e)
        | true ↦ do
          wrapping "replace Pod after resize rejection" (ignoring_not_found (api.delete_pod wanted))
          pure wanted
      ]
    ]

  unfoldable pub update_pod : Pod → Action api.World Pod
  unfolding resize_or_replace with_metadata
  update_pod pod = do
    changed ← lift (set_pod_images pod template)
    patched ← wrapping "patch Pod" (api.patch_pod pod (with_metadata up policy template changed))
    elim (policy.resize_resources && not (pod_has_resizable_resources up patched template)) [
      | true ↦ resize_or_replace patched
      | false ↦ pure patched
    ]

  -- The Pods as they are in memory after the loop, which stops when the budget is used up.
  unfoldable pub update_loop : (Pod → Bool) → ℕ → ℕ → List Pod → Action api.World (List Pod)
  unfolding update_pod
  update_loop eligible parallelism in_flight [] = pure []
  update_loop eligible parallelism in_flight (pod ∷ pods) = elim (leb parallelism in_flight) [
    | true ↦ pure (pod ∷ pods)
    | false ↦ elim (eligible pod) [
      | false ↦ do rest ← update_loop eligible parallelism in_flight pods; pure (pod ∷ rest)
      | true ↦ elim (resize_infeasible policy pod) [
        | true ↦ do
          wrapping "replace Pod after infeasible resize" (ignoring_not_found (api.delete_pod pod))
          rest ← update_loop eligible parallelism (suc in_flight) pods
          pure (pod ∷ rest)
        | false ↦ elim (spec_matches up policy pod template) [
          | true ↦ do rest ← update_loop eligible parallelism in_flight pods; pure (pod ∷ rest)
          | false ↦ do
            updated ← update_pod pod
            rest ← update_loop eligible parallelism (suc in_flight) pods
            pure (updated ∷ rest)
        ]
      ]
    ]
  ]

  abbrev budget_loop : (Pod → Bool) → ℤ → List Pod → Action api.World (List Pod)
  budget_loop eligible (pos parallelism) pods =
      update_loop eligible parallelism
        (count_if (λ pod. eligible pod && is_in_flight up policy template pod) pods)
        (sort_stable created_before pods)
  budget_loop eligible (ℤ.negsuc n) pods = pure pods

  -- Nothing happens, not even the sort, where the budget is less than one.
  unfoldable pub update_pods : (Pod → Bool) → ℤ → List Pod → Action api.World (List Pod)
  unfolding update_loop is_in_flight
  update_pods eligible parallelism pods = elim (ltb_ℤ parallelism (pos 1)) [
    | true ↦ pure pods
    | false ↦ budget_loop eligible parallelism pods
  ]
