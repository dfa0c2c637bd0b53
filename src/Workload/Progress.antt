-- ===== src/Workload/Progress.antt =====
-- specMatches, readyAndObserved, resizeInfeasible, calculateProgress, inPlaceStatus and
-- requeueWhileUpdating.
use churnless.Base.{
  ℕ, Bool, true, false, ◌&&◌, ◌||◌, not, String, List, [], ◌∷◌, str_eq, if◌then◌else◌,
}
use churnless.Int32.{ℤ, pos, add32, ltb_ℤ}
use churnless.Api.{PodTemplateSpec, Pod, InPlaceUpdateStatus}
use churnless.Upstream.{Upstream}
use churnless.Workload.Template.{MutablePodPolicy, revision}
use churnless.Workload.Images.{pod_spec_has_images, statuses_have_images}
use churnless.Workload.Metadata.{pod_metadata_matches}
use churnless.Workload.Resources.{pod_has_resizable_resources}

pub record PodProgress : Type 0 where
  pub revision : String
  pub updated : ℤ
  pub ready : ℤ
  pub total : ℤ

-- corev1.PodResizeStatusInfeasible
abbrev pub resize_infeasible_status : String
resize_infeasible_status = "Infeasible"

unfoldable pub resize_infeasible : MutablePodPolicy → Pod → Bool
resize_infeasible p pod = p.resize_resources && str_eq pod.status.resize resize_infeasible_status

abbrev pub all_pods : Pod → Bool
all_pods _ = true

unfoldable pub in_place_status : PodProgress → InPlaceUpdateStatus
in_place_status progress = record {
  revision = progress.revision;
  updated_replicas = progress.updated;
  ready_updated_replicas = progress.ready;
}

-- The delay in seconds; 0 for none.
unfoldable pub requeue_while_updating : PodProgress → ℕ
requeue_while_updating progress =
    if ltb_ℤ progress.updated progress.total || ltb_ℤ progress.ready progress.total then 2 else 0

module _ (up : Upstream) where
  unfoldable pub spec_matches : MutablePodPolicy → Pod → PodTemplateSpec → Bool
  spec_matches p pod template =
      pod_metadata_matches up pod template
      && pod_spec_has_images pod template
      && (not p.resize_resources || pod_has_resizable_resources up pod template)

  unfoldable pub ready_and_observed : MutablePodPolicy → Pod → PodTemplateSpec → Bool
  unfolding spec_matches
  ready_and_observed p pod template =
      if not (spec_matches p pod template)
      then false
      else (if p.resize_resources && not (str_eq pod.status.resize "")
          then false
          else (if not (up.is_pod_ready pod)
              then false
              else statuses_have_images up pod.status.init_container_statuses
                  template.spec.init_containers
                && statuses_have_images up pod.status.container_statuses template.spec.containers))

  module _ (template : PodTemplateSpec) (eligible : Pod → Bool) (policy : MutablePodPolicy) where
    abbrev pub count_pod : Pod → PodProgress → PodProgress
    count_pod pod progress =
        if not (eligible pod)
        then progress
        else (let counted = record progress { total = add32 progress.total (pos 1) } in
            if not (spec_matches policy pod template)
            then counted
            else (let matched = record counted { updated = add32 counted.updated (pos 1) } in
                if ready_and_observed policy pod template
                then record matched { ready = add32 matched.ready (pos 1) }
                else matched))

    unfoldable pub progress_loop : PodProgress → List Pod → PodProgress
    progress_loop progress [] = progress
    progress_loop progress (pod ∷ pods) = progress_loop (count_pod pod progress) pods

    unfoldable pub calculate_progress : List Pod → PodProgress
    unfolding progress_loop
    calculate_progress = progress_loop (record {
      revision = revision up policy template;
      updated = pos 0;
      ready = pos 0;
      total = pos 0;
    })
