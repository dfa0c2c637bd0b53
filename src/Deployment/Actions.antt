-- ===== src/Deployment/Actions.antt =====
-- The steps of the Deployment reconciler that call the API server, and what they build.
use churnless.Base.{
  Bool, true, false, ◌&&◌, not, Option, none, some, String, List, [], ◌∷◌, map, keep, any, codes,
  str_eq, ltb, if◌then◌else◌,
}
use churnless.Int32.{ℤ, pos, ltb_ℤ, eqb_ℤ}
use churnless.StringMap.{get, put, equal, has_key}
use churnless.Api.{
  ObjectMeta, LabelSelector, PodTemplateSpec, Pod, PodPhase, pod_failed, pod_succeeded, ReplicaSet,
  Deployment,
}
use churnless.Action.{
  ok, err, Action, pure, fail, lift, ◌>>=◌, ◌>>◌, infallible, attempt, wrapping, ignoring_not_found,
  new_error, is_not_found, wrap_error,
}
use churnless.Upstream.{Upstream}
use churnless.Client.{Client, ObjectKey}
use churnless.Workload.Template.{
  structural_revision_label, mutable_pod_policy_for, apply_resource_policy,
}
use churnless.Deployment.Totals.{
  desired_replicas, replicas_of, is_same, total_old_replicas, total_old_observed_pods,
}
use churnless.Deployment.Limits.{is_recreate, rolling_limits}
use churnless.Deployment.Status.{new_deployment_status}
use churnless.Deployment.Naming.{replica_set_name}
use churnless.Deployment.Rolling.{rolling_target}

abbrev pub in_place_parallelism_annotation : String
in_place_parallelism_annotation = "churnless.io/in-place-parallelism"

abbrev pub key_of : ObjectMeta → ObjectKey
key_of m = record { namespace = m.namespace; name = m.name }

-- The first ReplicaSet that carries the revision.
unfoldable pub replica_set_for_revision : List ReplicaSet → String → Option ReplicaSet
replica_set_for_revision [] revision = none
replica_set_for_revision (rs ∷ rss) revision =
    let rest = replica_set_for_revision rss revision in
    if str_eq (get rs.metadata.labels structural_revision_label) revision then some rs else rest

newest_from : ReplicaSet → List ReplicaSet → ReplicaSet
newest_from best [] = best
newest_from best (rs ∷ rss) =
    newest_from
      (if ltb best.metadata.creation_timestamp rs.metadata.creation_timestamp then rs else best) rss

-- slices.MaxFunc gives the first of the greatest; it is called on a list that is not empty.
unfoldable pub newest_replica_set : List ReplicaSet → Option ReplicaSet
unfolding newest_from
newest_replica_set [] = none
newest_replica_set (rs ∷ rss) = some (newest_from rs rss)

abbrev pub label_template : String → PodTemplateSpec → PodTemplateSpec
label_template revision t = record t { labels = put structural_revision_label revision t.labels }

unfoldable pub new_replica_set : Deployment → String → LabelSelector → ReplicaSet
new_replica_set workload revision selector = record {
  metadata = record {
    name = replica_set_name workload.metadata.name (codes revision);
    generate_name = [];
    namespace = workload.metadata.namespace;
    uid = "";
    generation = pos 0;
    creation_timestamp = 0;
    deletion_timestamp = none;
    labels = (structural_revision_label, revision) ∷ [];
    annotations =
        apply_resource_policy (mutable_pod_policy_for workload.metadata.annotations)
          ((in_place_parallelism_annotation, "0") ∷ []);
    finalizers = [];
    owner_references = [];
  };
  spec = record {
    replicas = some (pos 0);
    min_ready_seconds = workload.spec.min_ready_seconds;
    selector = some (record selector {
      match_labels = put structural_revision_label revision selector.match_labels;
    });
    template = label_template revision workload.spec.template;
  };
  status = record {
    observed_generation = pos 0;
    replicas = pos 0;
    fully_labeled_replicas = pos 0;
    ready_replicas = pos 0;
    available_replicas = pos 0;
    terminating_replicas = none;
    selector = "";
    in_place = none;
  };
}

unfoldable pub first_old_with_replicas : ReplicaSet → List ReplicaSet → Option ReplicaSet
first_old_with_replicas current [] = none
first_old_with_replicas current (rs ∷ rss) =
    let rest = first_old_with_replicas current rss in
    if not (is_same rs current) && ltb_ℤ (pos 0) (replicas_of rs) then some rs else rest

abbrev pub is_terminal : PodPhase → Bool
is_terminal pod_failed = true
is_terminal pod_succeeded = true
is_terminal _ = false

abbrev pub old_uids : ReplicaSet → List ReplicaSet → List String
old_uids current rss = map (λ rs. rs.metadata.uid) (keep (λ rs. not (is_same rs current)) rss)

module _ (up : Upstream) where
  -- The object that syncReplicaSet sends, before it looks whether anything has changed.
  unfoldable pub synced : Deployment → ReplicaSet → String → ℤ → ReplicaSet
  synced workload rs revision parallelism = record {
    metadata = record rs.metadata {
      annotations =
          apply_resource_policy (mutable_pod_policy_for workload.metadata.annotations)
            (put in_place_parallelism_annotation (up.itoa parallelism) rs.metadata.annotations);
    };
    spec = record rs.spec {
      min_ready_seconds = workload.spec.min_ready_seconds;
      template =
          if workload.spec.paused
          then rs.spec.template
          else label_template revision workload.spec.template;
    };
    status = rs.status;
  }

  -- A Pod that may still run and that an old ReplicaSet controls.
  unfoldable pub is_old_running : List String → Pod → Bool
  is_old_running old_uids pod = elim (up.get_controller_of pod.metadata) [
    | none ↦ false
    | some owner ↦ has_key owner.uid old_uids && not (is_terminal pod.status.phase)
  ]

module _ (up : Upstream) (api : Client up.Selector) where
  unfoldable pub remove_legacy_shadow : Deployment → Action api.World Bool
  remove_legacy_shadow workload = do
    found ← attempt (api.reader_get_native_deployment (key_of workload.metadata))
    elim found [
      | err e ↦ elim (is_not_found e) [ true ↦ pure false | false ↦ fail e ]
      | ok shadow ↦ elim (up.is_controlled_by shadow workload.metadata) [
        | false ↦ pure false
        | true ↦ do
          wrapping "delete legacy native Deployment"
              (ignoring_not_found (api.delete_native_deployment shadow))
          pure true
      ]
    ]

  unfoldable pub list_replica_sets : Deployment → Action api.World (List ReplicaSet)
  list_replica_sets workload = do
    items ← api.reader_list_replica_sets workload.metadata.namespace
    pure (keep (λ rs. up.is_controlled_by rs.metadata workload.metadata) items)

  unfoldable pub create_with : Deployment → String → LabelSelector → Action api.World (Unit {0})
  create_with workload revision selector = do
    let rs = new_replica_set workload revision selector
    metadata ← lift (up.set_controller_reference workload.metadata rs.metadata)
    wrapping "create Churnless ReplicaSet"
        (api.create_replica_set (record rs { metadata = metadata }))

  unfoldable pub create_replica_set : Deployment → String → Action api.World (Unit {0})
  unfolding create_with
  create_replica_set workload revision = elim workload.spec.selector [
    | none ↦ fail (new_error "create Churnless ReplicaSet: spec.selector is required")
    | some selector ↦ create_with workload revision selector
  ]

  -- Whether a patch was sent; the object in memory is `synced` either way.
  unfoldable pub sync_replica_set : Deployment → ReplicaSet → String → ℤ → Action api.World Bool
  unfolding synced
  sync_replica_set workload rs revision parallelism =
      let after = synced up workload rs revision parallelism in
      elim (up.spec_equal rs.spec after.spec
        && equal rs.metadata.annotations after.metadata.annotations) [
          | true ↦ pure false
          | false ↦ do
            wrapping "update Churnless ReplicaSet" (api.patch_replica_set rs after)
            pure true
        ]

  unfoldable pub scale_replica_set : ReplicaSet → ℤ → Action api.World Bool
  scale_replica_set rs replicas = elim (eqb_ℤ (replicas_of rs) replicas) [
    | true ↦ pure false
    | false ↦ do
      wrapping "scale Churnless ReplicaSet" (
          api.patch_replica_set rs
            (record rs { spec = record rs.spec { replicas = some replicas } }))
      pure true
  ]

  -- Whether a listed Pod of one of the old ReplicaSets may still run; nothing is listed for none.
  unfoldable pub list_old_running : Deployment → List String → Action api.World Bool
  unfolding is_old_running
  list_old_running workload [] = pure false
  list_old_running workload (uid ∷ uids) = do
    selector ← lift (
        wrap_error "parse Deployment selector for Recreate rollout"
          (up.label_selector_as_selector workload.spec.selector))
    pods ←
        wrapping "list Pods for Recreate rollout"
          (api.reader_list_matching_pods workload.metadata.namespace selector)
    pure (any (is_old_running up (uid ∷ uids)) pods)

  unfoldable pub old_pods_running :
      Deployment → ReplicaSet → List ReplicaSet → Action api.World Bool
  unfolding list_old_running
  old_pods_running workload current rss =
      elim (ltb_ℤ (pos 0) (total_old_observed_pods current rss)) [
        | true ↦ pure true
        | false ↦ list_old_running workload (old_uids current rss)
      ]

  unfoldable pub recreate_rollout :
      Deployment → ReplicaSet → List ReplicaSet → Action api.World Bool
  unfolding first_old_with_replicas scale_replica_set old_pods_running
  recreate_rollout workload current rss = elim (first_old_with_replicas current rss) [
    | some old ↦ scale_replica_set old (pos 0)
    | none ↦ do
      running ← old_pods_running workload current rss
      elim (eqb_ℤ (total_old_replicas current rss) (pos 0) && not running) [
        | true ↦ scale_replica_set current (desired_replicas workload.spec.replicas)
        | false ↦ pure false
      ]
  ]

  unfoldable pub rolling_rollout : Deployment → ReplicaSet → List ReplicaSet → Action api.World Bool
  unfolding rolling_target scale_replica_set
  rolling_rollout workload current rss = do
    let desired = desired_replicas workload.spec.replicas
    (max_surge, max_unavailable) ← lift (rolling_limits up workload desired)
    elim (rolling_target desired max_surge max_unavailable current rss) [
      | none ↦ pure false
      | some (rs, replicas) ↦ scale_replica_set rs replicas
    ]

  unfoldable pub rollout : Deployment → ReplicaSet → List ReplicaSet → Action api.World Bool
  unfolding recreate_rollout rolling_rollout
  rollout workload current rss =
      if is_recreate workload.spec.strategy.type
      then recreate_rollout workload current rss
      else rolling_rollout workload current rss

  -- The Deployment in memory afterwards: after a patch, what the API server has answered.
  unfoldable pub update_deployment_status :
      Deployment → ReplicaSet → List ReplicaSet → Action api.World Deployment
  update_deployment_status workload current rss = do
    selector ←
        lift (wrap_error "format selector" (up.label_selector_as_selector workload.spec.selector))
    now ← infallible api.now
    later ← infallible api.now
    let status =
        new_deployment_status up now later workload current rss (up.selector_to_string selector)
    elim (up.deployment_status_equal workload.status status) [
      | true ↦ pure workload
      | false ↦ api.patch_deployment_status workload (record workload { status = status })
    ]
