-- ===== src/Workload/Structure.antt =====
-- What structuralRevision tells apart.
use churnless.Base.{
  ◌≡◌, refl, sym, ap, ◌∙◌, ◌↔◌, inl, inr, Bool, false, List, [], ◌∷◌, map, arith, Bool-cases,
  eq_iff,
}
use churnless.StringMap.{get}
use churnless.Api.{PodTemplateSpec, Deployment}
use churnless.Upstream.{Upstream}
use churnless.Workload.Template.{
  in_place_resources_best_effort, redeploy_annotation, kubectl_restarted_at_annotation,
  MutablePodPolicy, mutable_pod_policy_for, resource_policy, clear_image, clear_images,
  clear_resizable_resources, clear_container_resources, clear_from_structural, clean_template,
  structural_key, structural_revision,
}
use churnless.Workload.Revisions.{restarted_at-clean_template}
use churnless.Workload.Alike.{
  Pairwise, SameContainer, map-Pairwise, clear_image-SameContainer, cleared, cleared-SameContainer,
}

pub record SameTemplate (resizable : Bool) (t u : PodTemplateSpec) : Type 0 where
  pub finalizers : t.finalizers ≡ u.finalizers
  pub init_containers : Pairwise (SameContainer false) t.spec.init_containers u.spec.init_containers
  pub containers : Pairwise (SameContainer resizable) t.spec.containers u.spec.containers
  pub node_name : t.spec.node_name ≡ u.spec.node_name
  pub rest : t.spec.rest ≡ u.spec.rest

abbrev best_effort : Deployment → Bool
best_effort d = (mutable_pod_policy_for d.metadata.annotations).resize_resources

pub record SameStructure (d e : Deployment) : Type 0 where
  pub policy : best_effort d ≡ best_effort e
  pub template : SameTemplate (best_effort d) d.spec.template e.spec.template
  pub redeploy :
      get d.metadata.annotations redeploy_annotation
      ≡ get e.metadata.annotations redeploy_annotation
  pub restarted :
      get d.metadata.annotations kubectl_restarted_at_annotation
      ≡ get e.metadata.annotations kubectl_restarted_at_annotation
  pub template_restarted :
      get d.spec.template.annotations kubectl_restarted_at_annotation
      ≡ get e.spec.template.annotations kubectl_restarted_at_annotation

emptied : MutablePodPolicy → PodTemplateSpec → PodTemplateSpec
emptied p t = record t {
  labels = [];
  annotations = [];
  spec = record t.spec {
    init_containers = map clear_image t.spec.init_containers;
    containers = map (cleared p.resize_resources) t.spec.containers;
  };
}

map-twice :
    {A B C : Type 0} (f : A → B) (g : B → C) (xs : List A)
    → map g (map f xs) ≡ map (λ x. g (f x)) xs
map-twice f g [] = refl
map-twice f g (x ∷ xs) = rw (map-twice f g xs) refl

clear_from_structural-emptied :
    (p : MutablePodPolicy) (t : PodTemplateSpec)
    → clear_from_structural p (clean_template t) ≡ emptied p t
unfolding clear_from_structural clean_template clear_images clear_resizable_resources emptied
    cleared
clear_from_structural-emptied p t = elim (Bool-cases p.resize_resources) [
  | inl e ↦
      rw
        (
          clear_from_structural,
          emptied,
          e,
          map-twice clear_image clear_container_resources t.spec.containers,
        )
        refl
  | inr e ↦ rw (clear_from_structural, emptied, e) refl
]

emptied-SameTemplate :
    (p : MutablePodPolicy) (t u : PodTemplateSpec)
    → (emptied p t ≡ emptied p u) ↔ SameTemplate p.resize_resources t u
unfolding emptied
emptied-SameTemplate p t u =
    let (inits, inits_back) =
      map-Pairwise clear_image (SameContainer false) clear_image-SameContainer
        t.spec.init_containers u.spec.init_containers in
    let (mains, mains_back) =
      map-Pairwise (cleared p.resize_resources) (SameContainer p.resize_resources)
        (cleared-SameContainer p.resize_resources) t.spec.containers u.spec.containers in
    (
      (λ e. record {
        finalizers = ap (λ k. k.finalizers) e;
        init_containers = inits (ap (λ k. k.spec.init_containers) e);
        containers = mains (ap (λ k. k.spec.containers) e);
        node_name = ap (λ k. k.spec.node_name) e;
        rest = ap (λ k. k.spec.rest) e;
      }),
      λ s.
          rw
            (
              emptied,
              s.finalizers,
              inits_back s.init_containers,
              mains_back s.containers,
              s.node_name,
              s.rest,
            )
            refl,
    )

resource_policy-resize :
    (p q : MutablePodPolicy)
    → (resource_policy p ≡ resource_policy q) ↔ (p.resize_resources ≡ q.resize_resources)
unfolding resource_policy
resource_policy-resize p q = (
  (λ e. ground (arith, e, eq_iff in_place_resources_best_effort "")),
  λ e. rw (resource_policy, e) refl,
)

template_restarts :
    (t u : PodTemplateSpec)
    → (get (clean_template t).annotations kubectl_restarted_at_annotation
        ≡ get (clean_template u).annotations kubectl_restarted_at_annotation)
      ↔ (get t.annotations kubectl_restarted_at_annotation
          ≡ get u.annotations kubectl_restarted_at_annotation)
template_restarts t u =
    rw (restarted_at-clean_template t, restarted_at-clean_template u) ((λ e. e), λ e. e)

structural_key-SameStructure :
    (d e : Deployment) → (structural_key d ≡ structural_key e) ↔ SameStructure d e
unfolding structural_key
structural_key-SameStructure d e =
    let p = mutable_pod_policy_for d.metadata.annotations in
    let q = mutable_pod_policy_for e.metadata.annotations in
    let (policies, policies_back) = resource_policy-resize p q in
    let (restarts, restarts_back) = template_restarts d.spec.template e.spec.template in
    let (templates, templates_back) = emptied-SameTemplate p d.spec.template e.spec.template in
    (
      (λ h.
          let same = policies (ap (λ k. k.resource_policy) h) in
          let same_policy : p ≡ q = ap (λ b. record { resize_resources = b }) same in
          record {
            policy = same;
            template = templates (
                sym (clear_from_structural-emptied p d.spec.template)
                ∙ ap (λ k. k.template) h
                ∙ clear_from_structural-emptied q e.spec.template
                ∙ ap (λ r. emptied r e.spec.template) (sym same_policy));
            redeploy = ap (λ k. k.redeploy) h;
            restarted = ap (λ k. k.workload_restart) h;
            template_restarted = restarts (ap (λ k. k.template_restart) h);
          }),
      λ s.
          let same_policy : p ≡ q = ap (λ b. record { resize_resources = b }) s.policy in
          let same_template =
            clear_from_structural-emptied p d.spec.template
            ∙ templates_back s.template
            ∙ ap (λ r. emptied r e.spec.template) same_policy
            ∙ sym (clear_from_structural-emptied q e.spec.template) in
          rw
            (
              structural_key,
              same_template,
              policies_back s.policy,
              s.redeploy,
              s.restarted,
              restarts_back s.template_restarted,
            )
            refl,
    )

-- Two Deployments whose digests do not collide have the same structural revision exactly where they have the same
-- structure: the same policy for resources, requests to redeploy and to restart, and templates that differ at most in
-- labels, annotations, images and, under the best-effort policy, the cpu and memory of their containers.
pub structural_revision-SameStructure :
    (up : Upstream) (d e : Deployment)
    → (up.structural_digest (structural_key d) ≡ up.structural_digest (structural_key e)
        → structural_key d ≡ structural_key e)
    → (structural_revision up d ≡ structural_revision up e) ↔ SameStructure d e
unfolding structural_revision
structural_revision-SameStructure up d e no_collision =
    let (same, back) = structural_key-SameStructure d e in
    ((λ h. same (no_collision h)), λ s. ap up.structural_digest (back s))
