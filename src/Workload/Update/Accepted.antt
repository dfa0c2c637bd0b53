-- ===== src/Workload/Update/Accepted.antt =====
-- What updatePods makes of a Pod where the API server accepts its requests.
use churnless.Base.{
  ◌≡◌, refl, sym, ◌∙◌, inl, inr, true, Bool-cases, ◌&&◌, ◌||◌, not, List, [], ◌∷◌, String, map,
  arith,
}
use churnless.Api.{Container, PodTemplateSpec, Pod}
use churnless.Action.{ok, continue}
use churnless.Upstream.{Upstream}
use churnless.Client.{Client}
use churnless.Workload.Template.{MutablePodPolicy, revision}
use churnless.Workload.Images.{has_container, set_pod_images, pod_spec_has_images}
use churnless.Workload.Images.Laws.{blank, set_container_images-have}
use churnless.Workload.Metadata.{set_pod_metadata, pod_metadata_matches}
use churnless.Workload.Metadata.Laws.{marked-matches}
use churnless.Workload.Resources.{set_pod_resizable_resources, pod_has_resizable_resources}
use churnless.Workload.Resources.Laws.{EqualByEntries, set_pod_resizable_resources-has}
use churnless.Workload.Resources.Kept.{
  HasAll, HasAll-same, pod_containers_have_images-same, set_container_resources_succeeds,
}
use churnless.Workload.Progress.{spec_matches}
use churnless.Workload.Update.{with_metadata, resize_or_replace, update_pod}
use churnless.Workload.Update.Converges.{IsPlain, pod_spec_has_images-with_metadata}

-- The API server takes every patch and every resize of a Pod, and answers with what it was sent.
pub record Accepts (up : Upstream) (api : Client up.Selector) : Type 0 where
  pub patched : (a b : Pod) (w : api.World) → (w' : api.World) × (api.patch_pod a b w ≡ (ok b, w'))
  pub resized : (p : Pod) (w : api.World) → (w' : api.World) × (api.resize_pod p w ≡ (ok p, w'))

-- A Pod has the containers that the template names.
pub record HasContainers (template : PodTemplateSpec) (pod : Pod) : Type 0 where
  pub inits : HasAll pod.spec.init_containers template.spec.init_containers
  pub containers : HasAll pod.spec.containers template.spec.containers

has_container-blank :
    (cs : List Container) (j : String) → has_container (map blank cs) j ≡ has_container cs j
unfolding has_container
has_container-blank [] j = refl
has_container-blank (c ∷ cs) j = ground (arith, has_container-blank cs j)

has_container-same :
    (current u : List Container)
    → map blank u ≡ map blank current
    → (j : String) → has_container u j ≡ has_container current j
has_container-same current u e j =
    sym (has_container-blank u j) ∙ rw e (has_container-blank current j)

module _ (up : Upstream) (policy : MutablePodPolicy) (template : PodTemplateSpec)
    (plain : IsPlain up template) where
  -- A Pod with the metadata and the images of the template.
  record IsPatched (pod after : Pod) : Type 0 where
    metadata : pod_metadata_matches up after template ≡ true
    images : pod_spec_has_images after template ≡ true
    has : HasContainers template after
    status : after.status ≡ pod.status

  set_pod_images-IsPatched :
      (pod : Pod)
      → HasContainers template pod
      → (changed : Pod) × (set_pod_images pod template ≡ ok changed)
        × IsPatched pod (with_metadata up policy template changed)
  unfolding set_pod_images pod_spec_has_images with_metadata set_pod_metadata
  set_pod_images-IsPatched pod has =
      let (i, set_i, have_i, same_i) =
        set_container_images-have pod.spec.init_containers template.spec.init_containers plain.inits
          has.inits in
      let (c, set_c, have_c, same_c) =
        set_container_images-have pod.spec.containers template.spec.containers plain.containers
          has.containers in
      let changed : Pod = record pod {
        spec = record pod.spec { init_containers = i; containers = c };
      } in
      (
        changed,
        rw (set_i, set_c) refl,
        record {
          metadata =
              marked-matches up changed template (revision up policy template) plain.labels
                plain.annotations plain.own_free plain.label_codec plain.annotation_codec;
          images =
              pod_spec_has_images-with_metadata up policy template changed
              ∙ rw (pod_spec_has_images, have_i, have_c) refl;
          has = record {
            inits = HasAll-same _ i _ (has_container-same _ i same_i) has.inits;
            containers = HasAll-same _ c _ (has_container-same _ c same_c) has.containers;
          };
          status = refl;
        },
      )

  -- A Pod that matches the template; its containers are still there, and its status is as it was.
  pub record IsUpdated (pod after : Pod) : Type 0 where
    pub matches : spec_matches up policy after template ≡ true
    pub has : HasContainers template after
    pub status : after.status ≡ pod.status

  spec_matches_of :
      (pod : Pod)
      → pod_metadata_matches up pod template ≡ true
      → pod_spec_has_images pod template ≡ true
      → (not policy.resize_resources || pod_has_resizable_resources up pod template) ≡ true
      → spec_matches up policy pod template ≡ true
  unfolding spec_matches
  spec_matches_of pod m i r = rw (m, i, r) refl

  module _ (semantics : EqualByEntries up) where
    resized_of :
        (pod after : Pod)
        → IsPatched pod after
        → (wanted : Pod) × (set_pod_resizable_resources after template ≡ ok wanted)
          × IsUpdated pod wanted
    unfolding set_pod_resizable_resources pod_metadata_matches pod_spec_has_images
    resized_of pod after p =
        let (c, set_c, same) =
          set_container_resources_succeeds after.spec.containers template.spec.containers
            p.has.containers in
        let wanted : Pod = record after { spec = record after.spec { containers = c } } in
        let set : set_pod_resizable_resources after template ≡ ok wanted = rw set_c refl in
        let have =
          set_pod_resizable_resources-has up semantics after wanted template plain.containers set in
        (
          wanted,
          set,
          record {
            matches =
                spec_matches_of wanted p.metadata
                  (rw
                    (pod_containers_have_images-same after.spec.containers c
                      template.spec.containers same)
                    p.images)
                  (rw have (ground arith));
            has = record {
              inits = p.has.inits;
              containers = HasAll-same _ c _ same.container p.has.containers;
            };
            status = p.status;
          },
        )

    module _ (api : Client up.Selector) (accepts : Accepts up api) where
      -- For a plain template, where Semantic.DeepEqual does not tell resources with the same entries
      -- apart, and an API server that takes the patch and the resize: for a Pod that has the template's
      -- containers, what updatePods does for one Pod succeeds. The Pod then matches the template, with
      -- its resources where the policy resizes them, has the containers still, and its status is as it
      -- was.
      pub update_pod-IsUpdated :
          (pod : Pod) (w : api.World)
          → HasContainers template pod
          → (after : Pod) × (w' : api.World) × (update_pod up api policy template pod w
              ≡ (ok after, w'))
            × IsUpdated pod after
      unfolding update_pod resize_or_replace
      update_pod-IsUpdated pod w has =
          let (changed, set, p) = set_pod_images-IsPatched pod has in
          let patched = with_metadata up policy template changed in
          let (w1, e1) = accepts.patched pod patched w in
          elim (Bool-cases
            (policy.resize_resources && not (pod_has_resizable_resources up patched template))) [
              | inr off ↦ (
                patched,
                w1,
                rw (update_pod, set, e1, continue, off) refl,
                record {
                  matches = spec_matches_of patched p.metadata p.images (ground (arith, off));
                  has = p.has;
                  status = p.status;
                },
              )
              | inl on ↦
                  let (wanted, set_r, u) = resized_of pod patched p in
                  let (w2, e2) = accepts.resized wanted w1 in
                  (
                    wanted,
                    w2,
                    rw (update_pod, set, e1, continue, on, resize_or_replace, set_r, e2) refl,
                    u,
                  )
            ]
