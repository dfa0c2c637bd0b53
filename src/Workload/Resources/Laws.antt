-- ===== src/Workload/Resources/Laws.antt =====
-- Setting the resizable resources of a template makes the Pod have them.
use churnless.Base.{
  ◌≡◌, refl, ap, ◌∙◌, inl, inr, Bool, true, false, Bool-cases, none, some, String, List, [], ◌∷◌,
  All, arith, str_eq, eq_iff, if◌then◌else◌,
}
use churnless.StringMap.{StringMap, lookup, copy, delete, keep_keys, lookup-copy, lookup-delete}
use churnless.Api.{ResourceRequirements, Container, PodTemplateSpec, Pod}
use churnless.Action.{Result, ok, err, bind}
use churnless.Upstream.{Upstream}
use churnless.Workload.Template.{
  clear_resizable, resizable_resources, is_resizable, resource_cpu, resource_memory,
}
use churnless.Workload.Images.{has_container}
use churnless.Workload.Images.Laws.{DistinctNames}
use churnless.Workload.Resources.{
  resources_of, resize, set_resources, set_container_resources, set_pod_resizable_resources,
  containers_have_resources, pod_has_resizable_resources,
}

-- The same entries, whatever their order.
abbrev pub SameEntries : StringMap → StringMap → Type 0
SameEntries m n = (k : String) → lookup k m ≡ lookup k n

-- apiequality.Semantic.DeepEqual does not tell resources with the same entries apart.
pub record EqualByEntries (up : Upstream) : Type 0 where
  pub equal :
      (a b : ResourceRequirements)
      → SameEntries a.requests b.requests
      → SameEntries a.limits b.limits
      → a.claims ≡ b.claims
      → up.resources_equal a b ≡ true

lookup-keep_keys :
    (p : String → Bool) (k : String) (m : StringMap)
    → lookup k (keep_keys p m) ≡ (if p k then lookup k m else none)
unfolding lookup keep_keys
lookup-keep_keys p k [] = ground arith
lookup-keep_keys p k ((j, v) ∷ m) = ground (arith, eq_iff j k, lookup-keep_keys p k m)

replaced_entries :
    (m n : StringMap)
    → SameEntries
        (keep_keys is_resizable
          (copy (delete resource_memory (delete resource_cpu m)) (keep_keys is_resizable n)))
        (keep_keys is_resizable n)
replaced_entries m n k = ground (
  arith,
  lookup-keep_keys is_resizable k
      (copy (delete resource_memory (delete resource_cpu m)) (keep_keys is_resizable n)),
  lookup-copy k (delete resource_memory (delete resource_cpu m)) (keep_keys is_resizable n),
  lookup-delete resource_memory k (delete resource_cpu m),
  lookup-delete resource_cpu k m,
  lookup-keep_keys is_resizable k n,
  eq_iff k resource_cpu,
  eq_iff k resource_memory,
  eq_iff resource_cpu k,
  eq_iff resource_memory k,
)

pub has_container-set_resources :
    (cs : List Container) (n : String) (d : ResourceRequirements) (j : String)
    → has_container (set_resources cs n d) j ≡ has_container cs j
unfolding set_resources has_container
has_container-set_resources [] n d j = refl
has_container-set_resources (c ∷ cs) n d j = ground (arith, has_container-set_resources cs n d j)

resources_of-missing :
    (cs : List Container) (name : String)
    → has_container cs name ≡ false
    → resources_of cs name ≡ none
unfolding resources_of has_container
resources_of-missing [] name h = refl
resources_of-missing (c ∷ cs) name h = ground (arith, resources_of-missing cs name)

-- The container of the name gets the resources.
resources_of-set :
    (cs : List Container) (n : String) (d : ResourceRequirements)
    → has_container cs n ≡ true
    → (r : ResourceRequirements) × (resources_of (set_resources cs n d) n
        ≡ some (resizable_resources (resize r d)))
unfolding resources_of set_resources has_container
resources_of-set [] n d h = absurd (cc h)
resources_of-set (c ∷ cs) n d h = elim (Bool-cases (has_container cs n)) [
  | inl there ↦ let (r, e) = resources_of-set cs n d there in (r, ground (arith, e, there))
  | inr missing ↦ (c.resources, ground (arith, h, missing, resources_of-missing cs n missing))
]

-- Another container keeps its own.
resources_of-untouched :
    (cs : List Container) (n j : String) (d : ResourceRequirements)
    → str_eq n j ≡ false
    → resources_of (set_resources cs n d) j ≡ resources_of cs j
unfolding resources_of set_resources has_container
resources_of-untouched [] n j d ne = refl
resources_of-untouched (c ∷ cs) n j d ne =
    ground
      (arith, ne, resources_of-untouched cs n j d ne, eq_iff n j, eq_iff c.name n, eq_iff c.name j)

resources_of-later :
    (current desired u : List Container) (j : String)
    → set_container_resources current desired ≡ ok u
    → All (λ d. str_eq d.name j ≡ false) desired
    → resources_of u j ≡ resources_of current j
unfolding set_container_resources
resources_of-later current [] u j e a = let same : current ≡ u = cc e in rw (← same) refl
resources_of-later current (d ∷ desired) u j e a =
    elim (Bool-cases (has_container current d.name)) [
      | inr missing ↦ cc (let f = rw missing at e in f)
      | inl there ↦
          let next = set_resources current d.name d.resources in
          resources_of-later next desired u j (rw there at e) a.1
          ∙ resources_of-untouched current d.name j d.resources a.0
    ]

module _ (up : Upstream) (semantics : EqualByEntries up) where
  resize-equal :
      (r d : ResourceRequirements)
      → up.resources_equal (resizable_resources (resize r d)) (resizable_resources d) ≡ true
  unfolding resize clear_resizable resizable_resources
  resize-equal r d =
      semantics.equal _ _ (replaced_entries r.requests d.requests)
        (replaced_entries r.limits d.limits) refl

  resources_set :
      (current desired u : List Container)
      → set_container_resources current desired ≡ ok u
      → DistinctNames desired
      → containers_have_resources up u desired ≡ true
  unfolding set_container_resources containers_have_resources
  resources_set current [] u e distinct = refl
  resources_set current (d ∷ desired) u e distinct =
      elim (Bool-cases (has_container current d.name)) [
        | inr missing ↦ cc (let f = rw missing at e in f)
        | inl there ↦
            let next = set_resources current d.name d.resources in
            let after = rw there at e in
            let (r, found) = resources_of-set current d.name d.resources there in
            let kept : resources_of u d.name ≡ some (resizable_resources (resize r d.resources)) =
              resources_of-later next desired u d.name after distinct.0 ∙ found in
            rw kept (
              ground
                (arith, resize-equal r d.resources, resources_set next desired u after distinct.1))
      ]

  -- Where Semantic.DeepEqual does not tell resources with the same entries apart, and the template's
  -- containers have distinct names: a Pod to which setPodResizableResources could give the resources of
  -- the template has them, as podHasResizableResources sees it, so that it is not resized again.
  pub set_pod_resizable_resources-has :
      (pod after : Pod) (template : PodTemplateSpec)
      → DistinctNames template.spec.containers
      → set_pod_resizable_resources pod template ≡ ok after
      → pod_has_resizable_resources up after template ≡ true
  unfolding set_pod_resizable_resources pod_has_resizable_resources
  set_pod_resizable_resources-has pod after template distinct e =
      by_result (set_container_resources pod.spec.containers template.spec.containers) refl e
    where
      by_result :
          (r : Result (List Container))
          → set_container_resources pod.spec.containers template.spec.containers ≡ r
          → bind r
              (λ containers. ok (record pod { spec = record pod.spec { containers = containers } }))
            ≡ ok after
          → containers_have_resources up after.spec.containers template.spec.containers ≡ true
      by_result (ok u) same h =
          let resized : record pod { spec = record pod.spec { containers = u } } ≡ after = cc h in
          let written : u ≡ after.spec.containers = ap (λ (p : Pod). p.spec.containers) resized in
          rw (← written) (resources_set _ _ u same distinct)
      by_result (err x) same h = absurd (cc h)
