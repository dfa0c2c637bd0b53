-- ===== src/Workload/Alike.antt =====
-- Containers that differ at most in what structuralRevision leaves out.
use churnless.Base.{◌≡◌, refl, sym, ap, ◌∙◌, ◌↔◌, Bool, true, false, not, List, [], ◌∷◌, map, arith}
use churnless.StringMap.{StringMap, delete, keep_keys}
use churnless.Api.{ResourceRequirements, Container}
use churnless.Workload.Template.{
  resource_cpu, resource_memory, clear_image, clear_resizable, clear_container_resources,
  is_resizable,
}

-- Lists of one length, related element by element.
abbrev pub Pairwise {ℓ} : {A : Type ℓ} → (A → A → Type 0) → List A → List A → Type 0
Pairwise R [] [] = Unit
Pairwise R (x ∷ xs) (y ∷ ys) = R x y × Pairwise R xs ys
Pairwise R [] (y ∷ ys) = ⊥
Pairwise R (x ∷ xs) [] = ⊥

-- The resources but cpu and memory.
abbrev pub fixed : StringMap → StringMap
fixed m = keep_keys (λ name. not (is_resizable name)) m

-- Under the best-effort policy cpu and memory may differ.
abbrev pub SameResources : Bool → ResourceRequirements → ResourceRequirements → Type 0
SameResources false r s = r ≡ s
SameResources true r s =
    (fixed r.requests ≡ fixed s.requests)
    × (fixed r.limits ≡ fixed s.limits)
    × (r.claims ≡ s.claims)

-- The images may differ.
pub record SameContainer (resizable : Bool) (c d : Container) : Type 0 where
  pub name : c.name ≡ d.name
  pub resources : SameResources resizable c.resources d.resources
  pub rest : c.rest ≡ d.rest

delete-fixed : (m : StringMap) → delete resource_memory (delete resource_cpu m) ≡ fixed m
unfolding delete keep_keys
delete-fixed [] = refl
delete-fixed ((k, v) ∷ m) = ground (arith, delete-fixed m)

module _ {A B : Type 0} (f : A → B) (R : A → A → Type 0)
    (iff : (a b : A) → (f a ≡ f b) ↔ R a b) where
  pub map-Pairwise : (xs ys : List A) → (map f xs ≡ map f ys) ↔ Pairwise R xs ys
  map-Pairwise [] [] = ((λ _. tt), λ _. refl)
  map-Pairwise [] (y ∷ ys) = ((λ e. cc e), λ r. absurd r)
  map-Pairwise (x ∷ xs) [] = ((λ e. cc e), λ r. absurd r)
  map-Pairwise (x ∷ xs) (y ∷ ys) =
      let (here, here_back) = iff x y in
      let (there, there_back) = map-Pairwise xs ys in
      (
        (λ e.
            let same : f x ≡ f y = cc e in
            let tails : map f xs ≡ map f ys = cc e in (here same, there tails)),
        λ (r, rs). let same = here_back r in let tails = there_back rs in cc (same, tails),
      )

pub clear_image-SameContainer :
    (c d : Container) → (clear_image c ≡ clear_image d) ↔ SameContainer false c d
clear_image-SameContainer c d = (
  (λ e. record {
    name = ap (λ k. k.name) e;
    resources = ap (λ k. k.resources) e;
    rest = ap (λ k. k.rest) e;
  }),
  λ s. rw (s.name, s.resources, s.rest) refl,
)

clear_resizable-SameResources :
    (r s : ResourceRequirements) → (clear_resizable r ≡ clear_resizable s) ↔ SameResources true r s
unfolding clear_resizable
clear_resizable-SameResources r s = (
  (λ e. (
    sym (delete-fixed r.requests) ∙ ap (λ k. k.requests) e ∙ delete-fixed s.requests,
    sym (delete-fixed r.limits) ∙ ap (λ k. k.limits) e ∙ delete-fixed s.limits,
    ap (λ k. k.claims) e,
  )),
  λ (requests, limits, claims).
      rw
        (
          clear_resizable,
          delete-fixed r.requests,
          delete-fixed s.requests,
          delete-fixed r.limits,
          delete-fixed s.limits,
          requests,
          limits,
          claims,
        )
        refl,
)

-- What is left of a container of the template.
unfoldable pub cleared : Bool → Container → Container
cleared false c = clear_image c
cleared true c = clear_container_resources (clear_image c)

pub cleared-SameContainer :
    (resizable : Bool) (c d : Container)
    → (cleared resizable c ≡ cleared resizable d) ↔ SameContainer resizable c d
unfolding cleared
cleared-SameContainer false c d = clear_image-SameContainer c d
cleared-SameContainer true c d =
    let (same, back) = clear_resizable-SameResources c.resources d.resources in
    (
      (λ e. record {
        name = ap (λ k. k.name) e;
        resources = same (ap (λ k. k.resources) e);
        rest = ap (λ k. k.rest) e;
      }),
      λ s. rw (s.name, back s.resources, s.rest) refl,
    )
