-- ===== src/Workload/Resources/Kept.antt =====
-- Setting resources succeeds where the containers are there, and keeps their names and images.
use churnless.Base.{◌≡◌, refl, ◌∙◌, true, String, List, [], ◌∷◌, All, arith}
use churnless.Api.{ResourceRequirements, Container}
use churnless.Action.{ok}
use churnless.Workload.Images.{image_of, has_container, pod_containers_have_images}
use churnless.Workload.Resources.{set_resources, set_container_resources}
use churnless.Workload.Resources.Laws.{has_container-set_resources}

-- The names and the images of two lists of containers are the same.
pub record SameImages (current u : List Container) : Type 0 where
  pub image : (j : String) → image_of u j ≡ image_of current j
  pub container : (j : String) → has_container u j ≡ has_container current j

image_of-set_resources :
    (cs : List Container) (n : String) (d : ResourceRequirements) (j : String)
    → image_of (set_resources cs n d) j ≡ image_of cs j
unfolding set_resources image_of has_container
image_of-set_resources [] n d j = refl
image_of-set_resources (c ∷ cs) n d j = ground (arith, image_of-set_resources cs n d j)

-- A list of containers has all those that the template names.
abbrev pub HasAll : List Container → List Container → Type 0
HasAll current = All (λ d. has_container current d.name ≡ true)

pub HasAll-same :
    (current u desired : List Container)
    → ((j : String) → has_container u j ≡ has_container current j)
    → HasAll current desired
    → HasAll u desired
HasAll-same current u [] same a = tt
HasAll-same current u (d ∷ desired) same a =
    (same d.name ∙ a.0, HasAll-same current u desired same a.1)

pub pod_containers_have_images-same :
    (current u desired : List Container)
    → SameImages current u
    → pod_containers_have_images u desired ≡ pod_containers_have_images current desired
unfolding pod_containers_have_images
pod_containers_have_images-same current u [] same = refl
pod_containers_have_images-same current u (d ∷ desired) same =
    rw (same.image d.name, pod_containers_have_images-same current u desired same) refl

pub set_container_resources_succeeds :
    (current desired : List Container)
    → HasAll current desired
    → (u : List Container) × (set_container_resources current desired ≡ ok u) × SameImages current u
unfolding set_container_resources
set_container_resources_succeeds current [] a =
    (current, refl, record { image = λ j. refl; container = λ j. refl })
set_container_resources_succeeds current (d ∷ desired) a =
    let next = set_resources current d.name d.resources in
    let still =
      HasAll-same current next desired (has_container-set_resources current d.name d.resources)
        a.1 in
    let (u, e, same) = set_container_resources_succeeds next desired still in
    (
      u,
      rw a.0 e,
      record {
        image = λ j. same.image j ∙ image_of-set_resources current d.name d.resources j;
        container =
            λ j. same.container j ∙ has_container-set_resources current d.name d.resources j;
      },
    )
