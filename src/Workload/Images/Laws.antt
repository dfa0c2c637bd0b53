-- ===== src/Workload/Images/Laws.antt =====
-- Setting the images of a template's containers makes the Pod have them, and touches nothing else.
use churnless.Base.{
  ◌≡◌, refl, ◌∙◌, inl, inr, true, false, ◌&&◌, Bool-cases, none, some, String, List, [], ◌∷◌, map,
  All, arith, str_eq, eq_iff, if◌then◌else◌,
}
use churnless.Api.{Container}
use churnless.Action.{ok}
use churnless.Workload.Images.{
  image_of, has_container, set_image, set_container_images, pod_containers_have_images,
}

-- No two containers of the list have one name.
abbrev pub DistinctNames : List Container → Type 0
DistinctNames [] = Unit
DistinctNames (c ∷ cs) = All (λ d. str_eq d.name c.name ≡ false) cs × DistinctNames cs

image_of-missing :
    (cs : List Container) (name : String) → has_container cs name ≡ false → image_of cs name ≡ none
unfolding image_of has_container
image_of-missing [] name h = refl
image_of-missing (c ∷ cs) name h = ground (arith, image_of-missing cs name)

has_container-set_image :
    (cs : List Container) (n image j : String)
    → has_container (set_image cs n image) j ≡ has_container cs j
unfolding set_image has_container
has_container-set_image [] n image j = refl
has_container-set_image (c ∷ cs) n image j = ground (arith, has_container-set_image cs n image j)

image_of-set_image :
    (cs : List Container) (n image j : String)
    → image_of (set_image cs n image) j
      ≡ (if str_eq n j && has_container cs n then some image else image_of cs j)
unfolding image_of set_image has_container
image_of-set_image [] n image j = ground arith
image_of-set_image (c ∷ cs) n image j = ground (
  arith,
  image_of-set_image cs n image j,
  image_of-missing cs j,
  eq_iff n j,
  eq_iff c.name n,
  eq_iff c.name j,
)

-- Where the images could be set, the image of a container that the template does not name stays as it
-- was.
pub image_of-untouched :
    (current desired : List Container) (u : List Container) (j : String)
    → set_container_images current desired ≡ ok u
    → All (λ d. str_eq d.name j ≡ false) desired
    → image_of u j ≡ image_of current j
unfolding set_container_images
image_of-untouched current [] u j e a = let same : current ≡ u = cc e in rw (← same)
image_of-untouched current (d ∷ desired) u j e a =
    elim (Bool-cases (has_container current d.name)) [
      | inr missing ↦ cc (let f = rw missing at e in f)
      | inl there ↦
          let next = set_image current d.name d.image in
          image_of-untouched next desired u j (rw there at e) a.1
          ∙ image_of-set_image current d.name d.image j
          ∙ rw a.0
    ]

images_set :
    (current desired : List Container) (u : List Container)
    → set_container_images current desired ≡ ok u
    → DistinctNames desired
    → pod_containers_have_images u desired ≡ true
unfolding set_container_images pod_containers_have_images
images_set current [] u e distinct = refl
images_set current (d ∷ desired) u e distinct = elim (Bool-cases (has_container current d.name)) [
  | inr missing ↦ cc (let f = rw missing at e in f)
  | inl there ↦
      let next = set_image current d.name d.image in
      let after = rw there at e in
      let later = image_of-untouched next desired u d.name after distinct.0 in
      let now = image_of-set_image current d.name d.image d.name in
      ground (
        arith,
        there,
        later,
        now,
        images_set next desired u after distinct.1,
        eq_iff d.name d.name,
        eq_iff d.image d.image,
      )
]

set_images_succeeds :
    (current desired : List Container)
    → All (λ d. has_container current d.name ≡ true) desired
    → (u : List Container) × (set_container_images current desired ≡ ok u)
unfolding set_container_images
set_images_succeeds current [] a = (current, refl)
set_images_succeeds current (d ∷ desired) a =
    let next = set_image current d.name d.image in
    let (u, e) = set_images_succeeds next desired (still desired a.1) in (u, rw a.0 e)
  where
    still :
        (ds : List Container)
        → All (λ c. has_container current c.name ≡ true) ds
        → All (λ c. has_container (set_image current d.name d.image) c.name ≡ true) ds
    still [] h = tt
    still (c ∷ cs) h = (has_container-set_image current d.name d.image c.name ∙ h.0, still cs h.1)

-- A container without its image.
abbrev pub blank : Container → Container
blank c = record c { image = "" }

set_image-blank :
    (cs : List Container) (n image : String) → map blank (set_image cs n image) ≡ map blank cs
unfolding set_image
set_image-blank [] n image = refl
set_image-blank (c ∷ cs) n image = ground (arith, set_image-blank cs n image)

set_container_images-blank :
    (current desired : List Container) (u : List Container)
    → set_container_images current desired ≡ ok u
    → map blank u ≡ map blank current
unfolding set_container_images
set_container_images-blank current [] u e = let same : current ≡ u = cc e in rw (← same)
set_container_images-blank current (d ∷ desired) u e =
    elim (Bool-cases (has_container current d.name)) [
      | inr missing ↦ cc (let f = rw missing at e in f)
      | inl there ↦
          set_container_images-blank (set_image current d.name d.image) desired u (rw there at e)
          ∙ set_image-blank current d.name d.image
    ]

-- Where every container of a template (of distinct names) is in the Pod, its images can be set; the
-- Pod's containers then have them, and are otherwise what they were.
pub set_container_images-have :
    (current desired : List Container)
    → DistinctNames desired
    → All (λ d. has_container current d.name ≡ true) desired
    → (u : List Container) × (set_container_images current desired ≡ ok u)
      × (pod_containers_have_images u desired ≡ true)
      × (map blank u ≡ map blank current)
set_container_images-have current desired distinct there =
    let (u, e) = set_images_succeeds current desired there in
    (u, e, images_set current desired u e distinct, set_container_images-blank current desired u e)
