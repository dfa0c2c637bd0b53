-- ===== src/Workload/Images.antt =====
-- setContainerImages, setPodImages, podContainersHaveImages, podSpecHasImages, statusesHaveImages.
-- The Go maps from a name to an index or an image keep the last container of that name.
pub mod Laws
use churnless.Base.{
  ℕ, Bool, true, false, ◌&&◌, ◌||◌, not, Option, none, some, String, List, [], ◌∷◌, any, str_eq,
  if◌then◌else◌,
}
use churnless.StringMap.{or_empty}
use churnless.Api.{Container, ContainerStatus, PodTemplateSpec, Pod}
use churnless.Action.{Result, ok, err, bind, wrap_error, new_error}
use churnless.Upstream.{Upstream}

abbrev or_later : Option String → Option String → Option String
or_later none d = d
or_later (some v) d = some v

-- `images[name]` for the map from each name to the image of its last container.
unfoldable pub image_of : List Container → String → Option String
image_of [] name = none
image_of (c ∷ cs) name =
    or_later (image_of cs name) (if str_eq c.name name then some c.image else none)

unfoldable pub has_container : List Container → String → Bool
has_container cs name = any (λ c. str_eq c.name name) cs

-- `current[byName[name]].Image = image`: the last container of the name.
unfoldable pub set_image : List Container → String → String → List Container
unfolding has_container
set_image [] name image = []
set_image (c ∷ cs) name image =
    let rest = set_image cs name image in
    if has_container cs name
    then c ∷ rest
    else (if str_eq c.name name then record c { image = image } ∷ cs else c ∷ cs)

-- The images that were written before an error stay written in the Go code, but every caller gives
-- the Pod up then.
unfoldable pub set_container_images : List Container → List Container → Result (List Container)
unfolding set_image has_container
set_container_images current [] = ok current
set_container_images current (d ∷ desired) =
    let rest = set_container_images (set_image current d.name d.image) desired in
    if has_container current d.name then rest else err (new_error "container is missing from Pod")

unfoldable pub set_pod_images : Pod → PodTemplateSpec → Result Pod
unfolding set_container_images
set_pod_images pod template =
    bind
      (wrap_error "init containers"
        (set_container_images pod.spec.init_containers template.spec.init_containers))
      λ inits.
        bind
          (wrap_error "containers"
            (set_container_images pod.spec.containers template.spec.containers))
          λ containers. ok (record pod {
            spec = record pod.spec { init_containers = inits; containers = containers };
          })

unfoldable pub pod_containers_have_images : List Container → List Container → Bool
unfolding image_of
pod_containers_have_images current [] = true
pod_containers_have_images current (d ∷ desired) =
    str_eq (or_empty (image_of current d.name)) d.image
    && pod_containers_have_images current desired

unfoldable pub pod_spec_has_images : Pod → PodTemplateSpec → Bool
unfolding pod_containers_have_images
pod_spec_has_images pod template =
    pod_containers_have_images pod.spec.init_containers template.spec.init_containers
    && pod_containers_have_images pod.spec.containers template.spec.containers

-- `byName[name].Image`, of the last status of the name.
unfoldable pub status_image_of : List ContainerStatus → String → Option String
status_image_of [] name = none
status_image_of (s ∷ ss) name =
    or_later (status_image_of ss name) (if str_eq s.name name then some s.image else none)

abbrev or_given : String → Option String → String
or_given image none = image
or_given image (some familiar) = familiar

module _ (up : Upstream) where
  unfoldable pub normalize_image : String → String
  normalize_image image = or_given image (up.familiar_name image)

  abbrev same_image : Option String → String → Bool
  same_image none image = false
  same_image (some seen) image = str_eq (normalize_image seen) (normalize_image image)

  unfoldable pub statuses_have_images : List ContainerStatus → List Container → Bool
  unfolding normalize_image status_image_of
  statuses_have_images statuses [] = true
  statuses_have_images statuses (d ∷ desired) =
      same_image (status_image_of statuses d.name) d.image && statuses_have_images statuses desired
