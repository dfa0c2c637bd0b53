-- ===== src/Workload/Resources.antt =====
-- podHasResizableResources and setPodResizableResources.
pub mod Kept
pub mod Laws
use churnless.Base.{
  Bool, true, false, ◌&&◌, Option, none, some, String, List, [], ◌∷◌, str_eq, if◌then◌else◌,
}
use churnless.StringMap.{copy}
use churnless.Api.{ResourceRequirements, Container, PodTemplateSpec, Pod}
use churnless.Action.{Result, ok, err, bind, new_error}
use churnless.Upstream.{Upstream}
use churnless.Workload.Template.{clear_resizable, resizable_resources}
use churnless.Workload.Images.{has_container}

abbrev or_later :
    Option ResourceRequirements → Option ResourceRequirements → Option ResourceRequirements
or_later none d = d
or_later (some v) d = some v

-- The resizable resources of the last container of a name.
unfoldable pub resources_of : List Container → String → Option ResourceRequirements
resources_of [] name = none
resources_of (c ∷ cs) name =
    or_later (resources_of cs name)
      (if str_eq c.name name then some (resizable_resources c.resources) else none)

-- What one container's resources become.
unfoldable pub resize : ResourceRequirements → ResourceRequirements → ResourceRequirements
unfolding clear_resizable resizable_resources
resize current desired =
    let cleared = clear_resizable current in
    let wanted = resizable_resources desired in
    record cleared {
      requests = copy cleared.requests wanted.requests;
      limits = copy cleared.limits wanted.limits;
    }

unfoldable pub set_resources : List Container → String → ResourceRequirements → List Container
unfolding resize
set_resources [] name desired = []
set_resources (c ∷ cs) name desired =
    let rest = set_resources cs name desired in
    if has_container cs name
    then c ∷ rest
    else (if str_eq c.name name
        then record c { resources = resize c.resources desired } ∷ cs
        else c ∷ cs)

unfoldable pub set_container_resources : List Container → List Container → Result (List Container)
unfolding set_resources has_container
set_container_resources current [] = ok current
set_container_resources current (d ∷ desired) =
    let rest = set_container_resources (set_resources current d.name d.resources) desired in
    if has_container current d.name
    then rest
    else err (new_error "container is missing from Pod during resize")

unfoldable pub set_pod_resizable_resources : Pod → PodTemplateSpec → Result Pod
unfolding set_container_resources
set_pod_resizable_resources pod template =
    bind (set_container_resources pod.spec.containers template.spec.containers)
      λ containers. ok (record pod { spec = record pod.spec { containers = containers } })

module _ (up : Upstream) where
  abbrev same_resources : Option ResourceRequirements → ResourceRequirements → Bool
  same_resources none desired = false
  same_resources (some current) desired = up.resources_equal current desired

  unfoldable pub containers_have_resources : List Container → List Container → Bool
  unfolding resources_of resizable_resources
  containers_have_resources current [] = true
  containers_have_resources current (d ∷ desired) =
      same_resources (resources_of current d.name) (resizable_resources d.resources)
      && containers_have_resources current desired

  unfoldable pub pod_has_resizable_resources : Pod → PodTemplateSpec → Bool
  unfolding containers_have_resources
  pod_has_resizable_resources pod template =
      containers_have_resources pod.spec.containers template.spec.containers
