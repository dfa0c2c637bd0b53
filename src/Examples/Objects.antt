-- ===== src/Examples/Objects.antt =====
-- Concrete objects, and the server that has them.
use churnless.Base.{ℕ, true, false, none, some, String, List, [], ◌∷◌, codes}
use churnless.Int32.{pos}
use churnless.StringMap.{StringMap}
use churnless.Api.{
  OwnerReference, ObjectMeta, ResourceRequirements, Container, PodSpec, PodTemplateSpec, PodPhase,
  pod_running, PodStatus, Pod, LabelSelector, ReplicaSet, IntOrString, from_int, from_string,
  rolling_update, DeploymentCondition, Deployment,
}
use churnless.Examples.Server.{Cluster}

abbrev pub metadata_of : List ℕ → String → StringMap → List OwnerReference → ObjectMeta
metadata_of name uid labels owners = record {
  name = name;
  generate_name = [];
  namespace = codes "default";
  uid = uid;
  generation = pos 1;
  creation_timestamp = 5;
  deletion_timestamp = none;
  labels = labels;
  annotations = [];
  finalizers = [];
  owner_references = owners;
}

abbrev pub owned_by : String → List OwnerReference
owned_by uid =
    record {
      api_version = "churnless.io/v1alpha1";
      kind = "Deployment";
      name = codes "web";
      uid = uid;
      controller = some true;
    }
    ∷ []

abbrev pub app_labels : StringMap
app_labels = ("app", "web") ∷ []

abbrev pub no_resources : ResourceRequirements
no_resources = record { requests = []; limits = []; claims = [] }

abbrev pub container_of : String → String → Container
container_of name image = record { name = name; image = image; resources = no_resources; rest = "" }

abbrev pub example_spec : PodSpec
example_spec = record {
  init_containers = [];
  containers = container_of "main" "web:1" ∷ [];
  node_name = "";
  rest = "";
}

abbrev pub example_template : PodTemplateSpec
example_template = record {
  labels = app_labels;
  annotations = [];
  finalizers = [];
  spec = example_spec;
}

abbrev pub example_pod : List ℕ → List OwnerReference → Pod
example_pod name owners = record {
  metadata = metadata_of name "pod-uid" app_labels owners;
  spec = example_spec;
  status = record {
    phase = pod_running;
    resize = "";
    init_container_statuses = [];
    container_statuses = [];
    rest = "";
  };
}

-- A ReplicaSet of the Deployment `d` that asks for `n` replicas, of which `a` are available.
abbrev pub example_set : String → ℕ → ℕ → ReplicaSet
example_set uid n a = record {
  metadata = metadata_of (codes uid) uid [] (owned_by "d");
  spec = record {
    replicas = some (pos n);
    min_ready_seconds = pos 0;
    selector = some (record { match_labels = app_labels; match_expressions = [] });
    template = example_template;
  };
  status = record {
    observed_generation = pos 1;
    replicas = pos n;
    fully_labeled_replicas = pos n;
    ready_replicas = pos a;
    available_replicas = pos a;
    terminating_replicas = none;
    selector = "";
    in_place =
        some (record {
          revision = "abcdef";
          updated_replicas = pos n;
          ready_updated_replicas = pos n;
        });
  };
}

abbrev pub old_condition : DeploymentCondition
old_condition = record {
  type = churnless.Api.replica_failure;
  status = churnless.Api.condition_true;
  reason = "FailedCreate";
  message = "";
  last_update_time = 1;
  last_transition_time = 1;
}

-- A Deployment of three replicas; one Pod may be added and one may be down.
abbrev pub example_deployment : Deployment
example_deployment = record {
  metadata = metadata_of (codes "web") "d" [] [];
  spec = record {
    replicas = some (pos 3);
    selector = some (record { match_labels = app_labels; match_expressions = [] });
    template = example_template;
    strategy = record {
      type = rolling_update;
      rolling = some (record {
        max_surge = some (from_int (pos 1));
        max_unavailable = some (from_int (pos 1));
      });
    };
    min_ready_seconds = pos 0;
    paused = false;
  };
  status = record {
    observed_generation = pos 1;
    replicas = pos 0;
    updated_replicas = pos 0;
    ready_replicas = pos 0;
    available_replicas = pos 0;
    unavailable_replicas = pos 0;
    terminating_replicas = none;
    conditions = old_condition ∷ [];
    collision_count = none;
    selector = "";
    in_place = none;
  };
}

abbrev pub old_set : ReplicaSet
old_set = example_set "old" 3 3

abbrev pub new_set : ReplicaSet
new_set = example_set "new" 0 0

abbrev pub cluster : Cluster
cluster = record {
  deployment = some example_deployment;
  replica_sets = old_set ∷ new_set ∷ [];
  pods = [];
  changes = 0;
  patched = [];
  pod_patches = 0;
  rescaled = 0;
  removed = [];
}
