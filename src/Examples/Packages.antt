-- ===== src/Examples/Packages.antt =====
-- A small stand-in for the upstream packages.
use churnless.Base.{
  Bool, true, false, Option, none, some, String, List, [], ◌∷◌, str_eq, ltb, if◌then◌else◌,
}
use churnless.Int32.{ℤ, pos, eqb_ℤ}
use churnless.StringMap.{StringMap}
use churnless.Api.{
  OwnerReference, PodPhase, pod_running, LabelSelector, IntOrString, from_int, from_string,
}
use churnless.Action.{Result, ok, err, new_error}
use churnless.Upstream.{Upstream}
use churnless.Workload.Metadata.{has_values}

abbrev pub controller_of : List OwnerReference → Option OwnerReference
controller_of [] = none
controller_of (ref ∷ refs) = elim ref.controller [
  | none ↦ controller_of refs
  | some c ↦ if c then some ref else controller_of refs
]

abbrev pub has_uid : String → Option OwnerReference → Bool
has_uid uid none = false
has_uid uid (some ref) = str_eq ref.uid uid

abbrev selector_of : Option LabelSelector → Result StringMap
selector_of none = err (new_error "no selector")
selector_of (some s) = ok s.match_labels

abbrev count_of : IntOrString → ℤ
count_of (from_int n) = n
count_of (from_string s) = pos 1

abbrev is_running : PodPhase → Bool
is_running pod_running = true
is_running _ = false

abbrev marshal : List String → String
marshal [] = "[]"
marshal (k ∷ ks) = k

abbrev unmarshal : String → Option (List String)
unmarshal s = if str_eq s "[]" then some [] else some (s ∷ [])

abbrev digit : ℤ → String
digit n =
    if eqb_ℤ n (pos 0)
    then "0"
    else (if eqb_ℤ n (pos 1) then "1" else (if eqb_ℤ n (pos 2) then "2" else "9"))

abbrev read_digit : String → Option ℤ
read_digit s =
    if str_eq s "0"
    then some (pos 0)
    else (if str_eq s "1" then some (pos 1) else (if str_eq s "2" then some (pos 2) else none))

abbrev pub example_upstream : Upstream
example_upstream = record {
  Selector = StringMap;
  label_selector_as_selector = selector_of;
  selector_to_string = λ s. "selector";
  selector_matches = λ s labels. has_values labels s;
  selector_from_set = λ m. m;
  get_controller_of = λ m. controller_of m.owner_references;
  is_controlled_by = λ m owner. has_uid owner.uid (controller_of m.owner_references);
  set_controller_reference = λ owner m. ok (record m {
    owner_references =
        record {
          api_version = "churnless.io/v1alpha1";
          kind = "ReplicaSet";
          name = owner.name;
          uid = owner.uid;
          controller = some true;
        }
        ∷ m.owner_references;
  });
  resolve_fenceposts = λ surge unavailable desired. ok (count_of surge, count_of unavailable);
  is_pod_ready = λ pod. is_running pod.status.phase;
  is_pod_available = λ pod seconds now. is_running pod.status.phase;
  active_pods_less = λ a b m n now. ltb b.metadata.creation_timestamp a.metadata.creation_timestamp;
  spec_equal = λ a b. eqb_ℤ a.min_ready_seconds b.min_ready_seconds;
  replica_set_status_equal = λ a b. eqb_ℤ a.replicas b.replicas;
  deployment_status_equal = λ a b. eqb_ℤ a.replicas b.replicas;
  resources_equal = λ a b. true;
  structural_digest = λ k. "0123456789";
  in_place_digest = λ k. "abcdef";
  sorted = λ ks. ks;
  marshal_keys = marshal;
  unmarshal_keys = unmarshal;
  familiar_name = some;
  itoa = digit;
  atoi = read_digit;
}
