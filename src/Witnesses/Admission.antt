-- ===== src/Witnesses/Admission.antt =====
-- The theorems on the webhooks with a small stand-in for the upstream packages: a selector that
-- changes is an error, and so is a count of replicas below 0.
use text.Mathlib.TextPositions.{eq_refl}
use churnless.Base.{
  ◌≡◌, ◌↔◌, refl, ◌∙◌, Bool, true, false, ◌&&◌, Option, none, some, String, List, [], ◌∷◌, arith,
  eq_iff, str_eq, if◌then◌else◌,
}
use churnless.Int32.{ℤ, pos, negsuc}
use churnless.StringMap.{StringMap}
use churnless.Api.{LabelSelector, Deployment, DeploymentSpec}
use churnless.Action.{ok, invalid}
use churnless.Examples.{example_deployment}
use churnless.Admission.Kubernetes.{Kubernetes, AppsKind}
use churnless.Admission.Webhook.{
  validate_deployment_update, validate_deployment_create, default_deployment,
}
use churnless.Admission.Admits.{SelectorLaws, Admits, validate_deployment_update-Admits}
use churnless.Admission.History.{Stored, created, updated, KeepsSelector, Stored-KeepsSelector}

abbrev same_texts : List String → List String → Bool
same_texts [] [] = true
same_texts [] (y ∷ ys) = false
same_texts (x ∷ xs) [] = false
same_texts (x ∷ xs) (y ∷ ys) = str_eq x y && same_texts xs ys

abbrev same_maps : StringMap → StringMap → Bool
same_maps [] [] = true
same_maps [] (y ∷ ys) = false
same_maps (x ∷ xs) [] = false
same_maps ((k, v) ∷ xs) ((j, w) ∷ ys) = str_eq k j && (str_eq v w && same_maps xs ys)

abbrev same_selectors : Option LabelSelector → Option LabelSelector → Bool
same_selectors none none = true
same_selectors none (some b) = false
same_selectors (some a) none = false
same_selectors (some a) (some b) =
    same_maps a.match_labels b.match_labels && same_texts a.match_expressions b.match_expressions

same_texts-eq : (xs ys : List String) → same_texts xs ys ≡ true → xs ≡ ys
same_texts-eq [] [] e = refl
same_texts-eq [] (y ∷ ys) e = absurd (cc e)
same_texts-eq (x ∷ xs) [] e = absurd (cc e)
same_texts-eq (x ∷ xs) (y ∷ ys) e =
    let head : x ≡ y = ground (arith, eq_iff x y, e) in
    let tail = same_texts-eq xs ys (ground (arith, e)) in rw (head, tail) refl

same_maps-eq : (xs ys : StringMap) → same_maps xs ys ≡ true → xs ≡ ys
same_maps-eq [] [] e = refl
same_maps-eq [] (y ∷ ys) e = absurd (cc e)
same_maps-eq (x ∷ xs) [] e = absurd (cc e)
same_maps-eq ((k, v) ∷ xs) ((j, w) ∷ ys) e =
    let key : k ≡ j = ground (arith, eq_iff k j, e) in
    let value : v ≡ w = ground (arith, eq_iff v w, e) in
    let tail = same_maps-eq xs ys (ground (arith, e)) in rw (key, value, tail) refl

same_selectors-eq : (a b : Option LabelSelector) → same_selectors a b ≡ true → a ≡ b
same_selectors-eq none none e = refl
same_selectors-eq none (some b) e = absurd (cc e)
same_selectors-eq (some a) none e = absurd (cc e)
same_selectors-eq (some a) (some b) e =
    let labels = same_maps-eq a.match_labels b.match_labels (ground (arith, e)) in
    let expressions = same_texts-eq a.match_expressions b.match_expressions (ground (arith, e)) in
    λ i. some (record { match_labels = labels i; match_expressions = expressions i })

same_texts_refl : (xs : List String) → same_texts xs xs ≡ true
same_texts_refl [] = refl
same_texts_refl (x ∷ xs) = rw (eq_refl x, same_texts_refl xs) refl

same_maps_refl : (xs : StringMap) → same_maps xs xs ≡ true
same_maps_refl [] = refl
same_maps_refl ((k, v) ∷ xs) = rw (eq_refl k, eq_refl v, same_maps_refl xs) refl

same_selectors_refl : (a : Option LabelSelector) → same_selectors a a ≡ true
same_selectors_refl none = refl
same_selectors_refl (some a) =
    rw (same_maps_refl a.match_labels, same_texts_refl a.match_expressions) refl

abbrev no_errors : List String
no_errors = []

abbrev not_mutable : List String
not_mutable = "field is immutable" ∷ []

abbrev example_kubernetes : Kubernetes
example_kubernetes = record {
  Template = Unit;
  Options = Unit;
  FieldError = String;
  internal_error = λ path e. "internal error";
  validation_options = λ a b. tt;
  validate_immutable_field = λ a b path. if same_selectors a b then no_errors else not_mutable;
  is_dns_1123_label = λ name. [];
  warnings_for_pod_template = λ path a b. [];
  print_messages = λ messages. "";
  new_invalid = λ kind name errs. record { reason = invalid; context = errs };
}

abbrev errors_of : Option ℤ → List String
errors_of none = []
errors_of (some (pos n)) = []
errors_of (some (negsuc n)) = "must be greater than or equal to 0" ∷ []

abbrev example_kind : AppsKind example_kubernetes DeploymentSpec
example_kind = record {
  Internal = DeploymentSpec;
  convert = ok;
  template = λ spec. tt;
  selector = λ spec. spec.selector;
  validate_spec = λ spec old path options. errors_of spec.replicas;
  set_defaults = λ spec. spec;
}

example_immutable : (c : Bool) → ((if c then no_errors else not_mutable) ≡ no_errors) ↔ (c ≡ true)
example_immutable true = ((λ e. refl), λ e. refl)
example_immutable false = ((λ e. absurd (cc e)), λ e. absurd (cc e))

example_laws : SelectorLaws example_kubernetes
example_laws = record {
  Same = λ a b. a ≡ b;
  same_refl = λ a. refl;
  same_trans = λ a b c e e'. e ∙ e';
  immutable = λ a b path.
      let (there, back) = example_immutable (same_selectors a b) in
      ((λ e. same_selectors-eq a b (there e)), (λ e. back (rw e (same_selectors_refl b))));
}

-- The Deployment, with another count of replicas.
abbrev grown : Deployment
grown = record example_deployment {
  spec = record example_deployment.spec { replicas = some (pos 5) };
}

accepted :
    (validate_deployment_update example_kubernetes example_kind example_deployment grown).1 ≡ none
unfolding validate_deployment_update churnless.Admission.Webhook.deployment_validation_error
    churnless.Admission.Validate.validate_deployment churnless.Admission.Validate.validate
    churnless.Admission.Validate.to_internal churnless.Admission.Validate.validate_internal
accepted = refl

stored_first :
    (validate_deployment_create example_kubernetes example_kind example_deployment).1 ≡ none
unfolding validate_deployment_create churnless.Admission.Webhook.deployment_validation_error
    churnless.Admission.Validate.validate_deployment churnless.Admission.Validate.validate
    churnless.Admission.Validate.to_internal churnless.Admission.Validate.validate_internal
stored_first = refl

validate_deployment_update-Admits_example :
    ((validate_deployment_update example_kubernetes example_kind example_deployment grown).1 ≡ none)
    ↔ Admits example_kubernetes example_laws example_kind grown.spec example_deployment.spec
validate_deployment_update-Admits_example =
    validate_deployment_update-Admits example_kubernetes example_laws example_kind
      example_deployment grown

history : Stored example_kubernetes example_kind example_deployment grown
unfolding default_deployment
history = updated (created stored_first) grown accepted

Stored-KeepsSelector_example :
    KeepsSelector example_kubernetes example_laws example_kind
      (default_deployment example_kubernetes example_kind example_deployment).spec
      grown.spec
Stored-KeepsSelector_example =
    Stored-KeepsSelector example_kubernetes example_laws example_kind example_deployment grown
      history
