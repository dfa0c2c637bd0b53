-- ===== src/Admission/Admits.antt =====
-- What the webhooks of internal/webhook/v1alpha1 let through.
use churnless.Base.{ℕ, ◌≡◌, ◌↔◌, refl, Option, none, some, String, List, [], ◌∷◌, ◌++◌}
use churnless.Api.{LabelSelector, Deployment, DeploymentSpec}
use churnless.Action.{Result, ok, err}
use churnless.Admission.Kubernetes.{Kubernetes, AppsKind}
use churnless.Admission.Validate.{to_internal, validate_internal, validate, validate_deployment}
use churnless.Admission.Webhook.{
  invalid_unless_empty, deployment_validation_error, validate_deployment_update,
}

pub append-empty {ℓ} : {A : Type ℓ} (xs ys : List A) → (xs ++ ys ≡ []) ↔ ((xs ≡ []) × (ys ≡ []))
append-empty [] ys = ((λ e. (refl, e)), λ (_, e). e)
append-empty (x ∷ xs) ys = ((λ e. absurd (cc e)), λ (e, _). absurd (cc e))

-- ValidateImmutableField has no error where the two values are equal to Kubernetes, and only there.
pub record SelectorLaws (k8s : Kubernetes) : Type 1 where
  pub Same : Option LabelSelector → Option LabelSelector → Type 0
  pub same_refl : (a : Option LabelSelector) → Same a a
  pub same_trans : (a b c : Option LabelSelector) → Same a b → Same b c → Same a c
  pub immutable :
      (a b : Option LabelSelector) (path : List String)
      → (k8s.validate_immutable_field a b path ≡ []) ↔ Same a b

module _ (k8s : Kubernetes) (laws : SelectorLaws k8s) {Spec : Type 0}
    (kind : AppsKind k8s Spec) where
  -- Both specs convert, upstream has no objection, and the selector is the same.
  pub record Admits (spec old : Spec) : Type 0 where
    pub current : kind.Internal
    pub previous : kind.Internal
    pub converts : kind.convert spec ≡ ok current
    pub converts_old : kind.convert old ≡ ok previous
    pub valid :
        kind.validate_spec current
          (some previous)
          ("spec" ∷ [])
          (k8s.validation_options (kind.template current) (some (kind.template previous)))
        ≡ []
    pub same_selector : laws.Same (kind.selector current) (kind.selector previous)

  Admits-from :
      (spec old : Spec) (current previous : kind.Internal)
      → kind.convert spec ≡ ok current
      → kind.convert old ≡ ok previous
      → (validate_internal k8s kind current (some previous) ≡ []) ↔ Admits spec old
  unfolding validate_internal
  Admits-from spec old current previous c c' =
      let (both, back) =
        append-empty
          (kind.validate_spec current (some previous) ("spec" ∷ [])
            (k8s.validation_options (kind.template current) (some (kind.template previous))))
          (k8s.validate_immutable_field (kind.selector current) (kind.selector previous)
            ("spec" ∷ "selector" ∷ [])) in
      let (same, same_back) =
        laws.immutable (kind.selector current) (kind.selector previous)
          ("spec" ∷ "selector" ∷ []) in
      (
        (λ e. record {
          current = current;
          previous = previous;
          converts = c;
          converts_old = c';
          valid = (both e).0;
          same_selector = same (both e).1;
        }),
        (λ a.
            let now : a.current ≡ current = cc (a.converts, c) in
            let before : a.previous ≡ previous = cc (a.converts_old, c') in
            back (rw (← now, ← before) a.valid, same_back (rw (← now, ← before) a.same_selector))),
      )

  validate-Admits : (spec old : Spec) → (validate k8s kind spec (some old) ≡ []) ↔ Admits spec old
  unfolding validate to_internal
  validate-Admits spec old = by_conversion (kind.convert spec) (kind.convert old) refl refl
    where
      by_conversion :
          (c c' : Result kind.Internal)
          → kind.convert spec ≡ c
          → kind.convert old ≡ c'
          → (validate k8s kind spec (some old) ≡ []) ↔ Admits spec old
      by_conversion (ok current) (ok previous) c c' =
          rw (validate, to_internal, c, c') (Admits-from spec old current previous c c')
      by_conversion (ok current) (err x) c c' =
          rw (validate, to_internal, c, c')
            ((λ e. absurd (cc e)), λ a. absurd (cc (a.converts_old, c')))
      by_conversion (err x) c' c e =
          rw (validate, to_internal, c) ((λ e. absurd (cc e)), λ a. absurd (cc (a.converts, c)))

module _ (k8s : Kubernetes) (laws : SelectorLaws k8s) (kind : AppsKind k8s DeploymentSpec) where
  pub no_error-none :
      (name : List ℕ) (errs : List k8s.FieldError)
      → invalid_unless_empty k8s "Deployment" name errs ≡ none
      → errs ≡ []
  no_error-none name [] e = refl
  no_error-none name (x ∷ errs) e = absurd (cc e)

  validation-Admits :
      (obj old : Deployment)
      → (deployment_validation_error k8s kind obj (some old) ≡ none)
        ↔ Admits k8s laws kind obj.spec old.spec
  unfolding deployment_validation_error validate_deployment
  validation-Admits obj old =
      let (there, back) = validate-Admits k8s laws kind obj.spec old.spec in
      ((λ e. there (no_error-none _ _ e)), (λ a. rw (back a) refl))

  -- Where ValidateImmutableField has no error just for equal selectors: the update of a Deployment is
  -- let through if and only if both specs convert, upstream has no objection to the new one, and the
  -- selector is the same.
  pub validate_deployment_update-Admits :
      (old new : Deployment)
      → ((validate_deployment_update k8s kind old new).1 ≡ none)
        ↔ Admits k8s laws kind new.spec old.spec
  unfolding validate_deployment_update
  validate_deployment_update-Admits old new = validation-Admits new old
