-- ===== src/Admission/History.antt =====
-- The life of a Deployment behind its webhooks: the API server runs the defaulter and then the
-- validator on each request for a Deployment, and stores what the validator lets through. The
-- webhooks do not see what the status subresource writes.
use churnless.Base.{◌≡◌, refl, none, [], ◌∷◌}
use churnless.Api.{Deployment, DeploymentSpec, DeploymentStatus}
use churnless.Action.{Result, ok, err}
use churnless.Admission.Kubernetes.{Kubernetes, AppsKind}
use churnless.Admission.Validate.{to_internal, validate, validate_deployment}
use churnless.Admission.Webhook.{
  default_deployment, deployment_validation_error, validate_deployment_create,
  validate_deployment_update,
}
use churnless.Admission.Admits.{
  SelectorLaws, Admits, no_error-none, validate_deployment_update-Admits,
}

module _ (k8s : Kubernetes) (kind : AppsKind k8s DeploymentSpec) where
  -- What the API server may have stored for a Deployment that was created by the request `first`.
  pub data Stored (first : Deployment) : Deployment → Type 0 where
    created :
        (validate_deployment_create k8s kind (default_deployment k8s kind first)).1 ≡ none
        → Stored first (default_deployment k8s kind first)
    updated :
        {old : Deployment}
        → Stored first old
        → (new : Deployment)
        → (validate_deployment_update k8s kind old (default_deployment k8s kind new)).1 ≡ none
        → Stored first (default_deployment k8s kind new)
    reported :
        {old : Deployment}
        → Stored first old
        → (status : DeploymentStatus) → Stored first (record old { status = status })

module _ (k8s : Kubernetes) (laws : SelectorLaws k8s) (kind : AppsKind k8s DeploymentSpec) where
  -- Both specs convert, to the same selector.
  pub record KeepsSelector (first last : DeploymentSpec) : Type 0 where
    pub before : kind.Internal
    pub after : kind.Internal
    pub converts_first : kind.convert first ≡ ok before
    pub converts_last : kind.convert last ≡ ok after
    pub same : laws.Same (kind.selector after) (kind.selector before)

  create-converts :
      (obj : Deployment)
      → (validate_deployment_create k8s kind obj).1 ≡ none
      → KeepsSelector obj.spec obj.spec
  unfolding validate_deployment_create deployment_validation_error validate_deployment validate
      to_internal
  create-converts obj e = by_conversion (kind.convert obj.spec) refl
    where
      by_conversion :
          (c : Result kind.Internal) → kind.convert obj.spec ≡ c → KeepsSelector obj.spec obj.spec
      by_conversion (ok internal) c = record {
        before = internal;
        after = internal;
        converts_first = c;
        converts_last = c;
        same = laws.same_refl (kind.selector internal);
      }
      by_conversion (err x) c =
          let found = no_error-none k8s laws kind _ _ e in
          let refused : validate k8s kind obj.spec none ≡ k8s.internal_error ("spec" ∷ []) x ∷ [] =
            rw (validate, to_internal, c) refl in
          absurd (cc (found, refused))

  Admits-keeps :
      (first old new : DeploymentSpec)
      → KeepsSelector first old
      → Admits k8s laws kind new old
      → KeepsSelector first new
  Admits-keeps first old new kept a =
      let middle : a.previous ≡ kept.after = cc (a.converts_old, kept.converts_last) in
      record {
        before = kept.before;
        after = a.current;
        converts_first = kept.converts_first;
        converts_last = a.converts;
        same =
            laws.same_trans (kind.selector a.current) (kind.selector kept.after)
              (kind.selector kept.before) (rw (← middle) a.same_selector) kept.same;
      }

  -- Where ValidateImmutableField has no error just for equal selectors: what the API server has stored
  -- converts, after any updates that passed the webhooks and any writes of the status, and it has the
  -- selector that was defaulted and stored when the Deployment was created.
  pub Stored-KeepsSelector :
      (first last : Deployment)
      → Stored k8s kind first last
      → KeepsSelector (default_deployment k8s kind first).spec last.spec
  Stored-KeepsSelector first last (created e) = create-converts _ e
  Stored-KeepsSelector first last (updated {old} s new e) =
      Admits-keeps _ _ _ (Stored-KeepsSelector first old s)
        ((validate_deployment_update-Admits k8s laws kind old _).0 e)
  Stored-KeepsSelector first last (reported {old} s status) = Stored-KeepsSelector first old s
