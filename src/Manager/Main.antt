-- ===== src/Manager/Main.antt =====
-- cmd/main.go from the options on, the SetupWithManager functions of the controllers, and reader().
use churnless.Base.{ℕ, true, false, Option, none, some, String, List, [], ◌∷◌}
use churnless.Api.{OwnerReference, ObjectMeta}
use churnless.Action.{Result, ok, err, Action, ◌>>=◌, ◌>>◌, wrapping}
use churnless.Upstream.{Upstream}
use churnless.Manager.Options.{Flags, manager_options}
use churnless.Manager.Runtime.{Runtime, DeploymentReconciler, ReplicaSetReconciler}

-- `if r.APIReader == nil { r.APIReader = ... }`
abbrev pub or_given {ℓ} : {A : Type ℓ} → Option A → A → A
or_given none x = x
or_given (some y) x = y

unfoldable pub deployment_reader : {R : Type 0} → DeploymentReconciler R → R
deployment_reader r = or_given r.api_reader r.client

unfoldable pub replica_set_reader : {R : Type 0} → ReplicaSetReconciler R → R
replica_set_reader r = or_given r.api_reader r.client

abbrev pub pod_controller_uid_index : String
pod_controller_uid_index = ".metadata.controllerUID"

abbrev uid_of : Option OwnerReference → List String
uid_of none = []
uid_of (some owner) = owner.uid ∷ []

unfoldable pub pod_controller_uid : Upstream → ObjectMeta → List String
pod_controller_uid up object = uid_of (up.get_controller_of object)

-- os.Exit(1) on an error, and 0 where main returns.
abbrev pub exit_code : Result (Unit {0}) → ℕ
exit_code (ok u) = 0
exit_code (err e) = 1

module _ (up : Upstream) (runtime : Runtime) where
  unfoldable pub setup_deployment_controller :
      DeploymentReconciler runtime.Reader → runtime.Manager → Action runtime.World (Unit {0})
  setup_deployment_controller r mgr =
      runtime.complete_deployment_controller mgr
        (record r { api_reader = some (or_given r.api_reader (runtime.get_api_reader mgr)) })

  unfoldable pub setup_replica_set_controller :
      ReplicaSetReconciler runtime.Reader → runtime.Manager → Action runtime.World (Unit {0})
  unfolding pod_controller_uid
  setup_replica_set_controller r mgr =
      wrapping "index Pods by controller UID"
        (runtime.index_pods mgr pod_controller_uid_index (pod_controller_uid up))
      >> runtime.complete_replica_set_controller mgr (record r {
        api_reader = some (or_given r.api_reader (runtime.get_api_reader mgr));
        pod_owner_indexed = true;
      })

  -- main from the webhooks on, up to the first error.
  unfoldable pub register_webhooks_and_start : runtime.Manager → Action runtime.World (Unit {0})
  register_webhooks_and_start mgr =
      runtime.complete_deployment_webhook mgr
      >> (runtime.complete_replica_set_webhook mgr
          >> (runtime.add_healthz_check mgr "healthz"
              >> (runtime.add_readyz_check mgr "readyz" >> runtime.start mgr)))

  -- main after ctrl.NewManager.
  unfoldable pub register_and_start : runtime.Manager → Action runtime.World (Unit {0})
  unfolding setup_deployment_controller setup_replica_set_controller register_webhooks_and_start
  register_and_start mgr =
      setup_deployment_controller (record { client = runtime.get_client mgr; api_reader = none })
        mgr
      >> (setup_replica_set_controller
            (record {
              client = runtime.get_client mgr;
              api_reader = none;
              pod_owner_indexed = false;
            })
            mgr
          >> register_webhooks_and_start mgr)

  unfoldable pub main : Flags → runtime.World → ℕ × runtime.World
  unfolding register_and_start manager_options
  main flags w =
      let (r, w') = (runtime.new_manager (manager_options flags) >>= register_and_start) w in
      (exit_code r, w')
