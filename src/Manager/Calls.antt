-- ===== src/Manager/Calls.antt =====
-- What is said of main: the calls it makes, in order, up to the first that fails.
use churnless.Base.{ℕ, ◌≡◌, Bool, true, String, List, [], ◌∷◌, ◌++◌}
use churnless.Action.{Result, ok, err}
use churnless.Upstream.{Upstream}
use churnless.Manager.Options.{ManagerOptions}
use churnless.Manager.Runtime.{Runtime, DeploymentReconciler, ReplicaSetReconciler}
use churnless.Manager.Main.{deployment_reader, replica_set_reader, pod_controller_uid}

-- The calls of the manager, as far as the order is about them.
pub data Call (Reader : Type 0) : Type 0 where
  create_manager : ManagerOptions → Call Reader
  index_pods : String → Call Reader
  deployment_controller : Reader → Call Reader
  replica_set_controller : Reader → Bool → Call Reader
  deployment_webhook replica_set_webhook : Call Reader
  healthz_check readyz_check : String → Call Reader
  start : Call Reader

pub data Event (Reader : Type 0) : Type 0 where
  succeeded refused : Call Reader → Event Reader

abbrev pub event {ℓ} : {Reader : Type 0} {A : Type ℓ} → Call Reader → Result A → Event Reader
event c (ok x) = succeeded c
event c (err e) = refused c

-- The action makes the call `c`, once.
abbrev pub Notes {ℓ} :
    {W R : Type 0} {A : Type ℓ} → (W → List (Event R)) → Call R → (W → Result A × W) → Type 0
Notes log c act = (w : _) → log (act w).1 ≡ log w ++ event c (act w).0 ∷ []

-- `log` keeps the calls that were made, with their results.
pub record Logs (up : Upstream) (runtime : Runtime)
    (log : runtime.World → List (Event runtime.Reader)) : Type 0 where
  pub created : (o : ManagerOptions) → Notes log (create_manager o) (runtime.new_manager o)
  pub indexed :
      (m : runtime.Manager) (name : String)
      → Notes log (index_pods name) (runtime.index_pods m name (pod_controller_uid up))
  pub deployments :
      (m : runtime.Manager) (r : DeploymentReconciler runtime.Reader)
      → Notes log
          (deployment_controller (deployment_reader r))
          (runtime.complete_deployment_controller m r)
  pub replica_sets :
      (m : runtime.Manager) (r : ReplicaSetReconciler runtime.Reader)
      → Notes log
          (replica_set_controller (replica_set_reader r) r.pod_owner_indexed)
          (runtime.complete_replica_set_controller m r)
  pub deployment_hook :
      (m : runtime.Manager) → Notes log deployment_webhook (runtime.complete_deployment_webhook m)
  pub replica_set_hook :
      (m : runtime.Manager) → Notes log replica_set_webhook (runtime.complete_replica_set_webhook m)
  pub healthz :
      (m : runtime.Manager) (name : String)
      → Notes log (healthz_check name) (runtime.add_healthz_check m name)
  pub readyz :
      (m : runtime.Manager) (name : String)
      → Notes log (readyz_check name) (runtime.add_readyz_check m name)
  pub started : (m : runtime.Manager) → Notes log start (runtime.start m)

-- The calls are made in turn up to the first that fails; the exit code tells whether one did.
pub data InOrder {R : Type 0} : List (Call R) → ℕ → List (Event R) → Type 0 where
  done : InOrder [] 0 []
  stopped : (c : Call R) (cs : List (Call R)) → InOrder (c ∷ cs) 1 (refused c ∷ [])
  passed :
      (c : Call R) {cs : List (Call R)} {n : ℕ} {es : List (Event R)}
      → InOrder cs n es
      → InOrder (c ∷ cs) n (succeeded c ∷ es)

module _ (up : Upstream) (runtime : Runtime) where
  -- The controllers read from the API server and not from the cache, and the ReplicaSet controller
  -- uses its index, which is there before it.
  abbrev pub planned : runtime.Manager → List (Call runtime.Reader)
  planned m =
      deployment_controller (runtime.get_api_reader m)
      ∷ index_pods ".metadata.controllerUID"
      ∷ replica_set_controller (runtime.get_api_reader m) true
      ∷ deployment_webhook
      ∷ replica_set_webhook
      ∷ healthz_check "healthz"
      ∷ readyz_check "readyz"
      ∷ start
      ∷ []

  pub data MainOrder (o : ManagerOptions) : ℕ → List (Event runtime.Reader) → Type 0 where
    no_manager : MainOrder o 1 (refused (create_manager o) ∷ [])
    with_manager :
        (m : runtime.Manager) {n : ℕ} {es : List (Event runtime.Reader)}
        → InOrder (planned m) n es
        → MainOrder o n (succeeded (create_manager o) ∷ es)
