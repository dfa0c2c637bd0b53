-- ===== src/Manager/Order.antt =====
-- In which order main sets the manager up, and what it takes to start it.
use mathlib.Core.List.{append_assoc}
use churnless.Base.{◌≡◌, ◌∙◌, true, some, String, List, [], ◌∷◌, ◌++◌}
use churnless.Action.{Result, ok, err, Action, ◌>>◌, continue, wrapping, wrap_error}
use churnless.Upstream.{Upstream}
use churnless.Manager.Options.{Flags, ManagerOptions, manager_options}
use churnless.Manager.Runtime.{Runtime, DeploymentReconciler, ReplicaSetReconciler}
use churnless.Manager.Main.{
  deployment_reader, replica_set_reader, pod_controller_uid, exit_code, setup_deployment_controller,
  setup_replica_set_controller, register_and_start, register_webhooks_and_start, main,
}
use churnless.Manager.Calls.{
  Call, create_manager, deployment_webhook, replica_set_webhook, healthz_check, readyz_check, start,
  Event, succeeded, event, Notes, Logs, InOrder, done, stopped, passed, planned, MainOrder,
  no_manager, with_manager,
}

module _ {W R : Type 0} (log : W → List (Event R)) where
  abbrev Runs : List (Call R) → (W → Result (Unit {0}) × W) → Type 0
  Runs cs act =
      (w : W)
      → (es : List (Event R)) × (log (act w).1 ≡ log w ++ es) × InOrder cs (exit_code (act w).0) es

  Runs-then :
      (c : Call R) (cs : List (Call R)) (act k : Action W (Unit {0}))
      → Notes log c act
      → Runs cs k
      → Runs (c ∷ cs) (act >> k)
  Runs-then c cs act k notes runs w = after (act w) (notes w)
    where
      after :
          (p : Result (Unit {0}) × W)
          → log p.1 ≡ log w ++ event c p.0 ∷ []
          → (es : List (Event R)) × (log (continue (λ _. k) p.0 p.1).1 ≡ log w ++ es)
            × InOrder (c ∷ cs) (exit_code (continue (λ _. k) p.0 p.1).0) es
      after (ok x, w') e =
          let (es, same, order) = runs w' in
          (
            succeeded c ∷ es,
            same ∙ rw e (append_assoc (log w) (succeeded c ∷ []) es),
            passed c order,
          )
      after (err x, w') e = (_, e, stopped c cs)

  Runs-assoc :
      (cs : List (Call R)) (a b k : Action W (Unit {0}))
      → Runs cs (a >> (b >> k))
      → Runs cs ((a >> b) >> k)
  Runs-assoc cs a b k runs w = regrouped (a w) (runs w)
    where
      regrouped :
          (p : Result (Unit {0}) × W)
          → (let q = continue (λ _. b >> k) p.0 p.1 in
              (es : List (Event R)) × (log q.1 ≡ log w ++ es) × InOrder cs (exit_code q.0) es)
          → (let q = continue (λ _. b) p.0 p.1 in
              let q' = continue (λ _. k) q.0 q.1 in
              (es : List (Event R)) × (log q'.1 ≡ log w ++ es) × InOrder cs (exit_code q'.0) es)
      regrouped (ok x, w') h = h
      regrouped (err x, w') h = h

  Runs-last : (c : Call R) (act : Action W (Unit {0})) → Notes log c act → Runs (c ∷ []) act
  Runs-last c act notes w = after (act w) (notes w)
    where
      after :
          (p : Result (Unit {0}) × W)
          → log p.1 ≡ log w ++ event c p.0 ∷ []
          → (es : List (Event R)) × (log p.1 ≡ log w ++ es) × InOrder (c ∷ []) (exit_code p.0) es
      after (ok x, w') e = (_, e, passed c done)
      after (err x, w') e = (_, e, stopped c [])

  Notes-wrapping :
      (c : Call R) (s : String) (act : Action W (Unit {0}))
      → Notes log c act
      → Notes log c (wrapping s act)
  Notes-wrapping c s act notes w = after (act w) (notes w)
    where
      after :
          (p : Result (Unit {0}) × W)
          → log p.1 ≡ log w ++ event c p.0 ∷ []
          → log p.1 ≡ log w ++ event c (wrap_error s p.0) ∷ []
      after (ok x, w') e = e
      after (err x, w') e = e

module _ (up : Upstream) (runtime : Runtime) (log : runtime.World → List (Event runtime.Reader))
    (logs : Logs up runtime log) where
  webhooks-Runs :
      (m : runtime.Manager)
      → Runs log
          (deployment_webhook
            ∷ replica_set_webhook
            ∷ healthz_check "healthz"
            ∷ readyz_check "readyz"
            ∷ start
            ∷ [])
          (register_webhooks_and_start up runtime m)
  unfolding register_webhooks_and_start
  webhooks-Runs m = Runs-then log _ _ _ _ (logs.deployment_hook m) (
      Runs-then log _ _ _ _ (logs.replica_set_hook m) (
        Runs-then log _ _ _ _ (logs.healthz m "healthz")
          (Runs-then log _ _ _ _ (logs.readyz m "readyz") (Runs-last log _ _ (logs.started m)))))

  register_and_start-Runs :
      (m : runtime.Manager) → Runs log (planned up runtime m) (register_and_start up runtime m)
  unfolding register_and_start setup_deployment_controller setup_replica_set_controller
      deployment_reader replica_set_reader
  register_and_start-Runs m =
      let live = some (runtime.get_api_reader m) in
      let client = runtime.get_client m in
      let deployments : DeploymentReconciler runtime.Reader = record {
        client = client;
        api_reader = live;
      } in
      let sets : ReplicaSetReconciler runtime.Reader = record {
        client = client;
        api_reader = live;
        pod_owner_indexed = true;
      } in
      let index =
        wrapping "index Pods by controller UID"
          (runtime.index_pods m ".metadata.controllerUID" (pod_controller_uid up)) in
      Runs-then log _ _ _ _ (logs.deployments m deployments) (
        Runs-assoc log _ index (runtime.complete_replica_set_controller m sets)
          (register_webhooks_and_start up runtime m)
          (Runs-then log _ _ index _
            (Notes-wrapping log _ "index Pods by controller UID" _
              (logs.indexed m ".metadata.controllerUID"))
            (Runs-then log _ _ _ _ (logs.replica_sets m sets) (webhooks-Runs m))))

  -- For a world that logs the calls: main makes the calls that follow, in this order, up to the first
  -- that fails, and its exit code is 1 where one fails and else 0. It creates the manager; registers
  -- the Deployment controller, which reads from the API server; the index of the Pods and, after it,
  -- the ReplicaSet controller, which reads from the API server and uses the index; the two webhooks;
  -- the two checks; and starts the manager.
  pub main-MainOrder :
      (flags : Flags) (w : runtime.World)
      → let (code, w') = main up runtime flags w in
        (es : List (Event runtime.Reader)) × (log w' ≡ log w ++ es)
        × MainOrder up runtime (manager_options flags) code es
  unfolding main
  main-MainOrder flags w = after (runtime.new_manager o w) (logs.created o w)
    where
      o : ManagerOptions
      o = manager_options flags

      after :
          (p : Result runtime.Manager × runtime.World)
          → log p.1 ≡ log w ++ event (create_manager o) p.0 ∷ []
          → let q = continue (register_and_start up runtime) p.0 p.1 in
            (es : List (Event runtime.Reader)) × (log q.1 ≡ log w ++ es)
            × MainOrder up runtime o (exit_code q.0) es
      after (ok m, w') e =
          let (es, same, order) = register_and_start-Runs m w' in
          (
            succeeded (create_manager o) ∷ es,
            same ∙ rw e (append_assoc (log w) (succeeded (create_manager o) ∷ []) es),
            with_manager m order,
          )
      after (err x, w') e = (_, e, no_manager)
