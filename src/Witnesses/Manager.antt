-- ===== src/Witnesses/Manager.antt =====
-- The theorems on the start of the program: the flags' defaults, and a world that is the list of the
-- calls, in which the readiness check cannot be added.
use churnless.Base.{◌≡◌, refl, String, List, [], ◌∷◌, ◌++◌}
use churnless.Action.{Result, ok, err, new_error}
use churnless.Examples.{example_upstream}
use churnless.Manager.Options.{default_flags, manager_options}
use churnless.Manager.Runtime.{Runtime}
use churnless.Manager.Main.{deployment_reader, replica_set_reader, main}
use churnless.Manager.Calls.{
  Call, create_manager, index_pods, deployment_controller, replica_set_controller,
  deployment_webhook, replica_set_webhook, healthz_check, readyz_check, start, Event, succeeded,
  refused, Logs, MainOrder,
}
use churnless.Manager.Order.{main-MainOrder}

abbrev Log : Type 0
Log = List (Event String)

abbrev made : Call String → Log → Result (Unit {0}) × Log
made c w = (ok tt, w ++ succeeded c ∷ [])

abbrev not_made : Call String → Log → Result (Unit {0}) × Log
not_made c w = (err (new_error "already started"), w ++ refused c ∷ [])

abbrev recording : Runtime
recording = record {
  World = Log;
  Manager = Unit;
  Reader = String;
  new_manager = λ o w. (ok tt, w ++ succeeded (create_manager o) ∷ []);
  get_client = λ m. "cache";
  get_api_reader = λ m. "API server";
  index_pods = λ m name f. made (index_pods name);
  complete_deployment_controller = λ m r. made (deployment_controller (deployment_reader r));
  complete_replica_set_controller =
      λ m r. made (replica_set_controller (replica_set_reader r) r.pod_owner_indexed);
  complete_deployment_webhook = λ m. made deployment_webhook;
  complete_replica_set_webhook = λ m. made replica_set_webhook;
  add_healthz_check = λ m name. made (healthz_check name);
  add_readyz_check = λ m name. not_made (readyz_check name);
  start = λ m. made start;
}

recording-Logs : Logs example_upstream recording (λ w. w)
recording-Logs = record {
  created = λ o w. refl;
  indexed = λ m name w. refl;
  deployments = λ m r w. refl;
  replica_sets = λ m r w. refl;
  deployment_hook = λ m w. refl;
  replica_set_hook = λ m w. refl;
  healthz = λ m name w. refl;
  readyz = λ m name w. refl;
  started = λ m w. refl;
}

main-MainOrder_example :
    (es : Log) × ((main example_upstream recording default_flags []).1 ≡ es)
    × MainOrder example_upstream recording
        (manager_options default_flags)
        (main example_upstream recording default_flags []).0
        es
main-MainOrder_example =
    main-MainOrder example_upstream recording (λ w. w) recording-Logs default_flags []
