-- ===== src/Lib.antt =====
-- Churnless: Deployments and ReplicaSets that update their Pods in place.
--
-- The program is a Kubernetes operator with two controllers. The Deployment controller
-- (internal/controller/deployment_controller.go) gives each structural revision of a template a
-- ReplicaSet of its own and moves replicas from the old ones to the current one, by RollingUpdate or
-- Recreate. The ReplicaSet controller (replicaset_controller.go) claims, creates and deletes Pods, and
-- patches the images, metadata and resources of Pods that run (workload.go). They meet in the API
-- server: the Deployment controller writes the replicas, the template and an annotation with the
-- in-place budget, and the ReplicaSet controller reads them and reports a status.
--
-- What models what:
--   Base, Int32, StringMap: lists and tests, Go's int32 with its wrap-around, map[string]string.
--   Api: api/v1alpha1 and the fields of the Kubernetes objects that the code touches. A field
--     `rest` stands for the others. Names are lists of bytes.
--   Action: a call that may fail and changes the world, with Go's error wrapping. Action/Costs,
--     Action/Flags, Action/Returns and Action/Silent have the rules to bound what an action writes
--     and returns.
--   Upstream: the functions of Kubernetes, of the reference library and of Go's library that the
--     code calls, as one parameter. Client: the requests to the API server, as another. A request
--     may fail in any way; what has been written before stays written.
--   SlowStart: SlowStartBatch of internal/kubecompat/pods.go.
--   Workload: workload.go. Template has the policy and the revisions, Images, Metadata and
--     Resources what is set on a Pod, Progress what is counted, Update the loop of updatePods; the
--     proofs are in Revisions, Alike, Structure, Images/Laws, Metadata/Laws, Resources/Laws and
--     Kept, Counted and the children of Update: Budget, Flight and History are about any API
--     server, which may refuse a request, Converges, Accepted, Outdated and Rollout about one that
--     takes them, with nodes that restart the containers between the runs (Nodes), and Idle about
--     Pods that are up to date.
--   Deployment: deployment_controller.go. Totals and Limits have the sums and fenceposts, Status
--     and Naming what is reported and named, Rolling the choice that `rollout` makes, Actions the
--     steps that call the API server, Reconcile the handler. Counts, Fleet, Plan and Moves have
--     the RollingUpdate choice over natural numbers; Surge, Descent and Progress build on it.
--     Rounds is a whole rollout, as a step relation: a run scales what was chosen, or the
--     ReplicaSets report something else; Rounds/Reached, Converges and Refines have its theorems,
--     the last one for the code that calls the API server. Recreate/Scene, Turns and Apart have
--     the same for Recreate, with the Pods of the ReplicaSets, which come and go between the runs;
--     Waiting and Finishes have its end. Reads, Writes, OneWrite, Recreate and Paused are about
--     what is written, Complete, Conditions, Valid and Parallelism about the status and the
--     in-place budget.
--   ReplicaSet: replicaset_controller.go. Pods has what is computed of Pods, Claim claimPods,
--     Replicas reconcileReplicas, Reconcile the handler. DistinctKeys, Candidates, Listed,
--     Coverage, Ownership, Burst, Ranks, Uids, Related, Deleted, Deletion, Settled and Valid have
--     the proofs; Live, Reads, Scales and Converges bring the count of Pods to the wanted one,
--     over an API server that grants every request. Handoff and Disruption are about both
--     controllers, which meet in an annotation. Sorted is about the stable sort.
--   Admission: internal/kubecompat/apps.go (Validate) and internal/webhook/v1alpha1 (Webhook),
--     over what upstream does for a kind of workload (Kubernetes); apps.go has each function twice
--     with one text, which stands in Validate once. Admits and History have the proofs.
--   Manager: cmd/main.go (Options, Main), with SetupWithManager and reader() of both reconcilers
--     and the function of the Pods' index, over what is called of controller-runtime (Runtime).
--     Calls says in which order calls are made; Order and Hardened have the proofs.
--   Examples and Witnesses: concrete objects on which the theorems are applied.
--
-- Conventions: an object that the Go code changes in place is a new value, which the code after it
-- uses; where `current` points into the list of ReplicaSets, replace_current writes it there too. A
-- patch writes the server's answer into the object in memory: it is returned where the code goes on
-- with that object, after a patch of a status and of a Pod. `int` is 64 bits wide and holds numbers
-- that came from an int32, so it does not wrap. The range that the rollout theorems ask for
-- (InRange) is that the UIDs are distinct and the current ReplicaSet is one of the list, that no
-- count is negative, that available counts, twice the total and desired + maxSurge stay below 2 ^
-- 31, and that maxUnavailable is at most desired, which rollingLimits sees to. The calls of one
-- batch of a slow start run in turn, which is one of the orders in which goroutines may run.
-- `batches` runs on fuel: count + 1 is enough, since each batch takes at least one call off what
-- remains, and a batch of size 0 ends the loop. The other loops are structural.
--
-- Not modelled: generated code and the registration of the types with the scheme; how the flags are
-- parsed; the benchmark and the test helpers. Logging and events have no effect on what is modelled.
pub mod Base
pub mod Sorted
pub mod Int32
pub mod StringMap
pub mod Api
pub mod Action
pub mod Keys
pub mod Upstream
pub mod Client
pub mod SlowStart
pub mod Workload
pub mod Deployment
pub mod ReplicaSet
pub mod Admission
pub mod Manager
pub mod Examples
pub mod Witnesses
