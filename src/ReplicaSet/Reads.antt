-- ===== src/ReplicaSet/Reads.antt =====
-- relatedPods, over an API server that answers every read.
use churnless.Base.{
  ℕ, ◌≡◌, refl, ◌∙◌, inl, inr, Bool, true, false, Bool-cases, Option-cases, String, List, [], ◌∷◌,
  ◌++◌, keep,
}
use churnless.Api.{Pod, ReplicaSet}
use churnless.Action.{ok, Action, continue}
use churnless.Upstream.{Upstream}
use churnless.Client.{Client}
use churnless.ReplicaSet.Live.{Serves}
use churnless.ReplicaSet.Replicas.{
  siblings, with_uids, is_related, related_replica_sets, list_all_cached, related_pods,
  is_deployment_ref,
}

module _ (up : Upstream) (api : Client up.Selector) (workload : ReplicaSet)
    (view : api.World → List Pod) (serves : Serves up api workload.metadata view) where
  -- A read that succeeds and changes nothing.
  pub record Reads {A : Type 0} (act : Action api.World A) (w : api.World) : Type 0 where
    pub value : A
    pub after : api.World
    pub answered : act w ≡ (ok value, after)
    pub kept : view after ≡ view w

  list_all_cached-Reads :
      (n : List ℕ) (uids : List String) (w : api.World) → Reads (list_all_cached up api n uids) w
  unfolding list_all_cached
  list_all_cached-Reads n [] w = record { value = []; after = w; answered = refl; kept = refl }
  list_all_cached-Reads n (uid ∷ uids) w =
      let (pods, w1, e1, k1) = serves.list_controlled n uid w in
      let r = list_all_cached-Reads n uids w1 in
      record {
        value = pods ++ r.value;
        after = r.after;
        answered = rw (list_all_cached, e1, continue, r.answered, continue) refl;
        kept = r.kept ∙ k1;
      }

  related_replica_sets-Reads : (w : api.World) → Reads (related_replica_sets up api workload) w
  unfolding related_replica_sets
  related_replica_sets-Reads w = elim (Option-cases (up.get_controller_of workload.metadata)) [
    | inl e ↦ record {
      value = workload.metadata.uid ∷ [];
      after = w;
      answered = rw (related_replica_sets, e) refl;
      kept = refl;
    }
    | inr (owner, e) ↦ elim (Bool-cases (is_deployment_ref owner)) [
      | inr other ↦ record {
        value = workload.metadata.uid ∷ [];
        after = w;
        answered = rw (related_replica_sets, e, other) refl;
        kept = refl;
      }
      | inl deployment ↦
          let (rss, w1, e1, k1) = serves.list_sets workload.metadata.namespace w in
          record {
            value = with_uids (workload.metadata.uid ∷ []) (siblings up owner.uid rss);
            after = w1;
            answered = rw (related_replica_sets, e, deployment, e1, continue) refl;
            kept = k1;
          }
    ]
  ]

  candidates_of : Bool → List String → Action api.World (List Pod)
  candidates_of indexed uids = elim indexed [
    | false ↦ api.reader_list_pods workload.metadata.namespace
    | true ↦ list_all_cached up api workload.metadata.namespace uids
  ]

  candidates_of-Reads :
      (indexed : Bool) (uids : List String) (w : api.World) → Reads (candidates_of indexed uids) w
  unfolding candidates_of
  candidates_of-Reads false uids w =
      let (pods, w1, e1, k1) = serves.list_pods workload.metadata.namespace w in
      record { value = pods; after = w1; answered = e1; kept = k1 }
  candidates_of-Reads true uids w = list_all_cached-Reads workload.metadata.namespace uids w

  pub related_pods-Reads :
      (indexed : Bool) (w : api.World) → Reads (related_pods up api indexed workload) w
  unfolding related_pods candidates_of
  related_pods-Reads indexed w =
      let r = related_replica_sets-Reads w in
      let c = candidates_of-Reads indexed r.value r.after in
      record {
        value = keep (is_related up r.value) c.value;
        after = c.after;
        answered = rw (related_pods, r.answered, continue, c.answered, continue) refl;
        kept = c.kept ∙ r.kept;
      }
