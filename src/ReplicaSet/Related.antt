-- ===== src/ReplicaSet/Related.antt =====
-- relatedPods finds the same Pods by way of the index as by a list, so that the order of deletion is
-- the same.
use churnless.Base.{
  ℕ, ◌≡◌, refl, sym, ◌∙◌, inl, inr, true, false, Bool-cases, Option-cases, String, List, [], ◌∷◌,
  ◌++◌, keep, arith, if◌then◌else◌,
}
use churnless.StringMap.{has_key}
use churnless.Api.{Time, Pod, ReplicaSet}
use churnless.Action.{ok, continue}
use churnless.Action.Returns.{Returns, Returns-pure, Returns-after, Returns-ok}
use churnless.Upstream.{Upstream}
use churnless.Client.{Client}
use churnless.ReplicaSet.Pods.{pod_key, pod_rank}
use churnless.ReplicaSet.DistinctKeys.{DistinctKeys, DistinctKeys-keep}
use churnless.ReplicaSet.Ranks.{
  sum_of, sum_of-append, sum_of-keep, sum_of_same, sum_of_both, sum_of_none, pod_rank_same,
  DistinctKeys-count,
}
use churnless.ReplicaSet.Replicas.{
  controlled_by_uid, owned_by_one_of, siblings, is_related, is_deployment_ref, related_replica_sets,
  list_all_cached, related_pods, deleted_before,
}
use churnless.ReplicaSet.Uids.{Unique, with_uids-Unique, shared, shared_once}

module _ (up : Upstream) where
  -- The Pods whose controller has the UID.
  abbrev pub controlled : String → List Pod → List Pod
  controlled uid pods = keep (λ p. controlled_by_uid uid (up.get_controller_of p.metadata)) pods

  abbrev gather : List String → List Pod → List Pod
  gather [] pods = []
  gather (uid ∷ uids) pods = controlled uid pods ++ gather uids pods

  sum_of-gather :
      (g : Pod → ℕ) (uids : List String) (pods : List Pod)
      → sum_of g (gather uids pods)
        ≡ sum_of (λ p. shared uids (up.get_controller_of p.metadata) (g p)) pods
  unfolding shared
  sum_of-gather g [] pods = sym (sum_of_none pods)
  sum_of-gather g (uid ∷ uids) pods =
      let here : Pod → ℕ =
        λ p. if controlled_by_uid uid (up.get_controller_of p.metadata) then g p else 0 in
      let there : Pod → ℕ = λ p. shared uids (up.get_controller_of p.metadata) (g p) in
      omega (
        arith,
        sum_of-append g (controlled uid pods) (gather uids pods),
        sum_of-keep g (λ p. controlled_by_uid uid (up.get_controller_of p.metadata)) pods,
        sum_of-gather g uids pods,
        sum_of_both here there pods,
      )

  -- The Pods that are gathered for each UID are the related ones of the list, each as often.
  related_gather :
      (uids : List String) (pods : List Pod) (f : Pod → ℕ)
      → Unique uids
      → sum_of f (keep (is_related up uids) (gather uids pods))
        ≡ sum_of f (keep (is_related up uids) pods)
  unfolding is_related
  related_gather uids pods f u =
      let g : Pod → ℕ = λ p. if is_related up uids p then f p else 0 in
      sum_of-keep f (is_related up uids) (gather uids pods)
      ∙ sum_of-gather g uids pods
      ∙ sum_of_same _ g
          (λ p.
            shared_once uids (up.get_controller_of p.metadata) (g p) u
            ∙ elim (Bool-cases (owned_by_one_of uids (up.get_controller_of p.metadata))) [
              | inl owned ↦ rw owned refl
              | inr other ↦ rw (is_related, other) refl
            ])
          pods
      ∙ sym (sum_of-keep f (is_related up uids) pods)

  module _ (api : Client up.Selector) (workload : ReplicaSet) where
    -- `view` shows the Pods of the namespace. A list has them, the index those with the controller, and
    -- neither changes them.
    pub record Agrees (view : api.World → List Pod) : Type 0 where
      pub listed :
          (w : api.World)
          → (w' : api.World) × (api.reader_list_pods workload.metadata.namespace w
              ≡ (ok (view w), w'))
      pub indexed :
          (uid : String) (w : api.World)
          → (w' : api.World) × (api.cached_list_controlled_pods workload.metadata.namespace uid w
              ≡ (ok (controlled uid (view w)), w'))
            × (view w' ≡ view w)

    related_replica_sets-Unique : Returns Unique (related_replica_sets up api workload)
    unfolding related_replica_sets has_key
    related_replica_sets-Unique = elim (Option-cases (up.get_controller_of workload.metadata)) [
      | inl e ↦ rw (related_replica_sets, e) (Returns-pure Unique _ (refl, tt))
      | inr (owner, e) ↦ elim (Bool-cases (is_deployment_ref owner)) [
        | inr other ↦ rw (related_replica_sets, e, other) (Returns-pure Unique _ (refl, tt))
        | inl deployment ↦
            rw (related_replica_sets, e, deployment)
              (Returns-after Unique (api.reader_list_replica_sets workload.metadata.namespace) _
                λ rss. Returns-pure Unique _ (
                  with_uids-Unique (workload.metadata.uid ∷ []) (siblings up owner.uid rss)
                    (refl, tt)))
      ]
    ]

    list_all_cached-gather :
        (view : api.World → List Pod)
        → Agrees view
        → (uids : List String) (w : api.World)
        → (w' : api.World) × (list_all_cached up api workload.metadata.namespace uids w
            ≡ (ok (gather uids (view w)), w'))
    unfolding list_all_cached
    list_all_cached-gather view a [] w = (w, refl)
    list_all_cached-gather view a (uid ∷ uids) w =
        let (w1, first, same) = a.indexed uid w in
        let (w2, rest) = list_all_cached-gather view a uids w1 in
        (w2, rw (list_all_cached, first, continue, rest, continue, same) refl)

    -- One order of deletion for both answers.
    abbrev pub SameOrder : List Pod → List Pod → Type 0
    SameOrder listed indexed =
        (now : Time) (left right : Pod)
        → deleted_before up indexed now left right ≡ deleted_before up listed now left right

    -- Where the index agrees with a list of the Pods, no two of which have the same key: once the UIDs of
    -- the ReplicaSets of the Deployment are read, relatedPods answers by a list and by way of the index,
    -- and the order of deletion that reconcileReplicas makes of either answer is the same.
    pub related_pods-SameOrder :
        (view : api.World → List Pod) (uids : List String) (w w1 : api.World)
        → Agrees view
        → DistinctKeys (view w1)
        → related_replica_sets up api workload w ≡ (ok uids, w1)
        → (listed : List Pod) × (indexed : List Pod) × (w2 : api.World) × (w3 : api.World)
          × (related_pods up api false workload w ≡ (ok listed, w2))
          × (related_pods up api true workload w ≡ (ok indexed, w3))
          × SameOrder listed indexed
    unfolding related_pods deleted_before
    related_pods-SameOrder view uids w w1 a distinct read =
        let pods = view w1 in
        let (w2, by_list) = a.listed w1 in
        let (w3, by_index) = list_all_cached-gather view a uids w1 in
        let unique = Returns-ok Unique _ w w1 uids related_replica_sets-Unique read in
        let listed = keep (is_related up uids) pods in
        let indexed = keep (is_related up uids) (gather uids pods) in
        let ranks : (key : List ℕ) → pod_rank indexed key ≡ pod_rank listed key = λ key.
          pod_rank_same indexed listed key (λ f. related_gather uids pods f unique)
            (DistinctKeys-count listed key
              (DistinctKeys-keep (is_related up uids) pods distinct)) in
        (
          listed,
          indexed,
          w2,
          w3,
          rw (related_pods, read, continue, by_list, continue) refl,
          rw (related_pods, read, continue, by_index, continue) refl,
          λ now left right. rw (deleted_before, ranks (pod_key left), ranks (pod_key right)) refl,
        )
