-- ===== src/ReplicaSet/Deleted.antt =====
-- The order of deletion, and what the calls of a scale down leave in a log of the deletions.
use mathlib.Core.List.{append-nil, append_assoc}
use churnless.Base.{
  ℕ, zero, suc, ◌≤◌, ◌≡◌, refl, sym, ap, ◌∙◌, Bool, true, false, String, List, [], ◌∷◌, ◌++◌,
  length, sort_stable, arith,
}
use churnless.Api.{Time, Pod, ReplicaSet}
use churnless.Action.{Result, ok, err, continue, wrapping, ignoring_not_found}
use churnless.Action.Silent.{Silent, Silent-pure, Silent-after, Silent-Option, Silent-Bool}
use churnless.Upstream.{Upstream}
use churnless.Client.{Client}
use churnless.Sorted.{IsSorted, sort_stable-IsSorted}
use churnless.ReplicaSet.Pods.{compare_pods_for_deletion, pod_rank, pod_key}
use churnless.ReplicaSet.Replicas.{
  related_replica_sets, list_all_cached, related_pods, is_deployment_ref, deleted_before,
  delete_first,
}

-- ActivePodsWithRanks is a sort.Interface, whose Less describes a transitive ordering.
pub record OrdersPods (up : Upstream) : Type 0 where
  pub asym :
      (a b : Pod) (m n : ℕ) (now : Time)
      → up.active_pods_less a b m n now ≡ true
      → up.active_pods_less b a n m now ≡ false
  pub trans :
      (a b c : Pod) (l m n : ℕ) (now : Time)
      → up.active_pods_less b a m l now ≡ false
      → up.active_pods_less c b n m now ≡ false
      → up.active_pods_less c a n l now ≡ false

-- `deleted` keeps the Pods that were to be deleted, one for each call; no other call changes it.
pub record LogsDeletions {S : Type 0} (api : Client S) (deleted : api.World → List Pod)
    : Type 0 where
  pub delete : (p : Pod) (w : api.World) → deleted (api.delete_pod p w).1 ≡ deleted w ++ p ∷ []
  pub clock : (w : api.World) → deleted (api.now w).1 ≡ deleted w
  pub list_sets : (n : List ℕ) → Silent deleted (api.reader_list_replica_sets n)
  pub list_pods : (n : List ℕ) → Silent deleted (api.reader_list_pods n)
  pub list_controlled :
      (n : List ℕ) (uid : String) → Silent deleted (api.cached_list_controlled_pods n uid)

module _ (up : Upstream) (orders : OrdersPods up) (related : List Pod) (now : Time) where
  deleted_before-eq :
      (l r : Pod)
      → deleted_before up related now l r
        ≡ up.active_pods_less l r (pod_rank related (pod_key l)) (pod_rank related (pod_key r)) now
  unfolding deleted_before compare_pods_for_deletion
  deleted_before-eq l r = ground arith

  pub deletions-IsSorted :
      (pods : List Pod)
      → IsSorted (deleted_before up related now) (sort_stable (deleted_before up related now) pods)
  deletions-IsSorted =
      sort_stable-IsSorted (deleted_before up related now)
        (λ x y h. deleted_before-eq y x ∙ orders.asym x y _ _ now (sym (deleted_before-eq x y) ∙ h))
        (λ x y z h k.
          deleted_before-eq z x
          ∙ orders.trans x y z _ _ _ now (sym (deleted_before-eq y x) ∙ h)
              (sym (deleted_before-eq z y) ∙ k))

-- The first `n` elements, and the others.
pub split_at :
    (n : ℕ) (pods : List Pod)
    → n ≤ length pods
    → (victims kept : List Pod) × (victims ++ kept ≡ pods) × (length victims ≡ n)
split_at zero pods le = ([], pods, refl, refl)
split_at (suc n) [] le = absurd (omega (arith, le))
split_at (suc n) (pod ∷ pods) le =
    let (victims, kept, same, count) = split_at n pods (omega (arith, le)) in
    (pod ∷ victims, kept, ap (◌∷◌ pod) same, ap suc count)

module _ (up : Upstream) (api : Client up.Selector) (deleted : api.World → List Pod)
    (logs : LogsDeletions api deleted) where
  related_replica_sets-Silent :
      (workload : ReplicaSet) → Silent deleted (related_replica_sets up api workload)
  unfolding related_replica_sets
  related_replica_sets-Silent workload =
      Silent-Option deleted (up.get_controller_of workload.metadata) _ _ (Silent-pure deleted _)
        λ owner.
          Silent-Bool deleted (is_deployment_ref owner) _ _
            (Silent-after deleted _ _ (logs.list_sets _) (λ rss. Silent-pure deleted _))
            (Silent-pure deleted _)

  list_all_cached-Silent :
      (namespace : List ℕ) (uids : List String)
      → Silent deleted (list_all_cached up api namespace uids)
  unfolding list_all_cached
  list_all_cached-Silent namespace [] = Silent-pure deleted []
  list_all_cached-Silent namespace (uid ∷ uids) =
      Silent-after deleted _ _ (logs.list_controlled namespace uid) λ pods.
        Silent-after deleted _ _ (list_all_cached-Silent namespace uids)
          (λ rest. Silent-pure deleted _)

  pub related_pods-Silent :
      (indexed : Bool) (workload : ReplicaSet)
      → Silent deleted (related_pods up api indexed workload)
  unfolding related_pods
  related_pods-Silent indexed workload =
      Silent-after deleted _ _ (related_replica_sets-Silent workload) λ uids.
        Silent-after deleted _ _
          (Silent-Bool deleted indexed _ _ (list_all_cached-Silent _ uids) (logs.list_pods _))
          (λ pods. Silent-pure deleted _)

  -- Deletes the victims in turn, up to the first failure.
  abbrev pub Tried : List Pod → List Pod → api.World → Type 0
  Tried victims kept w =
      let (r, w') = delete_first up api (length victims) (victims ++ kept) w in
      (tried rest : List Pod) × (tried ++ rest ≡ victims)
      × (deleted w' ≡ deleted w ++ tried)
      × (r ≡ ok tt → rest ≡ [])

  pub delete_first_log : (victims kept : List Pod) (w : api.World) → Tried victims kept w
  unfolding delete_first
  delete_first_log [] kept w = ([], [], refl, sym (append-nil (deleted w)), λ _. refl)
  delete_first_log (pod ∷ victims) kept w =
      after (delete_first_log victims kept)
        (wrapping "delete Pod" (ignoring_not_found (api.delete_pod pod)) w) (logs.delete pod w)
    where
      after :
          ((w' : api.World) → Tried victims kept w')
          → (p : Result (Unit {0}) × api.World) → deleted p.1 ≡ deleted w ++ pod ∷ []
          → let q =
              continue (λ _. delete_first up api (length victims) (victims ++ kept)) p.0 p.1 in
            (tried rest : List Pod) × (tried ++ rest ≡ pod ∷ victims)
            × (deleted q.1 ≡ deleted w ++ tried)
            × (q.0 ≡ ok tt → rest ≡ [])
      after more (ok x, w') e =
          let (tried, rest, same, log, all) = more w' in
          (
            pod ∷ tried,
            rest,
            ap (◌∷◌ pod) same,
            log ∙ rw e (append_assoc (deleted w) (pod ∷ []) tried),
            all,
          )
      after more (err x, w') e = (pod ∷ [], victims, refl, e, λ h. absurd (cc h))
