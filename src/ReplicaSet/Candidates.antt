-- ===== src/ReplicaSet/Candidates.antt =====
-- What podCandidates makes of its two lists, a map and a sort.
use churnless.Base.{◌≡◌, sym, ap, inl, inr, Bool, true, false, Bool-cases, List, [], ◌∷◌, ◌++◌, All}
use churnless.Api.{Pod, ReplicaSet}
use churnless.Action.{Error, Result, ok, err, Action, pure, ◌>>=◌, continue, attempt, is_not_found}
use churnless.Action.Returns.{
  Holds, Returns, Returns-pure, Returns-after, Returns-with, Returns-attempt,
}
use churnless.Upstream.{Upstream}
use churnless.Client.{Client, ObjectKey}
use churnless.Sorted.{IsSorted, sort_stable-IsSorted}
use churnless.Deployment.Actions.{key_of}
use churnless.ReplicaSet.Pods.{pod_key, bytes_less}
use churnless.ReplicaSet.Claim.{is_candidate, refresh_loop, pod_candidates}
use churnless.ReplicaSet.DistinctKeys.{
  bytes_less-asym, not_less_trans, not_less-same, HasOtherKey, DistinctKeys, same_key-others,
  put_candidates-DistinctKeys, not_candidate-others, append-DistinctKeys, sort_stable-DistinctKeys,
}

-- A Pod that is read live is the one that was asked for.
pub record AnswersKeys {S : Type 0} (api : Client S) : Type 0 where
  pub live : (key : ObjectKey) → Returns (λ pod. key_of pod.metadata ≡ key) (api.live_get_pod key)

-- Each key is less than the ones after it.
abbrev pub IsAscending : List Pod → Type 0
IsAscending [] = Unit
IsAscending (pod ∷ pods) =
    All (λ p. bytes_less (pod_key pod) (pod_key p) ≡ true) pods × IsAscending pods

abbrev by_key : Pod → Pod → Bool
by_key left right = bytes_less (pod_key left) (pod_key right)

sorted-IsAscending : (ps : List Pod) → IsSorted by_key ps → DistinctKeys ps → IsAscending ps
sorted-IsAscending [] s d = tt
sorted-IsAscending (pod ∷ pods) (a, s) (o, d) = (above pods a o, sorted-IsAscending pods s d)
  where
    above :
        (ps : List Pod)
        → All (λ p. by_key p pod ≡ false) ps
        → All (HasOtherKey pod) ps
        → All (λ p. bytes_less (pod_key pod) (pod_key p) ≡ true) ps
    above [] a o = tt
    above (p ∷ ps) (b, a) (c, o) = (not_less-same (pod_key pod) (pod_key p) b c, above ps a o)

module _ (up : Upstream) (api : Client up.Selector) (answers : AnswersKeys api) where
  refresh_loop-DistinctKeys :
      (candidates pods : List Pod)
      → DistinctKeys candidates
      → Returns DistinctKeys (refresh_loop up api candidates pods)
  unfolding refresh_loop
  refresh_loop-DistinctKeys candidates [] d = Returns-pure DistinctKeys candidates d
  refresh_loop-DistinctKeys candidates (pod ∷ pods) d =
      elim (Bool-cases (is_candidate pod candidates)) [
        | inl e ↦ rw (refresh_loop, e) (refresh_loop-DistinctKeys candidates pods d)
        | inr e ↦
            rw (refresh_loop, e)
              (Returns-with (Holds (λ fresh. key_of fresh.metadata ≡ key_of pod.metadata))
                DistinctKeys _ _ (Returns-attempt _ _ (answers.live (key_of pod.metadata)))
                (go_on e (λ cs. refresh_loop-DistinctKeys cs pods)))
      ]
    where
      go_on :
          is_candidate pod candidates ≡ false
          → ((cs : List Pod) → DistinctKeys cs → Returns DistinctKeys (refresh_loop up api cs pods))
          → (found : Result Pod)
          → Holds (λ fresh. key_of fresh.metadata ≡ key_of pod.metadata) found
          → Returns DistinctKeys (elim found [
            | ok fresh ↦ refresh_loop up api (candidates ++ fresh ∷ []) pods
            | err e ↦ elim (is_not_found e) [
              | true ↦ refresh_loop up api candidates pods
              | false ↦ churnless.Action.fail e
            ]
          ])
      go_on new rest (ok fresh) same = rest (candidates ++ fresh ∷ []) (
          append-DistinctKeys candidates fresh d (
            same_key-others pod fresh candidates
              (ap (λ (k : ObjectKey). k.namespace ++ b'/' ∷ k.name) (sym same))
              (not_candidate-others pod candidates new)))
      go_on new rest (err x) h = elim (Bool-cases (is_not_found x)) [
        | inl e ↦ rw e (rest candidates d)
        | inr e ↦ rw e (record { at = λ w. tt })
      ]

  pod_candidates-Returns :
      (workload : ReplicaSet) (selector : up.Selector)
      → Returns IsAscending (pod_candidates up api true workload selector)
  unfolding pod_candidates
  pod_candidates-Returns workload selector =
      let namespace = workload.metadata.namespace in
      Returns-after IsAscending (api.live_list_matching_pods namespace selector) _ λ matching.
        Returns-after IsAscending (api.cached_list_controlled_pods namespace workload.metadata.uid)
          _
          λ controlled.
            Returns-with DistinctKeys IsAscending _ _
              (refresh_loop-DistinctKeys _ controlled (put_candidates-DistinctKeys matching [] tt))
              (λ candidates d. Returns-pure IsAscending _ (
                sorted-IsAscending _
                  (sort_stable-IsSorted by_key (λ x y h. bytes_less-asym (pod_key x) (pod_key y) h)
                    (λ x y z h k. not_less_trans (pod_key x) (pod_key y) (pod_key z) h k)
                    candidates)
                  (sort_stable-DistinctKeys by_key candidates d)))

  -- Where a Pod that is read live is the one that was asked for: what podCandidates returns by way of
  -- the index, unless it fails, has each key once, in the order of the keys, so that the order in
  -- which Go visits the map does not show.
  pub pod_candidates-IsAscending :
      (workload : ReplicaSet) (selector : up.Selector) (w : api.World)
      → Holds IsAscending (pod_candidates up api true workload selector w).0
  pod_candidates-IsAscending workload selector w = (pod_candidates-Returns workload selector).at w
