-- ===== src/ReplicaSet/Ownership.antt =====
-- What claimPods takes, and when it adopts.
use churnless.Base.{
  ◌≡◌, refl, ap, ◌∙◌, inl, inr, Bool, true, false, ◌&&◌, ◌||◌, not, Bool-cases, List, [], ◌∷◌, ◌++◌,
  keep, All, arith, if◌then◌else◌,
}
use mathlib.Core.List.{append-nil, append_assoc}
use churnless.Api.{ObjectMeta, Pod, ReplicaSet}
use churnless.Action.{Result, ok, err, Action, lift, wrapping}
use churnless.Action.Returns.{Holds, Returns, Returns-pure, Returns-after}
use churnless.Upstream.{Upstream}
use churnless.Client.{Client}
use churnless.ReplicaSet.Pods.{is_deleted}
use churnless.ReplicaSet.Claim.{claim_loop, release_pod, adopt_pod, can_adopt, has_controller}

module _ (up : Upstream) (api : Client up.Selector) (workload : ReplicaSet)
    (selector : up.Selector) where
  -- The Pod belongs to the ReplicaSet and its labels match.
  abbrev pub is_claimed : Pod → Bool
  is_claimed pod =
      up.is_controlled_by pod.metadata workload.metadata
      && up.selector_matches selector pod.metadata.labels

  -- A released or adopted Pod ends the loop with `true`, or with an error.
  abbrev HasChanged : List Pod × Bool → Type 0
  HasChanged r = r.1 ≡ true

  release_ends : (pod : Pod) → Returns HasChanged (release_pod up api workload pod)
  unfolding release_pod
  release_ends pod = Returns-after HasChanged _ _ (λ _. Returns-pure HasChanged ([], true) refl)

  adopt_ends : (pod : Pod) → Returns HasChanged (adopt_pod up api workload pod)
  unfolding adopt_pod
  adopt_ends pod = Returns-after HasChanged {B = Unit {0}} (can_adopt up api workload) _ λ _.
      Returns-after HasChanged {B = ObjectMeta}
        (lift (up.set_controller_reference workload.metadata pod.metadata)) _
        λ owned.
          Returns-after HasChanged {B = Unit {0}}
            (wrapping "adopt Pod" (api.patch_pod_locked pod (record pod { metadata = owned }))) _
            λ _. Returns-pure HasChanged ([], true) refl

  not_ended :
      (m : Action api.World (List Pod × Bool)) (w w' : api.World) (pods : List Pod)
      → Returns HasChanged m
      → ◌≡◌ {A = Result (List Pod × Bool) × api.World} (m w) (ok (pods, false), w')
      → ⊥
  not_ended m w w' pods r e = go (m w).0 (r.at w) (ap (λ p. p.0) e)
    where
      go :
          (r : Result (List Pod × Bool))
          → Holds HasChanged r
          → ◌≡◌ {A = Result (List Pod × Bool)} r (ok (pods, false))
          → ⊥
      go (ok (ps, b)) h e' = ground (arith, h, e')
      go (err x) h e' = cc e'

  -- Where claimPods reports that nothing was released or adopted, it has written nothing, and it has
  -- claimed, in their order, the Pods that the ReplicaSet controls and whose labels match.
  pub claim_loop_unchanged :
      (claimed pods result : List Pod) (w w' : api.World)
      → claim_loop up api workload selector claimed pods w ≡ (ok (result, false), w')
      → (result ≡ claimed ++ keep is_claimed pods) × (w' ≡ w)
  unfolding claim_loop
  claim_loop_unchanged claimed [] result w w' e = (rw append-nil (cc e), cc e)
  claim_loop_unchanged claimed (pod ∷ pods) result w w' e =
      elim (Bool-cases (up.is_controlled_by pod.metadata workload.metadata)) [
        | inl owned ↦ elim (Bool-cases (up.selector_matches selector pod.metadata.labels)) [
          | inl match ↦
              let rest = rw (claim_loop, owned, match) at e in
              let (kept, still) =
                claim_loop_unchanged (claimed ++ pod ∷ []) pods result w w' rest in
              (
                kept ∙ rw (owned, match) (append_assoc claimed (pod ∷ []) (keep is_claimed pods)),
                still,
              )
          | inr stray ↦
              absurd
                (not_ended _ w w' result (release_ends pod) (rw (claim_loop, owned, stray) at e))
        ]
        | inr free ↦
            elim (Bool-cases (
              not (up.selector_matches selector pod.metadata.labels)
              || has_controller (up.get_controller_of pod.metadata)
              || is_deleted workload.metadata)) [
                | inl pass ↦
                    let rest = rw (claim_loop, free, pass) at e in
                    let (kept, still) = claim_loop_unchanged claimed pods result w w' rest in
                    (rw free kept, still)
                | inr adopt ↦
                    absurd
                      (not_ended _ w w' result (adopt_ends pod) (rw (claim_loop, free, adopt) at e))
              ]
      ]

  -- Neither to release nor to adopt.
  abbrev pub is_settled : Pod → Bool
  is_settled pod =
      if up.is_controlled_by pod.metadata workload.metadata
      then up.selector_matches selector pod.metadata.labels
      else not (up.selector_matches selector pod.metadata.labels)
        || has_controller (up.get_controller_of pod.metadata)
        || is_deleted workload.metadata

  -- With no Pod to release or to adopt, claimPods succeeds: it claims the Pods that the ReplicaSet
  -- controls and whose labels match, in their order, and writes nothing.
  pub claim_loop_settled :
      (claimed pods : List Pod) (w : api.World)
      → All (λ pod. is_settled pod ≡ true) pods
      → claim_loop up api workload selector claimed pods w
        ≡ (ok (claimed ++ keep is_claimed pods, false), w)
  unfolding claim_loop
  claim_loop_settled claimed [] w a = rw append-nil refl
  claim_loop_settled claimed (pod ∷ pods) w a =
      elim (Bool-cases (up.is_controlled_by pod.metadata workload.metadata)) [
        | inl owned ↦
            let match = rw owned at a.0 in
            rw (claim_loop, owned, match)
              (claim_loop_settled (claimed ++ pod ∷ []) pods w a.1
                ∙ rw (append_assoc claimed (pod ∷ []) (keep is_claimed pods)) refl)
        | inr free ↦
            let pass = rw free at a.0 in
            rw (claim_loop, free, pass) (claim_loop_settled claimed pods w a.1)
      ]
