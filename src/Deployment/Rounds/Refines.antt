-- ===== src/Deployment/Rounds/Refines.antt =====
-- What a run of the reconciler does to the ReplicaSets on the API server is a step of a rollout.
use churnless.Base.{
  ℕ, ◌≡◌, ◌≢◌, refl, ap, ◌∙◌, ◌⊎◌, inl, inr, Bool, true, false, Option, none, some, List, arith,
}
use churnless.Int32.{ℤ, pos, eqb_ℤ}
use churnless.Api.{ReplicaSet, Deployment}
use churnless.Action.{Error, Result, ok, err, Action, pure, continue, wrap_error}
use churnless.Upstream.{Upstream}
use churnless.Client.{Client}
use churnless.Deployment.Totals.{desired_replicas, replicas_of}
use churnless.Deployment.Counts.{spec_count, status_count, IsCounted}
use churnless.Deployment.Fleet.{scaled, with_replicas, HasOnce, All-HasOnce}
use churnless.Deployment.Limits.{rolling_limits}
use churnless.Deployment.Rolling.{rolling_target}
use churnless.Deployment.Plan.{InRange, numbers_of}
use churnless.Deployment.Moves.{decrease_bounds, rolling_target-cases}
use churnless.Deployment.Surge.{rolling_target-StaysWithin}
use churnless.Deployment.Actions.{scale_replica_set, rolling_rollout}
use churnless.Deployment.Rounds.{Fleet}

-- `view` shows the ReplicaSets of the Deployment. A patch that changes the replicas of a ReplicaSet
-- there shows, or it has failed; a patch that has failed may have been made all the same.
pub record ShowsScaling {S : Type 0} (api : Client S) (view : api.World → List ReplicaSet)
    : Type 0 where
  pub patched :
      (rs : ReplicaSet) (n : ℕ) (w : api.World)
      → HasOnce rs (view w)
      → spec_count rs ≢ n
      → let (r, w') = api.patch_replica_set rs (with_replicas rs n) w in
        (view w' ≡ scaled rs n (view w)) ⊎ ((e : Error) × (r ≡ err e) × (view w' ≡ view w))

-- What the runs may answer: `true` or an error where the ReplicaSet that was chosen, which stands once
-- among the others and did not have that count, has been scaled; `false` where there is nothing to
-- scale; an error where nothing shows.
pub data Outcome (d s u : ℕ) (fleet : Fleet) (answer : Result Bool) (shown : List ReplicaSet)
    : Type 0 where
  rolled :
      (t : ReplicaSet) (n : ℕ)
      → rolling_target (pos d) (pos s) (pos u) fleet.current fleet.sets ≡ some (t, pos n)
      → HasOnce t fleet.sets
      → spec_count t ≢ n
      → shown ≡ scaled t n fleet.sets
      → answer ≢ ok false
      → Outcome d s u fleet answer shown
  settled :
      rolling_target (pos d) (pos s) (pos u) fleet.current fleet.sets ≡ none
      → shown ≡ fleet.sets
      → answer ≡ ok false
      → Outcome d s u fleet answer shown
  refused : (e : Error) → shown ≡ fleet.sets → answer ≡ err e → Outcome d s u fleet answer shown

module _ {d s u : ℕ} {current : ReplicaSet} {rss : List ReplicaSet}
    (r : InRange d s u current rss) where
  -- The ReplicaSet that is chosen does not have the count already.
  target_differs :
      (t : ReplicaSet) (k : ℤ)
      → rolling_target (pos d) (pos s) (pos u) current rss ≡ some (t, k)
      → (n : ℕ) × (k ≡ pos n) × (spec_count t ≢ n)
  target_differs =
      rolling_target-cases r (λ t n. spec_count t ≢ n) (λ up room e. omega arith)
        (λ t n h e.
          let b = decrease_bounds (numbers_of d u current rss) (spec_count t) (status_count t) in
          omega (arith, h.kept, h.shrinks, b))
        (λ apart empty e. absurd (ground (arith, apart, e)))

  target-HasOnce :
      (t : ReplicaSet) (k : ℤ)
      → rolling_target (pos d) (pos s) (pos u) current rss ≡ some (t, k)
      → HasOnce t rss
  target-HasOnce t k e = let (n, same, within) = rolling_target-StaysWithin r t k e in within.once

module _ (up : Upstream) (api : Client up.Selector) (view : api.World → List ReplicaSet)
    (shows : ShowsScaling api view) where
  -- Where the counts differ, scaling sends the patch.
  scale_shows :
      (rs : ReplicaSet) (n : ℕ) (w : api.World)
      → IsCounted rs
      → HasOnce rs (view w)
      → spec_count rs ≢ n
      → let (r, w') = scale_replica_set up api rs (pos n) w in
        (r ≢ ok false)
        × ((view w' ≡ scaled rs n (view w)) ⊎ ((e : Error) × (r ≡ err e) × (view w' ≡ view w)))
  unfolding scale_replica_set
  scale_shows rs n w counted once differs =
      let ne : eqb_ℤ (replicas_of rs) (pos n) ≡ false = ground (arith, counted.spec_eq, differs) in
      rw (scale_replica_set, ne)
        (sent (api.patch_replica_set rs (with_replicas rs n) w) (shows.patched rs n w once differs))
    where
      sent :
          (p : Result (Unit {0}) × api.World)
          → (view p.1 ≡ scaled rs n (view w)) ⊎ ((e : Error) × (p.0 ≡ err e) × (view p.1 ≡ view w))
          → let q =
              continue
                (λ _. pure {A = Bool} true)
                (wrap_error "scale Churnless ReplicaSet" p.0)
                p.1 in
            (q.0 ≢ ok false)
            × ((view q.1 ≡ scaled rs n (view w))
                ⊎ ((e : Error) × (q.0 ≡ err e) × (view q.1 ≡ view w)))
      sent (ok x, w') (inl e) = ((λ h. cc h), inl e)
      sent (ok x, w') (inr (e, h, _)) = absurd (cc h)
      sent (err x, w') (inl e) = ((λ h. cc h), inl e)
      sent (err x, w') (inr (e, h, same)) = ((λ h'. cc h'), inr (_, refl, same))

  -- For a reconciler that has read the ReplicaSets as they are, with the limits resolved and the
  -- counts in range, over an API server where a patch of the count shows or has failed: a run of the
  -- RollingUpdate part of `rollout` shows the ReplicaSet that rolling_target chooses, scaled to a count
  -- that it did not have, and answers `true` or an error; or it shows nothing, and answers `false` where
  -- there is nothing to scale, or an error.
  pub rolling_rollout-Outcome :
      (workload : Deployment) (d s u : ℕ) (current : ReplicaSet) (rss : List ReplicaSet)
      (w : api.World)
      → desired_replicas workload.spec.replicas ≡ pos d
      → rolling_limits up workload (pos d) ≡ ok (pos s, pos u)
      → InRange d s u current rss
      → view w ≡ rss
      → let (answer, w') = rolling_rollout up api workload current rss w in
        Outcome d s u (record { current = current; sets = rss }) answer (view w')
  unfolding rolling_rollout
  rolling_rollout-Outcome workload d s u current rss w wants limits r fresh =
      rw (rolling_rollout, wants, limits)
        (by_choice (rolling_target (pos d) (pos s) (pos u) current rss) refl)
    where
      chosen : Option (ReplicaSet × ℤ) → Action api.World Bool
      chosen o = elim o [
        | none ↦ pure false
        | some (rs, replicas) ↦ scale_replica_set up api rs replicas
      ]

      by_choice :
          (o : Option (ReplicaSet × ℤ))
          → rolling_target (pos d) (pos s) (pos u) current rss ≡ o
          → Outcome d s u
              (record { current = current; sets = rss })
              (chosen o w).0
              (view (chosen o w).1)
      by_choice none e = settled e fresh refl
      by_choice (some (t, k)) e =
          let (n, same, differs) = target_differs r t k e in
          let once = target-HasOnce r t k e in
          let scaling =
            scale_shows t n w (All-HasOnce IsCounted t rss r.counted once) (rw fresh once)
              differs in
          let choice : rolling_target (pos d) (pos s) (pos u) current rss ≡ some (t, pos n) =
            rw (← same) e in
          rw same (elim scaling.1 [
            | inl shown ↦ rolled t n choice once differs (shown ∙ ap (scaled t n) fresh) scaling.0
            | inr (x, h, kept) ↦ refused x (kept ∙ fresh) h
          ])
