-- ===== src/Deployment/Recreate/Scene.antt =====
-- Recreate over many runs: the ReplicaSets and the Pods, and what a run may do to them.
use churnless.Base.{
  ℕ, ◌≤◌, ◌<◌, ◌≡◌, refl, sym, ◌∙◌, ◌⊎◌, inl, inr, Bool, true, false, ◌&&◌, not, Bool-cases, none,
  some, List, [], ◌∷◌, map, any, arith, if◌then◌else◌, eq_iff,
}
use churnless.StringMap.{has_key}
use churnless.Int32.{ℤ, pos, eqb_ℤ, ltb_ℤ}
use churnless.Api.{Pod, ReplicaSet}
use churnless.Action.{Error, ok, err}
use churnless.Upstream.{Upstream}
use churnless.Client.{Client}
use churnless.Deployment.Totals.{replicas_of, is_same, desired_replicas}
use churnless.Deployment.Counts.{spec_count, sum_old}
use churnless.Deployment.Fleet.{is_same_comm, is_same_self}
use churnless.Deployment.Rounds.{Fleet, changed}
use churnless.Deployment.Actions.{old_uids, is_old_running, first_old_with_replicas}

-- The ReplicaSets and the Pods of a Deployment.
pub record Scene : Type 0 where
  pub fleet : Fleet
  pub pods : List Pod

-- Only how many replicas are wanted of the ReplicaSet changes.
abbrev pub recount : ReplicaSet → ℤ → ReplicaSet → ReplicaSet
recount t n rs =
    if is_same rs t then record rs { spec = record rs.spec { replicas = some n } } else rs

-- `view` shows the ReplicaSets and the Pods that the selector matches. A patch of the count shows, or
-- nothing does; a list of Pods shows what is there, or fails, and changes nothing.
pub record Shows {S : Type 0} (api : Client S) (view : api.World → Scene) : Type 0 where
  pub patched :
      (rs : ReplicaSet) (n : ℤ) (w : api.World)
      → eqb_ℤ (replicas_of rs) n ≡ false
      → let after =
          view
            (api.patch_replica_set rs
              (record rs { spec = record rs.spec { replicas = some n } })
              w).1 in
        (after ≡ record (view w) { fleet = changed (recount rs n) (view w).fleet })
        ⊎ (after ≡ view w)
  pub listed :
      (namespace : List ℕ) (selector : S) (w : api.World)
      → let (r, w') = api.reader_list_matching_pods namespace selector w in
        (view w' ≡ view w) × ((r ≡ ok (view w).pods) ⊎ ((e : Error) × (r ≡ err e)))

module _ (up : Upstream) where
  -- The Pods of the ReplicaSets that are not the current one.
  abbrev pub old_running : Scene → Bool
  old_running s = any (is_old_running up (old_uids s.fleet.current s.fleet.sets)) s.pods

  abbrev pub current_running : Scene → Bool
  current_running s = any (is_old_running up (s.fleet.current.metadata.uid ∷ [])) s.pods

  abbrev pub old_wanted : Scene → ℕ
  old_wanted s = sum_old s.fleet.current s.fleet.sets

  -- No old ReplicaSet wants a Pod, and none has one that runs.
  pub record IsClear (s : Scene) : Type 0 where
    pub wanted : old_wanted s ≡ 0
    pub running : old_running s ≡ false

  -- It is clear where the current ReplicaSet wants Pods, and where it has some that run.
  pub record Apart (s : Scene) : Type 0 where
    pub when_wanted : 0 < spec_count s.fleet.current → IsClear s
    pub when_running : current_running s ≡ true → IsClear s

  pub first_old-none :
      (current : ReplicaSet) (rss : List ReplicaSet)
      → first_old_with_replicas current rss ≡ none
      → sum_old current rss ≡ 0
  unfolding first_old_with_replicas sum_old
  first_old-none current [] e = refl
  first_old-none current (rs ∷ rss) e =
      elim (Bool-cases (not (is_same rs current) && ltb_ℤ (pos 0) (replicas_of rs))) [
        | inl this ↦ absurd (cc (let f = rw this at e in f))
        | inr other ↦ ground (arith, other, first_old-none current rss (rw other at e))
      ]

  pub is_same-recount :
      (t : ReplicaSet) (n : ℤ) (a b : ReplicaSet)
      → is_same (recount t n a) (recount t n b) ≡ is_same a b
  unfolding is_same
  is_same-recount t n a b = ground arith

  uid-recount :
      (t : ReplicaSet) (n : ℤ) (rs : ReplicaSet) → (recount t n rs).metadata.uid ≡ rs.metadata.uid
  uid-recount t n rs = ground arith

  old_uids-recount :
      (t : ReplicaSet) (n : ℤ) (current : ReplicaSet) (rss : List ReplicaSet)
      → old_uids (recount t n current) (map (recount t n) rss) ≡ old_uids current rss
  old_uids-recount t n current [] = refl
  old_uids-recount t n current (rs ∷ rss) =
      ground (
        arith,
        is_same-recount t n rs current,
        uid-recount t n rs,
        old_uids-recount t n current rss,
      )

  pub chain : (a b c : ReplicaSet) → is_same a b ≡ true → is_same b c ≡ true → is_same a c ≡ true
  unfolding is_same
  chain a b c h k = ground (
    arith,
    h,
    k,
    eq_iff a.metadata.uid b.metadata.uid,
    eq_iff b.metadata.uid c.metadata.uid,
    eq_iff a.metadata.uid c.metadata.uid,
  )

  -- Scaling the current ReplicaSet does nothing to the others, and scaling to 0 adds nothing.
  sum_old-recount :
      (t : ReplicaSet) (n : ℤ) (current : ReplicaSet) (rss : List ReplicaSet)
      → (is_same t current ≡ true) ⊎ (n ≡ pos 0)
      → sum_old (recount t n current) (map (recount t n) rss) ≤ sum_old current rss
  unfolding sum_old desired_replicas
  sum_old-recount t n current [] h = omega arith
  sum_old-recount t n current (rs ∷ rss) (inl same) = ground (
    arith,
    is_same-recount t n rs current,
    sum_old-recount t n current rss (inl same),
    same,
    chain rs t current,
  )
  sum_old-recount t n current (rs ∷ rss) (inr zeroed) =
      ground (
        arith,
        is_same-recount t n rs current,
        sum_old-recount t n current rss (inr zeroed),
        zeroed,
      )

  -- The Scene once the count of a ReplicaSet is changed.
  abbrev pub recounted : ReplicaSet → ℤ → Scene → Scene
  recounted t n s = record s { fleet = changed (recount t n) s.fleet }

  -- What one run may do.
  pub data Turn (s : Scene) : Scene → Type 0 where
    nothing : Turn s s
    old_down : (t : ReplicaSet) → is_same t s.fleet.current ≡ false → Turn s (recounted t (pos 0) s)
    current_up : (n : ℤ) → IsClear s → Turn s (recounted s.fleet.current n s)

  old_running-recounted :
      (t : ReplicaSet) (n : ℤ) (s : Scene) → old_running (recounted t n s) ≡ old_running s
  old_running-recounted t n s = rw (old_uids-recount t n s.fleet.current s.fleet.sets) refl

  current_running-recounted :
      (t : ReplicaSet) (n : ℤ) (s : Scene) → current_running (recounted t n s) ≡ current_running s
  current_running-recounted t n s = rw (uid-recount t n s.fleet.current) refl

  IsClear-recounted :
      (t : ReplicaSet) (n : ℤ) (s : Scene)
      → (is_same t s.fleet.current ≡ true) ⊎ (n ≡ pos 0)
      → IsClear s
      → IsClear (recounted t n s)
  IsClear-recounted t n s h c = record {
    wanted = omega (arith, c.wanted, sum_old-recount t n s.fleet.current s.fleet.sets h);
    running = old_running-recounted t n s ∙ c.running;
  }

  pub Turn-Apart : {s after : Scene} → Turn s after → Apart s → Apart after
  Turn-Apart nothing a = a
  Turn-Apart {s} (old_down t other) a =
      let kept : recount t (pos 0) s.fleet.current ≡ s.fleet.current =
        rw (is_same_comm t s.fleet.current other) refl in
      record {
        when_wanted = λ h. IsClear-recounted t (pos 0) s (inr refl) (a.when_wanted (rw kept at h));
        when_running = λ h.
            IsClear-recounted t (pos 0) s (inr refl)
              (a.when_running (sym (current_running-recounted t (pos 0) s) ∙ h));
      }
  Turn-Apart {s} (current_up n clear) a =
      let c = IsClear-recounted s.fleet.current n s (inl (is_same_self s.fleet.current)) clear in
      record { when_wanted = λ _. c; when_running = λ _. c }

  pub none_old : (pods : List Pod) → any (is_old_running up []) pods ≡ false
  unfolding is_old_running has_key
  none_old [] = refl
  none_old (pod ∷ pods) = ground (arith, none_old pods)
