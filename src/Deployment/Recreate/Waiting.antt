-- ===== src/Deployment/Recreate/Waiting.antt =====
-- How many old ReplicaSets Recreate still has to scale to 0.
use churnless.Base.{
  ℕ, suc, ◌≤◌, ◌≡◌, refl, ◌⊎◌, inl, inr, Bool, true, false, ◌&&◌, not, Bool-cases, none, some, List,
  [], ◌∷◌, map, All, count_if, arith,
}
use churnless.Int32.{ℤ, pos, eqb_ℤ, ltb_ℤ, add32}
use churnless.Api.{ReplicaSet, ReplicaSetStatus}
use churnless.Upstream.{Upstream}
use churnless.Deployment.Totals.{
  replicas_of, is_same, desired_replicas, old_replicas_from, total_old_replicas,
}
use churnless.Deployment.Counts.{spec_count, sum_old}
use churnless.Deployment.Fleet.{is_same_self}
use churnless.Deployment.Rounds.{with_status}
use churnless.Deployment.Actions.{first_old_with_replicas}
use churnless.Deployment.Recreate.Scene.{recount, is_same-recount, chain}

abbrev pub is_waiting : ReplicaSet → ReplicaSet → Bool
is_waiting current rs = not (is_same rs current) && ltb_ℤ (pos 0) (replicas_of rs)

unfoldable pub waiting : ReplicaSet → List ReplicaSet → ℕ
waiting current rss = count_if (is_waiting current) rss

-- No count is negative.
abbrev pub Counted : List ReplicaSet → Type 0
Counted rss = All (λ rs. replicas_of rs ≡ pos (spec_count rs)) rss

pub first_old-waiting :
    (current : ReplicaSet) (rss : List ReplicaSet)
    → first_old_with_replicas current rss ≡ none
    → waiting current rss ≡ 0
unfolding first_old_with_replicas waiting
first_old-waiting current [] e = refl
first_old-waiting current (rs ∷ rss) e = elim (Bool-cases (is_waiting current rs)) [
  | inl this ↦ absurd (cc (let f = rw this at e in f))
  | inr other ↦ rw other (first_old-waiting current rss (rw other at e))
]

pub first_old-wants :
    (current : ReplicaSet) (rss : List ReplicaSet) (old : ReplicaSet)
    → first_old_with_replicas current rss ≡ some old
    → eqb_ℤ (replicas_of old) (pos 0) ≡ false
unfolding first_old_with_replicas
first_old-wants current [] old e = absurd (cc e)
first_old-wants current (rs ∷ rss) old e = elim (Bool-cases (is_waiting current rs)) [
  | inl this ↦
      let found = rw this at e in
      let same : rs ≡ old = cc found in rw (← same) (ground (arith, this))
  | inr other ↦ first_old-wants current rss old (rw other at e)
]

pub none_waiting-sum_old :
    (current : ReplicaSet) (rss : List ReplicaSet)
    → waiting current rss ≡ 0
    → sum_old current rss ≡ 0
unfolding waiting sum_old
none_waiting-sum_old current [] e = refl
none_waiting-sum_old current (rs ∷ rss) e = ground (arith, e, none_waiting-sum_old current rss)

pub none_waiting-total :
    (current : ReplicaSet) (rss : List ReplicaSet)
    → Counted rss
    → waiting current rss ≡ 0
    → total_old_replicas current rss ≡ pos 0
unfolding total_old_replicas old_replicas_from waiting add32 churnless.Int32.wrap
none_waiting-total current [] c e = refl
none_waiting-total current (rs ∷ rss) c e = elim (Bool-cases (is_same rs current)) [
  | inl same ↦ rw same (none_waiting-total current rss c.1 (ground (arith, e, same)))
  | inr other ↦
      let zero_here : replicas_of rs ≡ pos 0 = ground (arith, e, other, c.0) in
      rw (other, zero_here) (none_waiting-total current rss c.1 (ground (arith, e, other)))
]

module _ (up : Upstream) where
  pub waiting-recount :
      (t : ReplicaSet) (n : ℤ) (current : ReplicaSet) (rss : List ReplicaSet)
      → (is_same t current ≡ true) ⊎ (n ≡ pos 0)
      → waiting (recount t n current) (map (recount t n) rss) ≤ waiting current rss
  unfolding waiting desired_replicas
  waiting-recount t n current [] h = omega arith
  waiting-recount t n current (rs ∷ rss) (inl same) = ground (
    arith,
    is_same-recount up t n rs current,
    waiting-recount t n current rss (inl same),
    same,
    chain up rs t current,
  )
  waiting-recount t n current (rs ∷ rss) (inr zeroed) = ground (
    arith,
    is_same-recount up t n rs current,
    waiting-recount t n current rss (inr zeroed),
    zeroed,
  )

  pub waiting-scaled :
      (t current : ReplicaSet) (rss : List ReplicaSet)
      → first_old_with_replicas current rss ≡ some t
      → suc (waiting (recount t (pos 0) current) (map (recount t (pos 0)) rss))
        ≤ waiting current rss
  unfolding first_old_with_replicas waiting desired_replicas
  waiting-scaled t current [] e = absurd (cc e)
  waiting-scaled t current (rs ∷ rss) e = elim (Bool-cases (is_waiting current rs)) [
    | inl this ↦
        let found = rw this at e in
        let same : rs ≡ t = cc found in
        let self : is_same rs t ≡ true = rw same (is_same_self t) in
        ground (
          arith,
          this,
          self,
          is_same-recount up t (pos 0) rs current,
          waiting-recount t (pos 0) current rss (inr refl),
        )
    | inr other ↦ ground (
      arith,
      other,
      is_same-recount up t (pos 0) rs current,
      waiting-scaled t current rss (rw other at e),
    )
  ]

pub waiting-reported :
    (report : ReplicaSet → ReplicaSetStatus) (current : ReplicaSet) (rss : List ReplicaSet)
    → waiting (with_status report current) (map (with_status report) rss) ≡ waiting current rss
unfolding waiting is_same
waiting-reported report current [] = refl
waiting-reported report current (rs ∷ rss) = ground (arith, waiting-reported report current rss)

pub Counted-reported :
    (report : ReplicaSet → ReplicaSetStatus) (rss : List ReplicaSet)
    → Counted rss
    → Counted (map (with_status report) rss)
Counted-reported report [] c = tt
Counted-reported report (rs ∷ rss) c = (c.0, Counted-reported report rss c.1)

pub Counted-recount :
    (t : ReplicaSet) (n : ℕ) (rss : List ReplicaSet)
    → Counted rss
    → Counted (map (recount t (pos n)) rss)
unfolding desired_replicas
Counted-recount t n [] c = tt
Counted-recount t n (rs ∷ rss) c = elim (Bool-cases (is_same rs t)) [
  | inl same ↦ rw same (refl, Counted-recount t n rss c.1)
  | inr other ↦ rw other (c.0, Counted-recount t n rss c.1)
]
