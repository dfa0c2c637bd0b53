-- ===== src/Deployment/Progress.antt =====
-- A rolling update does not get stuck: it stops only when it is done.
use churnless.Base.{
  ℕ, ◌+◌, ◌-◌, ◌≤◌, ◌<◌, ◌≡◌, refl, sym, ◌∙◌, ◌⊎◌, inl, inr, false, ◌&&◌, Bool-cases, Option-cases,
  Option, none, some, List, [], ◌∷◌, All, arith, ltb, ltb→lt,
}
use churnless.Int32.{pos}
use churnless.Api.{ReplicaSet}
use churnless.Deployment.Counts.{spec_count, status_count, sum_spec, sum_available, sum_old}
use churnless.Deployment.Fleet.{sum_spec-split}
use churnless.Deployment.Rolling.{rolling_target}
use churnless.Deployment.Plan.{
  Numbers, decrease_count, plan_loop, plan_settle, numbers_of, plan, to_target, InRange,
  rolling_target-eq,
}

-- Every replica that is asked for is available.
abbrev pub AllAvailable : List ReplicaSet → Type 0
AllAvailable = All (λ rs. spec_count rs ≤ status_count rs)

sum_available-eq : (rss : List ReplicaSet) → AllAvailable rss → sum_available rss ≡ sum_spec rss
unfolding sum_available sum_spec
sum_available-eq [] a = omega arith
sum_available-eq (rs ∷ rss) a = omega (arith, a.0, sum_available-eq rss a.1)

plan_loop-none :
    (n : Numbers) (current : ReplicaSet) (rss : List ReplicaSet)
    → ((spec status : ℕ) → 0 < spec → 0 < decrease_count n spec status)
    → plan_loop n current rss ≡ none
    → sum_old current rss ≡ 0
unfolding plan_loop sum_old
plan_loop-none n current [] gives e = omega arith
plan_loop-none n current (rs ∷ rss) gives e =
    ground (arith, gives (spec_count rs) (status_count rs), plan_loop-none n current rss gives)

-- With everything available and a budget to spend, an old replica can always go.
can_shrink :
    (d s u c t : ℕ)
    → c < t
    → (0 < d → 0 < s + u)
    → u ≤ d
    → (d ≤ c) ⊎ (d + s ≤ t)
    → (spec status : ℕ) → 0 < spec
    → 0
      < decrease_count
          (record { desired = d; current = c; total = t; available = t; floor = d - u })
          spec
          status
unfolding decrease_count
can_shrink d s u c t h b le full spec status p = ground arith

to_target-none : (o : Option (ReplicaSet × ℕ)) → to_target o ≡ none → o ≡ none
to_target-none none e = refl
to_target-none (some p) e = cc

module _ {d s u : ℕ} {current : ReplicaSet} {rss : List ReplicaSet} (r : InRange d s u current rss)
    (budget : 0 < d → 0 < s + u) (available : AllAvailable rss) where
  no_old :
      (ltb (spec_count current) d && ltb (sum_spec rss) (d + s)) ≡ false
      → plan_loop (numbers_of d u current rss) current rss ≡ none
      → sum_old current rss ≡ 0
  no_old full e = elim (Bool-cases (ltb 0 (sum_old current rss))) [
    | inl some_old ↦
        plan_loop-none _ current rss
          (rw (sum_available-eq rss available) (
            can_shrink d s u (spec_count current) (sum_spec rss)
              (omega (arith, ltb→lt _ _ some_old, sum_spec-split current rss r.current_once)) budget
              r.unavailable_le (ground arith)))
          e
    | inr empty ↦ ground arith
  ]

  plan-none_done :
      plan d s u current rss ≡ none → (spec_count current ≡ d) × (sum_old current rss ≡ 0)
  unfolding plan plan_settle
  plan-none_done e = elim (Bool-cases (ltb (spec_count current) d && ltb (sum_spec rss) (d + s))) [
    | inl grow ↦ cc (let f = rw grow at e in f)
    | inr full ↦ elim (Option-cases (plan_loop (numbers_of d u current rss) current rss)) [
      | inl stuck ↦ ground (arith, no_old full stuck)
      | inr (p, shrunk) ↦ cc (let f = rw (full, shrunk) at e in f)
    ]
  ]

  -- With counts in range (InRange), every replica available, and a maxSurge or a maxUnavailable above 0
  -- where replicas are wanted, the rolling update has nothing to scale only when
  -- the current ReplicaSet has all the desired replicas and the old ones have none.
  pub rolling_target-none_done :
      rolling_target (pos d) (pos s) (pos u) current rss ≡ none
      → (spec_count current ≡ d) × (sum_old current rss ≡ 0)
  rolling_target-none_done e =
      plan-none_done (to_target-none _ (sym (rolling_target-eq d s u current rss r) ∙ e))
