-- ===== src/Deployment/Moves.antt =====
-- The three kinds of step that a rolling update can choose: the current ReplicaSet grows, an old one
-- shrinks, or the current one is set to the desired count.
use churnless.Base.{
  ℕ, ◌+◌, ◌-◌, ◌≤◌, ◌<◌, ◌≡◌, refl, sym, subst, ap, inl, inr, min, true, false, ◌||◌, Bool-cases,
  Option-cases, ◌&&◌, not, ◌∙◌, Option, some, List, [], ◌∷◌, All, arith, ltb, ltb→lt, ◌==◌,
}
use churnless.Int32.{ℤ, pos}
use churnless.Api.{ReplicaSet}
use churnless.Deployment.Totals.{is_same}
use churnless.Deployment.Counts.{spec_count, status_count, sum_spec, sum_old}
use churnless.Deployment.Fleet.{Distinct, HasOnce, is_same_comm, All-HasOnce}
use churnless.Deployment.Rolling.{rolling_target}
use churnless.Deployment.Plan.{
  Numbers, decrease_count, plan_loop, plan_settle, numbers_of, plan, to_target, InRange,
  rolling_target-eq,
}

-- What the loop has chosen.
pub record Shrinks (n : Numbers) (current t : ReplicaSet) (rss : List ReplicaSet) (k : ℕ)
    : Type 0 where
  pub once : HasOnce t rss
  pub old : is_same t current ≡ false
  pub kept : k ≡ spec_count t - decrease_count n (spec_count t) (status_count t)
  pub shrinks : 0 < decrease_count n (spec_count t) (status_count t)

not_same_HasOnce :
    (rs t : ReplicaSet) (rss : List ReplicaSet)
    → All (λ other. is_same other rs ≡ false) rss
    → HasOnce t rss
    → is_same rs t ≡ false
not_same_HasOnce rs t rss a h =
    is_same_comm t rs (All-HasOnce (λ other. is_same other rs ≡ false) t rss a h)

Shrinks-later :
    (n : Numbers) (current t rs : ReplicaSet) (rss : List ReplicaSet) (k : ℕ)
    → All (λ other. is_same other rs ≡ false) rss
    → Shrinks n current t rss k
    → Shrinks n current t (rs ∷ rss) k
Shrinks-later n current t rs rss k a h = record {
  once = inr (not_same_HasOnce rs t rss a h.once, h.once);
  old = h.old;
  kept = h.kept;
  shrinks = h.shrinks;
}

Shrinks-here :
    (n : Numbers) (current rs : ReplicaSet) (rss : List ReplicaSet)
    → All (λ other. is_same other rs ≡ false) rss
    → (is_same rs current || spec_count rs == 0) ≡ false
    → ltb 0 (decrease_count n (spec_count rs) (status_count rs)) ≡ true
    → Shrinks n current rs
        (rs ∷ rss)
        (spec_count rs - decrease_count n (spec_count rs) (status_count rs))
Shrinks-here n current rs rss a old gives = record {
  once = inl (refl, a);
  old = ground arith;
  kept = refl;
  shrinks = ltb→lt 0 _ gives;
}

plan_loop-Shrinks :
    (n : Numbers) (current t : ReplicaSet) (rss : List ReplicaSet) (k : ℕ)
    → Distinct rss
    → plan_loop n current rss ≡ some (t, k)
    → Shrinks n current t rss k
unfolding plan_loop
plan_loop-Shrinks n current t [] k d e = cc
plan_loop-Shrinks n current t (rs ∷ rss) k d e =
    elim (Bool-cases (is_same rs current || spec_count rs == 0)) [
      | inl skip ↦
          Shrinks-later n current t rs rss k d.0
            (plan_loop-Shrinks n current t rss k d.1 (rw skip at e))
      | inr old ↦ elim (Bool-cases (ltb 0 (decrease_count n (spec_count rs) (status_count rs)))) [
        | inl gives ↦
            let found = rw (old, gives) at e in
            let same : rs ≡ t = cc found in
            let count : spec_count rs - decrease_count n (spec_count rs) (status_count rs) ≡ k =
              cc found in
            rw (← same, ← count) (Shrinks-here n current rs rss d.0 old gives)
        | inr keeps ↦
            Shrinks-later n current t rs rss k d.0
              (plan_loop-Shrinks n current t rss k d.1 (rw (old, keeps) at e))
      ]
    ]

pub decrease_bounds :
    (n : Numbers) (spec status : ℕ)
    → let d = decrease_count n spec status in
      (d ≤ spec) × (d ≤ spec - status + (n.available - n.floor))
unfolding decrease_count
decrease_bounds n spec status = ground arith

-- The chosen pair is the one that was asked about.
moved :
    (P : ReplicaSet → ℕ → Type 0) {c t : ReplicaSet} {n k : ℕ}
    → P c n
    → ◌≡◌ {A = Option (ReplicaSet × ℕ)} (some (c, n)) (some (t, k))
    → P t k
moved P {c} {t} {n} {k} h e =
    let same : c ≡ t = cc e in
    let count : n ≡ k = cc e in subst (λ x. P x k) same (subst (λ x. P c x) count h)

module _ {d s u : ℕ} {current : ReplicaSet} {rss : List ReplicaSet} (r : InRange d s u current rss)
    (P : ReplicaSet → ℕ → Type 0)
    (grow : spec_count current < d
      → sum_spec rss < d + s
      → P current (spec_count current + min (d - spec_count current) (d + s - sum_spec rss)))
    (shrink : (t : ReplicaSet) (k : ℕ)
      → Shrinks (numbers_of d u current rss) current t rss k
      → P t k)
    (set : (spec_count current == d) ≡ false → sum_old current rss ≡ 0 → P current d) where
  plan-cases : (t : ReplicaSet) (k : ℕ) → plan d s u current rss ≡ some (t, k) → P t k
  unfolding plan plan_settle
  plan-cases t k e = elim (Bool-cases (ltb (spec_count current) d && ltb (sum_spec rss) (d + s))) [
    | inl up ↦ moved P (grow (ground arith) (ground arith)) (rw up at e)
    | inr full ↦ elim (Option-cases (plan_loop (numbers_of d u current rss) current rss)) [
      | inl stuck ↦ elim (Bool-cases (not (spec_count current == d) && sum_old current rss == 0)) [
        | inl done ↦ moved P (set (ground arith) (ground arith)) (rw (full, stuck, done) at e)
        | inr wait ↦ cc (let f = rw (full, stuck, wait) at e in f)
      ]
      | inr (p, shrunk) ↦
          shrink t k
            (plan_loop-Shrinks _ current t rss k r.distinct (shrunk ∙ (rw (full, shrunk) at e)))
    ]
  ]

  -- What holds of each kind of step holds of the one that is chosen.
  pub rolling_target-cases :
      (t : ReplicaSet) (k : ℤ)
      → rolling_target (pos d) (pos s) (pos u) current rss ≡ some (t, k)
      → (n : ℕ) × (k ≡ pos n) × P t n
  rolling_target-cases t k e = elim (Option-cases (plan d s u current rss)) [
    | inl nothing ↦ cc (sym e ∙ chosen ∙ ap to_target nothing)
    | inr ((c, n), choice) ↦
        let both = sym e ∙ chosen ∙ ap to_target choice in
        let same : c ≡ t = cc both in (n, cc both, subst (λ x. P x n) same (plan-cases c n choice))
  ]
    where
      chosen :
          rolling_target (pos d) (pos s) (pos u) current rss ≡ to_target (plan d s u current rss)
      chosen = rolling_target-eq d s u current rss r
