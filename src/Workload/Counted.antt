-- ===== src/Workload/Counted.antt =====
-- What calculateProgress counts.
use churnless.Base.{
  ℕ, suc, ◌+◌, ◌≤◌, ◌<◌, ◌≡◌, refl, ◌∙◌, Bool, true, false, ◌&&◌, not, List, [], ◌∷◌, length,
  count_if, arith, if◌then◌else◌,
}
use churnless.Int32.{pos, add32, limit}
use churnless.Int32.Bounds.{add32_pos}
use churnless.Api.{PodTemplateSpec, Pod}
use churnless.Upstream.{Upstream}
use churnless.Workload.Template.{MutablePodPolicy, revision}
use churnless.Workload.Progress.{
  PodProgress, spec_matches, ready_and_observed, count_pod, progress_loop, calculate_progress,
}

pub count_if-le :
    (p q : Pod → Bool)
    → ((pod : Pod) → p pod ≡ true → q pod ≡ true)
    → (pods : List Pod) → count_if p pods ≤ count_if q pods
count_if-le p q h [] = omega arith
count_if-le p q h (pod ∷ pods) = ground (arith, h pod, count_if-le p q h pods)

module _ (up : Upstream) (template : PodTemplateSpec) (eligible : Pod → Bool)
    (policy : MutablePodPolicy) where
  abbrev pub is_updated : Pod → Bool
  is_updated pod = eligible pod && spec_matches up policy pod template

  abbrev pub is_ready : Pod → Bool
  is_ready pod = eligible pod && ready_and_observed up policy pod template

  abbrev pub counts : ℕ → ℕ → ℕ → PodProgress
  counts updated ready total = record {
    revision = revision up policy template;
    updated = pos updated;
    ready = pos ready;
    total = pos total;
  }

  counts_eq : {u u' r r' t t' : ℕ} → u ≡ u' → r ≡ r' → t ≡ t' → counts u r t ≡ counts u' r' t'
  counts_eq hu hr ht = rw (hu, hr, ht) refl

  ready_matches :
      (pod : Pod)
      → ready_and_observed up policy pod template ≡ true
      → spec_matches up policy pod template ≡ true
  unfolding ready_and_observed
  ready_matches pod h = ground (arith, h)

  -- One Pod more, where it counts.
  abbrev one_more : Bool → ℕ → ℕ
  one_more b n = if b then suc n else n

  count_pod-counts :
      (pod : Pod) (u r t : ℕ)
      → u + 1 < limit
      → r + 1 < limit
      → t + 1 < limit
      → count_pod up template eligible policy pod (counts u r t)
        ≡ counts
            (one_more (is_updated pod) u)
            (one_more (is_ready pod) r)
            (one_more (eligible pod) t)
  unfolding spec_matches ready_and_observed
  count_pod-counts pod u r t hu hr ht =
      by_tests (eligible pod) (spec_matches up policy pod template)
        (ready_and_observed up policy pod template) (ready_matches pod)
    where
      by_tests :
          (e m q : Bool)
          → (q ≡ true → m ≡ true)
          → (if not e
              then counts u r t
              else (let counted = record (counts u r t) { total = add32 (pos t) (pos 1) } in
                  if not m
                  then counted
                  else (let matched = record counted { updated = add32 (pos u) (pos 1) } in
                      if q then record matched { ready = add32 (pos r) (pos 1) } else matched)))
            ≡ counts (one_more (e && m) u) (one_more (e && q) r) (one_more e t)
      by_tests false m q h = refl
      by_tests true false false h = rw (add32_pos t 1 ht) (counts_eq refl refl (omega arith))
      by_tests true false true h = absurd (cc (h refl))
      by_tests true true false h =
          rw (add32_pos t 1 ht, add32_pos u 1 hu) (counts_eq (omega arith) refl (omega arith))
      by_tests true true true h =
          rw (add32_pos t 1 ht, add32_pos u 1 hu, add32_pos r 1 hr)
            (counts_eq (omega arith) (omega arith) (omega arith))

  progress_loop-counts :
      (pods : List Pod) (u r t : ℕ)
      → u + length pods < limit
      → r + length pods < limit
      → t + length pods < limit
      → progress_loop up template eligible policy (counts u r t) pods
        ≡ counts
            (u + count_if is_updated pods)
            (r + count_if is_ready pods)
            (t + count_if eligible pods)
  unfolding progress_loop
  progress_loop-counts [] u r t hu hr ht = counts_eq (omega arith) (omega arith) (omega arith)
  progress_loop-counts (pod ∷ pods) u r t hu hr ht =
      let u' = one_more (is_updated pod) u in
      let r' = one_more (is_ready pod) r in
      let t' = one_more (eligible pod) t in
      rw (count_pod-counts pod u r t (omega arith) (omega arith) (omega arith)) (
        progress_loop-counts pods u' r' t' (ground arith) (ground arith) (ground arith)
        ∙ counts_eq (ground arith) (ground arith) (ground arith))

  -- For fewer than 2 ^ 31 Pods: calculateProgress counts the eligible Pods as the total, those of them
  -- that match the template as updated, and those of them that are ready and observed as ready; at
  -- most the updated Pods are ready, and at most the total is updated.
  pub calculate_progress-counts :
      (pods : List Pod)
      → length pods < limit
      → let updated = count_if is_updated pods in
        let ready = count_if is_ready pods in
        let total = count_if eligible pods in
        (calculate_progress up template eligible policy pods ≡ counts updated ready total)
        × (ready ≤ updated)
        × (updated ≤ total)
  unfolding calculate_progress
  calculate_progress-counts pods small = (
    progress_loop-counts pods 0 0 0 (omega arith) (omega arith) (omega arith)
        ∙ counts_eq (omega arith) (omega arith) (omega arith),
    count_if-le is_ready is_updated (λ pod h. ground (arith, h, ready_matches pod)) pods,
    count_if-le is_updated eligible (λ pod h. ground (arith, h)) pods,
  )
