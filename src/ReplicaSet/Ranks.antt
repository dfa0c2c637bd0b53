-- ===== src/ReplicaSet/Ranks.antt =====
-- The ranks of podRanks, as sums over the related Pods.
use churnless.Base.{
  ℕ, ◌+◌, ◌≤◌, ◌≡◌, refl, sym, ◌∙◌, inl, inr, Bool, true, false, Bool-cases, Option-cases, none,
  String, List, [], ◌∷◌, ◌++◌, keep, All, count_if, str_eq, arith, if◌then◌else◌,
}
use churnless.Api.{Pod}
use churnless.ReplicaSet.Pods.{pod_key, same_bytes, rank_loop, on_node, or_zero, pod_rank}
use churnless.ReplicaSet.DistinctKeys.{same_bytes-eq, HasOtherKey, DistinctKeys}

abbrev pub sum_of : (Pod → ℕ) → List Pod → ℕ
sum_of f [] = 0
sum_of f (p ∷ ps) = f p + sum_of f ps

pub sum_of-append :
    (f : Pod → ℕ) (ps qs : List Pod) → sum_of f (ps ++ qs) ≡ sum_of f ps + sum_of f qs
sum_of-append f [] qs = omega arith
sum_of-append f (p ∷ ps) qs = omega (arith, sum_of-append f ps qs)

pub sum_of-keep :
    (f : Pod → ℕ) (test : Pod → Bool) (ps : List Pod)
    → sum_of f (keep test ps) ≡ sum_of (λ p. if test p then f p else 0) ps
sum_of-keep f test [] = refl
sum_of-keep f test (p ∷ ps) = ground (arith, sum_of-keep f test ps)

pub sum_of_same :
    (f g : Pod → ℕ) → ((p : Pod) → f p ≡ g p) → (ps : List Pod) → sum_of f ps ≡ sum_of g ps
sum_of_same f g h [] = refl
sum_of_same f g h (p ∷ ps) = omega (arith, h p, sum_of_same f g h ps)

pub sum_of_both :
    (f g : Pod → ℕ) (ps : List Pod) → sum_of f ps + sum_of g ps ≡ sum_of (λ p. f p + g p) ps
sum_of_both f g [] = omega arith
sum_of_both f g (p ∷ ps) = omega (arith, sum_of_both f g ps)

pub sum_of_none : (ps : List Pod) → sum_of (λ p. 0) ps ≡ 0
sum_of_none [] = refl
sum_of_none (p ∷ ps) = omega (arith, sum_of_none ps)

count_if-sum_of :
    (test : Pod → Bool) (ps : List Pod)
    → count_if test ps ≡ sum_of (λ p. if test p then 1 else 0) ps
count_if-sum_of test [] = refl
count_if-sum_of test (p ∷ ps) = ground (arith, count_if-sum_of test ps)

abbrev pub has_key_at : List ℕ → Pod → Bool
has_key_at key p = same_bytes (pod_key p) key

rank_loop-none :
    (related ps : List Pod) (key : List ℕ)
    → count_if (has_key_at key) ps ≡ 0
    → rank_loop related ps key ≡ none
unfolding rank_loop
rank_loop-none related [] key e = refl
rank_loop-none related (p ∷ ps) key e = elim (Bool-cases (has_key_at key p)) [
  | inl here ↦ absurd (omega (arith, rw here at e))
  | inr away ↦ rw (rank_loop, rank_loop-none related ps key (rw away at e), away) refl
]

rank_loop-sum_of :
    (related ps : List Pod) (key : List ℕ)
    → count_if (has_key_at key) ps ≤ 1
    → or_zero (rank_loop related ps key)
      ≡ sum_of (λ p. if has_key_at key p then on_node related p.spec.node_name else 0) ps
unfolding rank_loop
rank_loop-sum_of related [] key e = refl
rank_loop-sum_of related (p ∷ ps) key e = elim (Bool-cases (has_key_at key p)) [
  | inl here ↦
      let none_after : count_if (has_key_at key) ps ≡ 0 = omega (arith, rw here at e) in
      let gone = rank_loop-none related ps key none_after in
      let rest = rank_loop-sum_of related ps key (omega (arith, none_after)) in
      rw (rank_loop, gone, here) (omega (arith, rw gone at rest))
  | inr away ↦
      let rest = rank_loop-sum_of related ps key (rw away at e) in
      elim (Option-cases (rank_loop related ps key)) [
        | inl gone ↦ rw (rank_loop, gone, away) (omega (arith, rw gone at rest))
        | inr (n, found) ↦ rw (rank_loop, found, away) (omega (arith, rw found at rest))
      ]
]

-- Lists with the same sums, where no Pod stands twice, give the same ranks.
pub pod_rank_same :
    (ps qs : List Pod) (key : List ℕ)
    → ((f : Pod → ℕ) → sum_of f ps ≡ sum_of f qs)
    → count_if (has_key_at key) qs ≤ 1
    → pod_rank ps key ≡ pod_rank qs key
unfolding pod_rank
pod_rank_same ps qs key same once =
    let count : (test : Pod → Bool) → count_if test ps ≡ count_if test qs =
      λ test. count_if-sum_of test ps ∙ same _ ∙ sym (count_if-sum_of test qs) in
    let nodes : (node : String) → on_node ps node ≡ on_node qs node =
      λ node. count (λ pod. str_eq pod.spec.node_name node) in
    rank_loop-sum_of ps ps key (omega (arith, count (has_key_at key), once))
    ∙ same _
    ∙ sum_of_same _ _ (λ p. rw (nodes p.spec.node_name) refl) qs
    ∙ sym (rank_loop-sum_of qs qs key once)

pub DistinctKeys-count :
    (ps : List Pod) (key : List ℕ) → DistinctKeys ps → count_if (has_key_at key) ps ≤ 1
DistinctKeys-count [] key d = omega arith
DistinctKeys-count (p ∷ ps) key (o, d) = elim (Bool-cases (has_key_at key p)) [
  | inr away ↦ rw away (DistinctKeys-count ps key d)
  | inl here ↦ rw here (omega (arith, none_with here ps o))
]
  where
    none_with :
        has_key_at key p ≡ true
        → (qs : List Pod) → All (HasOtherKey p) qs
        → count_if (has_key_at key) qs ≡ 0
    none_with here [] a = refl
    none_with here (q ∷ qs) (b, a) =
        let away : has_key_at key q ≡ false = rw (← (same_bytes-eq (pod_key p) key here)) b in
        rw away (none_with here qs a)
