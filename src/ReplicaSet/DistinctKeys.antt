-- ===== src/ReplicaSet/DistinctKeys.antt =====
-- Lists of Pods in which no two have the same key, and the order of the keys.
use churnless.Base.{
  ℕ, ◌≡◌, refl, ◌∙◌, inl, inr, Bool, true, false, Bool-cases, List, [], ◌∷◌, ◌++◌, All, keep,
  sort_stable, insert_sorted, arith,
}
use churnless.Api.{Pod}
use churnless.ReplicaSet.Pods.{pod_key, same_bytes, bytes_less}
use churnless.ReplicaSet.Claim.{put_candidate, put_candidates, is_candidate}

pub bytes_less-asym : (xs ys : List ℕ) → bytes_less xs ys ≡ true → bytes_less ys xs ≡ false
unfolding bytes_less
bytes_less-asym [] [] h = refl
bytes_less-asym [] (y ∷ ys) h = refl
bytes_less-asym (x ∷ xs) [] h = absurd (cc h)
bytes_less-asym (x ∷ xs) (y ∷ ys) h = ground (arith, h, bytes_less-asym xs ys)

-- The order is total, so that what is not less is the same or greater.
pub not_less_trans :
    (xs ys zs : List ℕ)
    → bytes_less ys xs ≡ false
    → bytes_less zs ys ≡ false
    → bytes_less zs xs ≡ false
unfolding bytes_less
not_less_trans [] ys [] h k = refl
not_less_trans [] ys (z ∷ zs) h k = refl
not_less_trans (x ∷ xs) [] zs h k = absurd (cc h)
not_less_trans (x ∷ xs) (y ∷ ys) [] h k = absurd (cc k)
not_less_trans (x ∷ xs) (y ∷ ys) (z ∷ zs) h k = ground (arith, h, k, not_less_trans xs ys zs)

pub not_less-same :
    (xs ys : List ℕ) → bytes_less ys xs ≡ false → same_bytes ys xs ≡ false → bytes_less xs ys ≡ true
unfolding bytes_less same_bytes
not_less-same [] [] h k = absurd (cc k)
not_less-same [] (y ∷ ys) h k = refl
not_less-same (x ∷ xs) [] h k = absurd (cc h)
not_less-same (x ∷ xs) (y ∷ ys) h k = ground (arith, h, k, not_less-same xs ys)

pub same_bytes_comm : (xs ys : List ℕ) → same_bytes xs ys ≡ same_bytes ys xs
unfolding same_bytes
same_bytes_comm [] [] = refl
same_bytes_comm [] (y ∷ ys) = refl
same_bytes_comm (x ∷ xs) [] = refl
same_bytes_comm (x ∷ xs) (y ∷ ys) = ground (arith, same_bytes_comm xs ys)

pub same_bytes-eq : (xs ys : List ℕ) → same_bytes xs ys ≡ true → xs ≡ ys
unfolding same_bytes
same_bytes-eq [] [] h = refl
same_bytes-eq [] (y ∷ ys) h = absurd (cc h)
same_bytes-eq (x ∷ xs) [] h = absurd (cc h)
same_bytes-eq (x ∷ xs) (y ∷ ys) h =
    let head : x ≡ y = ground (arith, h) in
    let tail = same_bytes-eq xs ys (ground (arith, h)) in rw (head, tail) refl

abbrev pub HasOtherKey : Pod → Pod → Type 0
HasOtherKey pod p = same_bytes (pod_key p) (pod_key pod) ≡ false

-- No two Pods of the list have the same key.
abbrev pub DistinctKeys : List Pod → Type 0
DistinctKeys [] = Unit
DistinctKeys (pod ∷ pods) = All (HasOtherKey pod) pods × DistinctKeys pods

put_candidate-other :
    (x pod : Pod) (ps : List Pod)
    → HasOtherKey x pod
    → All (HasOtherKey x) ps
    → All (HasOtherKey x) (put_candidate pod ps)
unfolding put_candidate
put_candidate-other x pod [] o a = (o, tt)
put_candidate-other x pod (p ∷ ps) o (b, a) =
    elim (Bool-cases (same_bytes (pod_key p) (pod_key pod))) [
      | inl e ↦ rw (put_candidate, e) (o, a)
      | inr e ↦ rw (put_candidate, e) (b, put_candidate-other x pod ps o a)
    ]

-- Only the key counts.
pub same_key-others :
    (p pod : Pod) (ps : List Pod)
    → pod_key p ≡ pod_key pod
    → All (HasOtherKey p) ps
    → All (HasOtherKey pod) ps
same_key-others p pod [] e a = tt
same_key-others p pod (q ∷ qs) e (b, a) = (rw (← e) b, same_key-others p pod qs e a)

put_candidate-DistinctKeys :
    (pod : Pod) (ps : List Pod) → DistinctKeys ps → DistinctKeys (put_candidate pod ps)
unfolding put_candidate
put_candidate-DistinctKeys pod [] d = (tt, tt)
put_candidate-DistinctKeys pod (p ∷ ps) (a, d) =
    elim (Bool-cases (same_bytes (pod_key p) (pod_key pod))) [
      | inl e ↦
          rw (put_candidate, e)
            (same_key-others p pod ps (same_bytes-eq (pod_key p) (pod_key pod) e) a, d)
      | inr e ↦
          rw (put_candidate, e)
            (
              put_candidate-other p pod ps (same_bytes_comm (pod_key pod) (pod_key p) ∙ e) a,
              put_candidate-DistinctKeys pod ps d,
            )
    ]

pub put_candidates-DistinctKeys :
    (pods ps : List Pod) → DistinctKeys ps → DistinctKeys (put_candidates pods ps)
unfolding put_candidates
put_candidates-DistinctKeys [] ps d = d
put_candidates-DistinctKeys (pod ∷ pods) ps d =
    put_candidates-DistinctKeys pods (put_candidate pod ps) (put_candidate-DistinctKeys pod ps d)

pub not_candidate-others :
    (pod : Pod) (ps : List Pod) → is_candidate pod ps ≡ false → All (HasOtherKey pod) ps
not_candidate-others pod [] h = tt
not_candidate-others pod (p ∷ ps) h =
    (ground (arith, h), not_candidate-others pod ps (ground (arith, h)))

pub append-DistinctKeys :
    (ps : List Pod) (pod : Pod)
    → DistinctKeys ps
    → All (HasOtherKey pod) ps
    → DistinctKeys (ps ++ pod ∷ [])
append-DistinctKeys [] pod d a = (tt, tt)
append-DistinctKeys (p ∷ ps) pod (o, d) (b, a) = (
  append-others ps o (same_bytes_comm (pod_key pod) (pod_key p) ∙ b),
  append-DistinctKeys ps pod d a,
)
  where
    append-others :
        (ps : List Pod)
        → All (HasOtherKey p) ps
        → HasOtherKey p pod
        → All (HasOtherKey p) (ps ++ pod ∷ [])
    append-others [] a h = (h, tt)
    append-others (q ∷ qs) (b, a) h = (b, append-others qs a h)

-- Sorting keeps the keys distinct.
module _ (less : Pod → Pod → Bool) where
  insert_sorted-other :
      (x pod : Pod) (ps : List Pod)
      → HasOtherKey x pod
      → All (HasOtherKey x) ps
      → All (HasOtherKey x) (insert_sorted less pod ps)
  unfolding insert_sorted
  insert_sorted-other x pod [] o a = (o, tt)
  insert_sorted-other x pod (p ∷ ps) o (b, a) = elim (Bool-cases (less p pod)) [
    | inl e ↦ rw (insert_sorted, e) (b, insert_sorted-other x pod ps o a)
    | inr e ↦ rw (insert_sorted, e) (o, (b, a))
  ]

  insert_sorted-DistinctKeys :
      (pod : Pod) (ps : List Pod)
      → All (HasOtherKey pod) ps
      → DistinctKeys ps
      → DistinctKeys (insert_sorted less pod ps)
  unfolding insert_sorted
  insert_sorted-DistinctKeys pod [] a d = (tt, tt)
  insert_sorted-DistinctKeys pod (p ∷ ps) (b, a) (o, d) = elim (Bool-cases (less p pod)) [
    | inl e ↦
        rw (insert_sorted, e)
          (
            insert_sorted-other p pod ps (same_bytes_comm (pod_key pod) (pod_key p) ∙ b) o,
            insert_sorted-DistinctKeys pod ps a d,
          )
    | inr e ↦ rw (insert_sorted, e) ((b, a), (o, d))
  ]

  sort_stable-others :
      (x : Pod) (ps : List Pod) → All (HasOtherKey x) ps → All (HasOtherKey x) (sort_stable less ps)
  unfolding sort_stable
  sort_stable-others x [] a = tt
  sort_stable-others x (p ∷ ps) (b, a) =
      insert_sorted-other x p (sort_stable less ps) b (sort_stable-others x ps a)

  pub sort_stable-DistinctKeys :
      (ps : List Pod) → DistinctKeys ps → DistinctKeys (sort_stable less ps)
  unfolding sort_stable
  sort_stable-DistinctKeys [] d = tt
  sort_stable-DistinctKeys (p ∷ ps) (o, d) =
      insert_sorted-DistinctKeys p (sort_stable less ps) (sort_stable-others p ps o)
        (sort_stable-DistinctKeys ps d)

All-keep : (P : Pod → Type 0) (f : Pod → Bool) (ps : List Pod) → All P ps → All P (keep f ps)
All-keep P f [] a = tt
All-keep P f (p ∷ ps) (b, a) = elim (Bool-cases (f p)) [
  | inl e ↦ rw e (b, All-keep P f ps a)
  | inr e ↦ rw e (All-keep P f ps a)
]

pub DistinctKeys-keep :
    (f : Pod → Bool) (ps : List Pod) → DistinctKeys ps → DistinctKeys (keep f ps)
DistinctKeys-keep f [] d = tt
DistinctKeys-keep f (p ∷ ps) (o, d) = elim (Bool-cases (f p)) [
  | inl e ↦ rw e (All-keep (HasOtherKey p) f ps o, DistinctKeys-keep f ps d)
  | inr e ↦ rw e (DistinctKeys-keep f ps d)
]
