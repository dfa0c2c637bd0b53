-- ===== src/ReplicaSet/Listed.antt =====
-- The candidates as a list: which keys and which Pods stand in it.
use churnless.Base.{
  ℕ, ◌≡◌, refl, sym, ap, ◌∙◌, ◌⊎◌, inl, inr, Bool, true, Bool-cases, List, [], ◌∷◌, ◌++◌, All,
  arith, sort_stable, insert_sorted,
}
use churnless.Api.{Pod}
use churnless.Client.{ObjectKey}
use churnless.Deployment.Actions.{key_of}
use churnless.ReplicaSet.Pods.{pod_key, same_bytes}
use churnless.ReplicaSet.Claim.{is_candidate, put_candidate, put_candidates}
use churnless.ReplicaSet.DistinctKeys.{same_bytes-eq}

-- The value stands in the list.
abbrev pub Among : {A : Type 0} → A → List A → Type 0
Among a [] = ⊥
Among a (b ∷ bs) = (b ≡ a) ⊎ Among a bs

pub All-weaken :
    {A : Type 0} {P Q : A → Type 0} → ((a : A) → P a → Q a) → (xs : List A) → All P xs → All Q xs
All-weaken h [] a = tt
All-weaken h (x ∷ xs) (b, a) = (h x b, All-weaken h xs a)

pub All-Among : {A : Type 0} (xs : List A) → All (λ a. Among a xs) xs
All-Among [] = tt
All-Among (x ∷ xs) = (inl refl, All-weaken (λ a h. inr h) xs (All-Among xs))

pub Among-append :
    {A : Type 0} (a b : A) (xs : List A) → Among a (xs ++ b ∷ []) → Among a xs ⊎ (b ≡ a)
Among-append a b [] (inl e) = inr e
Among-append a b [] (inr h) = elim h [ ]
Among-append a b (x ∷ xs) (inl e) = inl (inl e)
Among-append a b (x ∷ xs) (inr h) = elim (Among-append a b xs h) [
  | inl i ↦ inl (inr i)
  | inr e ↦ inr e
]

-- The keys that are there stay there.
abbrev pub Extends : List Pod → List Pod → Type 0
Extends before after = (p : Pod) → is_candidate p before ≡ true → is_candidate p after ≡ true

put_candidate-Extends : (pod : Pod) (ps : List Pod) → Extends ps (put_candidate pod ps)
unfolding put_candidate
put_candidate-Extends pod [] p h = absurd (cc h)
put_candidate-Extends pod (q ∷ qs) p h = elim (Bool-cases (same_bytes (pod_key q) (pod_key pod))) [
  | inl e ↦ rw (put_candidate, e, sym (same_bytes-eq (pod_key q) (pod_key pod) e)) h
  | inr e ↦ rw (put_candidate, e) (ground (arith, h, put_candidate-Extends pod qs p))
]

same_bytes_refl : (xs : List ℕ) → same_bytes xs xs ≡ true
unfolding same_bytes
same_bytes_refl [] = refl
same_bytes_refl (x ∷ xs) = ground (arith, same_bytes_refl xs)

pub same_bytes_self : (pod : Pod) → same_bytes (pod_key pod) (pod_key pod) ≡ true
same_bytes_self pod = same_bytes_refl (pod_key pod)

put_candidate_there : (pod : Pod) (ps : List Pod) → is_candidate pod (put_candidate pod ps) ≡ true
unfolding put_candidate
put_candidate_there pod [] = ground (arith, same_bytes_self pod)
put_candidate_there pod (q ∷ qs) = ground (arith, same_bytes_self pod, put_candidate_there pod qs)

put_candidates-Extends : (pods ps : List Pod) → Extends ps (put_candidates pods ps)
unfolding put_candidates
put_candidates-Extends [] ps p h = h
put_candidates-Extends (pod ∷ pods) ps p h =
    put_candidates-Extends pods (put_candidate pod ps) p (put_candidate-Extends pod ps p h)

pub put_candidates_there :
    (pods ps : List Pod) → All (λ p. is_candidate p (put_candidates pods ps) ≡ true) pods
unfolding put_candidates
put_candidates_there [] ps = tt
put_candidates_there (pod ∷ pods) ps = (
  put_candidates-Extends pods (put_candidate pod ps) pod (put_candidate_there pod ps),
  put_candidates_there pods (put_candidate pod ps),
)

pub put_candidates-Among :
    (pods ps : List Pod) (p : Pod) → Among p (put_candidates pods ps) → Among p pods ⊎ Among p ps
unfolding put_candidates put_candidate
put_candidates-Among [] ps p h = inr h
put_candidates-Among (pod ∷ pods) ps p h =
    elim (put_candidates-Among pods (put_candidate pod ps) p h) [
      | inl later ↦ inl (inr later)
      | inr put ↦ elim (one ps put) [ inl e ↦ inl (inl e) | inr there ↦ inr there ]
    ]
  where
    one : (qs : List Pod) → Among p (put_candidate pod qs) → (pod ≡ p) ⊎ Among p qs
    one [] (inl e) = inl e
    one [] (inr h) = elim h [ ]
    one (q ∷ qs) h = elim (Bool-cases (same_bytes (pod_key q) (pod_key pod))) [
      | inl e ↦ elim (rw (put_candidate, e) at h) [ inl f ↦ inl f | inr f ↦ inr (inr f) ]
      | inr e ↦ elim (rw (put_candidate, e) at h) [
        | inl f ↦ inr (inl f)
        | inr f ↦ elim (one qs f) [ inl g ↦ inl g | inr g ↦ inr (inr g) ]
      ]
    ]

pub is_candidate-sort :
    (less : Pod → Pod → Bool) (p : Pod) (ps : List Pod)
    → is_candidate p (sort_stable less ps) ≡ is_candidate p ps
unfolding sort_stable insert_sorted
is_candidate-sort less p [] = refl
is_candidate-sort less p (q ∷ qs) =
    inserted (sort_stable less qs) ∙ ground (arith, is_candidate-sort less p qs)
  where
    inserted : (ps : List Pod) → is_candidate p (insert_sorted less q ps) ≡ is_candidate p (q ∷ ps)
    inserted [] = refl
    inserted (r ∷ rs) = ground (arith, inserted rs)

pub same_key :
    (pod fresh : Pod) → key_of fresh.metadata ≡ key_of pod.metadata → pod_key fresh ≡ pod_key pod
same_key pod fresh e = ap (λ (k : ObjectKey). k.namespace ++ b'/' ∷ k.name) e

pub appended : (candidates : List Pod) (fresh : Pod) → Extends candidates (candidates ++ fresh ∷ [])
appended [] fresh p h = absurd (cc h)
appended (c ∷ cs) fresh p h = ground (arith, h, appended cs fresh p)

pub appended_there :
    (candidates : List Pod) (pod fresh : Pod)
    → pod_key fresh ≡ pod_key pod
    → is_candidate pod (candidates ++ fresh ∷ []) ≡ true
appended_there [] pod fresh e = rw (e, same_bytes_self pod) refl
appended_there (c ∷ cs) pod fresh e = ground (arith, appended_there cs pod fresh e)
