-- ===== src/Deployment/Fleet.antt =====
-- The ReplicaSets of a Deployment after one of them is scaled, and what that does to the sums.
use text.Mathlib.TextPositions.{eq_refl}
use churnless.Base.{
  ℕ, ◌+◌, ◌≤◌, ◌≡◌, refl, ◌⊎◌, inl, inr, min, true, false, some, List, [], ◌∷◌, map, All, arith,
  eq_iff, if◌then◌else◌,
}
use churnless.Int32.{pos}
use churnless.Api.{ReplicaSet}
use churnless.Deployment.Totals.{is_same, desired_replicas}
use churnless.Deployment.Counts.{
  spec_count, status_count, available_count, sum_spec, sum_available, sum_old, sum_available-le,
}

-- No two ReplicaSets of the list have the same UID.
abbrev pub Distinct : List ReplicaSet → Type 0
Distinct [] = Unit
Distinct (rs ∷ rss) = All (λ other. is_same other rs ≡ false) rss × Distinct rss

-- The ReplicaSet stands in the list, and no other there has its UID.
abbrev pub HasOnce : ReplicaSet → List ReplicaSet → Type 0
HasOnce t [] = ⊥
HasOnce t (rs ∷ rss) =
    ((rs ≡ t) × All (λ other. is_same other t ≡ false) rss)
    ⊎ ((is_same rs t ≡ false) × HasOnce t rss)

abbrev pub with_replicas : ReplicaSet → ℕ → ReplicaSet
with_replicas rs n = record rs { spec = record rs.spec { replicas = some (pos n) } }

-- The list once the specification of `t` asks for `n` replicas; nothing else has changed.
abbrev pub scaled : ReplicaSet → ℕ → List ReplicaSet → List ReplicaSet
scaled t n = map (λ rs. if is_same rs t then with_replicas rs n else rs)

pub is_same_self : (rs : ReplicaSet) → is_same rs rs ≡ true
unfolding is_same
is_same_self rs = eq_refl rs.metadata.uid

pub is_same_comm : (a b : ReplicaSet) → is_same a b ≡ false → is_same b a ≡ false
unfolding is_same
is_same_comm a b h =
    ground (arith, eq_iff a.metadata.uid b.metadata.uid, eq_iff b.metadata.uid a.metadata.uid)

pub All-HasOnce {κ} :
    (P : ReplicaSet → Type κ) (t : ReplicaSet) (rss : List ReplicaSet)
    → All P rss
    → HasOnce t rss
    → P t
All-HasOnce P t [] a h = elim h [ ]
All-HasOnce P t (rs ∷ rss) a (inl (e, _)) = rw (← e) a.0
All-HasOnce P t (rs ∷ rss) a (inr (_, h)) = All-HasOnce P t rss a.1 h

others-scaled :
    (t : ReplicaSet) (n : ℕ) (rss : List ReplicaSet)
    → All (λ other. is_same other t ≡ false) rss
    → scaled t n rss ≡ rss
others-scaled t n [] a = refl
others-scaled t n (rs ∷ rss) a = rw (a.0, others-scaled t n rss a.1)

-- Scaling one ReplicaSet changes the sum by its share alone.
pub sum_spec-scaled :
    (t : ReplicaSet) (n : ℕ) (rss : List ReplicaSet)
    → HasOnce t rss
    → sum_spec (scaled t n rss) + spec_count t ≡ sum_spec rss + n
unfolding sum_spec desired_replicas
sum_spec-scaled t n [] h = elim h [ ]
sum_spec-scaled t n (rs ∷ rss) (inl (e, a)) =
    rw (others-scaled t n rss a, e, is_same_self t) (omega arith)
sum_spec-scaled t n (rs ∷ rss) (inr (ne, h)) = rw ne (omega (arith, sum_spec-scaled t n rss h))

pub sum_available-scaled :
    (t : ReplicaSet) (n : ℕ) (rss : List ReplicaSet)
    → HasOnce t rss
    → sum_available (scaled t n rss) + available_count t
      ≡ sum_available rss + min (status_count t) n
unfolding sum_available desired_replicas
sum_available-scaled t n [] h = elim h [ ]
sum_available-scaled t n (rs ∷ rss) (inl (e, a)) =
    rw (others-scaled t n rss a, e, is_same_self t) (omega arith)
sum_available-scaled t n (rs ∷ rss) (inr (ne, h)) =
    rw ne (omega (arith, sum_available-scaled t n rss h))

others-sum_old :
    (t : ReplicaSet) (rss : List ReplicaSet)
    → All (λ other. is_same other t ≡ false) rss
    → sum_old t rss ≡ sum_spec rss
unfolding sum_old sum_spec
others-sum_old t [] a = refl
others-sum_old t (rs ∷ rss) a = rw (a.0, others-sum_old t rss a.1)

-- The current ReplicaSet and the old ones make up the total.
pub sum_spec-split :
    (t : ReplicaSet) (rss : List ReplicaSet)
    → HasOnce t rss
    → sum_spec rss ≡ spec_count t + sum_old t rss
unfolding sum_old sum_spec
sum_spec-split t [] h = elim h [ ]
sum_spec-split t (rs ∷ rss) (inl (e, a)) =
    rw (e, is_same_self t, others-sum_old t rss a) (omega arith)
sum_spec-split t (rs ∷ rss) (inr (ne, h)) = rw ne (omega (arith, sum_spec-split t rss h))

pub sum_available-ge :
    (t : ReplicaSet) (rss : List ReplicaSet) → HasOnce t rss → available_count t ≤ sum_available rss
unfolding sum_available
sum_available-ge t [] h = elim h [ ]
sum_available-ge t (rs ∷ rss) (inl (e, a)) = rw e (omega arith)
sum_available-ge t (rs ∷ rss) (inr (ne, h)) = omega (arith, sum_available-ge t rss h)

-- Where the old ReplicaSets ask for nothing, all that is available belongs to the current one.
pub sum_available-le-current :
    (t : ReplicaSet) (rss : List ReplicaSet)
    → HasOnce t rss
    → sum_available rss ≤ available_count t + sum_old t rss
unfolding sum_available sum_old
sum_available-le-current t [] h = elim h [ ]
sum_available-le-current t (rs ∷ rss) (inl (e, a)) =
    rw (e, is_same_self t, others-sum_old t rss a) (omega (arith, sum_available-le rss))
sum_available-le-current t (rs ∷ rss) (inr (ne, h)) =
    rw ne (omega (arith, sum_available-le-current t rss h))
