-- ===== src/Deployment/Rounds/Kept.antt =====
-- What a change that keeps the UIDs keeps of a fleet.
use churnless.Base.{ℕ, ◌≡◌, refl, ap, inl, inr, false, Bool-cases, List, [], ◌∷◌, map, All, arith}
use churnless.Api.{ReplicaSet}
use churnless.Deployment.Totals.{is_same, desired_replicas}
use churnless.Deployment.Counts.{spec_count, status_count, IsCounted, sum_spec, sum_old}
use churnless.Deployment.Fleet.{Distinct, HasOnce}
use churnless.Deployment.Rounds.{scale_to}

-- The change leaves each ReplicaSet its UID.
abbrev pub KeepsUid : (ReplicaSet → ReplicaSet) → Type 0
KeepsUid f = (rs : ReplicaSet) → (f rs).metadata.uid ≡ rs.metadata.uid

pub scale_to-KeepsUid : (t : ReplicaSet) (n : ℕ) → KeepsUid (scale_to t n)
scale_to-KeepsUid t n rs = elim (Bool-cases (is_same rs t)) [
  | inl same ↦ rw same refl
  | inr other ↦ rw other refl
]

pub All-map {κ} :
    (P Q : ReplicaSet → Type κ) (f : ReplicaSet → ReplicaSet) (rss : List ReplicaSet)
    → ((rs : ReplicaSet) → P rs → Q (f rs))
    → All P rss
    → All Q (map f rss)
All-map P Q f [] h a = tt
All-map P Q f (rs ∷ rss) h a = (h rs a.0, All-map P Q f rss h a.1)

module _ (f : ReplicaSet → ReplicaSet) (keeps : KeepsUid f) where
  is_same-changed : (a b : ReplicaSet) → is_same (f a) (f b) ≡ is_same a b
  unfolding is_same
  is_same-changed a b = rw (keeps a, keeps b) refl

  others-changed :
      (t : ReplicaSet) (rss : List ReplicaSet)
      → All (λ other. is_same other t ≡ false) rss
      → All (λ other. is_same other (f t) ≡ false) (map f rss)
  others-changed t rss a =
      All-map (λ other. is_same other t ≡ false) (λ other. is_same other (f t) ≡ false) f rss
        (λ rs h. rw (is_same-changed rs t) h) a

  pub Distinct-changed : (rss : List ReplicaSet) → Distinct rss → Distinct (map f rss)
  Distinct-changed [] h = tt
  Distinct-changed (rs ∷ rss) h = (others-changed rs rss h.0, Distinct-changed rss h.1)

  pub HasOnce-changed :
      (t : ReplicaSet) (rss : List ReplicaSet) → HasOnce t rss → HasOnce (f t) (map f rss)
  HasOnce-changed t [] h = h
  HasOnce-changed t (rs ∷ rss) (inl (e, a)) = inl (ap f e, others-changed t rss a)
  HasOnce-changed t (rs ∷ rss) (inr (ne, h)) =
      inr (rw (is_same-changed rs t) ne, HasOnce-changed t rss h)

  pub sum_old-same :
      (current : ReplicaSet) (rss : List ReplicaSet) → sum_old (f current) rss ≡ sum_old current rss
  unfolding sum_old is_same
  sum_old-same current [] = refl
  sum_old-same current (rs ∷ rss) = rw (keeps current, sum_old-same current rss) refl

  pub sum_old-changed :
      ((rs : ReplicaSet) → spec_count (f rs) ≡ spec_count rs)
      → (current : ReplicaSet) (rss : List ReplicaSet)
      → sum_old (f current) (map f rss) ≡ sum_old current rss
  unfolding sum_old
  sum_old-changed same current [] = refl
  sum_old-changed same current (rs ∷ rss) =
      rw (is_same-changed rs current) (ground (arith, same rs, sum_old-changed same current rss))

pub sum_spec-changed :
    (f : ReplicaSet → ReplicaSet)
    → ((rs : ReplicaSet) → spec_count (f rs) ≡ spec_count rs)
    → (rss : List ReplicaSet) → sum_spec (map f rss) ≡ sum_spec rss
unfolding sum_spec
sum_spec-changed f same [] = refl
sum_spec-changed f same (rs ∷ rss) = omega (arith, same rs, sum_spec-changed f same rss)

pub IsCounted-scale_to :
    (t : ReplicaSet) (n : ℕ) (rs : ReplicaSet) → IsCounted rs → IsCounted (scale_to t n rs)
unfolding desired_replicas
IsCounted-scale_to t n rs c = elim (Bool-cases (is_same rs t)) [
  | inl same ↦ rw same (record { spec_eq = refl; status_eq = c.status_eq })
  | inr other ↦ rw other c
]

pub status_count-scale_to :
    (t : ReplicaSet) (n : ℕ) (rs : ReplicaSet) → status_count (scale_to t n rs) ≡ status_count rs
status_count-scale_to t n rs = elim (Bool-cases (is_same rs t)) [
  | inl same ↦ rw same refl
  | inr other ↦ rw other refl
]
