-- ===== src/Deployment/Naming.antt =====
-- replicaSetName: the name of the ReplicaSet of a revision, at most 63 bytes long.
use churnless.Base.{
  ℕ, zero, suc, ◌+◌, ◌-◌, ◌≤◌, ◌≡◌, min, List, [], ◌∷◌, ◌++◌, length, length-append, arith, ◌==◌,
  if◌then◌else◌,
}

-- `xs[:n]` where n is not past the end.
abbrev pub take : ℕ → List ℕ → List ℕ
take zero xs = []
take (suc n) [] = []
take (suc n) (x ∷ xs) = x ∷ take n xs

abbrev pub cons_unless_trimmed : ℕ → ℕ → List ℕ → List ℕ
cons_unless_trimmed c x [] = if x == c then [] else x ∷ []
cons_unless_trimmed c x (y ∷ ys) = x ∷ y ∷ ys

-- strings.TrimRight with one byte to cut.
unfoldable pub trim_right : ℕ → List ℕ → List ℕ
trim_right c [] = []
trim_right c (x ∷ xs) = cons_unless_trimmed c x (trim_right c xs)

unfoldable pub replica_set_name : List ℕ → List ℕ → List ℕ
unfolding trim_right
replica_set_name deployment_name revision =
    let suffix : ℕ = 1 + 10 in
    let max_prefix = 63 - suffix in
    let prefix = trim_right b'-' (take (min (length deployment_name) max_prefix) deployment_name) in
    prefix ++ b'-' ∷ revision

length-take : (n : ℕ) (xs : List ℕ) → length (take n xs) ≤ n
length-take zero xs = omega arith
length-take (suc n) [] = omega arith
length-take (suc n) (x ∷ xs) = omega (arith, length-take n xs)

length-cons_unless_trimmed :
    (c x : ℕ) (xs : List ℕ) → length (cons_unless_trimmed c x xs) ≤ suc (length xs)
length-cons_unless_trimmed c x [] = ground arith
length-cons_unless_trimmed c x (y ∷ ys) = omega arith

length-trim_right : (c : ℕ) (xs : List ℕ) → length (trim_right c xs) ≤ length xs
unfolding trim_right
length-trim_right c [] = omega arith
length-trim_right c (x ∷ xs) =
    omega (arith, length-cons_unless_trimmed c x (trim_right c xs), length-trim_right c xs)

-- With a revision of ten bytes the name has at most 63 bytes.
length-replica_set_name :
    (deployment_name revision : List ℕ)
    → length revision ≡ 10
    → length (replica_set_name deployment_name revision) ≤ 63
unfolding replica_set_name
length-replica_set_name deployment_name revision h =
    let cut = take (min (length deployment_name) 52) deployment_name in
    omega (
      arith,
      length-append (trim_right b'-' cut) (b'-' ∷ revision),
      length-trim_right b'-' cut,
      length-take (min (length deployment_name) 52) deployment_name,
    )
