-- ===== src/Sorted.antt =====
-- What sort_stable promises: the same elements, in the order of a strict weak order.
use mathlib.Core.List.{Perm}
use mathlib.Core.List.Perm
use churnless.Base.{
  suc, length, arith, ◌≡◌, inl, inr, refl, Bool, true, false, Bool-cases, List, [], ◌∷◌, ◌++◌, All,
  sort_stable, insert_sorted,
}

module _ {ℓ} {A : Type ℓ} (less : A → A → Bool) where
  -- No later element is less than an earlier one.
  abbrev pub IsSorted : List A → Type 0
  IsSorted [] = Unit
  IsSorted (x ∷ xs) = All (λ y. less y x ≡ false) xs × IsSorted xs

  insert_sorted-Perm : (x : A) (ys : List A) → Perm (insert_sorted less x ys) (x ∷ ys)
  unfolding insert_sorted
  insert_sorted-Perm x [] = Perm.rfl
  insert_sorted-Perm x (y ∷ ys) = elim (Bool-cases (less y x)) [
    | inl e ↦
        rw (insert_sorted, e)
          (Perm.trans (Perm.cons y (insert_sorted-Perm x ys)) (Perm.swap x y ys))
    | inr e ↦ rw (insert_sorted, e) Perm.rfl
  ]

  pub sort_stable-Perm : (xs : List A) → Perm (sort_stable less xs) xs
  unfolding sort_stable
  sort_stable-Perm [] = Perm.rfl
  sort_stable-Perm (x ∷ xs) =
      Perm.trans (insert_sorted-Perm x (sort_stable less xs)) (Perm.cons x (sort_stable-Perm xs))

  length-insert_sorted : (x : A) (ys : List A) → length (insert_sorted less x ys) ≡ suc (length ys)
  unfolding insert_sorted
  length-insert_sorted x [] = refl
  length-insert_sorted x (y ∷ ys) = ground (arith, length-insert_sorted x ys)

  pub length-sort_stable : (xs : List A) → length (sort_stable less xs) ≡ length xs
  unfolding sort_stable
  length-sort_stable [] = refl
  length-sort_stable (x ∷ xs) =
      omega (arith, length-insert_sorted x (sort_stable less xs), length-sort_stable xs)

  insert_sorted-All :
      (P : A → Type 0) (x : A) (ys : List A) → P x → All P ys → All P (insert_sorted less x ys)
  unfolding insert_sorted
  insert_sorted-All P x [] p a = (p, tt)
  insert_sorted-All P x (y ∷ ys) p (q, a) = elim (Bool-cases (less y x)) [
    | inl e ↦ rw (insert_sorted, e) (q, insert_sorted-All P x ys p a)
    | inr e ↦ rw (insert_sorted, e) (p, (q, a))
  ]

  pub sort_stable-All : (P : A → Type 0) (xs : List A) → All P xs → All P (sort_stable less xs)
  unfolding sort_stable
  sort_stable-All P [] a = tt
  sort_stable-All P (x ∷ xs) (p, a) =
      insert_sorted-All P x (sort_stable less xs) p (sort_stable-All P xs a)

  All-weaken : (P Q : A → Type 0) (xs : List A) → ((x : A) → P x → Q x) → All P xs → All Q xs
  All-weaken P Q [] h a = tt
  All-weaken P Q (x ∷ xs) h (p, a) = (h x p, All-weaken P Q xs h a)

  pub IsSorted-append :
      (xs ys : List A) → IsSorted (xs ++ ys) → All (λ x. All (λ y. less y x ≡ false) ys) xs
  IsSorted-append [] ys s = tt
  IsSorted-append (x ∷ xs) ys (a, s) = (All-append _ xs ys a, IsSorted-append xs ys s)
    where
      All-append : (P : A → Type 0) (xs ys : List A) → All P (xs ++ ys) → All P ys
      All-append P [] ys a = a
      All-append P (x ∷ xs) ys (p, a) = All-append P xs ys a

  module _ (asym : (x y : A) → less x y ≡ true → less y x ≡ false)
      (trans : (x y z : A) → less y x ≡ false → less z y ≡ false → less z x ≡ false) where
    insert_sorted-IsSorted :
        (x : A) (ys : List A) → IsSorted ys → IsSorted (insert_sorted less x ys)
    unfolding insert_sorted
    insert_sorted-IsSorted x [] s = (tt, tt)
    insert_sorted-IsSorted x (y ∷ ys) (a, s) = elim (Bool-cases (less y x)) [
      | inl e ↦
          rw (insert_sorted, e)
            (
              insert_sorted-All (λ z. less z y ≡ false) x ys (asym y x e) a,
              insert_sorted-IsSorted x ys s,
            )
      | inr e ↦ rw (insert_sorted, e) ((e, All-weaken _ _ ys (λ z h. trans x y z e h) a), (a, s))
    ]

    pub sort_stable-IsSorted : (xs : List A) → IsSorted (sort_stable less xs)
    unfolding sort_stable
    sort_stable-IsSorted [] = tt
    sort_stable-IsSorted (x ∷ xs) =
        insert_sorted-IsSorted x (sort_stable less xs) (sort_stable-IsSorted xs)
