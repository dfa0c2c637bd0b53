-- ===== src/Action/Returns.antt =====
-- What an action that returns without an error returns, alone and where a measure is bounded after it, and the inversion of a successful bind.
use churnless.Base.{ℕ, ◌+◌, ◌≤◌, arith, ◌≡◌, refl, subst, ap, Bool, true, false}
use churnless.Action.{Result, ok, err, Action, pure, ◌>>=◌, continue, attempt}
use churnless.Action.Costs.{Costs}

module _ {A : Type 0} (P : A → Type 0) where
  abbrev pub Holds : Result A → Type 0
  Holds (ok a) = P a
  Holds (err e) = Unit

module _ {W A : Type 0} (P : A → Type 0) where
  pub record Returns (m : Action W A) : Type 0 where
    pub at : (w : W) → Holds P (m w).0

  pub Returns-pure : (a : A) → P a → Returns (pure a)
  Returns-pure a p = record { at = λ w. p }

  after_any :
      {B : Type 0} (f : B → Action W A) (r : Result B) (w : W)
      → ((b : B) → Returns (f b))
      → Holds P (continue f r w).0
  after_any f (ok b) w c = (c b).at w
  after_any f (err e) w c = tt

  pub Returns-after :
      {B : Type 0} (m : Action W B) (f : B → Action W A)
      → ((b : B) → Returns (f b))
      → Returns (m >>= f)
  Returns-after m f c = record { at = λ w. after_any f (m w).0 (m w).1 c }

module _ {W A B : Type 0} (P : A → Type 0) (Q : B → Type 0) where
  pub Returns-with :
      (m : Action W A) (f : A → Action W B)
      → Returns P m
      → ((a : A) → P a → Returns Q (f a))
      → Returns Q (m >>= f)
  Returns-with m f r c = record { at = λ w. after (m w) (r.at w) }
    where
      after : (p : Result A × W) → Holds P p.0 → Holds Q (continue f p.0 p.1).0
      after (ok a, w) h = (c a h).at w
      after (err e, w) h = tt

module _ {W A : Type 0} (P : A → Type 0) where
  pub Returns-attempt : (m : Action W A) → Returns P m → Returns (Holds P) (attempt m)
  Returns-attempt m r = record { at = λ w. r.at w }

module _ {W A B : Type 0} (f : A → Action W B) where
  continue_ok :
      (r : Result A) (w w' : W) (b : B)
      → ◌≡◌ {A = Result B × W} (continue f r w) (ok b, w')
      → (a : A) × (r ≡ ok a) × (◌≡◌ {A = Result B × W} (f a w) (ok b, w'))
  continue_ok (ok a) w w' b e = (a, refl, e)
  continue_ok (err x) w w' b e = cc e

  -- The first step has returned a value, and the second has gone on from the world that it left.
  pub bind_ok :
      (m : Action W A) (w w' : W) (b : B)
      → ◌≡◌ {A = Result B × W} ((m >>= f) w) (ok b, w')
      → (a : A) × ((m w).0 ≡ ok a) × (◌≡◌ {A = Result B × W} (f a (m w).1) (ok b, w'))
  bind_ok m w w' b e = continue_ok (m w).0 (m w).1 w' b e

module _ {W A : Type 0} (P : A → Type 0) where
  -- The branches may use the outcome of the test.
  pub Returns-test :
      (b : Bool) (x y : Action W A)
      → (b ≡ true → Returns P x)
      → (b ≡ false → Returns P y)
      → Returns P (elim b [ true ↦ x | false ↦ y ])
  Returns-test true x y hx hy = hx refl
  Returns-test false x y hx hy = hy refl

  -- What a run that succeeds has returned.
  pub Returns-ok :
      (m : Action W A) (w w' : W) (a : A)
      → Returns P m
      → ◌≡◌ {A = Result A × W} (m w) (ok a, w')
      → P a
  Returns-ok m w w' a r e = subst (Holds P) (ap (λ (p : Result A × W). p.0) e) (r.at w)

module _ {W A : Type 0} where
  -- What was returned has been returned by a run.
  pub Returns-seen :
      (m : Action W A)
      → Returns (λ r. (w : W) × (w' : W) × ◌≡◌ {A = Result A × W} (m w) (r, w')) (attempt m)
  Returns-seen m = record { at = λ w. (w, (m w).1, refl) }

module _ {W A : Type 0} (P Q : A → Type 0) where
  pub Returns-weaken : (m : Action W A) → ((a : A) → P a → Q a) → Returns P m → Returns Q m
  Returns-weaken m h r = record { at = λ w. weaken (m w).0 (r.at w) }
    where
      weaken : (x : Result A) → Holds P x → Holds Q x
      weaken (ok a) p = h a p
      weaken (err e) p = tt

-- An action that costs nothing and returns what `P` holds of, before one that may rely on it.
pub Costs-told :
    {W A B : Type 0} (measure : W → ℕ) (n : ℕ) (P : A → Type 0) (m : Action W A)
    (f : A → Action W B)
    → Costs measure 0 m
    → Returns P m
    → ((a : A) → P a → Costs measure n (f a))
    → Costs measure n (m >>= f)
Costs-told {W} {A} {B} measure n P m f free r c = record {
  at = λ w. after (m w) (measure w) (free.at w) (r.at w);
}
  where
    after :
        (p : Result A × W) (k : ℕ)
        → measure p.1 ≤ k + 0
        → Holds P p.0
        → measure (continue f p.0 p.1).1 ≤ k + n
    after (ok a, w') k le h = omega (arith, le, (c a h).at w')
    after (err e, w') k le h = omega (arith, le)
