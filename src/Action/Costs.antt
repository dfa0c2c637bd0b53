-- ===== src/Action/Costs.antt =====
-- How much an action can add to a measure of the world, such as the number of writes: one rule for
-- each way to build an action.
use churnless.Base.{ℕ, ◌+◌, ◌≤◌, ◌≡◌, refl, Bool, true, false, Option, none, some, String, arith}
use churnless.Action.{
  Error, Result, ok, err, Action, pure, fail, lift, infallible, ◌>>=◌, attempt, wrapping,
  ignoring_not_found, continue,
}

module _ {W : Type 0} (measure : W → ℕ) where
  -- Each run of the action adds at most `n`.
  pub record Costs {A : Type 0} (n : ℕ) (m : Action W A) : Type 0 where
    pub at : (w : W) → measure (m w).1 ≤ measure w + n

  pub Costs-pure : {A : Type 0} (n : ℕ) (a : A) → Costs n (pure a)
  Costs-pure n a = record { at = λ w. omega arith }

  pub Costs-fail : {A : Type 0} (n : ℕ) (e : Error) → Costs {A = A} n (fail e)
  Costs-fail n e = record { at = λ w. omega arith }

  pub Costs-lift : {A : Type 0} (n : ℕ) (r : Result A) → Costs n (lift r)
  Costs-lift n r = record { at = λ w. omega arith }

  pub Costs-infallible :
      {A : Type 0} (m : W → A × W)
      → ((w : W) → measure (m w).1 ≤ measure w)
      → Costs 0 (infallible m)
  Costs-infallible m h = record { at = λ w. omega (arith, h w) }

  pub Costs-weaken : {A : Type 0} (n : ℕ) (m : Action W A) → Costs 0 m → Costs n m
  Costs-weaken n m c = record { at = λ w. omega (arith, c.at w) }

  pub Costs-mono : {A : Type 0} (a b : ℕ) (m : Action W A) → a ≤ b → Costs a m → Costs b m
  Costs-mono a b m le c = record { at = λ w. omega (arith, c.at w) }

  pub Costs-attempt : {A : Type 0} (n : ℕ) (m : Action W A) → Costs n m → Costs n (attempt m)
  Costs-attempt n m c = record { at = λ w. c.at w }

  pub Costs-wrapping :
      {A : Type 0} (n : ℕ) (s : String) (m : Action W A) → Costs n m → Costs n (wrapping s m)
  Costs-wrapping n s m c = record { at = λ w. c.at w }

  pub Costs-ignoring :
      (n : ℕ) (m : Action W (Unit {0})) → Costs n m → Costs n (ignoring_not_found m)
  Costs-ignoring n m c = record { at = λ w. c.at w }

  continue_costs :
      {A B : Type 0} (b : ℕ) (f : A → Action W B) (r : Result A) (w : W)
      → ((a : A) → Costs b (f a))
      → measure (continue f r w).1 ≤ measure w + b
  continue_costs b f (ok a) w c = (c a).at w
  continue_costs b f (err e) w c = omega arith

  Costs-bind :
      {A B : Type 0} (a b n : ℕ) (m : Action W A) (f : A → Action W B)
      → a + b ≤ n
      → Costs a m
      → ((x : A) → Costs b (f x))
      → Costs n (m >>= f)
  Costs-bind a b n m f le cm cf = record {
    at = λ w. omega (arith, cm.at w, continue_costs b f (m w).0 (m w).1 cf);
  }

  -- The first step adds nothing.
  pub Costs-after :
      {A B : Type 0} (n : ℕ) (m : Action W A) (f : A → Action W B)
      → Costs 0 m
      → ((x : A) → Costs n (f x))
      → Costs n (m >>= f)
  Costs-after n m f = Costs-bind 0 n n m f (omega arith)

  -- What follows the first step adds nothing.
  pub Costs-then :
      {A B : Type 0} (n : ℕ) (m : Action W A) (f : A → Action W B)
      → Costs n m
      → ((x : A) → Costs 0 (f x))
      → Costs n (m >>= f)
  Costs-then n m f = Costs-bind n 0 n m f (omega arith)

  -- One step adds one, and what follows the rest.
  pub Costs-suc :
      {A B : Type 0} (n : ℕ) (m : Action W A) (f : A → Action W B)
      → Costs 1 m
      → ((x : A) → Costs n (f x))
      → Costs (ℕ.suc n) (m >>= f)
  Costs-suc n m f = Costs-bind 1 n (ℕ.suc n) m f (omega arith)

  pub Costs-Bool :
      {A : Type 0} (n : ℕ) (b : Bool) (x y : Action W A)
      → Costs n x
      → Costs n y
      → Costs n (elim b [ true ↦ x | false ↦ y ])
  Costs-Bool n true x y cx cy = cx
  Costs-Bool n false x y cx cy = cy

  -- The branches may use the outcome of the test.
  pub Costs-test :
      {A : Type 0} (n : ℕ) (b : Bool) (x y : Action W A)
      → (b ≡ true → Costs n x)
      → (b ≡ false → Costs n y)
      → Costs n (elim b [ true ↦ x | false ↦ y ])
  Costs-test n true x y cx cy = cx refl
  Costs-test n false x y cx cy = cy refl

  pub Costs-Option :
      {A B : Type 0} (n : ℕ) (o : Option B) (x : Action W A) (f : B → Action W A)
      → Costs n x
      → ((b : B) → Costs n (f b))
      → Costs n (elim o [ none ↦ x | some b ↦ f b ])
  Costs-Option n none x f cx cf = cx
  Costs-Option n (some b) x f cx cf = cf b

  pub Costs-Result :
      {A B : Type 0} (n : ℕ) (r : Result B) (f : B → Action W A) (g : Error → Action W A)
      → ((b : B) → Costs n (f b))
      → ((e : Error) → Costs n (g e))
      → Costs n (elim r [ ok b ↦ f b | err e ↦ g e ])
  Costs-Result n (ok b) f g cf cg = cf b
  Costs-Result n (err e) f g cf cg = cg e
