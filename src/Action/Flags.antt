-- ===== src/Action/Flags.antt =====
-- Actions that say whether they wrote: `false` means that nothing was added to the measure.
use churnless.Base.{ℕ, ◌+◌, ◌≤◌, Bool, true, false, arith}
use churnless.Action.{Error, Result, ok, err, Action, pure, fail, ◌>>=◌, continue}
use churnless.Action.Costs.{Costs}

abbrev flag_cost : Result Bool → ℕ
flag_cost (ok false) = 0
flag_cost _ = 1

module _ {W : Type 0} (measure : W → ℕ) where
  pub record Flags (m : Action W Bool) : Type 0 where
    pub at : (w : W) → measure (m w).1 ≤ measure w + flag_cost (m w).0

  pub Flags-pure : (b : Bool) → Flags (pure b)
  Flags-pure b = record { at = λ w. omega arith }

  pub Flags-fail : (e : Error) → Flags (fail e)
  Flags-fail e = record { at = λ w. omega arith }

  after_at :
      {A : Type 0} (f : A → Action W Bool) (r : Result A) (w w' : W)
      → measure w' ≤ measure w + 0
      → ((a : A) → Flags (f a))
      → measure (continue f r w').1 ≤ measure w + flag_cost (continue f r w').0
  after_at f (ok a) w w' le c = omega (arith, le, (c a).at w')
  after_at f (err e) w w' le c = omega (arith, le)

  pub Flags-after :
      {A : Type 0} (m : Action W A) (f : A → Action W Bool)
      → Costs measure 0 m
      → ((a : A) → Flags (f a))
      → Flags (m >>= f)
  Flags-after m f c cf = record { at = λ w. after_at f (m w).0 w (m w).1 (c.at w) cf }

  write_at :
      {A : Type 0} (r : Result A) (w w' : W)
      → measure w' ≤ measure w + 1
      → measure (continue (λ _. pure {W = W} true) r w').1
        ≤ measure w + flag_cost (continue (λ _. pure {W = W} true) r w').0
  write_at (ok a) w w' le = le
  write_at (err e) w w' le = le

  -- One write, and then `true`.
  pub Flags-write : {A : Type 0} (m : Action W A) → Costs measure 1 m → Flags (m >>= λ _. pure true)
  Flags-write m c = record { at = λ w. write_at (m w).0 w (m w).1 (c.at w) }

  pub Flags-Bool :
      (b : Bool) (x y : Action W Bool) → Flags x → Flags y → Flags (elim b [ true ↦ x | false ↦ y ])
  Flags-Bool true x y cx cy = cx
  Flags-Bool false x y cx cy = cy

  pub Flags-Result :
      {B : Type 0} (r : Result B) (f : B → Action W Bool) (g : Error → Action W Bool)
      → ((b : B) → Flags (f b))
      → ((e : Error) → Flags (g e))
      → Flags (elim r [ ok b ↦ f b | err e ↦ g e ])
  Flags-Result (ok b) f g cf cg = cf b
  Flags-Result (err e) f g cf cg = cg e

  flag_at :
      {A : Type 0} (f : Bool → Action W A) (r : Result Bool) (w w' : W)
      → measure w' ≤ measure w + flag_cost r
      → Costs measure 0 (f true)
      → Costs measure 1 (f false)
      → measure (continue f r w').1 ≤ measure w + 1
  flag_at f (ok true) w w' le ct cf = omega (arith, le, ct.at w')
  flag_at f (ok false) w w' le ct cf = omega (arith, le, cf.at w')
  flag_at f (err e) w w' le ct cf = le

  -- Stop after a write, go on otherwise: one write in all.
  pub Costs-flag :
      {A : Type 0} (m : Action W Bool) (f : Bool → Action W A)
      → Flags m
      → Costs measure 0 (f true)
      → Costs measure 1 (f false)
      → Costs measure 1 (m >>= f)
  Costs-flag m f c ct cf = record { at = λ w. flag_at f (m w).0 w (m w).1 (c.at w) ct cf }
