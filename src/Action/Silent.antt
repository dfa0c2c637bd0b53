-- ===== src/Action/Silent.antt =====
-- Actions that leave a part of the world as it is.
use churnless.Base.{◌≡◌, refl, ◌∙◌, Bool, true, false, Option, none, some}
use churnless.Action.{Result, ok, err, Action, pure, ◌>>=◌, continue}

module _ {W L : Type 0} (log : W → L) where
  pub record Silent {A : Type 0} (act : Action W A) : Type 0 where
    pub at : (w : W) → log (act w).1 ≡ log w

  pub Silent-pure : {A : Type 0} (a : A) → Silent (pure a)
  Silent-pure a = record { at = λ w. refl }

  pub Silent-after :
      {A B : Type 0} (act : Action W A) (k : A → Action W B)
      → Silent act
      → ((a : A) → Silent (k a))
      → Silent (act >>= k)
  Silent-after {A} {B} act k quiet h = record { at = λ w. after w (act w) (quiet.at w) }
    where
      after : (w : W) (p : Result A × W) → log p.1 ≡ log w → log (continue k p.0 p.1).1 ≡ log w
      after w (ok a, w') e = (h a).at w' ∙ e
      after w (err x, w') e = e

  pub Silent-Option :
      {A B : Type 0} (o : Option A) (x : Action W B) (f : A → Action W B)
      → Silent x
      → ((a : A) → Silent (f a))
      → Silent (elim o [ none ↦ x | some a ↦ f a ])
  Silent-Option none x f hx hf = hx
  Silent-Option (some a) x f hx hf = hf a

  pub Silent-Bool :
      {B : Type 0} (b : Bool) (x y : Action W B)
      → Silent x
      → Silent y
      → Silent (elim b [ true ↦ x | false ↦ y ])
  Silent-Bool true x y hx hy = hx
  Silent-Bool false x y hx hy = hy
