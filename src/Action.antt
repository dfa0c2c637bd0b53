-- ===== src/Action.antt =====
-- Go's (T, error) results, and code that calls the API server: a function of the state of the world
-- that returns a result and the world after it. What was written before an error stays written.
pub mod Costs
pub mod Flags
pub mod Returns
pub mod Silent
use churnless.Base.{ℕ, Bool, true, false, Option, none, some, String, List, [], ◌∷◌}

-- metav1.StatusReason, as far as the code tells reasons apart.
pub data StatusReason : Type 0 where
  not_found bad_request forbidden invalid method_not_allowed other_reason : StatusReason

-- The reason stays the same when `fmt.Errorf` wraps an error with %w; `context` has the texts that
-- were put in front, outermost first.
pub record Error : Type 0 where
  pub reason : StatusReason
  pub context : List String

-- `fmt.Errorf("...: %w", err)`
abbrev pub wrap : String → Error → Error
wrap s e = record e { context = s ∷ e.context }

-- `fmt.Errorf("...")`
abbrev pub new_error : String → Error
new_error s = record { reason = other_reason; context = s ∷ [] }

abbrev pub is_not_found_reason : StatusReason → Bool
is_not_found_reason not_found = true
is_not_found_reason _ = false

-- apierrors.IsNotFound
abbrev pub is_not_found : Error → Bool
is_not_found e = is_not_found_reason e.reason

pub data Result {ℓ} (A : Type ℓ) : Type ℓ where
  ok : A → Result A
  err : Error → Result A

abbrev pub bind {ℓ κ} : {A : Type ℓ} {B : Type κ} → Result A → (A → Result B) → Result B
bind (ok a) f = f a
bind (err e) f = err e

-- `if err != nil { return ..., fmt.Errorf("s: %w", err) }`
abbrev pub wrap_error {ℓ} : {A : Type ℓ} → String → Result A → Result A
wrap_error s (ok a) = ok a
wrap_error s (err e) = err (wrap s e)

abbrev pub Action : Type 0 → Type 0 → Type 0
Action W A = W → Result A × W

abbrev pub pure : {W A : Type 0} → A → Action W A
pure a w = (ok a, w)

abbrev pub fail : {W A : Type 0} → Error → Action W A
fail e w = (err e, w)

abbrev pub lift : {W A : Type 0} → Result A → Action W A
lift r w = (r, w)

abbrev pub continue : {W A B : Type 0} → (A → Action W B) → Result A → Action W B
continue f (ok a) w = f a w
continue f (err e) w = (err e, w)

infixl 5 ◌>>=◌ ◌>>◌
abbrev pub ◌>>=◌ : {W A B : Type 0} → Action W A → (A → Action W B) → Action W B
◌>>=◌ m f w = let (r, w') = m w in continue f r w'

abbrev pub ◌>>◌ : {W B : Type 0} → Action W (Unit {0}) → Action W B → Action W B
m >> k = m >>= λ _. k

-- The error as a value, for code that looks at it.
abbrev pub attempt : {W A : Type 0} → Action W A → Action W (Result A)
attempt m w = let (r, w') = m w in (ok r, w')

-- The error, if any, with a text in front.
abbrev pub wrapping : {W A : Type 0} → String → Action W A → Action W A
wrapping s m w = let (r, w') = m w in (wrap_error s r, w')

-- `client.IgnoreNotFound(err)` for a call that returns nothing else.
abbrev pub ignore_not_found : Result (Unit {0}) → Result (Unit {0})
ignore_not_found (ok u) = ok u
ignore_not_found (err e) = elim (is_not_found e) [ true ↦ ok tt | false ↦ err e ]

abbrev pub ignoring_not_found : {W : Type 0} → Action W (Unit {0}) → Action W (Unit {0})
ignoring_not_found m w = let (r, w') = m w in (ignore_not_found r, w')

-- A call that cannot fail.
abbrev pub infallible : {W A : Type 0} → (W → A × W) → Action W A
infallible m w = let (a, w') = m w in (ok a, w')
