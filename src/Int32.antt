-- ===== src/Int32.antt =====
-- Go's int32: integers, and operations that wrap modulo 2 ^ 32. `int` (64 bits) only meets numbers
-- that came from an int32, and is modelled by the same integers without the wrap.
pub mod Bounds
use churnless.Base.{ℕ, suc, ◌+◌, ◌-◌, ◌%◌, ◌<◌, ◌≡◌, Bool, ltb, leb, ◌==◌, if◌then◌else◌}

-- `negsuc n` is -(n + 1).
pub data ℤ : Type 0 where
  pos : ℕ → ℤ
  negsuc : ℕ → ℤ

abbrev pub pos_part : ℤ → ℕ
pos_part (pos n) = n
pos_part (negsuc n) = 0

abbrev pub neg_part : ℤ → ℕ
neg_part (pos n) = 0
neg_part (negsuc n) = suc n

-- a - b, as an integer.
abbrev pub sub_ℕ : ℕ → ℕ → ℤ
sub_ℕ a b = if leb b a then pos (a - b) else negsuc (b - a - 1)

infixl 65 ◌+ℤ◌ ◌-ℤ◌
abbrev pub ◌+ℤ◌ : ℤ → ℤ → ℤ
a +ℤ b = sub_ℕ (pos_part a + pos_part b) (neg_part a + neg_part b)

abbrev pub ◌-ℤ◌ : ℤ → ℤ → ℤ
a -ℤ b = sub_ℕ (pos_part a + neg_part b) (neg_part a + pos_part b)

abbrev pub ltb_ℤ : ℤ → ℤ → Bool
ltb_ℤ a b = ltb (pos_part a + neg_part b) (pos_part b + neg_part a)

abbrev pub eqb_ℤ : ℤ → ℤ → Bool
eqb_ℤ a b = pos_part a + neg_part b == pos_part b + neg_part a

unfoldable pub min_ℤ : ℤ → ℤ → ℤ
min_ℤ a b = if ltb_ℤ b a then b else a

unfoldable pub max_ℤ : ℤ → ℤ → ℤ
max_ℤ a b = if ltb_ℤ a b then b else a

-- The number of int32 values, and of those that are not negative.
abbrev pub modulus : ℕ
modulus = 4294967296

abbrev pub limit : ℕ
limit = 2147483648

-- The int32 that an integer wraps to.
unfoldable pub wrap : ℤ → ℤ
wrap (pos n) = let r = n % modulus in if ltb r limit then pos r else negsuc (modulus - r - 1)
wrap (negsuc n) = let r = n % modulus in if ltb r limit then negsuc r else pos (modulus - r - 1)

unfoldable pub add32 : ℤ → ℤ → ℤ
add32 a b = wrap (a +ℤ b)

unfoldable pub sub32 : ℤ → ℤ → ℤ
sub32 a b = wrap (a -ℤ b)
