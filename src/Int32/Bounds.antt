-- ===== src/Int32/Bounds.antt =====
-- Where the int32 operations of Int32 do not wrap, they are those of the numbers.
use churnless.Base.{ℕ, ◌+◌, ◌-◌, ◌≤◌, ◌<◌, ◌≡◌, min, max, arith}
use churnless.Int32.{pos, negsuc, limit, wrap, add32, sub32, min_ℤ, max_ℤ}

pub wrap_pos : (n : ℕ) → n < limit → wrap (pos n) ≡ pos n
unfolding wrap
wrap_pos n h = ground arith

pub wrap_negsuc : (n : ℕ) → n < limit → wrap (negsuc n) ≡ negsuc n
unfolding wrap
wrap_negsuc n h = ground arith

pub add32_pos : (a b : ℕ) → a + b < limit → add32 (pos a) (pos b) ≡ pos (a + b)
unfolding add32
add32_pos a b h = ground (arith, wrap_pos (a + b))

pub sub32_pos : (a b : ℕ) → b ≤ a → a < limit → sub32 (pos a) (pos b) ≡ pos (a - b)
unfolding sub32
sub32_pos a b h k = ground (arith, wrap_pos (a - b))

-- `max(a - b, 0)` is truncated subtraction.
pub max_sub32 :
    (a b : ℕ) → a < limit → b < limit → max_ℤ (sub32 (pos a) (pos b)) (pos 0) ≡ pos (a - b)
unfolding sub32 max_ℤ
max_sub32 a b h k = ground (arith, wrap_pos (a - b), wrap_negsuc (b - a - 1))

pub min_pos : (a b : ℕ) → min_ℤ (pos a) (pos b) ≡ pos (min a b)
unfolding min_ℤ
min_pos a b = ground arith

pub max_pos : (a b : ℕ) → max_ℤ (pos a) (pos b) ≡ pos (max a b)
unfolding max_ℤ
max_pos a b = ground arith
