-- ===== src/Base/Int.antt =====
-- Signed integers over the native numbers, under the library's names, and Go's 64-bit `int`.
use Prim.Native.Nat.{ℕ, zero, suc, ◌+◌, ◌-◌, ◌*◌, ◌^◌, ◌%◌, ◌≤◌, ◌<◌, min}
use mathlib.Core.Path.{◌≡◌}
use mathlib.Core.Bool.{Bool}
use native.Mathlib.Omega.{arith}
use llm_gateway.Base.Tests.{ltb, leb, ◌==◌, if◌then◌else◌}

-- `negsuc n` is -(n + 1).
pub data ℤ : Type 0 where
  pos : ℕ → ℤ
  negsuc : ℕ → ℤ

abbrev pub pos_part : ℤ → ℕ
pos_part (pos n) = n
pos_part (negsuc n) = 0

abbrev pub neg_part : ℤ → ℕ
neg_part (pos n) = 0
neg_part (negsuc n) = suc n

infix 50 ◌≤ℤ◌ ◌<ℤ◌
abbrev pub ◌≤ℤ◌ : ℤ → ℤ → Type 0
a ≤ℤ b = pos_part a + neg_part b ≤ pos_part b + neg_part a

abbrev pub ◌<ℤ◌ : ℤ → ℤ → Type 0
a <ℤ b = pos_part a + neg_part b < pos_part b + neg_part a

abbrev pub leb_ℤ : ℤ → ℤ → Bool
leb_ℤ a b = leb (pos_part a + neg_part b) (pos_part b + neg_part a)

abbrev pub ltb_ℤ : ℤ → ℤ → Bool
ltb_ℤ a b = ltb (pos_part a + neg_part b) (pos_part b + neg_part a)

-- math.MaxInt64
abbrev pub max_int : ℕ
max_int = 9223372036854775807

-- `n++` on an `int`: the largest value wraps to the smallest.
unfoldable pub inc_int : ℤ → ℤ
inc_int (pos n) = if n == max_int then negsuc max_int else pos (n + 1)
inc_int (negsuc zero) = pos 0
inc_int (negsuc (suc n)) = negsuc n

-- time.Time is a number of nanoseconds since the zero time, which is 0. `t.Sub(u)` is a
-- time.Duration, an int64 of nanoseconds, and stays at the largest or smallest one.
unfoldable pub sub_time : ℕ → ℕ → ℤ
sub_time t u = if leb u t then pos (min (t - u) max_int) else negsuc (min (u - t - 1) max_int)

-- time.Second
abbrev pub second : ℕ
second = 1000000000

pub sub_time-ge : (t u c : ℕ) → c ≤ max_int → (leb_ℤ (pos c) (sub_time t u) ≡ leb (u + c) t)
unfolding sub_time
sub_time-ge t u c h = ground arith

-- The value of an int64 after an arithmetic operation: two's complement on 64 bits.
unfoldable pub wrap_int : ℤ → ℤ
wrap_int (pos n) = let m = n % 2 ^ 64 in if leb m max_int then pos m else negsuc (2 ^ 64 - 1 - m)
wrap_int (negsuc n) = let m = n % 2 ^ 64 in if leb m max_int then negsuc m else pos (2 ^ 64 - 1 - m)

-- The difference of two numbers.
unfoldable pub minus : ℕ → ℕ → ℤ
minus a b = if leb b a then pos (a - b) else negsuc (b - a - 1)

-- A sum on int64.
unfoldable pub add_int : ℤ → ℤ → ℤ
unfolding minus wrap_int
add_int a b = wrap_int (minus (pos_part a + pos_part b) (neg_part a + neg_part b))

-- A product with a positive constant, on int64.
unfoldable pub times_int : ℤ → ℕ → ℤ
unfolding wrap_int
times_int (pos n) k = wrap_int (pos (n * k))
times_int (negsuc n) k = wrap_int (negsuc ((n + 1) * k - 1))

abbrev pub eqb_ℤ : ℤ → ℤ → Bool
eqb_ℤ a b = pos_part a + neg_part b == pos_part b + neg_part a
