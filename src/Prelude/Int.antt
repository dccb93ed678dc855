-- ===== src/Prelude/Int.antt =====
-- Go's signed integers: ℤ over the native numbers, and the wrap-around of `int32` and `int64`.
use verrazzano_monitoring_op.Prelude.{
  ℕ, suc, ◌+◌, ◌-◌, ◌/◌, ◌%◌, ◌≤◌, ◌<◌, ◌≡◌, Bool, true, arith, ltb, leb, ◌==◌, if◌then◌else◌,
}

-- `negsuc n` is -(n + 1).
pub data ℤ : Type 0 where
  pos : ℕ → ℤ
  negsuc : ℕ → ℤ

abbrev pub pos_part : ℤ → ℕ
pos_part (pos n) = n
pos_part (negsuc n) = 0

abbrev pub neg_part : ℤ → ℕ
neg_part (pos n) = 0
neg_part (negsuc n) = suc n

abbrev pub sub_ℕ : ℕ → ℕ → ℤ
sub_ℕ a b = if leb b a then pos (a - b) else negsuc (b - a - 1)

infixl 65 ◌+ℤ◌
infix 50 ◌≤ℤ◌ ◌<ℤ◌
unfoldable pub ◌+ℤ◌ : ℤ → ℤ → ℤ
a +ℤ b = sub_ℕ (pos_part a + pos_part b) (neg_part a + neg_part b)

abbrev pub ◌≤ℤ◌ : ℤ → ℤ → Type 0
a ≤ℤ b = pos_part a + neg_part b ≤ pos_part b + neg_part a

abbrev pub ◌<ℤ◌ : ℤ → ℤ → Type 0
a <ℤ b = pos_part a + neg_part b < pos_part b + neg_part a

abbrev pub ltb_ℤ : ℤ → ℤ → Bool
ltb_ℤ a b = ltb (pos_part a + neg_part b) (pos_part b + neg_part a)

abbrev pub leb_ℤ : ℤ → ℤ → Bool
leb_ℤ a b = leb (pos_part a + neg_part b) (pos_part b + neg_part a)

abbrev pub eqb_ℤ : ℤ → ℤ → Bool
eqb_ℤ a b = (pos_part a + neg_part b) == (pos_part b + neg_part a)

pub eqb_ℤ→eq : (a b : ℤ) → eqb_ℤ a b ≡ true → a ≡ b
eqb_ℤ→eq a b h = ground arith

-- Go's division by a positive number truncates towards zero.
unfoldable pub quot : ℤ → ℕ → ℤ
quot (pos n) k = pos (n / k)
quot (negsuc n) k = sub_ℕ 0 (suc n / k)

-- the two's complement value of an integer at a width of 32 bits
unfoldable pub wrap32 : ℤ → ℤ
wrap32 z =
    let n = (pos_part z + (4294967296 - neg_part z % 4294967296)) % 4294967296 in
    if ltb n 2147483648 then pos n else negsuc (4294967295 - n)

-- `a + b` of two `int32`
unfoldable pub add32 : ℤ → ℤ → ℤ
unfolding ◌+ℤ◌ wrap32
add32 a b = wrap32 (a +ℤ b)

-- A sum of two counts that fits is exact.
pub add32-pos : (a b : ℕ) → a + b < 2147483648 → add32 (pos a) (pos b) ≡ pos (a + b)
unfolding add32
add32-pos a b h = ground arith

-- Otherwise the sum of two `int32` counts is negative.
pub add32_overflow :
    (a b : ℕ)
    → a < 2147483648
    → b < 2147483648
    → 2147483648 ≤ a + b
    → add32 (pos a) (pos b) ≡ negsuc (4294967295 - (a + b))
unfolding add32
add32_overflow a b ha hb h = ground arith

-- the two's complement value of an integer at a width of 64 bits
unfoldable pub wrap64 : ℤ → ℤ
wrap64 z =
    let m : ℕ = 18446744073709551616 in
    let n = (pos_part z + (m - neg_part z % m)) % m in
    if ltb n 9223372036854775808 then pos n else negsuc (18446744073709551615 - n)

-- `a + b` of two `int`
unfoldable pub add64 : ℤ → ℤ → ℤ
unfolding ◌+ℤ◌ wrap64
add64 a b = wrap64 (a +ℤ b)

pub add64-pos : (a b : ℕ) → a + b < 9223372036854775808 → add64 (pos a) (pos b) ≡ pos (a + b)
unfolding add64
add64-pos a b h = ground arith
