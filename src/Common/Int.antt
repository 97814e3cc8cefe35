-- ===== src/Common/Int.antt =====
-- C's signed integers: the integers over the native numbers, and the 32-bit `int`, whose
-- arithmetic wraps round (two's complement).
use Prim.Native.Nat.{ℕ, suc, ◌+◌, ◌-◌, ◌%◌, ◌^◌, ◌≤◌, ◌<◌, bit_and}
use mathlib.Core.Path.{◌≡◌}
use mathlib.Core.Bool.{Bool, true, false, not}
use native.Mathlib.Omega.{arith}
use disastr_os_semaphores.Common.Tests.{ltb, leb, ◌==◌, if◌then◌else◌}

-- `negsuc n` is -(n + 1).
pub data ℤ : Type 0 where
  pos : ℕ → ℤ
  negsuc : ℕ → ℤ

abbrev pub pos_part : ℤ → ℕ
pos_part (pos n) = n
pos_part (negsuc n) = 0

abbrev pub neg_part : ℤ → ℕ
neg_part (pos n) = 0
neg_part (negsuc n) = suc n

-- a - b, as an integer.
abbrev pub sub_ℕ : ℕ → ℕ → ℤ
sub_ℕ a b = if leb b a then pos (a - b) else negsuc (b - a - 1)

infixl 65 ◌+ℤ◌ ◌-ℤ◌
infix 50 ◌≤ℤ◌ ◌<ℤ◌ ◌==ℤ◌
unfoldable pub ◌+ℤ◌ : ℤ → ℤ → ℤ
a +ℤ b = sub_ℕ (pos_part a + pos_part b) (neg_part a + neg_part b)

unfoldable pub ◌-ℤ◌ : ℤ → ℤ → ℤ
a -ℤ b = sub_ℕ (pos_part a + neg_part b) (neg_part a + pos_part b)

abbrev pub ◌≤ℤ◌ : ℤ → ℤ → Type 0
a ≤ℤ b = pos_part a + neg_part b ≤ pos_part b + neg_part a

abbrev pub ◌<ℤ◌ : ℤ → ℤ → Type 0
a <ℤ b = pos_part a + neg_part b < pos_part b + neg_part a

abbrev pub ltb_ℤ : ℤ → ℤ → Bool
ltb_ℤ a b = ltb (pos_part a + neg_part b) (pos_part b + neg_part a)

abbrev pub ◌==ℤ◌ : ℤ → ℤ → Bool
a ==ℤ b = (pos_part a + neg_part b) == (pos_part b + neg_part a)

pub eq_of_parts : (a b : ℤ) → pos_part a + neg_part b ≡ pos_part b + neg_part a → a ≡ b
eq_of_parts a b h = ground arith

-- The bit pattern of an integer as a 32-bit word.
unfoldable pub to_u32 : ℤ → ℕ
to_u32 (pos n) = n % 2 ^ 32
to_u32 (negsuc n) = 2 ^ 32 - 1 - n % 2 ^ 32

-- Conversion to `int`: the number that the low 32 bits stand for.
unfoldable pub to_int : ℤ → ℤ
unfolding to_u32
to_int z = let w = to_u32 z in if ltb w (2 ^ 31) then pos w else negsuc (2 ^ 32 - w - 1)

-- An `int` after `+ b` and after `- b`.
unfoldable pub int_add : ℤ → ℤ → ℤ
unfolding to_int ◌+ℤ◌
int_add a b = to_int (a +ℤ b)

unfoldable pub int_sub : ℤ → ℤ → ℤ
unfolding to_int ◌-ℤ◌
int_sub a b = to_int (a -ℤ b)

-- The test `x & mask` on an `int`.
unfoldable pub flag_set : ℤ → ℕ → Bool
unfolding to_u32
flag_set x mask = not (bit_and (to_u32 x) mask == 0)

abbrev pub IsInt : ℤ → Type 0
IsInt z = (neg_part z ≤ 2 ^ 31) × (pos_part z < 2 ^ 31)

pub to_int-id : (z : ℤ) → IsInt z → to_int z ≡ z
unfolding to_int
to_int-id (pos n) h = ground arith
to_int-id (negsuc n) h = ground arith

pub to_int-IsInt : (z : ℤ) → IsInt (to_int z)
unfolding to_int
to_int-IsInt (pos n) = ground arith
to_int-IsInt (negsuc n) = ground arith

-- In range, `int` arithmetic is that of the integers.
pub int_add-exact : (a b : ℤ) → IsInt (a +ℤ b) → int_add a b ≡ a +ℤ b
unfolding int_add
int_add-exact a b h = to_int-id (a +ℤ b) h

pub int_add_pos : (n : ℕ) → suc n < 2 ^ 31 → int_add (pos n) (pos 1) ≡ pos (suc n)
unfolding int_add
int_add_pos n h = ground arith

pub int_sub-suc : (n : ℕ) → n < 2 ^ 31 → int_sub (pos (suc n)) (pos 1) ≡ pos n
unfolding int_sub
int_sub-suc n h = ground arith

-- One less than a number that is not positive is negative, and one more than a negative one is not
-- positive, without a wrap.
pub int_sub_neg :
    (z : ℤ)
    → z ≤ℤ pos 0
    → negsuc (2 ^ 31 - 1) <ℤ z
    → (int_sub z (pos 1) ≡ negsuc (neg_part z)) × (ltb_ℤ (int_sub z (pos 1)) (pos 0) ≡ true)
unfolding int_sub
int_sub_neg (pos n) h l = ground arith
int_sub_neg (negsuc n) h l = ground arith

pub int_add_neg :
    (n : ℕ)
    → n < 2 ^ 31
    → (neg_part (int_add (negsuc n) (pos 1)) ≡ n)
      × (ltb_ℤ (pos 0) (int_add (negsuc n) (pos 1)) ≡ false)
unfolding int_add
int_add_neg n h = ground arith
