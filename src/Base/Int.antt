-- ===== src/Base/Int.antt =====
-- Signed integers over the native numbers, `int8_t` and `int`.
use Prim.Native.Nat.{ℕ, suc, ◌+◌, ◌-◌, ◌%◌}
use mathlib.Core.Bool.{Bool, true, false}
use mathlib.Core.Path.{◌≡◌, refl}
use native.Mathlib.Omega.{arith}
use libbase.Base.Tests.{ltb, leb, if◌then◌else◌}

-- `negsuc n` is -(n + 1).
pub data ℤ : Type 0 where
  pos : ℕ → ℤ
  negsuc : ℕ → ℤ

abbrev pub pos_part : ℤ → ℕ
pos_part (pos n) = n
pos_part (negsuc n) = 0

abbrev pub neg_part : ℤ → ℕ
neg_part (pos n) = 0
neg_part (negsuc n) = suc n

abbrev pub sub_ℕ : ℕ → ℕ → ℤ
sub_ℕ a b = if leb b a then pos (a - b) else negsuc (b - a - 1)

infixl 65 ◌+ℤ◌ ◌-ℤ◌
unfoldable pub ◌+ℤ◌ : ℤ → ℤ → ℤ
a +ℤ b = sub_ℕ (pos_part a + pos_part b) (neg_part a + neg_part b)

unfoldable pub ◌-ℤ◌ : ℤ → ℤ → ℤ
a -ℤ b = sub_ℕ (pos_part a + neg_part b) (neg_part a + pos_part b)

-- `a < b`
unfoldable pub ltb_ℤ : ℤ → ℤ → Bool
ltb_ℤ a b = ltb (pos_part a + neg_part b) (pos_part b + neg_part a)

-- `a == 0`
unfoldable pub is_zero : ℤ → Bool
is_zero (pos n) = leb n 0
is_zero (negsuc n) = false

-- The value that an `int8_t` holds after `b` is stored in it.
unfoldable pub int8 : ℤ → ℤ
int8 (pos n) = if ltb (n % 256) 128 then pos (n % 256) else negsuc (255 - n % 256)
int8 (negsuc n) = if ltb (n % 256) 128 then negsuc (n % 256) else pos (255 - n % 256)

-- The same for an `int`.
unfoldable pub int32 : ℤ → ℤ
int32 (pos n) =
    if ltb (n % 4294967296) 2147483648
    then pos (n % 4294967296)
    else negsuc (4294967295 - n % 4294967296)
int32 (negsuc n) =
    if ltb (n % 4294967296) 2147483648
    then negsuc (n % 4294967296)
    else pos (4294967295 - n % 4294967296)

pub negative-is_zero : (a : ℤ) → ltb_ℤ a (pos 0) ≡ true → is_zero a ≡ false
unfolding ltb_ℤ is_zero
negative-is_zero (pos n) h = ground arith
negative-is_zero (negsuc n) h = refl

pub positive-is_zero : (a : ℤ) → ltb_ℤ (pos 0) a ≡ true → is_zero a ≡ false
unfolding ltb_ℤ is_zero
positive-is_zero (pos n) h = ground arith
positive-is_zero (negsuc n) h = refl

pub positive-negative : (a : ℤ) → ltb_ℤ (pos 0) a ≡ true → ltb_ℤ a (pos 0) ≡ false
unfolding ltb_ℤ
positive-negative (pos n) h = ground arith
positive-negative (negsuc n) h = ground arith

pub zero-negative : (a : ℤ) → is_zero a ≡ true → ltb_ℤ a (pos 0) ≡ false
unfolding ltb_ℤ is_zero
zero-negative (pos n) h = ground arith
zero-negative (negsuc n) h = ground arith

pub zero-positive : (a : ℤ) → is_zero a ≡ true → ltb_ℤ (pos 0) a ≡ false
unfolding ltb_ℤ is_zero
zero-positive (pos n) h = ground arith
zero-positive (negsuc n) h = ground arith

-- What is neither zero nor positive is negative.
pub negative_of : (a : ℤ) → is_zero a ≡ false → ltb_ℤ (pos 0) a ≡ false → ltb_ℤ a (pos 0) ≡ true
unfolding ltb_ℤ is_zero
negative_of (pos n) h g = ground arith
negative_of (negsuc n) h g = ground arith
