-- ===== src/Prelude/Int.antt =====
-- Signed integers over the native numbers, and Go's 64-bit `int` and `int64` with wrap-around.
use Prim.Native.Nat.{ℕ, suc, ◌+◌, ◌-◌, ◌%◌, ◌^◌, ◌≤◌}
use mathlib.Core.Path.{◌≡◌}
use mathlib.Core.Bool.{Bool}
use native.Mathlib.Omega.{arith}
use mudis.Prelude.Tests.{ltb, leb, if◌then◌else◌}

-- `negsuc n` is -(n + 1).
pub data ℤ : Type 0 where
  pos : ℕ → ℤ
  negsuc : ℕ → ℤ

abbrev pub pos_part : ℤ → ℕ
pos_part (pos n) = n
pos_part (negsuc n) = 0

abbrev pub neg_part : ℤ → ℕ
neg_part (pos n) = 0
neg_part (negsuc n) = suc n

-- a - b, as an integer.
abbrev pub sub_ℕ : ℕ → ℕ → ℤ
sub_ℕ a b = if leb b a then pos (a - b) else negsuc (b - a - 1)

infixl 65 ◌+ℤ◌ ◌-ℤ◌
unfoldable pub ◌+ℤ◌ : ℤ → ℤ → ℤ
a +ℤ b = sub_ℕ (pos_part a + pos_part b) (neg_part a + neg_part b)

unfoldable pub ◌-ℤ◌ : ℤ → ℤ → ℤ
a -ℤ b = sub_ℕ (pos_part a + neg_part b) (neg_part a + pos_part b)

infix 50 ◌≤ℤ◌
abbrev pub ◌≤ℤ◌ : ℤ → ℤ → Type 0
a ≤ℤ b = pos_part a + neg_part b ≤ pos_part b + neg_part a

abbrev pub ltb_ℤ : ℤ → ℤ → Bool
ltb_ℤ a b = ltb (pos_part a + neg_part b) (pos_part b + neg_part a)

abbrev pub max_int : ℕ
max_int = 2 ^ 63 - 1

abbrev pub InRange : ℤ → Type 0
InRange (pos n) = n ≤ max_int
InRange (negsuc n) = n ≤ max_int

-- The 64 bits of an integer, and the signed value of 64 bits.
unfoldable pub to_word : ℤ → ℕ
to_word (pos n) = n % 2 ^ 64
to_word (negsuc n) = 2 ^ 64 - 1 - n % 2 ^ 64

unfoldable pub of_word : ℕ → ℤ
of_word w = if leb w max_int then pos w else negsuc (2 ^ 64 - 1 - w)

unfoldable pub add64 : ℤ → ℤ → ℤ
unfolding to_word of_word
add64 a b = of_word ((to_word a + to_word b) % 2 ^ 64)

unfoldable pub sub64 : ℤ → ℤ → ℤ
unfolding to_word of_word
sub64 a b = of_word ((to_word a + 2 ^ 64 - to_word b) % 2 ^ 64)

pub add64-InRange : (a b : ℤ) → InRange (add64 a b)
unfolding add64
add64-InRange a b = ground arith

-- Where the exact sum fits, nothing wraps.
pub add64_exact : (a b : ℤ) → InRange a → InRange b → InRange (a +ℤ b) → add64 a b ≡ a +ℤ b
unfolding add64 ◌+ℤ◌
add64_exact (pos a) (pos b) h k r = ground arith
add64_exact (pos a) (negsuc b) h k r = ground arith
add64_exact (negsuc a) (pos b) h k r = ground arith
add64_exact (negsuc a) (negsuc b) h k r = ground arith

pub sub64_exact : (a b : ℤ) → InRange a → InRange b → InRange (a -ℤ b) → sub64 a b ≡ a -ℤ b
unfolding sub64 ◌-ℤ◌
sub64_exact (pos a) (pos b) h k r = ground arith
sub64_exact (pos a) (negsuc b) h k r = ground arith
sub64_exact (negsuc a) (pos b) h k r = ground arith
sub64_exact (negsuc a) (negsuc b) h k r = ground arith
