-- ===== src/Prelude/Int.antt =====
-- Integers over the native ℕ, for the columns that hold negative numbers.
use Prim.Native.Nat.{ℕ, ◌+◌, ◌-◌}
use mathlib.Core.Path.{◌≡◌}
use mathlib.Core.Logic.{◌↔◌}
use mathlib.Core.Bool.{Bool, true, false}
use native.Mathlib.Omega.{arith}
use vaultur.Prelude.Tests.{HasEqual, nat_eq, ltb, if◌then◌else◌}

-- `negsuc n` is the number -(n + 1).
pub data ℤ : Type 0 where
  pos negsuc : ℕ → ℤ

abbrev int_equal : ℤ → ℤ → Bool
int_equal (pos a) (pos b) = nat_eq a b
int_equal (pos a) (negsuc b) = false
int_equal (negsuc a) (pos b) = false
int_equal (negsuc a) (negsuc b) = nat_eq a b

pub int_equal_iff : (a b : ℤ) → (int_equal a b ≡ true) ↔ (a ≡ b)
int_equal_iff (pos a) (pos b) = ground arith
int_equal_iff (pos a) (negsuc b) = ground arith
int_equal_iff (negsuc a) (pos b) = ground arith
int_equal_iff (negsuc a) (negsuc b) = ground arith

instance abbrev pub int_instance : HasEqual ℤ
int_instance = record { equal = int_equal; equal_iff = int_equal_iff }

-- `a < b`
abbrev pub int_ltb : ℤ → ℤ → Bool
int_ltb (pos a) (pos b) = ltb a b
int_ltb (pos a) (negsuc b) = false
int_ltb (negsuc a) (pos b) = true
int_ltb (negsuc a) (negsuc b) = ltb b a

-- The difference of two natural numbers.
abbrev sub_nat : ℕ → ℕ → ℤ
sub_nat a b = if ltb a b then negsuc (b - a - 1) else pos (a - b)

infixl 60 ◌+ℤ◌
abbrev pub ◌+ℤ◌ : ℤ → ℤ → ℤ
pos a +ℤ pos b = pos (a + b)
pos a +ℤ negsuc b = sub_nat a (b + 1)
negsuc a +ℤ pos b = sub_nat b (a + 1)
negsuc a +ℤ negsuc b = negsuc (a + b + 1)
