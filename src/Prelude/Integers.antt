-- ===== src/Prelude/Integers.antt =====
-- Integers on the native numbers.
use Prim.Native.Nat.{ℕ, ◌+◌, ◌-◌}
use mathlib.Core.Bool.{Bool, true, false, ◌||◌, not}
use mathlib.Core.Path.{◌≡◌, refl}
use native.Mathlib.Omega.{arith}
use gostream.Prelude.Tests.{if◌then◌else◌, ltb, ◌==◌}
use gostream.Prelude.Texts.{IsKeyOrder}

-- An `int` of Go that may be negative.
pub data ℤ : Type 0 where
  pos : ℕ → ℤ
  negsuc : ℕ → ℤ

abbrev pub sub_int : ℕ → ℕ → ℤ
sub_int a b = if ltb a b then negsuc (b - a - 1) else pos (a - b)

-- `a + z - b` for a sum `a` and a difference `b` of counts.
abbrev pub add_sub_int : ℕ → ℤ → ℕ → ℤ
add_sub_int a (pos z) b = sub_int (a + z) b
add_sub_int a (negsuc z) b = sub_int a (b + z + 1)

abbrev pub less_int : ℤ → ℤ → Bool
less_int (pos a) (pos b) = ltb a b
less_int (pos a) (negsuc b) = false
less_int (negsuc a) (pos b) = true
less_int (negsuc a) (negsuc b) = ltb b a

abbrev pub greater_int : ℤ → ℤ → Bool
greater_int a b = less_int b a

abbrev pub equal_int : ℤ → ℤ → Bool
equal_int (pos a) (pos b) = a == b
equal_int (pos a) (negsuc b) = false
equal_int (negsuc a) (pos b) = false
equal_int (negsuc a) (negsuc b) = a == b

less_int-asym : (x y : ℤ) → less_int x y ≡ true → less_int y x ≡ false
less_int-asym (pos a) (pos b) h = ground arith
less_int-asym (pos a) (negsuc b) h = absurd (cc h)
less_int-asym (negsuc a) (pos b) h = refl
less_int-asym (negsuc a) (negsuc b) h = ground arith

less_int-neg_trans :
    (x y z : ℤ) → less_int x y ≡ false → less_int y z ≡ false → less_int x z ≡ false
less_int-neg_trans (pos a) (pos b) (pos c) h k = ground arith
less_int-neg_trans (pos a) y (negsuc c) h k = refl
less_int-neg_trans (pos a) (negsuc b) (pos c) h k = absurd (cc k)
less_int-neg_trans (negsuc a) (pos b) z h k = absurd (cc h)
less_int-neg_trans (negsuc a) (negsuc b) (pos c) h k = absurd (cc k)
less_int-neg_trans (negsuc a) (negsuc b) (negsuc c) h k = ground arith

greater_int-ties : (x y : ℤ) → equal_int x y ≡ not (greater_int x y || greater_int y x)
greater_int-ties (pos a) (pos b) = ground arith
greater_int-ties (pos a) (negsuc b) = refl
greater_int-ties (negsuc a) (pos b) = refl
greater_int-ties (negsuc a) (negsuc b) = ground arith

pub greater_int-IsKeyOrder : IsKeyOrder equal_int greater_int
greater_int-IsKeyOrder = record {
  order = record {
    asym = λ x y h. less_int-asym y x h;
    neg_trans = λ x y z h k. less_int-neg_trans z y x k h;
  };
  ties = greater_int-ties;
}
