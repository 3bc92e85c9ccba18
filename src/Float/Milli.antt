-- ===== src/Float/Milli.antt =====
-- Fixed-point numbers in thousandths: an instance of the interface on which witnesses run.
use glet.Common.{◌*◌, ◌/◌, ◌^◌, ◌&&◌, arith}
use glet.Common.Int.{ℤ, pos, ◌+ℤ◌, ◌-ℤ◌, ◌*ℤ◌, ◌/ℤ◌, leb_ℤ, ltb_ℤ}
use glet.Float.{Float, IsWeakOrder, IsRounded}

abbrev pub Milli : Type 0
Milli = ℤ

instance abbrev pub milli_float : Float Milli
milli_float = record {
  of_int = λ n. n *ℤ pos 1000;
  lit = λ m k. pos (m * 1000 / 10 ^ k);
  add = λ a b. a +ℤ b;
  sub = λ a b. a -ℤ b;
  mul = λ a b. a *ℤ b /ℤ pos 1000;
  div = λ a b. a *ℤ pos 1000 /ℤ b;
  eq = λ a b. leb_ℤ a b && leb_ℤ b a;
  le = leb_ℤ;
  lt = ltb_ℤ;
  trunc = λ a. a /ℤ pos 1000;
}

pub Milli-IsWeakOrder : IsWeakOrder Milli
Milli-IsWeakOrder = record {
  lt_asym = λ x y h. ground arith;
  not_lt_trans = λ x y z h k. ground arith;
}

pub Milli-IsRounded : IsRounded Milli
unfolding ◌*ℤ◌ ◌-ℤ◌ ◌/ℤ◌
Milli-IsRounded = record {
  of_int_mono = λ m n h. ground arith;
  mul_ratio = λ n. ground arith;
  sub_mono = λ x y z h. ground arith;
  sub_exact = λ m n h k. ground arith;
  lt_of_lt_le = λ x y z h k. ground arith;
}
