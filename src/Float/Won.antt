-- ===== src/Float/Won.antt =====
-- Whole won: an instance of the interface on which tests and witnesses compute.
use mathlib.Core.List.{foldl}
use quanteo.Base.{◌+◌, ◌/◌, Bool, some, ◌==◌}
use quanteo.Base.Int.{ℤ, pos, pos_part, neg_part, sub_ℕ, ltb_ℤ, leb_ℤ, ◌+ℤ◌, ◌-ℤ◌, ◌*ℤ◌}
use quanteo.Float.{Float}

abbrev pub Won : Type 0
Won = ℤ

-- Division towards zero; one of the two parts of each integer is zero.
abbrev quotient : ℤ → ℤ → ℤ
quotient a b =
    sub_ℕ (pos_part a / pos_part b + neg_part a / neg_part b)
      (pos_part a / neg_part b + neg_part a / pos_part b)

abbrev pub same : ℤ → ℤ → Bool
same a b = pos_part a + neg_part b == pos_part b + neg_part a

instance abbrev pub won_float : Float Won
won_float = record {
  add = ◌+ℤ◌;
  sub = ◌-ℤ◌;
  mul = ◌*ℤ◌;
  div = quotient;
  lt = ltb_ℤ;
  le = leb_ℤ;
  eq = same;
  of_int = λ n. n;
  trunc = λ x. some x;
  total = foldl ◌+ℤ◌ (pos 0);
}
