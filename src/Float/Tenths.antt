-- ===== src/Float/Tenths.antt =====
-- Tenths without a sign: an instance of the interface with fractions, on which the laws of doubles that
-- theorems assume can be proved.
use mathlib.Core.List.{foldl}
use quanteo.Base.{ℕ, ◌+◌, ◌-◌, ◌*◌, ◌/◌, some, ltb, leb, ◌==◌}
use quanteo.Base.Int.{pos, pos_part}
use quanteo.Float.{Float}

abbrev pub Tenths : Type 0
Tenths = ℕ

instance abbrev pub tenths_float : Float Tenths
tenths_float = record {
  add = ◌+◌;
  sub = ◌-◌;
  mul = λ a b. a * b / 10;
  div = λ a b. a * 10 / b;
  lt = ltb;
  le = leb;
  eq = ◌==◌;
  of_int = λ n. pos_part n * 10;
  trunc = λ x. some (pos (x / 10));
  total = foldl ◌+◌ 0;
}
