-- ===== src/Float.antt =====
-- Python's `float`, as an interface: what the code does with doubles, with no law assumed. NaN,
-- rounding and overflow are whatever the instance makes of them; a theorem that needs a law names
-- it as a hypothesis.
pub mod Won
pub mod Tenths
use quanteo.Base.{Bool, Option, List}
use quanteo.Base.Int.{ℤ, pos}

-- `trunc` is `int(x)`, with `none` for the exception that it raises on NaN and the infinities;
-- `total` is the builtin `sum` of a sequence of floats. `lt`, `le` and `eq` are `<`, `<=`, `==`.
pub record Float (R : Type 0) : Type 0 where
  pub add : R → R → R
  pub sub : R → R → R
  pub mul : R → R → R
  pub div : R → R → R
  pub lt : R → R → Bool
  pub le : R → R → Bool
  pub eq : R → R → Bool
  pub of_int : ℤ → R
  pub trunc : R → Option ℤ
  pub total : List R → R

-- The literal `0.0`.
abbrev pub nought : {R : Type 0} ⦃f : Float R⦄ → R
nought ⦃f⦄ = f.of_int (pos 0)
