-- ===== src/Risk/Exposure.antt =====
-- What the exposure limit means for the order that goes out, which REDUCE may have scaled down, and
-- the quantity that REDUCE leaves.
use quanteo.Base.{ℕ, ◌≡◌, sym, ap, ◌∙◌, String, true, false, some, arith}
use quanteo.Base.Int.{ℤ, pos, ◌≤ℤ◌}
use quanteo.Base.Result.{ok}
use quanteo.Float.{Float, nought}
use quanteo.Domain.{buy, Signal, Portfolio, Order, IsSignal, get, total_exposure}
use quanteo.Risk.{
  RiskManager, approved, or_zero, added_value, held_value, refresh_daily_counter, apply_reduce,
  evaluate,
}
use quanteo.Risk.Gate.{evaluate-MayBuy}

-- Up to here every integer is a double: 2 ^ 53.
abbrev pub exact_ints : ℕ
exact_ints = 9007199254740992

-- Laws of doubles: a smaller summand does not take a sum past a cap that the larger one kept, products
-- with a positive factor are monotone, a factor of at most one does not enlarge, and `int(x)` is at
-- most an integer that `x` is at most.
pub record IsMonotone (R : Type 0) ⦃f : Float R⦄ : Type 0 where
  pub add_mono :
      (cap a b c : R)
      → f.le c b ≡ true
      → f.lt cap (f.add a b) ≡ false
      → f.lt cap (f.add a c) ≡ false
  pub mul_mono :
      (m n : ℤ) (x : R)
      → f.lt nought x ≡ true
      → pos 1 ≤ℤ m
      → m ≤ℤ n
      → n ≤ℤ pos exact_ints
      → f.le (f.mul (f.of_int m) x) (f.mul (f.of_int n) x) ≡ true
  pub scale_le :
      (n : ℤ) (x : R)
      → pos 1 ≤ℤ n
      → n ≤ℤ pos exact_ints
      → f.le x (f.of_int (pos 1)) ≡ true
      → f.le (f.mul (f.of_int n) x) (f.of_int n) ≡ true
  pub trunc_le :
      (n q : ℤ) (x : R)
      → pos 1 ≤ℤ n
      → n ≤ℤ pos exact_ints
      → f.le x (f.of_int n) ≡ true
      → f.trunc x ≡ some q
      → q ≤ℤ n

module _ {R : Type 0} ⦃f : Float R⦄ where
  apply_reduce-le :
      (m : RiskManager R) (n q : ℤ)
      → IsMonotone R
      → f.le m.config.reduce_ratio (f.of_int (pos 1)) ≡ true
      → pos 1 ≤ℤ n
      → n ≤ℤ pos exact_ints
      → apply_reduce m n ≡ ok q
      → (pos 1 ≤ℤ q) × (q ≤ℤ n)
  unfolding apply_reduce
  apply_reduce-le m n q laws ratio h small e =
      let x = f.mul (f.of_int n) m.config.reduce_ratio in
      ground (arith, laws.trunc_le n q x, laws.scale_le n m.config.reduce_ratio h small ratio)

  config-refresh :
      (today : ℕ) (m : RiskManager R) → (refresh_daily_counter today m).config ≡ m.config
  unfolding refresh_daily_counter
  config-refresh today m = ground arith

  -- An approved BUY is for at least one share and at most the signal's quantity, and with its own
  -- quantity and price neither the total exposure nor the value held in its symbol passes its limit:
  -- the checks are made before REDUCE scales the order, and scaling does not undo them. The conditions
  -- are that the configured ratio of REDUCE is at most one, that the signal is well-formed with a
  -- price above 0 and a quantity of at most 2 ^ 53, and that the laws of doubles in `IsMonotone` hold.
  pub evaluate-exposure :
      (today : ℕ) (id : String) (s : Signal R) (p : Portfolio R) (m : RiskManager R) (o : Order R)
      → s.side ≡ buy
      → IsSignal s
      → s.qty ≤ℤ pos exact_ints
      → f.lt nought (or_zero s.price) ≡ true
      → f.le m.config.reduce_ratio (f.of_int (pos 1)) ≡ true
      → IsMonotone R
      → (evaluate today id s p m).0 ≡ ok (approved o)
      → let value = f.mul (f.of_int o.qty) o.price in
        (pos 1 ≤ℤ o.qty)
        × (o.qty ≤ℤ s.qty)
        × (f.lt m.config.max_total_exposure (f.add (total_exposure p) value) ≡ false)
        × (f.lt m.config.max_position_value (f.add (held_value (get s.symbol p.positions)) value)
            ≡ false)
  evaluate-exposure today id s p m o e v small above ratio laws h =
      let (may, carries, scaled, price) = evaluate-MayBuy today id s p m e h in
      let (one, le) = apply_reduce-le m s.qty o.qty laws ratio v.qty_pos small scaled in
      let smaller = laws.mul_mono o.qty s.qty (or_zero s.price) above one le small in
      let config = config-refresh today m in
      let total_fits =
        ap (λ c. f.lt c.max_total_exposure (f.add (total_exposure p) (added_value s))) (sym config)
        ∙ may.exposure_fits in
      let held_fits =
        ap
          (λ c.
            f.lt c.max_position_value
              (f.add (held_value (get s.symbol p.positions)) (added_value s)))
          (sym config)
        ∙ may.position_fits in
      (
        one,
        le,
        rw price (laws.add_mono _ _ _ _ smaller total_fits),
        rw price (laws.add_mono _ _ _ _ smaller held_fits),
      )
