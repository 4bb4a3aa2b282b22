-- ===== src/Risk/Exit.antt =====
-- `check_exit`: stop loss and take profit.
use mathlib.Core.Path.{subst}
use mathlib.Core.Option.{some-injective}
use quanteo.Base.{
  ◌≡◌, refl, String, Bool, true, false, not, ◌&&◌, ◌||◌, Option, none, some, arith, if◌then◌else◌,
}
use quanteo.Base.Int.{pos, leb_ℤ}
use quanteo.Base.Result.{Result, ok}
use quanteo.Float.{Float, nought}
use quanteo.Domain.{domestic, Signal, sell, market, Position, Order, unrealized_pnl_pct}
use quanteo.Risk.{RiskManager, make_exit_signal, build_order, check_exit, exit_order, is_none}

module _ {R : Type 0} ⦃f : Float R⦄ where
  -- A market SELL of the whole position.
  pub record Closes (id : String) (p : Position R) (o : Order R) : Type 0 where
    pub id_eq : o.client_order_id ≡ id
    pub symbol_eq : o.symbol ≡ p.symbol
    pub side_eq : o.side ≡ sell
    pub type_eq : o.order_type ≡ market
    pub qty_eq : o.qty ≡ p.qty

  exit_order_lem :
      (id : String) (p : Position R) (reason : String)
      → leb_ℤ p.qty (pos 0) ≡ false
      → (o : Order R) × (exit_order id p reason ≡ ok (some o)) × Closes id p o
  unfolding make_exit_signal build_order
  exit_order_lem id p reason h =
      let s : Signal R = record {
        strategy = "risk-manager";
        symbol = p.symbol;
        side = sell;
        qty = p.qty;
        price = none;
        reason = reason;
      } in
      let o : Order R = record {
        client_order_id = id;
        symbol = p.symbol;
        market = domestic;
        side = sell;
        order_type = market;
        qty = p.qty;
        price = nought;
        source_signal = s;
      } in
      (o, ground arith, ground arith)

  -- The result `r` of a check that says `due`.
  abbrev Answers : String → Position R → Bool → Result (Option (Order R)) → Type 0
  Answers id p due x =
      (r : Option (Order R)) × (x ≡ ok r)
      × (is_none r ≡ not due)
      × ((o : Order R) → r ≡ some o → Closes id p o)

  exit_order-Answers :
      (id : String) (p : Position R) (reason : String)
      → leb_ℤ p.qty (pos 0) ≡ false
      → Answers id p true (exit_order id p reason)
  exit_order-Answers id p reason h =
      let (o, eq, closes) = exit_order_lem id p reason h in
      (some o, eq, refl, λ o' e. subst (Closes id p) (some-injective _ _ e) closes)

  none-Answers : (id : String) (p : Position R) → Answers id p false (ok none)
  none-Answers id p = (none, refl, refl, λ o e. cc)

  ladder-Answers :
      (id : String) (p : Position R) (a b c : Bool)
      → leb_ℤ p.qty (pos 0) ≡ a
      → Answers id p (not a && (b || c)) (
          if a
          then ok none
          else if b
          then exit_order id p "손절"
          else if c
          then exit_order id p "익절"
          else ok none)
  ladder-Answers id p true b c e = none-Answers id p
  ladder-Answers id p false true c e = exit_order-Answers id p "손절" e
  ladder-Answers id p false false true e = exit_order-Answers id p "익절" e
  ladder-Answers id p false false false e = none-Answers id p

  -- The position is due for closing: the loss has reached the stop, or the gain the target.
  abbrev pub is_due : RiskManager R → Position R → R → Bool
  is_due m p current =
      let pnl = unrealized_pnl_pct p current in
      f.le pnl m.config.stop_loss_pct || f.le m.config.take_profit_pct pnl

  -- `check_exit` never raises. It gives an order exactly for a position that is held and due, at any
  -- halt level and past any daily limit, and the order sells the whole position at the market.
  pub check_exit_lem :
      (id : String) (m : RiskManager R) (p : Position R) (current : R)
      → (r : Option (Order R)) × (check_exit id m p current ≡ ok r)
        × (is_none r ≡ not (not (leb_ℤ p.qty (pos 0)) && is_due m p current))
        × ((o : Order R) → r ≡ some o → Closes id p o)
  unfolding check_exit
  check_exit_lem id m p current =
      let pnl = unrealized_pnl_pct p current in
      ladder-Answers id p (leb_ℤ p.qty (pos 0)) (f.le pnl m.config.stop_loss_pct)
        (f.le m.config.take_profit_pct pnl) refl
