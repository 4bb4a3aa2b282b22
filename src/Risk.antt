-- ===== src/Risk.antt =====
-- core/risk/manager.py: the gate between signals and orders. `today` is the UTC date as a day number
-- and `id` the fresh UUID of an approved order. The text of a rejection is its case; prices are
-- floats of the interface, quantities are integers.
pub mod Gate
pub mod Halt
pub mod Daily
pub mod Exposure
pub mod Exit
pub mod Tests
use quanteo.Base.{
  ℕ, ◌+◌, String, Bool, true, false, not, ◌&&◌, Option, none, some, List, [], ◌∷◌, ltb, leb, ◌==◌,
  if◌then◌else◌,
}
use quanteo.Base.Int.{ℤ, pos, ltb_ℤ, leb_ℤ, max_ℤ}
use quanteo.Base.Result.{Result, ok, err, value_error, ◌>>=◌}
use quanteo.Float.{Float, nought}
use quanteo.Events.{Event, EventBus, risk_breach, kill_switch, publish}
use quanteo.Domain.{
  Market, domestic, Side, buy, sell, is_buy, OrderType, limit, market, HaltLevel, no_halt, reduce,
  pause, kill, Signal, Position, Portfolio, Order, Payload, halt_changed, get, make_signal,
  make_order, book_value, total_exposure, unrealized_pnl_pct,
}

pub record RiskConfig (R : Type 0) : Type 0 where
  pub max_position_value : R
  pub max_daily_orders : ℕ
  pub max_total_exposure : R
  pub stop_loss_pct : R
  pub take_profit_pct : R
  pub reduce_ratio : R

pub record RiskManager (R : Type 0) : Type 0 where
  pub config : RiskConfig R
  pub halt : HaltLevel
  pub daily_order_count : ℕ
  pub daily_reset_date : ℕ

pub data Reason : Type 0 where
  market_buy : Reason
  halted : HaltLevel → Reason
  daily_limit : Reason
  exposure_limit : Reason
  position_limit : Reason
  reduced_away : Reason

pub data Decision (R : Type 0) : Type 0 where
  approved : Order R → Decision R
  rejection : Signal R → Reason → Decision R

abbrev pub rank : HaltLevel → ℕ
rank no_halt = 0
rank reduce = 1
rank pause = 2
rank kill = 3

-- A check that finds a reason ends the evaluation.
abbrev pub unless :
    {R : Type 0} → Option Reason → Signal R → Result (Decision R) → Result (Decision R)
unless (some r) s k = ok (rejection s r)
unless none s k = k

abbrev pub is_none {ℓ} : {A : Type ℓ} → Option A → Bool
is_none none = true
is_none (some a) = false

abbrev pub blocks_buy : HaltLevel → Side → Bool
blocks_buy kill side = is_buy side
blocks_buy pause side = is_buy side
blocks_buy _ side = false

-- `int(...)` raises on NaN and on the infinities.
abbrev pub at_least_one : Option ℤ → Result ℤ
at_least_one none = err value_error
at_least_one (some n) = ok (max_ℤ (pos 1) n)

module _ {R : Type 0} ⦃f : Float R⦄ where
  -- `x or 0.0`
  abbrev pub or_zero : Option R → R
  or_zero none = nought
  or_zero (some p) = if f.eq p nought then nought else p

  abbrev pub truthy : Option R → Bool
  truthy none = false
  truthy (some p) = not (f.eq p nought)

  unfoldable pub new_risk_manager : RiskConfig R → ℕ → RiskManager R
  new_risk_manager config today = record {
    config = config;
    halt = no_halt;
    daily_order_count = 0;
    daily_reset_date = today;
  }

  unfoldable pub refresh_daily_counter : ℕ → RiskManager R → RiskManager R
  refresh_daily_counter today m =
      if today == m.daily_reset_date
      then m
      else record m { daily_order_count = 0; daily_reset_date = today }

  unfoldable pub check_halt : RiskManager R → Signal R → Option Reason
  check_halt m s = if blocks_buy m.halt s.side then some (halted m.halt) else none

  -- Step 1.5: no exposure can be computed without a price.
  unfoldable pub check_price : Signal R → Option Reason
  check_price s = if is_buy s.side && is_none s.price then some market_buy else none

  unfoldable pub check_daily_orders : RiskManager R → Option Reason
  check_daily_orders m =
      if leb m.config.max_daily_orders m.daily_order_count then some daily_limit else none

  abbrev pub added_value : Signal R → R
  added_value s = f.mul (f.of_int s.qty) (or_zero s.price)

  unfoldable pub check_total_exposure : RiskManager R → Signal R → Portfolio R → Option Reason
  check_total_exposure m s p =
      if f.lt m.config.max_total_exposure (f.add (total_exposure p) (added_value s))
      then some exposure_limit
      else none

  abbrev pub held_value : Option (Position R) → R
  held_value none = nought
  held_value (some p) = book_value p

  unfoldable pub check_position_value : RiskManager R → Signal R → Portfolio R → Option Reason
  check_position_value m s p =
      if f.lt m.config.max_position_value
        (f.add (held_value (get s.symbol p.positions)) (added_value s))
      then some position_limit
      else none

  -- Steps 3 and 4 are for BUY only.
  abbrev pub for_buy : Signal R → Option Reason → Option Reason
  for_buy s r = if is_buy s.side then r else none

  unfoldable pub apply_reduce : RiskManager R → ℤ → Result ℤ
  apply_reduce m qty = elim m.halt [
    | reduce ↦ at_least_one (f.trunc (f.mul (f.of_int qty) m.config.reduce_ratio))
    | _ ↦ ok qty
  ]

  unfoldable pub build_order : String → Signal R → ℤ → Result (Order R)
  unfolding make_order
  build_order id s qty = make_order record {
    client_order_id = id;
    symbol = s.symbol;
    market = domestic;
    side = s.side;
    order_type = if truthy s.price then limit else market;
    qty = qty;
    price = or_zero s.price;
    source_signal = s;
  }

  -- Steps 5 and 6, for the quantity that remains.
  unfoldable pub approve : String → Signal R → ℤ → Result (Decision R)
  unfolding build_order
  approve id s qty =
      if ltb_ℤ qty (pos 1)
      then ok (rejection s reduced_away)
      else (build_order id s qty >>= λ o. ok (approved o))

  abbrev pub order_qty : RiskManager R → Signal R → Result ℤ
  order_qty m s = if is_buy s.side then apply_reduce m s.qty else ok s.qty

  unfoldable pub decide : String → RiskManager R → Signal R → Portfolio R → Result (Decision R)
  decide id m s p = unless (check_halt m s) s (
      unless (check_price s) s (
        unless (check_daily_orders m) s (
          unless (for_buy s (check_total_exposure m s p)) s
            (unless (for_buy s (check_position_value m s p)) s (order_qty m s >>= approve id s)))))

  abbrev pub is_approved : Result (Decision R) → Bool
  is_approved (ok (approved o)) = true
  is_approved _ = false

  -- The counter goes up after the order is built, and at no other place.
  abbrev pub counted : Result (Decision R) → RiskManager R → RiskManager R
  counted d m =
      if is_approved d then record m { daily_order_count = m.daily_order_count + 1 } else m

  unfoldable pub evaluate :
      (today : ℕ) (id : String)
      → Signal R
      → Portfolio R
      → RiskManager R
      → Result (Decision R) × RiskManager R
  evaluate today id s p m =
      let m' = refresh_daily_counter today m in let d = decide id m' s p in (d, counted d m')

  unfoldable pub make_exit_signal : Position R → String → Result (Signal R)
  unfolding make_signal
  make_exit_signal p reason = make_signal record {
    strategy = "risk-manager";
    symbol = p.symbol;
    side = sell;
    qty = p.qty;
    price = none;
    reason = reason;
  }

  abbrev pub exit_order : String → Position R → String → Result (Option (Order R))
  exit_order id p reason =
      make_exit_signal p reason >>= λ s. build_order id s p.qty >>= λ o. ok (some o)

  unfoldable pub check_exit : String → RiskManager R → Position R → R → Result (Option (Order R))
  check_exit id m p current =
      let pnl = unrealized_pnl_pct p current in
      if leb_ℤ p.qty (pos 0)
      then ok none
      else if f.le pnl m.config.stop_loss_pct
      then exit_order id p "손절"
      else if f.le m.config.take_profit_pct pnl
      then exit_order id p "익절"
      else ok none

  abbrev halt_event : HaltLevel → Event (Payload R)
  halt_event level = record {
    type = elim level [ kill ↦ kill_switch | _ ↦ risk_breach ];
    payload = halt_changed level;
    source = "";
  }

  abbrev pub publish_to :
      Option (EventBus (Payload R)) → Event (Payload R) → Option (EventBus (Payload R))
  publish_to none e = none
  publish_to (some b) e = some (publish e b)

  -- The level goes up or stays.
  unfoldable pub graduated_halt :
      HaltLevel
      → RiskManager R × Option (EventBus (Payload R))
      → RiskManager R × Option (EventBus (Payload R))
  graduated_halt level (m, b) =
      if leb (rank level) (rank m.halt)
      then (m, b)
      else (record m { halt = level }, publish_to b (halt_event level))

  unfoldable pub reset_halt : RiskManager R → RiskManager R
  reset_halt m = record m { halt = no_halt }

  -- The property `daily_order_count`, which refreshes first.
  unfoldable pub read_daily_order_count : ℕ → RiskManager R → ℕ × RiskManager R
  unfolding refresh_daily_counter
  read_daily_order_count today m =
      let m' = refresh_daily_counter today m in (m'.daily_order_count, m')
