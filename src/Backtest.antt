-- ===== src/Backtest.antt =====
-- core/backtest/engine.py: the replay of daily candles. The strategy is the arguments `warmup` and
-- `on_tick` on a state of its own; either may raise. Time stamps are ISO texts.
pub mod Fills
pub mod Ledger
pub mod NextBar
pub mod Causal
pub mod Tests
use quanteo.Base.{
  ℕ, zero, suc, ◌+◌, ◌-◌, String, Bool, true, false, Option, none, some, List, [], ◌∷◌, ◌++◌, ltb,
  last_n, length, if◌then◌else◌,
}
use quanteo.Base.Int.{ℤ, pos, ltb_ℤ, ◌+ℤ◌, ◌-ℤ◌, min_ℤ, max_ℤ}
use quanteo.Base.Result.{Result, ok, err, value_error, ◌>>=◌}
use quanteo.Float.{Float, nought}
use quanteo.Domain.{Side, buy, sell, Signal}
pub use quanteo.MarketData.{Candle, Tick, candle_to_tick}

pub record Trade (R : Type 0) : Type 0 where
  pub symbol : String
  pub side : Side
  pub price : R
  pub qty : ℤ
  pub commission : R
  pub tax : R
  pub timestamp : String
  pub signal_timestamp : String

-- `_Position`
pub record Holding (R : Type 0) : Type 0 where
  pub qty : ℤ
  pub avg_price : R

pub record Rates (R : Type 0) : Type 0 where
  pub initial_capital : R
  pub commission_rate : R
  pub tax_rate : R
  pub slippage_rate : R

-- `cash`, `position` and `result.trades`.
pub record Account (R : Type 0) : Type 0 where
  pub cash : R
  pub holding : Holding R
  pub trades : List (Trade R)

pub record BacktestResult (R : Type 0) : Type 0 where
  pub trades : List (Trade R)
  pub equity_curve : List R
  pub unfilled_signals : List (Signal R)

-- The local variables of the loop: `pending` is the signal of the bar before with its time stamp,
-- `seen` the candles up to now, `strategy` the state of the strategy.
pub record Replay (R S : Type 0) : Type 0 where
  pub account : Account R
  pub pending : Option (Signal R × String)
  pub equity : List R
  pub seen : List (Candle R)
  pub strategy : S

module _ {ℓ} {A : Type ℓ} where
  -- `xs[:-1]`
  unfoldable pub all_but_last : List A → List A
  all_but_last [] = []
  all_but_last (x ∷ []) = []
  all_but_last (x ∷ y ∷ ys) = x ∷ all_but_last (y ∷ ys)

-- `candles[max(0, i - 50) : i + 1]`, of the candles up to `i`.
abbrev pub window : {R : Type 0} → List (Candle R) → List (Candle R)
window seen = last_n 51 seen

module _ {R : Type 0} ⦃f : Float R⦄ where
  abbrev pub update_buy : ℤ → R → Holding R → Holding R
  update_buy qty price h =
      let total_cost = f.add (f.mul h.avg_price (f.of_int h.qty)) (f.mul price (f.of_int qty)) in
      let held = h.qty +ℤ qty in
      record {
        qty = held;
        avg_price = if ltb_ℤ (pos 0) held then f.div total_cost (f.of_int held) else nought;
      }

  abbrev pub update_sell : ℤ → Holding R → Holding R
  update_sell qty h =
      let held = max_ℤ (pos 0) (h.qty -ℤ qty) in
      record { qty = held; avg_price = if ltb_ℤ (pos 0) held then h.avg_price else nought }

  module _ (e : Rates R) where
    abbrev pub buy_price : R → R
    buy_price raw = f.mul raw (f.add (f.of_int (pos 1)) e.slippage_rate)

    abbrev pub sell_price : R → R
    sell_price raw = f.mul raw (f.sub (f.of_int (pos 1)) e.slippage_rate)

    abbrev pub buy_cost : Candle R → ℤ → R
    buy_cost c qty = f.mul (buy_price c.open_price) (f.of_int qty)

    abbrev pub buy_trade : Signal R → String → Candle R → ℤ → Trade R
    buy_trade s ts c qty = record {
      symbol = s.symbol;
      side = buy;
      price = buy_price c.open_price;
      qty = qty;
      commission = f.mul (buy_cost c qty) e.commission_rate;
      tax = nought;
      timestamp = c.timestamp;
      signal_timestamp = ts;
    }

    abbrev pub bought : Signal R → String → Candle R → ℤ → Account R → Account R
    bought s ts c qty a =
        let cost = buy_cost c qty in
        record {
          cash = f.sub a.cash (f.add cost (f.mul cost e.commission_rate));
          holding = update_buy qty (buy_price c.open_price) a.holding;
          trades = a.trades ++ buy_trade s ts c qty ∷ [];
        }

    -- `int(cash / (exec_price * (1 + rate)))`, which raises on a zero divisor too.
    abbrev pub affordable : R → R → Result ℤ
    affordable cash price =
        let divisor = f.mul price (f.add (f.of_int (pos 1)) e.commission_rate) in
        if f.eq divisor nought
        then err value_error
        else elim (f.trunc (f.div cash divisor)) [ some n ↦ ok n | none ↦ err value_error ]

    abbrev pub buy_up_to : Signal R → String → Candle R → Account R → ℤ → Account R
    buy_up_to s ts c a qty = if ltb_ℤ qty (pos 1) then a else bought s ts c qty a

    abbrev pub fill_buy : Signal R → String → Candle R → Account R → Result (Account R)
    fill_buy s ts c a =
        let cost = buy_cost c s.qty in
        if f.lt a.cash (f.add cost (f.mul cost e.commission_rate))
        then (affordable a.cash (buy_price c.open_price) >>= λ qty. ok (buy_up_to s ts c a qty))
        else ok (bought s ts c s.qty a)

    abbrev pub gross_of : Candle R → ℤ → R
    gross_of c qty = f.mul (sell_price c.open_price) (f.of_int qty)

    abbrev pub sell_trade : Signal R → String → Candle R → ℤ → Trade R
    sell_trade s ts c qty = record {
      symbol = s.symbol;
      side = sell;
      price = sell_price c.open_price;
      qty = qty;
      commission = f.mul (gross_of c qty) e.commission_rate;
      tax = f.mul (gross_of c qty) e.tax_rate;
      timestamp = c.timestamp;
      signal_timestamp = ts;
    }

    abbrev pub sold : Signal R → String → Candle R → ℤ → Account R → Account R
    sold s ts c qty a =
        let trade = sell_trade s ts c qty in
        record {
          cash = f.add a.cash (f.sub (f.sub (gross_of c qty) trade.commission) trade.tax);
          holding = update_sell qty a.holding;
          trades = a.trades ++ trade ∷ [];
        }

    abbrev pub fill_sell : Signal R → String → Candle R → Account R → Account R
    fill_sell s ts c a =
        let qty = min_ℤ s.qty a.holding.qty in if ltb_ℤ qty (pos 1) then a else sold s ts c qty a

    -- `_fill_signal`, at the open of the candle.
    unfoldable pub fill_signal : Signal R → String → Candle R → Account R → Result (Account R)
    fill_signal s ts c a = elim s.side [ buy ↦ fill_buy s ts c a | sell ↦ ok (fill_sell s ts c a) ]

    abbrev pub fill_pending : Option (Signal R × String) → Candle R → Account R → Result (Account R)
    fill_pending none c a = ok a
    fill_pending (some (s, ts)) c a = fill_signal s ts c a

    abbrev pub equity_of : Candle R → Account R → R
    equity_of c a = f.add a.cash (f.mul (f.of_int a.holding.qty) c.close)

    module _ {S : Type 0}
        (on_tick : Tick R → List (Candle R) → S → Result (Option (Signal R) × S)) where
      abbrev pub stamped : String → Option (Signal R) → Option (Signal R × String)
      stamped ts none = none
      stamped ts (some s) = some (s, ts)

      abbrev pub after_bar : Candle R → Replay R S → Account R → Option (Signal R) × S → Replay R S
      after_bar c p a (signal, σ) = record {
        account = a;
        pending = stamped c.timestamp signal;
        equity = p.equity ++ equity_of c a ∷ [];
        seen = p.seen ++ c ∷ [];
        strategy = σ;
      }

      -- One round of the loop: fill at the open, value at the close, then the signal of the bar.
      unfoldable pub bar : Candle R → Replay R S → Result (Replay R S)
      unfolding fill_signal
      bar c p = fill_pending p.pending c p.account >>= λ a.
          on_tick (candle_to_tick c) (window (p.seen ++ c ∷ [])) p.strategy >>= λ r.
          ok (after_bar c p a r)

      unfoldable pub bars : List (Candle R) → Replay R S → Result (Replay R S)
      unfolding bar
      bars [] p = ok p
      bars (c ∷ cs) p = bar c p >>= λ q. bars cs q

      abbrev pub fresh : S → Replay R S
      fresh σ = record {
        account = record {
          cash = e.initial_capital;
          holding = record { qty = pos 0; avg_price = nought };
          trades = [];
        };
        pending = none;
        equity = [];
        seen = [];
        strategy = σ;
      }

      abbrev pub signals_of : Option (Signal R × String) → List (Signal R)
      signals_of none = []
      signals_of (some (s, ts)) = s ∷ []

      -- The signal of the last bar has no next bar: it is what is pending at the end.
      abbrev pub result_of : Replay R S → BacktestResult R
      result_of p = record {
        trades = p.account.trades;
        equity_curve = p.equity;
        unfilled_signals = signals_of p.pending;
      }

      -- The loop of `run`, from the state of the warmed strategy.
      unfoldable pub replay : List (Candle R) → S → Result (BacktestResult R)
      unfolding bars
      replay cs σ = bars cs (fresh σ) >>= λ p. ok (result_of p)

      unfoldable pub run :
          (List (Candle R) → S → Result S) → List (Candle R) → S → Result (BacktestResult R)
      unfolding replay all_but_last
      run warmup cs σ =
          if ltb (length cs) 2
          then ok
              record { trades = []; equity_curve = e.initial_capital ∷ []; unfilled_signals = [] }
          else (warmup (all_but_last cs) σ >>= λ σ'. replay cs σ')
