-- ===== src/Backtest/Tests.antt =====
-- Three candles, without costs: two shares bought on the second day and sold on the third.
use quanteo.Base.{
  ℕ, zero, suc, ◌≡◌, refl, String, Option, none, some, List, [], ◌∷◌, ◌++◌, arith, length, All,
}
use quanteo.Base.Int.{ℤ, pos, ◌≤ℤ◌, ◌+ℤ◌, ◌*ℤ◌, ◌-ℤ◌}
use quanteo.Base.Result.{Result, ok}
use quanteo.Float.Won.{Won, won_float}
use quanteo.Domain.{Side, buy, sell, domestic, Signal}
use quanteo.Backtest.{Candle, Tick, Trade, Rates, BacktestResult, replay}
use quanteo.Backtest.Ledger.{HasSignals, HasQty, shares, replay-ledger}
use quanteo.Backtest.Causal.{Continues, replay-causal}
use quanteo.Backtest.NextBar.{IsNextBar, replay-IsNextBar}

abbrev rates : Rates Won
rates = record {
  initial_capital = pos 1000;
  commission_rate = pos 0;
  tax_rate = pos 0;
  slippage_rate = pos 0;
}

abbrev candle : ℕ → ℕ → String → Candle Won
candle o c ts = record {
  symbol = "A";
  open_price = pos o;
  high = pos c;
  low = pos o;
  close = pos c;
  volume = pos 10;
  timestamp = ts;
  market = domestic;
}

abbrev two_days : List (Candle Won)
two_days = candle 100 105 "d1" ∷ candle 110 115 "d2" ∷ []

abbrev third_day : List (Candle Won)
third_day = candle 120 125 "d3" ∷ []

abbrev signal : Side → Signal Won
signal side = record {
  strategy = "test";
  symbol = "A";
  side = side;
  qty = pos 2;
  price = none;
  reason = "";
}

-- Its state is the number of the day.
abbrev on_tick : Tick Won → List (Candle Won) → ℕ → Result (Option (Signal Won) × ℕ)
on_tick t w zero = ok (some (signal buy), 1)
on_tick t w (suc zero) = ok (some (signal sell), 2)
on_tick t w (suc (suc n)) = ok (none, 3)

has_signals : HasSignals rates on_tick
has_signals t w zero s σ' h = ground arith
has_signals t w (suc zero) s σ' h = ground arith
has_signals t w (suc (suc n)) s σ' h = ground arith

abbrev trade : Side → ℕ → String → String → Trade Won
trade side price ts signal_ts = record {
  symbol = "A";
  side = side;
  price = pos price;
  qty = pos 2;
  commission = pos 0;
  tax = pos 0;
  timestamp = ts;
  signal_timestamp = signal_ts;
}

abbrev result : BacktestResult Won
result = record {
  trades = trade buy 110 "d2" "d1" ∷ trade sell 120 "d3" "d2" ∷ [];
  equity_curve = pos 1000 ∷ pos 1010 ∷ pos 1020 ∷ [];
  unfilled_signals = [];
}

played : replay rates on_tick (two_days ++ third_day) 0 ≡ ok result
unfolding replay ◌+ℤ◌ ◌*ℤ◌ ◌-ℤ◌
played = refl

replay-ledger_example :
    (n : ℤ) × (shares (pos 0) result.trades ≡ some n)
    × (pos 0 ≤ℤ n)
    × All HasQty result.trades
    × (length result.equity_curve ≡ length (two_days ++ third_day))
replay-ledger_example = replay-ledger rates on_tick (two_days ++ third_day) 0 has_signals played

replay-causal_example :
    (b : BacktestResult Won) × (replay rates on_tick two_days 0 ≡ ok b)
    × Continues b.trades result.trades
    × Continues b.equity_curve result.equity_curve
replay-causal_example = replay-causal rates on_tick two_days third_day 0 has_signals played

replay-IsNextBar_example : All (IsNextBar rates on_tick (two_days ++ third_day)) result.trades
replay-IsNextBar_example =
    replay-IsNextBar rates on_tick (two_days ++ third_day) 0 has_signals played
