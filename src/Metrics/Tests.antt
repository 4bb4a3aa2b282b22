-- ===== src/Metrics/Tests.antt =====
-- Two purchases and one sale.
use quanteo.Base.{ℕ, ◌≡◌, ◌++◌, List, [], ◌∷◌}
use quanteo.Base.Int.{pos}
use quanteo.Float.Won.{Won}
use quanteo.Domain.{Side, buy, sell}
use quanteo.Backtest.{Trade}
use quanteo.Metrics.{pair_trades}
use quanteo.Metrics.Pairs.{bought_of, sold_of, buys_of, sells_of, IsCovered, pair_trades-fifo}

abbrev trade : Side → ℕ → Trade Won
trade side price = record {
  symbol = "A";
  side = side;
  price = pos price;
  qty = pos 1;
  commission = pos 0;
  tax = pos 0;
  timestamp = "d2";
  signal_timestamp = "d1";
}

abbrev trades : List (Trade Won)
trades = trade buy 100 ∷ trade buy 110 ∷ trade sell 120 ∷ []

pair_trades-fifo_example :
    ((left : List (Trade Won)) × (bought_of (pair_trades trades) ++ left ≡ buys_of trades))
    × (IsCovered trades 0 → sold_of (pair_trades trades) ≡ sells_of trades)
pair_trades-fifo_example = pair_trades-fifo trades
