-- ===== src/MarketData.antt =====
-- core/marketdata/models.py: ticks and candles, and the context of core/strategy/base.py that a
-- strategy gets with a tick. A time stamp is its ISO text; the interval of a candle, which no part
-- that is modelled reads, is left out.
use quanteo.Base.{String, List}
use quanteo.Base.Int.{ℤ}
use quanteo.Domain.{Market}

pub record Candle (R : Type 0) : Type 0 where
  pub symbol : String
  pub open_price : R
  pub high : R
  pub low : R
  pub close : R
  pub volume : ℤ
  pub timestamp : String
  pub market : Market

pub record Tick (R : Type 0) : Type 0 where
  pub symbol : String
  pub price : R
  pub volume : ℤ
  pub timestamp : String
  pub market : Market

pub record MarketContext (R : Type 0) : Type 0 where
  pub symbol : String
  pub recent_candles : List (Candle R)

-- `_candle_to_tick`, which the backtest engine and the harness both have.
abbrev pub candle_to_tick : {R : Type 0} → Candle R → Tick R
candle_to_tick c = record {
  symbol = c.symbol;
  price = c.close;
  volume = c.volume;
  timestamp = c.timestamp;
  market = c.market;
}
