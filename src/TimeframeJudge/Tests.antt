-- ===== src/TimeframeJudge/Tests.antt =====
-- A month with twenty values of the CCI; the other timeframes have no data.
use quanteo.Base.{ℕ, zero, suc, ◌≡◌, ◌↔◌, true, false, List, [], ◌∷◌}
use quanteo.Base.Int.{pos}
use quanteo.Float.Won.{Won, won_float}
use quanteo.Domain.{domestic}
use quanteo.MarketData.{Candle}
use quanteo.MultiTimeframe.{TimeframeState, MultiTimeframeData}
use quanteo.TimeframeJudge.{assess, is_trade_allowed}
use quanteo.TimeframeJudge.Gate.{IsRising, is_trade_allowed-IsRising}

abbrev candle : Candle Won
candle = record {
  symbol = "A";
  open_price = pos 100;
  high = pos 120;
  low = pos 90;
  close = pos 110;
  volume = pos 10;
  timestamp = "m1";
  market = domestic;
}

abbrev tens : ℕ → List Won
tens zero = pos 10 ∷ []
tens (suc n) = pos 10 ∷ tens n

abbrev month : TimeframeState Won
month = record {
  candles = candle ∷ [];
  cci = tens 19;
  cci_signal = pos 5 ∷ [];
  ma5 = [];
  ma20 = [];
  volume_ma20 = [];
  last_updated = 0;
  is_resampled = true;
  is_empty = false;
}

abbrev no_data : TimeframeState Won
no_data = record {
  candles = [];
  cci = [];
  cci_signal = [];
  ma5 = [];
  ma20 = [];
  volume_ma20 = [];
  last_updated = 0;
  is_resampled = true;
  is_empty = true;
}

abbrev frames : MultiTimeframeData Won
frames = record { monthly = month; weekly = no_data; daily = no_data; sixty_min = no_data }

is_trade_allowed-IsRising_example :
    (is_trade_allowed (assess frames) ≡ true) ↔ IsRising frames.monthly
is_trade_allowed-IsRising_example = is_trade_allowed-IsRising frames
