-- ===== src/MultiTimeframe/Tests.antt =====
-- The broker fails: an expired daily state is used, and the hours are empty.
use quanteo.Base.{ℕ, suc, ◌≡◌, String, false, Option, none, some, List, [], ◌∷◌, length}
use quanteo.Base.Int.{pos}
use quanteo.Base.Result.{Result, ok, err, http_error}
use quanteo.Float.Won.{Won, won_float}
use quanteo.Domain.{domestic}
use quanteo.MarketData.{Candle}
use quanteo.MultiTimeframe.{TimeframeState, compute_timeframe_state}
use quanteo.MultiTimeframe.Loader.{CachedState, Timeframe, daily, Loader, load}
use quanteo.MultiTimeframe.States.{compute_timeframe_state-lengths}
use quanteo.MultiTimeframe.Loads.{outcome, load-held}

abbrev candle : Candle Won
candle = record {
  symbol = "A";
  open_price = pos 100;
  high = pos 105;
  low = pos 95;
  close = pos 102;
  volume = pos 10;
  timestamp = "d1";
  market = domestic;
}

abbrev five : List (Candle Won)
five = candle ∷ candle ∷ candle ∷ candle ∷ candle ∷ []

compute_timeframe_state-lengths_example :
    (s : TimeframeState Won) × (compute_timeframe_state (pos 1) (pos 1) five 7 false ≡ ok s)
    × (s.candles ≡ five)
    × (length s.cci ≡ 0)
    × (length s.cci_signal ≡ 0)
    × (length s.ma5 ≡ 1)
    × (length s.ma20 ≡ 0)
compute_timeframe_state-lengths_example =
    compute_timeframe_state-lengths (pos 1) (pos 1) five 7 false

abbrev old : TimeframeState Won
old = record {
  candles = five;
  cci = [];
  cci_signal = [];
  ma5 = pos 102 ∷ [];
  ma20 = [];
  volume_ma20 = [];
  last_updated = 0;
  is_resampled = false;
  is_empty = false;
}

abbrev cached : String → Timeframe → Option (CachedState Won)
cached s daily = some (record { state = old; expires_at = 5 })
cached s _ = none

abbrev loader : Loader Won ℕ
loader = record { cache = cached; world = 0 }

abbrev fetch : String → String → ℕ → ℕ → Result (List (Candle Won)) × ℕ
fetch symbol interval count w = (err http_error, suc w)

abbrev either : Won → Won → Won
either a b = a

abbrev nothing : List (Candle Won) → List (Candle Won)
nothing cs = []

load-held_example :
    let (r, l') = load (pos 1) (pos 1) either either fetch nothing nothing "A" 9 loader in
    r ≡ outcome 9 (l'.cache "A")
load-held_example = load-held (pos 1) (pos 1) either either fetch nothing nothing "A" 9 loader
