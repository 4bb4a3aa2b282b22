-- ===== src/MultiTimeframe.antt =====
-- core/strategy/multi_timeframe.py: the states of the four timeframes, the candles of hours and the
-- indicators of a state. The loader with its cache is `Loader`. `lookup_upper` gives three of the four
-- states as they are.
pub mod States
pub mod Loader
pub mod Loads
pub mod Tests
use quanteo.Base.{
  ℕ, zero, suc, ◌+◌, ◌-◌, String, Bool, true, false, not, ◌&&◌, ◌||◌, Option, none, some, List, [],
  ◌∷◌, map, ltb, leb, ◌==◌, str_eq, take, drop, last_n, length, if◌then◌else◌,
}
use quanteo.Base.Int.{ℤ, ◌+ℤ◌, pos}
use quanteo.Base.Result.{Error, Result, ok, err, value_error, runtime_error}
use quanteo.Float.{Float}
use quanteo.Domain.{get, put}
use quanteo.MarketData.{Candle}
use quanteo.Indicators.{calculate_sma, calculate_cci}

pub record TimeframeState (R : Type 0) : Type 0 where
  pub candles : List (Candle R)
  pub cci : List R
  pub cci_signal : List R
  pub ma5 : List R
  pub ma20 : List R
  pub volume_ma20 : List R
  pub last_updated : ℕ
  pub is_resampled : Bool
  pub is_empty : Bool

pub record MultiTimeframeData (R : Type 0) : Type 0 where
  pub monthly : TimeframeState R
  pub weekly : TimeframeState R
  pub daily : TimeframeState R
  pub sixty_min : TimeframeState R

module _ {R : Type 0} where
  -- `__post_init__`, at the end of the constructor.
  unfoldable pub make_state : TimeframeState R → Result (TimeframeState R)
  make_state s =
      if not (length s.cci == length s.cci_signal)
      then err value_error
      else if leb 20 (length s.candles) && length s.ma20 == 0
      then err value_error
      else if leb 5 (length s.candles) && length s.ma5 == 0
      then err value_error
      else ok s

  abbrev highest : (R → R → R) → R → List (Candle R) → R
  highest most h [] = h
  highest most h (c ∷ cs) = highest most (most h c.high) cs

  abbrev lowest : (R → R → R) → R → List (Candle R) → R
  lowest least l [] = l
  lowest least l (c ∷ cs) = lowest least (least l c.low) cs

  abbrev last_close : R → List (Candle R) → R
  last_close d [] = d
  last_close d (c ∷ cs) = last_close c.close cs

  abbrev total_volume : List (Candle R) → ℤ
  total_volume [] = pos 0
  total_volume (c ∷ cs) = c.volume +ℤ total_volume cs

  -- The candle of an hour; `most` and `least` are `max` and `min` of two floats.
  abbrev pub hour_of : (most least : R → R → R) → Candle R → List (Candle R) → Candle R
  hour_of most least c cs = record c {
    high = highest most c.high cs;
    low = lowest least c.low cs;
    close = last_close c.close cs;
    volume = total_volume (c ∷ cs);
  }

  -- The loop over chunks of 60; `fuel` is the number of candles, and an incomplete hour ends it.
  unfoldable pub hours_of :
      (most least : R → R → R) → (fuel : ℕ) → List (Candle R) → List (Candle R)
  hours_of most least zero cs = []
  hours_of most least (suc n) [] = []
  hours_of most least (suc n) (c ∷ cs) =
      let rest = hours_of most least n (drop 59 cs) in
      if ltb (length (c ∷ cs)) 60 then [] else hour_of most least c (take 59 cs) ∷ rest

  unfoldable pub aggregate_minute_candles_to_hourly :
      (most least : R → R → R) → List (Candle R) → List (Candle R)
  unfolding hours_of
  aggregate_minute_candles_to_hourly most least cs = hours_of most least (length cs) cs

module _ {R : Type 0} ⦃f : Float R⦄ (tiny scale : R) where
  -- The signal line is shorter, so the CCI is cut at the front.
  abbrev pub trimmed : (cci signal : List R) → List R
  trimmed cci [] = []
  trimmed cci (s ∷ ss) = last_n (length (s ∷ ss)) cci

  unfoldable pub compute_timeframe_state :
      List (Candle R) → (now : ℕ) → (is_resampled : Bool) → Result (TimeframeState R)
  unfolding calculate_cci calculate_sma make_state
  compute_timeframe_state candles now is_resampled =
      let closes = map (λ (c : Candle R). c.close) candles in
      let volumes = map (λ (c : Candle R). f.of_int c.volume) candles in
      let cci_raw = calculate_cci tiny scale candles 20 in
      let signal = calculate_sma cci_raw 20 in
      make_state (record {
        candles = candles;
        cci = trimmed cci_raw signal;
        cci_signal = signal;
        ma5 = calculate_sma closes 5;
        ma20 = calculate_sma closes 20;
        volume_ma20 = calculate_sma volumes 20;
        last_updated = now;
        is_resampled = is_resampled;
        is_empty = false;
      })
