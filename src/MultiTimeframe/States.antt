-- ===== src/MultiTimeframe/States.antt =====
-- The states that are computed from candles: they exist for all candles, with lists of matching lengths.
use quanteo.Base.{
  ℕ, ◌-◌, ◌≤◌, ◌≡◌, refl, Bool, false, List, [], ◌∷◌, map, length, length-drop, arith,
}
use quanteo.Base.Result.{ok}
use quanteo.Float.{Float}
use quanteo.MarketData.{Candle}
use quanteo.Indicators.{calculate_sma, calculate_cci}
use quanteo.Indicators.Lengths.{length-calculate_sma, length-calculate_cci, length-map}
use quanteo.MultiTimeframe.{TimeframeState, make_state, trimmed, compute_timeframe_state}

make_state-ok :
    {R : Type 0} (s : TimeframeState R)
    → length s.cci ≡ length s.cci_signal
    → (20 ≤ length s.candles → 1 ≤ length s.ma20)
    → (5 ≤ length s.candles → 1 ≤ length s.ma5)
    → make_state s ≡ ok s
unfolding make_state
make_state-ok s same long short = ground arith

module _ {R : Type 0} ⦃f : Float R⦄ (tiny scale : R) where
  length-trimmed :
      (cci signal : List R)
      → length signal ≤ length cci
      → length (trimmed tiny scale cci signal) ≡ length signal
  length-trimmed cci [] h = refl
  length-trimmed cci (s ∷ ss) h = omega (arith, length-drop (length cci - length (s ∷ ss)) cci)

  -- The checks of `TimeframeState` never fail on a computed state, whatever the candles: it exists, its CCI is as long
  -- as the signal line, which has a value for every candle from the 39th on, and the averages
  -- have one for every candle from the 5th and the 20th on.
  pub compute_timeframe_state-lengths :
      (candles : List (Candle R)) (now : ℕ) (is_resampled : Bool)
      → (s : TimeframeState R) × (compute_timeframe_state tiny scale candles now is_resampled
          ≡ ok s)
        × (s.candles ≡ candles)
        × (length s.cci ≡ length candles - 38)
        × (length s.cci_signal ≡ length candles - 38)
        × (length s.ma5 ≡ length candles - 4)
        × (length s.ma20 ≡ length candles - 19)
  unfolding compute_timeframe_state
  compute_timeframe_state-lengths candles now is_resampled =
      let closes = map (λ (c : Candle R). c.close) candles in
      let volumes = map (λ (c : Candle R). f.of_int c.volume) candles in
      let cci_raw = calculate_cci tiny scale candles 20 in
      let signal = calculate_sma cci_raw 20 in
      let raw = length-calculate_cci tiny scale candles 20 (omega arith) in
      let line = length-calculate_sma cci_raw 20 (omega arith) in
      let close_count = length-map (λ (c : Candle R). c.close) candles in
      let five = length-calculate_sma closes 5 (omega arith) in
      let twenty = length-calculate_sma closes 20 (omega arith) in
      let cut = length-trimmed cci_raw signal (omega arith) in
      let s : TimeframeState R = record {
        candles = candles;
        cci = trimmed tiny scale cci_raw signal;
        cci_signal = signal;
        ma5 = calculate_sma closes 5;
        ma20 = calculate_sma closes 20;
        volume_ma20 = calculate_sma volumes 20;
        last_updated = now;
        is_resampled = is_resampled;
        is_empty = false;
      } in
      (
        s,
        make_state-ok s cut (λ h. omega arith) (λ h. omega arith),
        refl,
        omega arith,
        omega arith,
        omega arith,
        omega arith,
      )
