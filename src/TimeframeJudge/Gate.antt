-- ===== src/TimeframeJudge/Gate.antt =====
-- When a trade is allowed.
use quanteo.Base.{◌≤◌, ◌≡◌, ◌↔◌, true, false, some, arith, length, Option-cases, inl, inr}
use quanteo.Float.{Float, nought}
use quanteo.MultiTimeframe.{TimeframeState, MultiTimeframeData}
use quanteo.TimeframeJudge.{last_of, assess_timeframe, assess, is_trade_allowed}

module _ {R : Type 0} ⦃f : Float R⦄ where
  -- Enough data, and the last CCI above its signal line and above zero.
  pub record IsRising (t : TimeframeState R) : Type 0 where
    pub has_data : t.is_empty ≡ false
    pub has_candles : 1 ≤ length t.candles
    pub long_enough : 20 ≤ length t.cci
    pub has_signal : 1 ≤ length t.cci_signal
    pub latest : R
    pub signal : R
    pub latest_eq : last_of t.cci ≡ some latest
    pub signal_eq : last_of t.cci_signal ≡ some signal
    pub above_signal : f.lt signal latest ≡ true
    pub above_zero : f.lt nought latest ≡ true

  allowed-IsRising :
      (m : MultiTimeframeData R) → is_trade_allowed (assess m) ≡ true → IsRising m.monthly
  unfolding is_trade_allowed assess assess_timeframe
  allowed-IsRising m h = elim (Option-cases (last_of m.monthly.cci)) [
    | inl no_cci ↦ absurd (ground arith)
    | inr (c, c_eq) ↦ elim (Option-cases (last_of m.monthly.cci_signal)) [
      | inl no_signal ↦ absurd (ground arith)
      | inr (s, s_eq) ↦ record {
        has_data = ground arith;
        has_candles = ground arith;
        long_enough = ground arith;
        has_signal = ground arith;
        latest = c;
        signal = s;
        latest_eq = c_eq;
        signal_eq = s_eq;
        above_signal = ground arith;
        above_zero = ground arith;
      }
    ]
  ]

  IsRising-allowed :
      (m : MultiTimeframeData R) → IsRising m.monthly → is_trade_allowed (assess m) ≡ true
  unfolding is_trade_allowed assess assess_timeframe
  IsRising-allowed m r = ground (
    arith, r.has_data, r.has_candles, r.long_enough, r.has_signal, r.latest_eq, r.signal_eq,
    r.above_signal, r.above_zero,
  )

  -- A trade is allowed exactly if the monthly timeframe has its data, at least twenty values of the CCI,
  -- and a last CCI above both its signal line and zero; the other timeframes have no say.
  pub is_trade_allowed-IsRising :
      (m : MultiTimeframeData R) → (is_trade_allowed (assess m) ≡ true) ↔ IsRising m.monthly
  is_trade_allowed-IsRising m = (allowed-IsRising m, IsRising-allowed m)
