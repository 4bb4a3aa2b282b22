-- ===== src/Indicators.antt =====
-- core/strategy/indicators/ma.py and cci.py: moving averages, the CCI with its signal line, crosses,
-- zones and the classes of candles. A period is 1 or more. The float literals that no integer
-- gives are arguments.
pub mod Lengths
pub mod Tests
use quanteo.Base.{
  ℕ, zero, suc, ◌+◌, ◌-◌, String, Bool, true, false, not, ◌&&◌, Option, none, some, List, [], ◌∷◌,
  map, ltb, ◌==◌, take, length, if◌then◌else◌,
}
use quanteo.Base.Int.{pos, negsuc}
use quanteo.Float.{Float, nought}
use quanteo.MarketData.{Candle}

pub data CandleClass : Type 0 where
  bullish bearish doji : CandleClass

pub data PricePosition : Type 0 where
  above between below : PricePosition

pub data CciZone : Type 0 where
  very_overbought overbought middle oversold very_oversold : CciZone

-- The loop over the windows of `period` values, each ending one place after the one before.
unfoldable pub rolling : {A B : Type 0} → (List A → B) → (period : ℕ) → List A → List B
rolling g period [] = []
rolling g period (x ∷ xs) =
    let rest = rolling g period xs in
    if ltb (length (x ∷ xs)) period then [] else g (take period (x ∷ xs)) ∷ rest

abbrev last_or : {R : Type 0} → R → List R → R
last_or d [] = d
last_or d (x ∷ []) = x
last_or d (x ∷ y ∷ ys) = last_or d (y ∷ ys)

module _ {R : Type 0} ⦃f : Float R⦄ where
  abbrev pub mean : ℕ → List R → R
  mean period xs = f.div (f.total xs) (f.of_int (pos period))

  -- Also `calculate_cci_signal`.
  unfoldable pub calculate_sma : List R → (period : ℕ) → List R
  unfolding rolling
  calculate_sma values period = rolling (mean period) period values

  abbrev pub typical_price : Candle R → R
  typical_price c = f.div (f.add (f.add c.high c.low) c.close) (f.of_int (pos 3))

  abbrev magnitude : R → R
  magnitude x = if f.lt x nought then f.sub nought x else x

  -- The value of a window of typical prices; `tiny` is 1e-9 and `scale` is 0.015.
  abbrev pub cci_of : (tiny scale : R) → ℕ → List R → R
  cci_of tiny scale period xs =
      let sma = mean period xs in
      let md = mean period (map (λ x. magnitude (f.sub x sma)) xs) in
      if f.lt md tiny then nought else f.div (f.sub (last_or nought xs) sma) (f.mul scale md)

  unfoldable pub calculate_cci : (tiny scale : R) → List (Candle R) → (period : ℕ) → List R
  unfolding rolling
  calculate_cci tiny scale candles period =
      rolling (cci_of tiny scale period) period (map typical_price candles)

  -- The last two values, if there are two.
  abbrev pub last_two : List R → Option (R × R)
  last_two [] = none
  last_two (x ∷ []) = none
  last_two (x ∷ y ∷ []) = some (x, y)
  last_two (x ∷ y ∷ z ∷ zs) = last_two (y ∷ z ∷ zs)

  abbrev pub crosses : (R → R → Bool) → (R → R → Bool) → Option (R × R) → Option (R × R) → Bool
  crosses before now (some (c, c')) (some (s, s')) = before c s && now c' s'
  crosses before now _ _ = false

  -- Lists of different lengths, or with less than two values, show no cross.
  unfoldable pub detect_golden_cross : (cci signal : List R) → Bool
  detect_golden_cross cci signal =
      if length cci == length signal
      then crosses f.le (λ c s. f.lt s c) (last_two cci) (last_two signal)
      else false

  unfoldable pub detect_dead_cross : (cci signal : List R) → Bool
  detect_dead_cross cci signal =
      if length cci == length signal
      then crosses (λ c s. f.le s c) f.lt (last_two cci) (last_two signal)
      else false

  unfoldable pub get_cci_zone : R → CciZone
  get_cci_zone x =
      if f.le (f.of_int (pos 200)) x
      then very_overbought
      else if f.le (f.of_int (pos 100)) x
      then overbought
      else if f.lt (f.of_int (negsuc 99)) x
      then middle
      else if f.lt (f.of_int (negsuc 199)) x
      then oversold
      else very_oversold

  unfoldable pub classify_candle : (open_price close_price threshold : R) → CandleClass
  classify_candle open_price close_price threshold =
      let one = f.of_int (pos 1) in
      if f.lt (f.mul open_price (f.add one threshold)) close_price
      then bullish
      else if f.lt close_price (f.mul open_price (f.sub one threshold))
      then bearish
      else doji

  unfoldable pub is_large_candle : (tiny : R) → Candle R → (body_ratio : R) → Bool
  is_large_candle tiny c body_ratio =
      let range = f.sub c.high c.low in
      if f.lt range tiny
      then false
      else f.le body_ratio (f.div (magnitude (f.sub c.close c.open_price)) range)

  unfoldable pub is_alignment_bullish : (ma5 ma20 : R) → Bool
  is_alignment_bullish ma5 ma20 = f.lt ma20 ma5

  unfoldable pub price_position : (price ma5 ma20 : R) → PricePosition
  price_position price ma5 ma20 =
      if f.lt ma5 price then above else if f.le ma20 price then between else below
