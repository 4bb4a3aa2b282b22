-- ===== src/Indicators/Lengths.antt =====
-- How many values the indicators have, and what they say of one bar.
use quanteo.Base.{ℕ, ◌+◌, ◌-◌, ◌<◌, ◌≡◌, refl, ap, ◌∙◌, List, [], ◌∷◌, map, length, arith}
use quanteo.Float.{Float}
use quanteo.MarketData.{Candle}
use quanteo.Indicators.{rolling, mean, cci_of, typical_price, calculate_sma, calculate_cci}

pub length-rolling :
    {A B : Type 0} (g : List A → B) (period : ℕ) (xs : List A)
    → 0 < period
    → length (rolling g period xs) ≡ length xs + 1 - period
unfolding rolling
length-rolling g period [] h = omega arith
length-rolling g period (x ∷ xs) h = ground (arith, length-rolling g period xs h)

pub length-map : {A B : Type 0} (g : A → B) (xs : List A) → length (map g xs) ≡ length xs
length-map g [] = refl
length-map g (x ∷ xs) = omega (arith, length-map g xs)

module _ {R : Type 0} ⦃f : Float R⦄ where
  pub length-calculate_sma :
      (xs : List R) (period : ℕ)
      → 0 < period
      → length (calculate_sma xs period) ≡ length xs + 1 - period
  unfolding calculate_sma
  length-calculate_sma xs period h = length-rolling (mean period) period xs h

  pub length-calculate_cci :
      (tiny scale : R) (candles : List (Candle R)) (period : ℕ)
      → 0 < period
      → length (calculate_cci tiny scale candles period) ≡ length candles + 1 - period
  unfolding calculate_cci
  length-calculate_cci tiny scale candles period h =
      length-rolling (cci_of tiny scale period) period (map typical_price candles) h
      ∙ ap (λ n. n + 1 - period) (length-map typical_price candles)
