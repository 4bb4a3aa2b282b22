-- ===== src/TimeframeJudge.antt =====
-- core/strategy/timeframe_judge.py: the direction of each timeframe and the gate that it puts on trades.
-- The warnings are left out.
pub mod Gate
pub mod Tests
use quanteo.Base.{
  ℕ, String, Bool, true, false, ◌&&◌, ◌||◌, Option, none, some, List, [], ◌∷◌, ltb, ◌==◌, length,
  if◌then◌else◌,
}
use quanteo.Float.{Float, nought}
use quanteo.Domain.{get}
use quanteo.MultiTimeframe.{TimeframeState, MultiTimeframeData}

pub data MarketDirection : Type 0 where
  bullish bearish neutral : MarketDirection

abbrev pub cci_period : ℕ
cci_period = 20

-- `xs[-1]`, of a list that was found not to be empty.
unfoldable pub last_of : {R : Type 0} → List R → Option R
last_of [] = none
last_of (x ∷ []) = some x
last_of (x ∷ y ∷ ys) = last_of (y ∷ ys)

module _ {R : Type 0} ⦃f : Float R⦄ where
  abbrev pub compared : Bool → Option R → Option R → MarketDirection
  compared positive (some c) (some s) =
      if positive
      then (if f.lt s c && f.lt nought c then bullish else bearish)
      else (if f.lt s c then bullish else bearish)
  compared positive _ _ = neutral

  unfoldable pub assess_timeframe :
      TimeframeState R → (require_positive_cci : Bool) → MarketDirection
  assess_timeframe t positive =
      if t.is_empty
      then neutral
      else if length t.candles == 0 || ltb (length t.cci) cci_period
      then neutral
      else if length t.cci_signal == 0
      then neutral
      else compared positive (last_of t.cci) (last_of t.cci_signal)

  unfoldable pub assess : MultiTimeframeData R → List (String × MarketDirection)
  assess m =
      ("monthly", assess_timeframe m.monthly true)
      ∷ ("weekly", assess_timeframe m.weekly false)
      ∷ ("daily", assess_timeframe m.daily false)
      ∷ ("sixty_min", assess_timeframe m.sixty_min false)
      ∷ []

abbrev allows : Option MarketDirection → Bool
allows (some bullish) = true
allows _ = false

-- A missing direction refuses the trade.
unfoldable pub is_trade_allowed : List (String × MarketDirection) → Bool
unfolding get
is_trade_allowed directions = allows (get "monthly" directions)
