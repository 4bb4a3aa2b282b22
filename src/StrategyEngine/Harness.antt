-- ===== src/StrategyEngine/Harness.antt =====
-- core/strategy/harness.py: the replay of candles through one strategy, for its signals.
use quanteo.Base.{
  ℕ, ◌+◌, ◌/◌, String, Bool, true, false, Option, none, some, List, [], ◌∷◌, ◌++◌, ltb, take, drop,
  last_n, length, if◌then◌else◌,
}
use quanteo.Base.Result.{Result, ok, err, runtime_error}
use quanteo.Domain.{Signal}
use quanteo.MarketData.{Candle, Tick, MarketContext, candle_to_tick}
use quanteo.StrategyEngine.{Told, signalled, quiet, raised}

pub record HarnessResult (R : Type 0) : Type 0 where
  pub signals : List (Signal R)
  pub total_ticks : ℕ
  pub error_count : ℕ
  pub strategy_name : String
  pub symbol : String
  pub start_at : Option String
  pub end_at : Option String

abbrev pub buffer_size : ℕ
buffer_size = 200

abbrev min_ℕ : ℕ → ℕ → ℕ
min_ℕ a b = if ltb a b then a else b

-- `warmup_size`, which is half of the candles if it is not given, and at most all of them; a negative
-- one counts as 0.
abbrev pub warmup_count : Option ℕ → ℕ → ℕ
warmup_count none n = min_ℕ (n / 2) n
warmup_count (some k) n = min_ℕ k n

abbrev first_of : {R : Type 0} → List (Candle R) → Option String
first_of [] = none
first_of (c ∷ cs) = some c.timestamp

abbrev last_of : {R : Type 0} → List (Candle R) → Option String
last_of [] = none
last_of (c ∷ []) = some c.timestamp
last_of (c ∷ d ∷ cs) = last_of (d ∷ cs)

abbrev pub counted_as : {R : Type 0} → Told R → HarnessResult R → HarnessResult R
counted_as (signalled s) r = record r { signals = r.signals ++ s ∷ [] }
counted_as quiet r = r
counted_as raised r = record r { error_count = r.error_count + 1 }

abbrev empty_result : {R : Type 0} → String → HarnessResult R
empty_result name = record {
  signals = [];
  total_ticks = 0;
  error_count = 0;
  strategy_name = name;
  symbol = "";
  start_at = none;
  end_at = none;
}

module _ {R S : Type 0} (on_tick : Tick R → MarketContext R → S → Told R × S) where
  -- The loop over `replay_candles`, with the candle buffer.
  unfoldable pub replay_all :
      String → List (Candle R) → List (Candle R) → HarnessResult R → S → HarnessResult R × S
  replay_all symbol buffer [] r σ = (r, σ)
  replay_all symbol buffer (c ∷ cs) r σ =
      let ctx : MarketContext R = record { symbol = symbol; recent_candles = buffer } in
      let (told, σ') = on_tick (candle_to_tick c) ctx σ in
      let r' = counted_as told r in
      replay_all symbol (last_n buffer_size (buffer ++ c ∷ [])) cs
        (record r' { total_ticks = r'.total_ticks + 1 }) σ'

module _ {R S : Type 0} (warm : List (Candle R) → S → Bool × S)
    (on_tick : Tick R → MarketContext R → S → Told R × S) where
  abbrev pub start_of : String → String → List (Candle R) → HarnessResult R
  start_of name symbol replayed = record {
    signals = [];
    total_ticks = 0;
    error_count = 0;
    strategy_name = name;
    symbol = symbol;
    start_at = first_of replayed;
    end_at = last_of replayed;
  }

  -- An exception of the warm-up is not caught.
  abbrev pub replay_warmed :
      String → String → List (Candle R) → List (Candle R) → Bool × S → Result (HarnessResult R × S)
  replay_warmed name symbol warmed replayed (true, σ) = err runtime_error
  replay_warmed name symbol warmed replayed (false, σ) = ok (
      replay_all on_tick symbol (last_n buffer_size warmed) replayed (start_of name symbol replayed)
        σ)

  unfoldable pub run_backtest :
      String → List (Candle R) → Option ℕ → S → Result (HarnessResult R × S)
  unfolding replay_all
  run_backtest name [] size σ = ok (empty_result name, σ)
  run_backtest name (c ∷ cs) size σ =
      let n = warmup_count size (length (c ∷ cs)) in
      let warmed = take n (c ∷ cs) in
      replay_warmed name c.symbol warmed (drop n (c ∷ cs)) (warm warmed σ)
