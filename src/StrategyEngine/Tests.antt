-- ===== src/StrategyEngine/Tests.antt =====
-- A strategy that raises its first tick, is quiet on the second and signals on the third; the
-- replay of four candles of which one warms it up; a tick to three strategies.
use quanteo.Base.{
  ℕ, zero, suc, ◌≡◌, refl, String, Bool, true, none, some, List, [], ◌∷◌, map, arith, str_eq,
}
use quanteo.Base.Int.{pos}
use quanteo.Base.Result.{ok}
use quanteo.Float.Won.{Won}
use quanteo.Domain.{buy, domestic, Signal, Payload}
use quanteo.Events.{EventBus}
use quanteo.MarketData.{Candle, Tick, MarketContext}
use quanteo.StrategyEngine.{
  Told, signalled, quiet, raised, StrategyEngine, signal_event, new_engine, register, warmup,
  handle_tick,
}
use quanteo.StrategyEngine.Harness.{HarnessResult, buffer_size, run_backtest}
use quanteo.StrategyEngine.Parity.{play, run_backtest-parity}
use quanteo.StrategyEngine.Isolation.{acted, signals_by, message, publish_each, handle_tick-acted}

abbrev candle : String → Candle Won
candle ts = record {
  symbol = "A";
  open_price = pos 100;
  high = pos 105;
  low = pos 95;
  close = pos 102;
  volume = pos 10;
  timestamp = ts;
  market = domestic;
}

abbrev tick : Tick Won
tick = record {
  symbol = "A";
  price = pos 102;
  volume = pos 10;
  market = domestic;
  timestamp = "d5";
}

abbrev entry : String → Signal Won
entry name = record {
  strategy = name;
  symbol = "A";
  side = buy;
  qty = pos 1;
  price = none;
  reason = "";
}

-- The state counts the ticks.
abbrev on_tick : String → Tick Won → MarketContext Won → ℕ → Told Won × ℕ
on_tick name t ctx zero = (raised, 1)
on_tick name t ctx (suc zero) = (quiet, 2)
on_tick name t ctx (suc (suc n)) = (signalled (entry name), 3)

abbrev warm : String → List (Candle Won) → ℕ → Bool × ℕ
warm name history n = (str_eq name "broken", n)

abbrev later_days : List (Candle Won)
later_days = candle "d2" ∷ candle "d3" ∷ candle "d4" ∷ []

abbrev result : HarnessResult Won
result = record {
  signals = entry "s" ∷ [];
  total_ticks = 3;
  error_count = 1;
  strategy_name = "s";
  symbol = "A";
  start_at = some "d2";
  end_at = some "d4";
}

replayed :
    run_backtest (warm "s") (on_tick "s") "s" (candle "d1" ∷ later_days) (some 1) 0 ≡ ok (result, 3)
unfolding run_backtest
replayed = refl

abbrev bus : EventBus (Payload Won)
bus = record {
  queue = [];
  maxsize = 5;
  unfinished = 0;
  handlers = λ t. [];
  wildcard = [];
  running = true;
}

run_backtest-parity_example :
    let e =
      play on_tick "s" later_days
        (warmup warm (candle "d1" ∷ []) (register "s" 0 (new_engine bus buffer_size))) in
    (e.bus.queue ≡ map signal_event result.signals) × (e.strategies ≡ ("s", 3) ∷ [])
run_backtest-parity_example =
    run_backtest-parity warm on_tick "s" (candle "d1") later_days (some 1) bus 0 3 result
      (omega arith) (refl, (refl, (refl, tt))) (omega arith) replayed

abbrev crowded : StrategyEngine Won ℕ
crowded = record {
  bus = bus;
  buffer_size = buffer_size;
  strategies = ("broken", 2) ∷ ("new", 0) ∷ ("old", 2) ∷ [];
  buffers = [];
  failed_warmup = "broken" ∷ [];
}

handle_tick-acted_example :
    ((handle_tick on_tick tick crowded).strategies ≡ ("broken", 2) ∷ ("new", 1) ∷ ("old", 3) ∷ [])
    × ((handle_tick on_tick tick crowded).bus
        ≡ publish_each (message (entry "old") ∷ []) crowded.bus)
unfolding acted signals_by
handle_tick-acted_example = handle_tick-acted on_tick tick crowded
