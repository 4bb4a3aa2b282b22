-- ===== src/StrategyEngine.antt =====
-- core/strategy/engine.py: the strategy plug-ins, the candle buffers and the handlers of TICK and
-- CANDLE events. A plug-in is a name and a state that its methods may change; what they do is the
-- arguments `warm` and `on_tick`. The engine's bus carries the signals.
pub mod Isolation
pub mod Harness
pub mod Parity
pub mod Tests
use quanteo.Base.{
  ℕ, suc, ◌+◌, String, Bool, true, false, not, Option, none, some, List, [], ◌∷◌, ◌++◌, map, last_n,
  str_eq, if◌then◌else◌,
}
use quanteo.Domain.{Signal, Payload, signal_raised, get, put, remove_key}
use quanteo.Events.{Event, EventBus, signal, publish}
use quanteo.MarketData.{Candle, Tick, MarketContext}

-- What `on_tick` does: a signal, `None`, or an exception.
pub data Told (R : Type 0) : Type 0 where
  signalled : Signal R → Told R
  quiet : Told R
  raised : Told R

pub record StrategyEngine (R S : Type 0) : Type 0 where
  pub bus : EventBus (Payload R)
  pub buffer_size : ℕ
  pub strategies : List (String × S)
  pub buffers : List (String × List (Candle R))
  pub failed_warmup : List String

-- `name in s`, and `s.discard(name)`, of a set.
unfoldable pub has : String → List String → Bool
has n [] = false
has n (x ∷ xs) = if str_eq x n then true else has n xs

unfoldable pub discard : String → List String → List String
discard n [] = []
discard n (x ∷ xs) = let rest = discard n xs in if str_eq x n then rest else x ∷ rest

abbrev pub or_empty : {R : Type 0} → Option (List (Candle R)) → List (Candle R)
or_empty none = []
or_empty (some cs) = cs

abbrev pub signal_event : {R : Type 0} → Signal R → Event (Payload R)
signal_event s = record { type = signal; payload = signal_raised s; source = s.strategy }

abbrev pub publish_told : {R : Type 0} → Told R → EventBus (Payload R) → EventBus (Payload R)
publish_told (signalled s) b = publish (signal_event s) b
publish_told quiet b = b
publish_told raised b = b

module _ {R S : Type 0} where
  unfoldable pub new_engine : EventBus (Payload R) → ℕ → StrategyEngine R S
  new_engine bus size = record {
    bus = bus;
    buffer_size = size;
    strategies = [];
    buffers = [];
    failed_warmup = [];
  }

  unfoldable pub register : String → S → StrategyEngine R S → StrategyEngine R S
  unfolding put discard
  register name σ e = record e {
    strategies = put name σ e.strategies;
    failed_warmup = discard name e.failed_warmup;
  }

  unfoldable pub unregister : String → StrategyEngine R S → StrategyEngine R S
  unfolding remove_key discard
  unregister name e = record e {
    strategies = remove_key name e.strategies;
    failed_warmup = discard name e.failed_warmup;
  }

  unfoldable pub build_context : String → StrategyEngine R S → MarketContext R
  unfolding get
  build_context symbol e = record {
    symbol = symbol;
    recent_candles = or_empty (get symbol e.buffers);
  }

  -- A CANDLE event: a deque with a bound drops its oldest elements.
  unfoldable pub handle_candle : Candle R → StrategyEngine R S → StrategyEngine R S
  unfolding put get
  handle_candle c e =
      let buffer = last_n e.buffer_size (or_empty (get c.symbol e.buffers) ++ c ∷ []) in
      record e { buffers = put c.symbol buffer e.buffers }

module _ {R S : Type 0} (warm : String → List (Candle R) → S → Bool × S) where
  -- The loop of `warmup`; `warm` tells whether it raises.
  unfoldable pub warm_all :
      List (Candle R) → List (String × S) → List String → List (String × S) × List String
  warm_all history [] failed = ([], failed)
  warm_all history ((n, σ) ∷ rest) failed =
      let (raises, σ') = warm n history σ in
      let (rest', failed') = warm_all history rest (if raises then n ∷ failed else failed) in
      ((n, σ') ∷ rest', failed')

  unfoldable pub warmup : List (Candle R) → StrategyEngine R S → StrategyEngine R S
  unfolding warm_all put
  warmup [] e = e
  warmup (c ∷ cs) e =
      let (strategies, failed) = warm_all (c ∷ cs) e.strategies e.failed_warmup in
      record e {
        buffers = put c.symbol (last_n e.buffer_size (c ∷ cs)) e.buffers;
        strategies = strategies;
        failed_warmup = failed;
      }

module _ {R S : Type 0} (on_tick : String → Tick R → MarketContext R → S → Told R × S) where
  -- The loop of `_handle_tick_event`: an exception of one strategy is logged.
  unfoldable pub tick_all :
      List String
      → Tick R
      → MarketContext R
      → List (String × S)
      → EventBus (Payload R)
      → List (String × S) × EventBus (Payload R)
  unfolding has
  tick_all failed t ctx [] b = ([], b)
  tick_all failed t ctx ((n, σ) ∷ rest) b =
      let (told, σ') = on_tick n t ctx σ in
      let skip = has n failed in
      let (rest', b') = tick_all failed t ctx rest (if skip then b else publish_told told b) in
      ((n, if skip then σ else σ') ∷ rest', b')

  unfoldable pub handle_tick : Tick R → StrategyEngine R S → StrategyEngine R S
  unfolding tick_all build_context
  handle_tick t e =
      let (strategies, bus) =
        tick_all e.failed_warmup t (build_context t.symbol e) e.strategies e.bus in
      record e { strategies = strategies; bus = bus }
