-- ===== src/StrategyEngine/Parity.antt =====
-- Research-to-live parity: the harness and the engine give a strategy the same calls.
use mathlib.Core.Path.{subst}
use mathlib.Core.List.{map-append}
use text.Mathlib.TextPositions.{eq_refl}
use quanteo.Base.{
  ℕ, zero, suc, ◌+◌, ◌≤◌, ◌<◌, ◌≡◌, ◌∙◌, refl, sym, ap, String, Bool, true, false, Option, some,
  List, [], ◌∷◌, ◌++◌, map, append_assoc, append-nil, arith, take, drop, last_n, length,
  length-append, if◌then◌else◌, All,
}
use quanteo.Base.Result.{ok, ok_injective}
use quanteo.Domain.{Payload, get, put, get-put}
use quanteo.Events.{Event, EventBus, publish}
use quanteo.MarketData.{Candle, Tick, MarketContext, candle_to_tick}
use quanteo.StrategyEngine.{
  Told, signalled, quiet, raised, StrategyEngine, or_empty, signal_event, publish_told, new_engine,
  register, handle_candle, handle_tick, warmup,
}
use quanteo.StrategyEngine.Harness.{
  HarnessResult, buffer_size, warmup_count, counted_as, replay_all, replay_warmed, start_of,
  run_backtest,
}

buffer_get : {R : Type 0} (k : String) (v : List (Candle R)) → get k ((k, v) ∷ []) ≡ some v
unfolding get
buffer_get k v = simp eq_refl

module _ {R S : Type 0} (on_tick : String → Tick R → MarketContext R → S → Told R × S)
    (name : String) where
  -- The live run: for each candle its tick, and then the candle.
  unfoldable pub play : List (Candle R) → StrategyEngine R S → StrategyEngine R S
  unfolding handle_tick handle_candle
  play [] e = e
  play (c ∷ cs) e = play cs (handle_candle c (handle_tick on_tick (candle_to_tick c) e))

  -- An engine with the one strategy, which was warmed.
  abbrev engine : EventBus (Payload R) → List (String × List (Candle R)) → S → StrategyEngine R S
  engine bus buffers σ = record {
    bus = bus;
    buffer_size = buffer_size;
    strategies = (name, σ) ∷ [];
    buffers = buffers;
    failed_warmup = [];
  }

  abbrev context : String → List (Candle R) → MarketContext R
  context symbol buffer = record { symbol = symbol; recent_candles = buffer }

  -- The engine after one candle.
  abbrev stepped :
      String
      → Candle R
      → EventBus (Payload R)
      → List (String × List (Candle R))
      → List (Candle R)
      → S
      → StrategyEngine R S
  stepped symbol c bus buffers buffer σ =
      let (told, σ') = on_tick name (candle_to_tick c) (context symbol buffer) σ in
      engine (publish_told told bus) (put symbol (last_n buffer_size (buffer ++ c ∷ [])) buffers) σ'

  play_step :
      (symbol : String) (c : Candle R) (bus : EventBus (Payload R))
      (buffers : List (String × List (Candle R))) (buffer : List (Candle R)) (σ : S)
      → c.symbol ≡ symbol
      → get symbol buffers ≡ some buffer
      → handle_candle c (handle_tick on_tick (candle_to_tick c) (engine bus buffers σ))
        ≡ stepped symbol c bus buffers buffer σ
  unfolding handle_tick handle_candle
  play_step symbol c bus buffers buffer σ same known =
      subst
        (λ s.
          get s buffers ≡ some buffer
          → handle_candle c (handle_tick on_tick (candle_to_tick c) (engine bus buffers σ))
            ≡ stepped s c bus buffers buffer σ)
        same (ap (λ o. stepped c.symbol c bus buffers (or_empty o) σ)) known

  told_queue :
      (told : Told R) (r : HarnessResult R) (bus : EventBus (Payload R))
      (q : List (Event (Payload R)))
      → length bus.queue < bus.maxsize
      → bus.queue ≡ q ++ map signal_event r.signals
      → ((publish_told told bus).queue ≡ q ++ map signal_event (counted_as told r).signals)
        × (length (publish_told told bus).queue ≤ length bus.queue + 1)
        × ((publish_told told bus).maxsize ≡ bus.maxsize)
  unfolding publish
  told_queue (signalled s) r bus q room h =
      let sent : (publish (signal_event s) bus).queue ≡ bus.queue ++ signal_event s ∷ [] =
        ground arith in
      (
        sent
            ∙ ap (λ x. x ++ signal_event s ∷ []) h
            ∙ append_assoc q (map signal_event r.signals) (signal_event s ∷ [])
            ∙ ap (λ x. q ++ x) (sym (map-append signal_event r.signals (s ∷ []))),
        omega (arith, ap length sent, length-append bus.queue (signal_event s ∷ [])),
        ground arith,
      )
  told_queue quiet r bus q room h = (h, omega arith, refl)
  told_queue raised r bus q room h = (h, omega arith, refl)

  play-replay_all :
      (symbol : String) (cs : List (Candle R)) (bus : EventBus (Payload R))
      (buffers : List (String × List (Candle R))) (buffer : List (Candle R)) (r : HarnessResult R)
      (σ : S) (q : List (Event (Payload R)))
      → All (λ c. c.symbol ≡ symbol) cs
      → get symbol buffers ≡ some buffer
      → length bus.queue + length cs ≤ bus.maxsize
      → bus.queue ≡ q ++ map signal_event r.signals
      → let (r', σ') = replay_all (on_tick name) symbol buffer cs r σ in
        let e = play cs (engine bus buffers σ) in
        (e.bus.queue ≡ q ++ map signal_event r'.signals) × (e.strategies ≡ (name, σ') ∷ [])
  unfolding play replay_all
  play-replay_all symbol [] bus buffers buffer r σ q same known room h = (h, refl)
  play-replay_all symbol (c ∷ cs) bus buffers buffer r σ q (here, same) known room h =
      let (told, σ') = on_tick name (candle_to_tick c) (context symbol buffer) σ in
      let next = last_n buffer_size (buffer ++ c ∷ []) in
      let counted = counted_as told r in
      let (queued, little, bound) = told_queue told r bus q (omega arith) h in
      let rest =
        play-replay_all symbol cs (publish_told told bus) (put symbol next buffers) next
          (record counted { total_ticks = counted.total_ticks + 1 }) σ' q same
          (get-put symbol next buffers) (omega arith) queued in
      let (r', σ'') = replay_all (on_tick name) symbol buffer (c ∷ cs) r σ in
      subst
        (λ e. (e.bus.queue ≡ q ++ map signal_event r'.signals) × (e.strategies ≡ (name, σ'') ∷ []))
        (sym (ap (λ e. play cs e) (play_step symbol c bus buffers buffer σ here known))) rest

module _ {R S : Type 0} (warm : String → List (Candle R) → S → Bool × S)
    (on_tick : String → Tick R → MarketContext R → S → Told R × S) (name : String) where
  -- A warm-up that does not raise leaves the engine ready.
  warm_step :
      (c : Candle R) (cs : List (Candle R)) (bus : EventBus (Payload R)) (σ σ' : S)
      → warm name (c ∷ cs) σ ≡ (false, σ')
      → warmup warm (c ∷ cs) (register name σ (new_engine bus buffer_size))
        ≡ engine on_tick name bus ((c.symbol, last_n buffer_size (c ∷ cs)) ∷ []) σ'
  unfolding warmup register new_engine
  warm_step c cs bus σ σ' h =
      ap
        (λ p. record {
          bus = bus;
          buffer_size = buffer_size;
          strategies = (name, p.1) ∷ [];
          buffers = (c.symbol, last_n buffer_size (c ∷ cs)) ∷ [];
          failed_warmup = if p.0 then name ∷ [] else [];
        })
        h

  -- The same for any split of the candles into a warm-up and a replay.
  split_parity :
      (c : Candle R) (ws rs : List (Candle R)) (bus : EventBus (Payload R)) (σ σ' : S)
      (r : HarnessResult R) (warmed : Bool × S)
      → warm name (c ∷ ws) σ ≡ warmed
      → All (λ d. d.symbol ≡ c.symbol) rs
      → length bus.queue + length rs ≤ bus.maxsize
      → replay_warmed (warm name) (on_tick name) name c.symbol (c ∷ ws) rs warmed ≡ ok (r, σ')
      → let e =
          play on_tick name rs
            (warmup warm (c ∷ ws) (register name σ (new_engine bus buffer_size))) in
        (e.bus.queue ≡ bus.queue ++ map signal_event r.signals) × (e.strategies ≡ (name, σ') ∷ [])
  split_parity c ws rs bus σ σ' r (true, σ0) done same room h = cc
  split_parity c ws rs bus σ σ' r (false, σ0) done same room h =
      let buffer = last_n buffer_size (c ∷ ws) in
      let live =
        play-replay_all on_tick name c.symbol rs bus ((c.symbol, buffer) ∷ []) buffer
          (start_of (warm name) (on_tick name) name c.symbol rs) σ0 bus.queue same
          (buffer_get c.symbol buffer) room (sym (append-nil bus.queue)) in
      let equal = ok_injective h in
      subst
        (λ e.
          (e.bus.queue ≡ bus.queue ++ map signal_event r.signals)
          × (e.strategies ≡ (name, σ') ∷ []))
        (sym (ap (λ e. play on_tick name rs e) (warm_step c ws bus σ σ0 done)))
        (subst
          (λ p.
            let e = play on_tick name rs (engine on_tick name bus ((c.symbol, buffer) ∷ []) σ0) in
            (e.bus.queue ≡ bus.queue ++ map signal_event p.0.signals)
            × (e.strategies ≡ (name, p.1) ∷ []))
          equal live)

  count_parity :
      (n : ℕ) (c : Candle R) (cs : List (Candle R)) (bus : EventBus (Payload R)) (σ σ' : S)
      (r : HarnessResult R)
      → 0 < n
      → All (λ d. d.symbol ≡ c.symbol) (drop n (c ∷ cs))
      → length bus.queue + length (drop n (c ∷ cs)) ≤ bus.maxsize
      → (let warmed = take n (c ∷ cs) in
          replay_warmed
            (warm name)
            (on_tick name)
            name
            c.symbol
            warmed
            (drop n (c ∷ cs))
            (warm name warmed σ)
          ≡ ok (r, σ'))
      → let started =
          warmup warm (take n (c ∷ cs)) (register name σ (new_engine bus buffer_size)) in
        let e = play on_tick name (drop n (c ∷ cs)) started in
        (e.bus.queue ≡ bus.queue ++ map signal_event r.signals) × (e.strategies ≡ (name, σ') ∷ [])
  count_parity zero c cs bus σ σ' r some_warm same room h = ground arith
  count_parity (suc n) c cs bus σ σ' r some_warm same room h =
      split_parity c (take n cs) (drop n cs) bus σ σ' r (warm name (c ∷ take n cs) σ) refl same room
        h

  -- For candles of one symbol, one registered strategy, an engine with the harness' buffer size and
  -- a bus with room for one event per replayed candle: when `run_backtest`, with at least one candle to warm up,
  -- returns a result, then the engine that is warmed with the same candles and receives the tick
  -- and the candle event of each further one publishes exactly the result's signals, in order,
  -- and leaves the strategy in the same state.
  pub run_backtest-parity :
      (c : Candle R) (cs : List (Candle R)) (size : Option ℕ) (bus : EventBus (Payload R))
      (σ σ' : S) (r : HarnessResult R)
      → let n = warmup_count size (length (c ∷ cs)) in
        0 < n
        → All (λ d. d.symbol ≡ c.symbol) (drop n (c ∷ cs))
        → length bus.queue + length (drop n (c ∷ cs)) ≤ bus.maxsize
        → run_backtest (warm name) (on_tick name) name (c ∷ cs) size σ ≡ ok (r, σ')
        → let started =
            warmup warm (take n (c ∷ cs)) (register name σ (new_engine bus buffer_size)) in
          let e = play on_tick name (drop n (c ∷ cs)) started in
          (e.bus.queue ≡ bus.queue ++ map signal_event r.signals) × (e.strategies ≡ (name, σ') ∷ [])
  unfolding run_backtest
  run_backtest-parity c cs size bus σ σ' r some_warm same room h =
      count_parity (warmup_count size (length (c ∷ cs))) c cs bus σ σ' r some_warm same room h
