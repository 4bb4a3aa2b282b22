-- ===== src/StrategyEngine/Isolation.antt =====
-- The handler of a TICK event: each strategy acts as if it were alone, also when another one raises.
use mathlib.Core.List.{map-append}
use quanteo.Base.{
  ◌≡◌, ◌∙◌, refl, sym, ap, String, Bool, true, false, List, [], ◌∷◌, ◌++◌, map, if◌then◌else◌,
}
use quanteo.Domain.{Signal, Payload, signal_raised}
use quanteo.Events.{Event, EventBus, signal, publish}
use quanteo.MarketData.{Tick, MarketContext}
use quanteo.StrategyEngine.{
  Told, signalled, quiet, raised, StrategyEngine, has, publish_told, build_context, handle_tick,
  tick_all,
}

-- The signals of a call: none for `None` and for an exception.
unfoldable pub signals_of : {R : Type 0} → Told R → List (Signal R)
signals_of (signalled s) = s ∷ []
signals_of quiet = []
signals_of raised = []

module _ {R S : Type 0} (on_tick : String → Tick R → MarketContext R → S → Told R × S)
    (failed : List String) (t : Tick R) (ctx : MarketContext R) where
  -- What one strategy does on a tick by itself.
  unfoldable pub acted : String × S → String × S
  unfolding has
  acted (n, σ) = (n, if has n failed then σ else (on_tick n t ctx σ).1)

  unfoldable pub signals_by : List (String × S) → List (Signal R)
  unfolding has signals_of
  signals_by [] = []
  signals_by ((n, σ) ∷ rest) =
      (if has n failed then [] else signals_of (on_tick n t ctx σ).0) ++ signals_by rest

  tick_all-acted :
      (ss : List (String × S)) (b : EventBus (Payload R))
      → (tick_all on_tick failed t ctx ss b).0 ≡ map acted ss
  unfolding tick_all acted
  tick_all-acted [] b = refl
  tick_all-acted ((n, σ) ∷ rest) b =
      ap (λ r. acted (n, σ) ∷ r)
        (tick_all-acted rest (if has n failed then b else publish_told (on_tick n t ctx σ).0 b))

-- The event of a signal, with the signal and the name of its strategy.
abbrev pub message : {R : Type 0} → Signal R → Event (Payload R)
message s = record { type = signal; payload = signal_raised s; source = s.strategy }

-- The events, published one after the other.
unfoldable pub publish_each :
    {R : Type 0} → List (Event (Payload R)) → EventBus (Payload R) → EventBus (Payload R)
publish_each [] b = b
publish_each (x ∷ xs) b = publish_each xs (publish x b)

publish_each-append :
    {R : Type 0} (xs ys : List (Event (Payload R))) (b : EventBus (Payload R))
    → publish_each (xs ++ ys) b ≡ publish_each ys (publish_each xs b)
unfolding publish_each
publish_each-append [] ys b = refl
publish_each-append (x ∷ xs) ys b = publish_each-append xs ys (publish x b)

module _ {R S : Type 0} (on_tick : String → Tick R → MarketContext R → S → Told R × S)
    (failed : List String) (t : Tick R) (ctx : MarketContext R) where
  told_published :
      (skip : Bool) (told : Told R) (b : EventBus (Payload R))
      → (if skip then b else publish_told told b)
        ≡ publish_each (map message (if skip then [] else signals_of told)) b
  unfolding signals_of publish_each
  told_published true told b = refl
  told_published false (signalled s) b = refl
  told_published false quiet b = refl
  told_published false raised b = refl

  tick_all-published :
      (ss : List (String × S)) (b : EventBus (Payload R))
      → (tick_all on_tick failed t ctx ss b).1
        ≡ publish_each (map message (signals_by on_tick failed t ctx ss)) b
  unfolding tick_all signals_by publish_each
  tick_all-published [] b = refl
  tick_all-published ((n, σ) ∷ rest) b =
      let skip = has n failed in
      let told = (on_tick n t ctx σ).0 in
      let own = if skip then [] else signals_of told in
      let later = signals_by on_tick failed t ctx rest in
      tick_all-published rest (if skip then b else publish_told told b)
      ∙ ap (publish_each (map message later)) (told_published skip told b)
      ∙ sym (publish_each-append (map message own) (map message later) b)
      ∙ ap (λ es. publish_each es b) (sym (map-append message own later))

module _ {R S : Type 0} (on_tick : String → Tick R → MarketContext R → S → Told R × S) where
  -- A tick reaches each strategy as if it were the only one, whatever the others return or raise: its
  -- new state is that of its own `on_tick`, or its old one if its warm-up failed. The bus is as after
  -- a publication, one by one, of the signals that the strategies whose warm-up did not fail
  -- returned, in the order of their registration. Nothing is assumed of the room on the queue.
  pub handle_tick-acted :
      (t : Tick R) (e : StrategyEngine R S)
      → let ctx = build_context t.symbol e in
        ((handle_tick on_tick t e).strategies
          ≡ map (acted on_tick e.failed_warmup t ctx) e.strategies)
        × ((handle_tick on_tick t e).bus
            ≡ publish_each
                (map message (signals_by on_tick e.failed_warmup t ctx e.strategies))
                e.bus)
  unfolding handle_tick
  handle_tick-acted t e =
      let ctx = build_context t.symbol e in
      (
        tick_all-acted on_tick e.failed_warmup t ctx e.strategies e.bus,
        tick_all-published on_tick e.failed_warmup t ctx e.strategies e.bus,
      )
