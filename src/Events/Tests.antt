-- ===== src/Events/Tests.antt =====
-- A bus of two places, with a handler that raises before one that records what it is given.
use mathlib.Core.List.{foldl}
use quanteo.Base.{
  ℕ, ◌+◌, ◌*◌, ◌≡◌, ◌≢◌, refl, sym, append-nil, true, List, [], ◌∷◌, ◌++◌, arith, ◌==◌,
  if◌then◌else◌,
}
use quanteo.Events.{
  EventType, tick, Event, EventBus, Handler, Outcome, returned, raised, cancelled, new_bus,
  subscribe, subscribe_all, publish, start, dispatch,
}
use quanteo.Events.Queue.{
  IsSound, Action, post, round, KeepsSound, OnlyPublish, Within, run, accepted, run-IsSound,
  run_fifo,
}
use quanteo.Events.Isolation.{dispatch-foldl}

abbrev event : EventType → ℕ → Event ℕ
event t n = record { type = t; payload = n; source = "test" }

abbrev bus : EventBus ℕ
unfolding new_bus subscribe subscribe_all start
bus = start (subscribe_all 3 (subscribe tick 2 (subscribe tick 1 (new_bus 2))))

-- Handler 1 raises after its effect; each call is recorded.
abbrev call : Handler → Event ℕ → EventBus ℕ × List ℕ → Outcome × (EventBus ℕ × List ℕ)
call h e (b, s) = (if h == 1 then raised else returned, (b, s ++ (h + 10 * e.payload) ∷ []))

delivers_past_an_exception :
    dispatch call (event tick 5) (bus, []) ≡ (true, (bus, 51 ∷ 52 ∷ 53 ∷ []))
unfolding dispatch bus
delivers_past_an_exception = refl

never_cancelled : (e : Event ℕ) (h : Handler) (v : EventBus ℕ × List ℕ) → (call h e v).0 ≢ cancelled
never_cancelled e h v = ground arith

keeps : KeepsSound call
keeps busy h e b s v = v

publishes_only : OnlyPublish call
publishes_only h e b s = ([], sym (append-nil _))

bus-IsSound : IsSound 0 bus
unfolding bus
bus-IsSound = omega arith

abbrev schedule : List (Action ℕ)
schedule = post (event tick 1) ∷ post (event tick 2) ∷ post (event tick 3) ∷ round ∷ []

run-IsSound_example : IsSound 0 (run call schedule (bus, [])).1.0
run-IsSound_example = run-IsSound call keeps schedule bus [] bus-IsSound

run_fifo_example :
    (new : List (Event ℕ)) × (bus.queue ++ new
      ≡ (run call schedule (bus, [])).0 ++ (run call schedule (bus, [])).1.0.queue)
    × Within (accepted call schedule (bus, [])) new
run_fifo_example = run_fifo call publishes_only schedule bus []

drops_the_third : accepted call schedule (bus, []) ≡ event tick 1 ∷ event tick 2 ∷ []
unfolding accepted publish bus
drops_the_third = refl

dispatch-foldl_example : dispatch call (event tick 5) (bus, []) ≡ (
  true,
  foldl (λ v h. (call h (event tick 5) v).1) (bus, []) (bus.handlers tick ++ bus.wildcard),
)
dispatch-foldl_example = dispatch-foldl call (event tick 5) bus [] (never_cancelled (event tick 5))
