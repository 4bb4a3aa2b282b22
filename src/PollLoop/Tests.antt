-- ===== src/PollLoop/Tests.antt =====
-- Two failing rows with a success between them.
use quanteo.Base.{◌+◌, ◌≡◌, true, false, some, List, [], ◌∷◌, arith, leb, length, count_if}
use quanteo.Base.Result.{ok, err, runtime_error}
use quanteo.Float.Won.{Won}
use quanteo.Events.{EventBus, new_bus}
use quanteo.Domain.{Payload}
use quanteo.PollLoop.{Round, run}
use quanteo.PollLoop.Alerts.{streaks, run-alerts}

abbrev fails : Round
fails = record { outcome = err runtime_error; stop = false }

abbrev works : Round
works = record { outcome = ok tt; stop = false }

abbrev rounds : List Round
rounds = fails ∷ fails ∷ fails ∷ fails ∷ works ∷ fails ∷ (record fails { stop = true }) ∷ []

abbrev bus : EventBus (Payload Won)
bus = new_bus 10

run-alerts_example :
    (b' : EventBus (Payload Won)) × ((run "order-sync" rounds
        (record { failures = 0; bus = some bus })).bus
      ≡ some b')
    × (length b'.queue ≡ length bus.queue + count_if (λ k. leb 3 k) (streaks 0 rounds))
unfolding new_bus
run-alerts_example = run-alerts "order-sync" rounds bus (omega arith)
