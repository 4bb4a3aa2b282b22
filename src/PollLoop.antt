-- ===== src/PollLoop.antt =====
-- The `run` loop that core/execution/order_sync.py, order_history_sync.py and position_sync.py share:
-- one cycle after another until a stop, with an alert at the third failure in a row. The outcome of a
-- cycle and whether a stop arrives in the wait after it are given by the list of rounds.
pub mod Alerts
pub mod Tests
use quanteo.Base.{
  ℕ, suc, ◌+◌, String, Bool, true, false, Option, none, some, List, [], ◌∷◌, ◌==◌, if◌then◌else◌,
}
use quanteo.Base.Result.{Error, Result, ok, err}
use quanteo.Events.{Event, EventBus, error, publish}
use quanteo.Domain.{Payload, sync_failed}

abbrev pub alert_threshold : ℕ
alert_threshold = 3

pub record Round : Type 0 where
  pub outcome : Result (Unit {0})
  pub stop : Bool

-- `_consecutive_failures`, and the bus if there is one.
pub record Feed (R : Type 0) : Type 0 where
  pub failures : ℕ
  pub bus : Option (EventBus (Payload R))

module _ {R : Type 0} (source : String) where
  abbrev pub alert : ℕ → Error → Event (Payload R)
  alert n e = record { type = error; payload = sync_failed source n e; source = source }

  abbrev pub publish_to :
      Event (Payload R) → Option (EventBus (Payload R)) → Option (EventBus (Payload R))
  publish_to e none = none
  publish_to e (some b) = some (publish e b)

  -- The `try` of one cycle.
  unfoldable pub settle : Result (Unit {0}) → Feed R → Feed R
  settle (ok _) s = record s { failures = 0 }
  settle (err e) s =
      let n = s.failures + 1 in
      record {
        failures = n;
        bus = if n == alert_threshold then publish_to (alert n e) s.bus else s.bus;
      }

  unfoldable pub run : List Round → Feed R → Feed R
  unfolding settle
  run [] s = s
  run (r ∷ rs) s =
      let s' = settle r.outcome s in let rest = run rs s' in if r.stop then s' else rest
