-- ===== src/Events.antt =====
-- core/events/types.py and core/events/bus.py: the event types, the bounded queue, the subscription
-- lists, and one round of the dispatch loop. Handlers are numbers; what a handler does when it is
-- called is the argument `call`, which may change the bus too. The time stamp of an event is left
-- out. `asyncio.Queue` is a list with its bound; a bound of 0 means no bound, as in Python.
pub mod Queue
pub mod Isolation
pub mod Subscriptions
pub mod Tests
use quanteo.Base.{
  ℕ, ◌-◌, ◌+◌, String, Bool, true, false, ◌&&◌, List, [], ◌∷◌, ◌++◌, ltb, leb, ◌==◌, if◌then◌else◌,
  length,
}

pub data EventType : Type 0 where
  tick quote candle signal order_submitted order_filled order_cancelled order_rejected : EventType
  position_updated risk_breach kill_switch error status : EventType

abbrev pub index : EventType → ℕ
index tick = 0
index quote = 1
index candle = 2
index signal = 3
index order_submitted = 4
index order_filled = 5
index order_cancelled = 6
index order_rejected = 7
index position_updated = 8
index risk_breach = 9
index kill_switch = 10
index error = 11
index status = 12

pub record Event (P : Type 0) : Type 0 where
  pub type : EventType
  pub payload : P
  pub source : String

abbrev pub Handler : Type 0
Handler = ℕ

-- `unfinished` is the counter behind `join`: events put and not yet marked by `task_done`.
pub record EventBus (P : Type 0) : Type 0 where
  pub queue : List (Event P)
  pub maxsize : ℕ
  pub unfinished : ℕ
  pub handlers : EventType → List Handler
  pub wildcard : List Handler
  pub running : Bool

-- `list.remove`: the first equal element. The callers test membership first.
unfoldable pub remove_first : Handler → List Handler → List Handler
remove_first h [] = []
remove_first h (k ∷ ks) = let rest = k ∷ remove_first h ks in if k == h then ks else rest

abbrev pub set_handlers :
    EventType → List Handler → (EventType → List Handler) → EventType → List Handler
set_handlers t hs f u = if index u == index t then hs else f u

module _ {P : Type 0} where
  unfoldable pub new_bus : ℕ → EventBus P
  new_bus maxsize = record {
    queue = [];
    maxsize = maxsize;
    unfinished = 0;
    handlers = λ t. [];
    wildcard = [];
    running = false;
  }

  unfoldable pub subscribe : EventType → Handler → EventBus P → EventBus P
  subscribe t h b = record b { handlers = set_handlers t (b.handlers t ++ h ∷ []) b.handlers }

  unfoldable pub subscribe_all : Handler → EventBus P → EventBus P
  subscribe_all h b = record b { wildcard = b.wildcard ++ h ∷ [] }

  unfoldable pub unsubscribe : EventType → Handler → EventBus P → EventBus P
  unfolding remove_first
  unsubscribe t h b = record b {
    handlers = set_handlers t (remove_first h (b.handlers t)) b.handlers;
  }

  unfoldable pub unsubscribe_all : Handler → EventBus P → EventBus P
  unfolding remove_first
  unsubscribe_all h b = record b { wildcard = remove_first h b.wildcard }

  -- `asyncio.Queue.full`
  abbrev pub is_full : EventBus P → Bool
  is_full b = ltb 0 b.maxsize && leb b.maxsize (length b.queue)

  -- `publish_nowait`; `publish` is the same without the result.
  unfoldable pub publish_nowait : Event P → EventBus P → Bool × EventBus P
  publish_nowait e b =
      if is_full b
      then (false, b)
      else (true, record b { queue = b.queue ++ e ∷ []; unfinished = b.unfinished + 1 })

  unfoldable pub publish : Event P → EventBus P → EventBus P
  unfolding publish_nowait
  publish e b = (publish_nowait e b).1

  unfoldable pub start : EventBus P → EventBus P
  start b = record b { running = true }

  unfoldable pub stop : EventBus P → EventBus P
  stop b = record b { running = false }

-- How the call of a handler ends. `cancelled` is `CancelledError`, which is no `Exception` and so
-- passes the `except` clause.
pub data Outcome : Type 0 where
  returned raised cancelled : Outcome

-- An exception is logged and the loop goes on; a cancellation leaves it.
abbrev pub after {ℓ} : {W : Type ℓ} → Outcome → (W → Bool × W) → W → Bool × W
after cancelled rest w = (false, w)
after _ rest w = rest w

module _ {P S : Type 0}
    (call : Handler → Event P → EventBus P × S → Outcome × (EventBus P × S)) where
  -- The loop of `_dispatch`; the result is false if a cancellation left it.
  unfoldable pub run_handlers : List Handler → Event P → EventBus P × S → Bool × (EventBus P × S)
  run_handlers [] e w = (true, w)
  run_handlers (h ∷ hs) e w = let (outcome, w') = call h e w in after outcome (run_handlers hs e) w'

  -- The handlers of the event's type, then the wildcard ones, as they stand before the first call.
  unfoldable pub dispatch : Event P → EventBus P × S → Bool × (EventBus P × S)
  unfolding run_handlers
  dispatch e (b, s) = run_handlers (b.handlers e.type ++ b.wildcard) e (b, s)

  abbrev pub task_done : EventBus P → EventBus P
  task_done b = record b { unfinished = b.unfinished - 1 }

  abbrev pub finish : Bool × (EventBus P × S) → EventBus P × S
  finish (true, (b, s)) = (task_done b, s)
  finish (false, w) = w

  abbrev pub next_event : EventBus P → S → List (Event P) → EventBus P × S
  unfolding dispatch
  next_event b s [] = (b, s)
  next_event b s (e ∷ rest) = finish (dispatch e (record b { queue = rest }, s))

  -- One round of `_dispatch_loop`: an empty queue is the timeout.
  unfoldable pub loop_round : EventBus P × S → EventBus P × S
  loop_round (b, s) = if b.running then next_event b s b.queue else (b, s)
