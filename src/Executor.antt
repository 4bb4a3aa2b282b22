-- ===== src/Executor.antt =====
-- core/execution/executor.py: `submit` as a task that may be suspended at each `await`, and
-- `record_fill`. The broker's answer to `place_order` is the argument `answer`; `now` is the clock's
-- ISO text. `sent` is the history of the calls of `place_order`, by client id.
pub mod Once
pub mod Fills
pub mod Idempotent
pub mod Tests
use quanteo.Base.{
  ℕ, zero, suc, ◌+◌, String, Bool, true, false, Option, none, some, List, [], ◌∷◌, ◌++◌, str_eq,
  if◌then◌else◌,
}
use quanteo.Base.Int.{ℤ, pos, ◌+ℤ◌}
use quanteo.Base.Result.{Error, Result, ok, err, runtime_error}
use quanteo.Float.{Float, nought}
use quanteo.Events.{
  Event, EventBus, EventType, order_submitted, order_filled, order_rejected, publish,
}
use quanteo.Domain.{
  Order, Payload, Status, pending, submitted, partial, filled, rejected, order_sent, submit_failed,
  order_fill,
}
use quanteo.Store.{
  Store, OrderRow, FillRow, BrokerOrder, fetch_existing, insert_order, update_order_status,
  upsert_broker_order, select,
}

-- `raw`, the broker's response, is left out.
pub record OrderAck : Type 0 where
  pub client_order_id : String
  pub broker_order_id : String
  pub symbol : String
  pub status : Status

pub record World (R : Type 0) : Type 0 where
  pub store : Store R
  pub bus : EventBus (Payload R)
  pub sent : List String

-- Where a call of `submit` stands: before the SELECT, before the INSERT, before `place_order`, with
-- the broker's answer in hand, or at its end.
pub data Phase (R : Type 0) : Type 0 where
  fresh : Order R → Phase R
  checked : Order R → Phase R
  stored : Order R → Phase R
  answered : Order R → OrderAck → Phase R
  failed : Order R → Error → Phase R
  finished : Result OrderAck → Phase R

abbrev or_empty : Option String → String
or_empty none = ""
or_empty (some b) = b

abbrev is_rejected : Status → Bool
is_rejected rejected = true
is_rejected _ = false

module _ {R : Type 0} ⦃f : Float R⦄ where
  -- An order that the table has already.
  abbrev pub known : Order R → OrderRow R → Result OrderAck
  known o row =
      if is_rejected row.status
      then err runtime_error
      else ok record {
        client_order_id = o.client_order_id;
        broker_order_id = or_empty row.broker_order_id;
        symbol = o.symbol;
        status = row.status;
      }

  abbrev pub order_row : Order R → (now : String) → OrderRow R
  order_row o now = record {
    id = 0;
    client_order_id = o.client_order_id;
    broker_order_id = none;
    symbol = o.symbol;
    market = o.market;
    env = "prod";
    side = o.side;
    order_type = o.order_type;
    qty = f.of_int o.qty;
    price = o.price;
    status = pending;
    created_at = now;
    updated_at = now;
  }

  abbrev pub rejected_event : Order R → Error → Event (Payload R)
  rejected_event o e = record {
    type = order_rejected;
    payload = submit_failed o.client_order_id e;
    source = "executor";
  }

  abbrev pub submitted_event : Order R → OrderAck → Event (Payload R)
  submitted_event o ack = record {
    type = order_submitted;
    payload = order_sent o.client_order_id ack.broker_order_id o.symbol o.side o.qty o.price;
    source = "executor";
  }

  abbrev pub after_select : Order R → Option (OrderRow R) → Phase R
  after_select o none = checked o
  after_select o (some row) = finished (known o row)

  abbrev pub after_insert : Order R → World R → Result (Store R) → Phase R × World R
  after_insert o w (ok s) = (stored o, record w { store = s })
  after_insert o w (err e) = (finished (err e), w)

  abbrev pub after_call : Order R → Result OrderAck → Phase R
  after_call o (ok ack) = answered o ack
  after_call o (err e) = failed o e

  -- From one `await` of `submit` to the next.
  unfoldable pub advance :
      (answer : Order R → Result OrderAck) (now : String) → Phase R → World R → Phase R × World R
  advance answer now (fresh o) w = (after_select o (fetch_existing o.client_order_id w.store), w)
  advance answer now (checked o) w = after_insert o w (insert_order (order_row o now) w.store)
  advance answer now (stored o) w =
      (after_call o (answer o), record w { sent = w.sent ++ o.client_order_id ∷ [] })
  advance answer now (answered o ack) w = (
    finished (ok ack),
    record w {
      store =
          update_order_status o.client_order_id submitted (some ack.broker_order_id) now w.store;
      bus = publish (submitted_event o ack) w.bus;
    },
  )
  advance answer now (failed o e) w = (
    finished (err e),
    record w {
      store = update_order_status o.client_order_id rejected none now w.store;
      bus = publish (rejected_event o e) w.bus;
    },
  )
  advance answer now (finished r) w = (finished r, w)

  unfoldable pub drive :
      ℕ
      → (answer : Order R → Result OrderAck) (now : String) → Phase R
      → World R
      → Phase R × World R
  unfolding advance
  drive zero answer now p w = (p, w)
  drive (suc n) answer now p w = let (p', w') = advance answer now p w in drive n answer now p' w'

  -- A call of `submit` that nothing interrupts has four steps.
  unfoldable pub submit :
      (answer : Order R → Result OrderAck) (now : String) → Order R → World R → Phase R × World R
  unfolding drive
  submit answer now o w = drive 4 answer now (fresh o) w

  abbrev pub sum_qty : List (FillRow R) → ℤ
  sum_qty [] = pos 0
  sum_qty (r ∷ rs) = r.fill_qty +ℤ sum_qty rs

  abbrev pub of_client : String → FillRow R → Bool
  of_client c r = str_eq r.client_order_id c

  -- `SELECT COALESCE(SUM(fill_qty), 0) FROM fills WHERE client_order_id = ?`
  unfoldable pub total_filled : String → Store R → ℤ
  unfolding select
  total_filled c s = sum_qty (select (of_client c) s.fills)

  abbrev pub fill_row : OrderRow R → String → ℤ → R → (now : String) → FillRow R
  fill_row row c qty price now = record {
    order_id = row.id;
    client_order_id = c;
    symbol = row.symbol;
    env = row.env;
    fill_qty = qty;
    fill_price = price;
    filled_at = now;
  }

  abbrev pub fill_status : OrderRow R → ℤ → Status
  fill_status row total = if f.le row.qty (f.of_int total) then filled else partial

  abbrev pub fill_event : OrderRow R → String → ℤ → R → (now : String) → Event (Payload R)
  fill_event row c qty price now = record {
    type = order_filled;
    payload = order_fill c row.symbol qty price now;
    source = "executor";
  }

  abbrev pub add_fill : FillRow R → Store R → Store R
  add_fill r s = record s { fills = s.fills ++ r ∷ [] }

  abbrev pub after_lookup :
      String → ℤ → R → (now : String) → World R → Option (OrderRow R) → Result (Unit {0}) × World R
  after_lookup c qty price now w none = (err runtime_error, w)
  after_lookup c qty price now w (some row) =
      let s = add_fill (fill_row row c qty price now) w.store in
      (
        ok tt,
        record w {
          store = update_order_status c (fill_status row (total_filled c s)) none now s;
          bus = publish (fill_event row c qty price now) w.bus;
        },
      )

  unfoldable pub record_fill :
      String → ℤ → R → (now : String) → World R → Result (Unit {0}) × World R
  record_fill c qty price now w = after_lookup c qty price now w (fetch_existing c w.store)
