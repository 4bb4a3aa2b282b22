-- ===== src/OrderSync.antt =====
-- core/execution/order_sync.py: one pass over the open orders. The broker's `get_order` and whether a
-- write of the table fails (a locked file, say) are arguments; `now` is the clock's ISO text. The
-- surrounding loop is `PollLoop`.
pub mod Maps
pub mod Isolation
pub mod Tests
use quanteo.Base.{
  String, Bool, true, false, Option, none, some, List, [], ◌∷◌, ◌==◌, str_eq, if◌then◌else◌,
}
use quanteo.Base.Result.{Error, Result, ok, err}
use quanteo.Events.{
  Event, EventBus, EventType, order_filled, order_cancelled, order_rejected, publish,
}
use quanteo.Domain.{Status, filled, cancelled, rejected, Payload, order_closed, get}
use quanteo.Store.{Store, PendingOrder, OrderRow, update_order_status, get_pending_orders}

abbrev pub closed_status_map : List (String × Status)
closed_status_map =
    ("FILLED", filled)
    ∷ ("CANCELED", cancelled)
    ∷ ("REJECTED", rejected)
    ∷ ("REPLACED", cancelled)
    ∷ []

unfoldable pub closed_status : String → Option Status
unfolding get
closed_status s = get s closed_status_map

unfoldable pub event_type_map : Status → Option EventType
event_type_map filled = some order_filled
event_type_map cancelled = some order_cancelled
event_type_map rejected = some order_rejected
event_type_map _ = none

abbrev pub Tables : Type 0 → Type 0
Tables R = Store R × Option (EventBus (Payload R))

-- `if not order.broker_order_id`
abbrev pub known_id : Option String → Option String
known_id none = none
known_id (some b) = if str_eq b "" then none else some b

module _ {R : Type 0} where
  abbrev pub status_event : PendingOrder R → Status → EventType → Event (Payload R)
  status_event o st t = record {
    type = t;
    payload = order_closed o.client_order_id o.broker_order_id o.symbol st;
    source = "order-sync";
  }

  abbrev pub announce :
      PendingOrder R
      → Status
      → Option EventType
      → Option (EventBus (Payload R))
      → Option (EventBus (Payload R))
  announce o st none b = b
  announce o st (some t) none = none
  announce o st (some t) (some b) = some (publish (status_event o st t) b)

abbrev pub of_reply : Result String → Option Status
of_reply (err e) = none
of_reply (ok status) = closed_status status

abbrev pub of_id : (String → Result String) → Option String → Option Status
of_id get_order none = none
of_id get_order (some b) = of_reply (get_order b)

module _ {R : Type 0} (get_order : String → Result String) (write_fails : String → Bool)
    (now : String) where
  -- The status that the broker's reply calls for, if the order is to be changed.
  unfoldable pub new_status : PendingOrder R → Option Status
  unfolding closed_status
  new_status o = of_id get_order (known_id o.broker_order_id)

  abbrev pub write : PendingOrder R → Option Status → Tables R → Tables R
  write o none w = w
  write o (some st) (s, b) = if write_fails o.client_order_id then (s, b) else (
    update_order_status o.client_order_id st none now s,
    announce o st (event_type_map st) b,
  )

  -- The body of the loop; every `continue` leaves the tables as they are.
  unfoldable pub sync_order : PendingOrder R → Tables R → Tables R
  sync_order o w = write o (new_status o) w

  unfoldable pub sync_orders : List (PendingOrder R) → Tables R → Tables R
  unfolding sync_order
  sync_orders [] w = w
  sync_orders (o ∷ os) w = sync_orders os (sync_order o w)

  unfoldable pub sync_once : (List (OrderRow R) → List (OrderRow R)) → String → Tables R → Tables R
  unfolding get_pending_orders sync_orders
  sync_once order_by env (s, b) = sync_orders (get_pending_orders order_by (some env) s) (s, b)
