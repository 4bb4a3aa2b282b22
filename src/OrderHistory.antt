-- ===== src/OrderHistory.antt =====
-- core/execution/order_history_sync.py: the whole order list of the broker, mirrored into `orders`.
-- `list_orders` is given by its answers: `opens` for the OPEN group and `closed` for a page of the
-- CLOSED group at a cursor. The surrounding loop is `PollLoop`.
pub mod Maps
pub mod Rows
pub mod Backfill
pub mod Tests
use quanteo.Base.{
  ℕ, zero, suc, ◌+◌, String, Bool, true, false, Option, none, some, List, [], ◌∷◌, ◌++◌, str_eq,
  if◌then◌else◌,
}
use quanteo.Base.Result.{Error, Result, ok, err, ◌>>=◌}
use quanteo.Float.{Float, nought}
use quanteo.Domain.{
  domestic, overseas, Side, OrderType, Status, pending, partial, filled, cancelled, rejected, get,
}
use quanteo.Store.{Store, BrokerOrder, upsert_broker_order}

-- The order of the broker, as core/adapters/toss/models.py reads it; side and type are in lower case.
pub record TossOrder (R : Type 0) : Type 0 where
  pub order_id : String
  pub client_order_id : Option String
  pub symbol : String
  pub currency : String
  pub side : Side
  pub order_type : OrderType
  pub quantity : R
  pub price : Option R
  pub status : String
  pub ordered_at : String

abbrev pub toss_status_map : List (String × Status)
toss_status_map =
    ("PENDING", pending)
    ∷ ("PENDING_CANCEL", pending)
    ∷ ("PENDING_REPLACE", pending)
    ∷ ("CANCEL_REJECTED", pending)
    ∷ ("REPLACE_REJECTED", pending)
    ∷ ("PARTIAL_FILLED", partial)
    ∷ ("FILLED", filled)
    ∷ ("CANCELED", cancelled)
    ∷ ("REJECTED", rejected)
    ∷ ("REPLACED", cancelled)
    ∷ []

unfoldable pub local_status : String → Option Status
unfolding get
local_status s = get s toss_status_map

abbrev pub max_backfill_pages : ℕ
max_backfill_pages = 100

module _ {R : Type 0} ⦃f : Float R⦄ where
  abbrev price_of : Option R → R
  price_of none = nought
  price_of (some p) = p

  abbrev pub broker_order : TossOrder R → Status → BrokerOrder R
  broker_order o st = record {
    broker_order_id = o.order_id;
    client_order_id = o.client_order_id;
    symbol = o.symbol;
    market = if str_eq o.currency "KRW" then domestic else overseas;
    side = o.side;
    order_type = o.order_type;
    qty = o.quantity;
    price = price_of o.price;
    status = st;
    ordered_at = o.ordered_at;
  }

  -- The `try` around `_upsert`: whether the order is counted, and the table.
  abbrev pub written : Store R → Result (Store R) → ℕ × Store R
  written s (ok t) = (1, t)
  written s (err e) = (0, s)

  abbrev pub reflect_as : TossOrder R → Option Status → (now : String) → Store R → ℕ × Store R
  reflect_as o none now s = (0, s)
  reflect_as o (some st) now s = written s (upsert_broker_order (broker_order o st) now s)

  unfoldable pub reflect : TossOrder R → (now : String) → Store R → ℕ × Store R
  unfolding local_status
  reflect o now s = reflect_as o (local_status o.status) now s

  unfoldable pub reflect_all : List (TossOrder R) → (now : String) → Store R → ℕ × Store R
  unfolding reflect
  reflect_all [] now s = (0, s)
  reflect_all (o ∷ os) now s =
      let (n, t) = reflect o now s in let (m, u) = reflect_all os now t in (n + m, u)

-- A page of the CLOSED group at a cursor: its orders and the next cursor.
abbrev pub Pages : Type 0 → Type 0
Pages R = Option String → Result (List (TossOrder R) × Option String)

module _ {R : Type 0} (closed : Pages R) where
  -- The loop of `_fetch_all_closed_orders`, with the rounds left; `true` if it came to the last page.
  unfoldable pub fetch_pages :
      ℕ → Option String → List (TossOrder R) → Result (List (TossOrder R) × Bool)
  fetch_pages zero cursor acc = ok (acc, false)
  fetch_pages (suc n) cursor acc = closed cursor >>= λ (page, next). elim next [
    | none ↦ ok (acc ++ page, true)
    | some c ↦ fetch_pages n (some c) (acc ++ page)
  ]

  unfoldable pub fetch_all_closed_orders : Result (List (TossOrder R) × Bool)
  unfolding fetch_pages
  fetch_all_closed_orders = fetch_pages max_backfill_pages none []

  -- The closed orders of a cycle, and `_closed_history_backfilled` after the query.
  unfoldable pub closed_orders : Bool → Result (List (TossOrder R) × Bool)
  closed_orders true = closed none >>= λ (page, next). ok (page, true)
  closed_orders false = fetch_all_closed_orders

module _ {R : Type 0} ⦃f : Float R⦄ (opens : Result (List (TossOrder R))) (closed : Pages R) where
  abbrev pub reflected :
      List (TossOrder R)
      → List (TossOrder R) × Bool
      → (now : String) → Store R
      → ℕ × (Bool × Store R)
  reflected os (cs, done) now s = let (n, t) = reflect_all (os ++ cs) now s in (n, (done, t))

  -- An exception of a query leaves the flag and the table as they are: there is no other result then.
  unfoldable pub sync_once : (now : String) → Bool → Store R → Result (ℕ × (Bool × Store R))
  sync_once now backfilled s =
      opens >>= λ os. closed_orders closed backfilled >>= λ cs. ok (reflected os cs now s)
