-- ===== src/Store.antt =====
-- core/store/db.py and the tables of core/store/schema.py: the rows of `orders`, `fills` and
-- `positions`, and each SQL statement as a function on the tables. A statement fails only by the
-- UNIQUE constraint of its table. Rows stand in rowid order. What SQLite does for ORDER BY is the
-- argument `order_by`; `now` is the clock's ISO text.
pub mod Keys
pub mod Lookup
pub mod Upsert
pub mod Effect
pub mod Watchlist
pub mod Recovery
pub mod Tests
use Prim.Native.String.{◌++◌ as append}
use quanteo.Base.{
  ℕ, ◌+◌, String, Bool, true, false, not, ◌&&◌, ◌||◌, Option, none, some, List, [], ◌∷◌, ◌++◌, map,
  str_eq, if◌then◌else◌,
}
use quanteo.Base.Int.{ℤ, pos}
use quanteo.Base.Result.{Result, ok, err, integrity_error, value_error, ◌>>=◌}
use quanteo.Float.{Float, nought}
use quanteo.Domain.{
  Market, Side, OrderType, Status, pending, submitted, partial, filled, cancelled, rejected,
}

pub record OrderRow (R : Type 0) : Type 0 where
  pub id : ℕ
  pub client_order_id : String
  pub broker_order_id : Option String
  pub symbol : String
  pub market : Market
  pub env : String
  pub side : Side
  pub order_type : OrderType
  pub qty : R
  pub price : R
  pub status : Status
  pub created_at : String
  pub updated_at : String

pub record FillRow (R : Type 0) : Type 0 where
  pub order_id : ℕ
  pub client_order_id : String
  pub symbol : String
  pub env : String
  pub fill_qty : ℤ
  pub fill_price : R
  pub filled_at : String

pub record PositionRow (R : Type 0) : Type 0 where
  pub symbol : String
  pub market : Market
  pub env : String
  pub qty : R
  pub avg_price : R
  pub opened_at : String
  pub updated_at : String

-- `next_id` is the AUTOINCREMENT counter of `orders`.
pub record Store (R : Type 0) : Type 0 where
  pub orders : List (OrderRow R)
  pub fills : List (FillRow R)
  pub positions : List (PositionRow R)
  pub next_id : ℕ

pub record PositionSnapshot (R : Type 0) : Type 0 where
  pub symbol : String
  pub market : Market
  pub env : String
  pub qty : ℤ
  pub avg_price : R
  pub opened_at : String

pub record PendingOrder (R : Type 0) : Type 0 where
  pub client_order_id : String
  pub symbol : String
  pub market : Market
  pub env : String
  pub side : Side
  pub qty : R
  pub status : Status
  pub created_at : String
  pub broker_order_id : Option String

module _ {ℓ} {A : Type ℓ} where
  -- `fetchone` on the rows that pass the WHERE clause.
  unfoldable pub find : (A → Bool) → List A → Option A
  find p [] = none
  find p (x ∷ xs) = if p x then some x else find p xs

  unfoldable pub select : (A → Bool) → List A → List A
  select p [] = []
  select p (x ∷ xs) = let rest = select p xs in if p x then x ∷ rest else rest

  -- UPDATE … WHERE.
  unfoldable pub update_where : (A → Bool) → (A → A) → List A → List A
  update_where p g [] = []
  update_where p g (x ∷ xs) = (if p x then g x else x) ∷ update_where p g xs

-- `env = ?` in the statement that is chosen for an environment that is given and not empty.
abbrev pub in_env : Option String → String → Bool
in_env none env = true
in_env (some e) env = if str_eq e "" then true else str_eq env e

-- `status IN ('pending', 'submitted', 'partial')`
abbrev pub is_open : Status → Bool
is_open pending = true
is_open submitted = true
is_open partial = true
is_open _ = false

abbrev or_native : Option String → String → String
or_native none b = append "toss-native-" b
or_native (some c) b = if str_eq c "" then append "toss-native-" b else c

abbrev pub same_broker : Option String → String → Bool
same_broker none b = false
same_broker (some a) b = str_eq a b

-- The arguments of `upsert_broker_order`.
pub record BrokerOrder (R : Type 0) : Type 0 where
  pub broker_order_id : String
  pub client_order_id : Option String
  pub symbol : String
  pub market : Market
  pub side : Side
  pub order_type : OrderType
  pub qty : R
  pub price : R
  pub status : Status
  pub ordered_at : String

module _ {R : Type 0} where
  abbrev pub with_client : String → OrderRow R → Bool
  with_client c r = str_eq r.client_order_id c

  -- `_fetch_existing` of the executor.
  unfoldable pub fetch_existing : String → Store R → Option (OrderRow R)
  unfolding find
  fetch_existing c s = find (with_client c) s.orders

  -- INSERT INTO orders: the row's `id` is the next one, and `client_order_id` is UNIQUE.
  unfoldable pub insert_order : OrderRow R → Store R → Result (Store R)
  insert_order r s = elim (fetch_existing r.client_order_id s) [
    | some old ↦ err integrity_error
    | none ↦ ok record s {
      orders = s.orders ++ (record r { id = s.next_id }) ∷ [];
      next_id = s.next_id + 1;
    }
  ]

  abbrev pub set_status : Status → Option String → String → OrderRow R → OrderRow R
  set_status status none now r = record r { status = status; updated_at = now }
  set_status status (some b) now r = record r {
    status = status;
    broker_order_id = some b;
    updated_at = now;
  }

  unfoldable pub update_order_status :
      String → Status → Option String → (now : String) → Store R → Store R
  unfolding update_where
  update_order_status c status broker now s = record s {
    orders = update_where (with_client c) (set_status status broker now) s.orders;
  }

  abbrev pub effective_client_id : BrokerOrder R → String
  effective_client_id b = or_native b.client_order_id b.broker_order_id

  abbrev pub overwrite : BrokerOrder R → (now : String) → OrderRow R → OrderRow R
  overwrite b now r = record r {
    broker_order_id = some b.broker_order_id;
    symbol = b.symbol;
    market = b.market;
    side = b.side;
    order_type = b.order_type;
    qty = b.qty;
    price = b.price;
    status = b.status;
    updated_at = now;
  }

  abbrev pub new_row : BrokerOrder R → (now : String) → OrderRow R
  new_row b now = record {
    id = 0;
    client_order_id = effective_client_id b;
    broker_order_id = some b.broker_order_id;
    symbol = b.symbol;
    market = b.market;
    env = "prod";
    side = b.side;
    order_type = b.order_type;
    qty = b.qty;
    price = b.price;
    status = b.status;
    created_at = b.ordered_at;
    updated_at = now;
  }

  abbrev pub matches : BrokerOrder R → OrderRow R → Bool
  matches b r =
      str_eq r.client_order_id (effective_client_id b)
      || same_broker r.broker_order_id b.broker_order_id

  unfoldable pub upsert_broker_order : BrokerOrder R → (now : String) → Store R → Result (Store R)
  unfolding find update_where
  upsert_broker_order b now s = elim (find (matches b) s.orders) [
    | some row ↦ ok record s {
      orders = update_where (with_client row.client_order_id) (overwrite b now) s.orders;
    }
    | none ↦ insert_order (new_row b now) s
  ]

  abbrev pending_order : OrderRow R → PendingOrder R
  pending_order r = record {
    client_order_id = r.client_order_id;
    symbol = r.symbol;
    market = r.market;
    env = r.env;
    side = r.side;
    qty = r.qty;
    status = r.status;
    created_at = r.created_at;
    broker_order_id = r.broker_order_id;
  }

  unfoldable pub get_pending_orders :
      (List (OrderRow R) → List (OrderRow R)) → Option String → Store R → List (PendingOrder R)
  unfolding select
  get_pending_orders order_by env s =
      map pending_order (order_by (select (λ r. is_open r.status && in_env env r.env) s.orders))

module _ {R : Type 0} ⦃f : Float R⦄ where
  abbrev pub snapshot_at : PositionRow R → ℤ → PositionSnapshot R
  snapshot_at r n = record {
    symbol = r.symbol;
    market = r.market;
    env = r.env;
    qty = n;
    avg_price = r.avg_price;
    opened_at = r.opened_at;
  }

  abbrev pub snapshot : PositionRow R → Option ℤ → Result (PositionSnapshot R)
  snapshot r none = err value_error
  snapshot r (some n) = ok (snapshot_at r n)

  -- The comprehension of `get_open_positions`; `int(qty)` can raise.
  unfoldable pub snapshots : List (PositionRow R) → Result (List (PositionSnapshot R))
  snapshots [] = ok []
  snapshots (r ∷ rs) = snapshot r (f.trunc r.qty) >>= λ p. snapshots rs >>= λ ps. ok (p ∷ ps)

  unfoldable pub get_open_positions :
      (List (PositionRow R) → List (PositionRow R))
      → Option String
      → Store R
      → Result (List (PositionSnapshot R))
  unfolding select snapshots
  get_open_positions order_by env s =
      snapshots (order_by (select (λ r. f.lt nought r.qty && in_env env r.env) s.positions))
