-- ===== src/Store/Tests.antt =====
-- A table with one working order and one holding, and a broker order that fills the order.
use quanteo.Base.{◌≡◌, ◌≢◌, ◌⊎◌, refl, none, some, [], ◌∷◌, ◌&&◌, All, false}
use quanteo.Base.Int.{pos, ltb_ℤ}
use quanteo.Base.Result.{ok}
use quanteo.Float.Won.{Won, won_float}
use quanteo.Domain.{domestic, buy, limit, submitted, filled}
use quanteo.Store.{
  Store, OrderRow, PositionRow, BrokerOrder, snapshot_at, select, in_env, matches, find,
  fetch_existing, insert_order, upsert_broker_order, get_open_positions,
}
use quanteo.Store.Effect.{IsFirst, denotes, refilled_like, appended, upsert_broker_order-effect}
use quanteo.Store.Upsert.{upsert_broker_order-twice}
use quanteo.Store.Recovery.{Pointwise, Recovers, get_open_positions-Recovers}

abbrev row : OrderRow Won
row = record {
  id = 1;
  client_order_id = "c1";
  broker_order_id = some "b1";
  symbol = "A";
  market = domestic;
  env = "prod";
  side = buy;
  order_type = limit;
  qty = pos 3;
  price = pos 100;
  status = submitted;
  created_at = "t";
  updated_at = "t";
}

abbrev holding : PositionRow Won
holding = record {
  symbol = "A";
  market = domestic;
  env = "prod";
  qty = pos 3;
  avg_price = pos 100;
  opened_at = "t";
  updated_at = "t";
}

abbrev store : Store Won
store = record { orders = row ∷ []; fills = []; positions = holding ∷ []; next_id = 2 }

-- The broker gives no client id back.
abbrev reply : BrokerOrder Won
reply = record {
  broker_order_id = "b1";
  client_order_id = none;
  symbol = "A";
  market = domestic;
  side = buy;
  order_type = limit;
  qty = pos 3;
  price = pos 100;
  status = filled;
  ordered_at = "t";
}

abbrev filled_row : OrderRow Won
filled_row = record row { status = filled; updated_at = "u" }

abbrev filled_store : Store Won
filled_store = record store { orders = filled_row ∷ [] }

upserted : upsert_broker_order reply "u" store ≡ ok filled_store
unfolding upsert_broker_order
upserted = refl

upsert_broker_order-effect_example :
    ((found : OrderRow Won) × IsFirst (denotes reply "u") found store.orders
      × (upsert_broker_order reply "u" store ≡ ok (refilled_like reply "u" found store)))
    ⊎ (All (λ r. denotes reply "u" r ≡ false) store.orders
        × (upsert_broker_order reply "u" store ≡ ok (appended reply "u" store)))
upsert_broker_order-effect_example = upsert_broker_order-effect reply "u" store

upsert_broker_order-twice_example :
    (upsert_broker_order reply "u" filled_store ≡ ok filled_store)
    × (find (matches reply) filled_store.orders ≢ none)
upsert_broker_order-twice_example = upsert_broker_order-twice reply "u" store upserted

abbrev second : OrderRow Won
second = record row { client_order_id = "c2"; broker_order_id = none }

abbrev two_orders : Store Won
two_orders = record store { orders = row ∷ (record second { id = 2 }) ∷ []; next_id = 3 }

inserted : insert_order second store ≡ ok two_orders
unfolding insert_order fetch_existing
inserted = refl

recovered :
    get_open_positions (λ rs. rs) (some "prod") store ≡ ok (snapshot_at holding (pos 3) ∷ [])
unfolding get_open_positions
recovered = refl

get_open_positions-Recovers_example :
    Pointwise Recovers
      (select (λ r. ltb_ℤ (pos 0) r.qty && in_env (some "prod") r.env) store.positions)
      (snapshot_at holding (pos 3) ∷ [])
get_open_positions-Recovers_example =
    get_open_positions-Recovers (λ rs. rs) (some "prod") store recovered
