-- ===== src/OrderSync/Tests.antt =====
-- Three open orders: the query of the first fails, the second is filled, the third has no broker id.
use quanteo.Base.{
  ◌≡◌, refl, String, Bool, true, false, Option, none, some, List, [], ◌∷◌, ◌++◌, str_eq,
}
use quanteo.Base.Int.{pos}
use quanteo.Base.Result.{Result, ok, err, broker_error}
use quanteo.Float.Won.{Won}
use quanteo.Events.{new_bus}
use quanteo.Domain.{domestic, buy, limit, submitted, filled}
use quanteo.Store.{OrderRow, PendingOrder, fetch_existing}
use quanteo.OrderSync.{Tables, closed_status, sync_orders}
use quanteo.OrderSync.Isolation.{Others, verdict, expected, sync_orders-expected}

is_closed : closed_status "FILLED" ≡ some filled
unfolding closed_status
is_closed = refl

abbrev row : String → Option String → OrderRow Won
row c b = record {
  id = 1;
  client_order_id = c;
  broker_order_id = b;
  symbol = "A";
  market = domestic;
  env = "prod";
  side = buy;
  order_type = limit;
  qty = pos 3;
  price = pos 100;
  status = submitted;
  created_at = "t";
  updated_at = "t";
}

abbrev order : String → Option String → PendingOrder Won
order c b = record {
  client_order_id = c;
  symbol = "A";
  market = domestic;
  env = "prod";
  side = buy;
  qty = pos 3;
  status = submitted;
  created_at = "t";
  broker_order_id = b;
}

abbrev tables : Tables Won
tables = (
  record {
    orders = row "c1" (some "b1") ∷ row "c2" (some "b2") ∷ row "c3" none ∷ [];
    fills = [];
    positions = [];
    next_id = 4;
  },
  some (new_bus 10),
)

abbrev get_order : String → Result String
get_order b = elim (str_eq b "b2") [ true ↦ ok "FILLED" | false ↦ err (broker_error "timeout") ]

abbrev never : String → Bool
never c = false

abbrev before : List (PendingOrder Won)
before = order "c1" (some "b1") ∷ []

abbrev after : List (PendingOrder Won)
after = order "c3" none ∷ []

sync_orders-expected_example :
    let w' = sync_orders get_order never "u" (before ++ order "c2" (some "b2") ∷ after) tables in
    (fetch_existing "c2" w'.0
      ≡ expected get_order never "u"
          (order "c2" (some "b2"))
          (verdict get_order (some "b2"))
          (fetch_existing "c2" tables.0))
    × ((c : String)
        → Others c (before ++ order "c2" (some "b2") ∷ after)
        → fetch_existing c w'.0 ≡ fetch_existing c tables.0)
sync_orders-expected_example =
    sync_orders-expected get_order never "u" before after (order "c2" (some "b2")) tables (refl, tt)
      (refl, tt)
