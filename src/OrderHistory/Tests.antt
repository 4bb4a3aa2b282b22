-- ===== src/OrderHistory/Tests.antt =====
-- A history on two pages, and one open order.
use quanteo.Base.{
  ◌≡◌, ◌≤◌, ◌<◌, refl, String, true, false, none, some, List, [], ◌∷◌, ◌++◌, arith, ◌+◌, length,
}
use quanteo.Base.Int.{pos}
use quanteo.Base.Result.{ok}
use quanteo.Float.Won.{Won, won_float}
use quanteo.Domain.{buy, limit, filled}
use quanteo.Store.{Store}
use quanteo.OrderSync.{closed_status}
use quanteo.OrderHistory.{TossOrder, Pages, max_backfill_pages, fetch_all_closed_orders, sync_once}
use quanteo.OrderHistory.Rows.{rows_of}
use quanteo.OrderHistory.Backfill.{
  Serves, last, more, fetch_all_closed_orders_lem, sync_once-backfill,
}

is_closed : closed_status "FILLED" ≡ some filled
unfolding closed_status
is_closed = refl

abbrev order : String → String → TossOrder Won
order b status = record {
  order_id = b;
  client_order_id = none;
  symbol = "A";
  currency = "KRW";
  side = buy;
  order_type = limit;
  quantity = pos 3;
  price = some (pos 100);
  status = status;
  ordered_at = "t";
}

abbrev pages : Pages Won
pages none = ok (order "b1" "FILLED" ∷ [], some "p2")
pages (some c) = ok (order "b2" "CANCELED" ∷ [], none)

two_pages : Serves pages none 2 (order "b1" "FILLED" ∷ order "b2" "CANCELED" ∷ [])
two_pages = more refl (last refl)

abbrev history : List (TossOrder Won)
history = order "b1" "FILLED" ∷ order "b2" "CANCELED" ∷ []

fetch_all_closed_orders_lem_example :
    (2 ≤ max_backfill_pages → fetch_all_closed_orders pages ≡ ok (history, true))
    × (max_backfill_pages < 2
        → (part : List (TossOrder Won)) × (fetch_all_closed_orders pages ≡ ok (part, false)))
fetch_all_closed_orders_lem_example = fetch_all_closed_orders_lem pages 2 history two_pages

abbrev empty : Store Won
empty = record { orders = []; fills = []; positions = []; next_id = 1 }

abbrev opens : List (TossOrder Won)
opens = order "b3" "PENDING" ∷ []

sync_once-backfill_example :
    let rows = rows_of "u" 1 (opens ++ history) in
    sync_once (ok opens) pages "u" false empty
    ≡ ok (
      length rows,
      (true, record empty { orders = empty.orders ++ rows; next_id = 1 + length rows }),
    )
sync_once-backfill_example =
    sync_once-backfill opens pages "u" empty 2 history two_pages (omega arith) (tt, (tt, (tt, tt)))
      ((refl, (refl, tt)), ((refl, tt), (tt, tt)))
