-- ===== src/Executor/Tests.antt =====
-- An empty table, an order of three shares, and a broker that accepts.
use quanteo.Base.{◌≡◌, ◌≤◌, refl, none, some, List, [], ◌∷◌, arith, if◌then◌else◌}
use quanteo.Base.Int.{ℤ, pos, ◌+ℤ◌, leb_ℤ}
use quanteo.Base.Result.{Result, ok}
use quanteo.Float.Won.{Won, won_float}
use quanteo.Events.{new_bus}
use quanteo.Domain.{domestic, buy, limit, Order, submitted, partial, filled}
use quanteo.Store.{OrderRow, fetch_existing, insert_order}
use quanteo.Executor.{OrderAck, World, advance, submit, order_row}
use quanteo.Executor.Once.{Move, arrive, turn, run, times, sent_once}
use quanteo.Executor.Idempotent.{Settled, submit-Settled}
use quanteo.Executor.Fills.{Fill, fill_all, sum_fills, filled_of, fill_all_status}

abbrev empty : World Won
empty = record {
  store = record { orders = []; fills = []; positions = []; next_id = 1 };
  bus = new_bus 10;
  sent = [];
}

abbrev order : Order Won
order = record {
  client_order_id = "c1";
  symbol = "A";
  market = domestic;
  side = buy;
  order_type = limit;
  qty = pos 3;
  price = pos 100;
  source_signal = record {
    strategy = "ma";
    symbol = "A";
    side = buy;
    qty = pos 3;
    price = some (pos 100);
    reason = "";
  };
}

abbrev accepts : Order Won → Result OrderAck
accepts o = ok record {
  client_order_id = o.client_order_id;
  broker_order_id = "b1";
  symbol = o.symbol;
  status = submitted;
}

no_row : fetch_existing "c1" empty.store ≡ none
unfolding fetch_existing
no_row = refl

-- Two calls that both pass the SELECT before either inserts.
abbrev race : List (Move Won)
race =
    arrive order
    ∷ arrive order
    ∷ turn 0 accepts "t"
    ∷ turn 1 accepts "t"
    ∷ turn 0 accepts "t"
    ∷ turn 1 accepts "t"
    ∷ turn 0 accepts "t"
    ∷ turn 1 accepts "t"
    ∷ []

race_sends_once : (run race (record { tasks = []; world = empty })).world.sent ≡ "c1" ∷ []
unfolding run insert_order fetch_existing advance
race_sends_once = refl

sent_once_example : times "c1" (run race (record { tasks = []; world = empty })).world.sent ≤ 1
sent_once_example =
    sent_once "c1" race (record { tasks = []; world = empty }) refl (omega arith) (omega arith)

submit-Settled_example :
    Settled accepts "t" order empty
      (accepts order)
      (submit accepts "t" order empty).0
      (submit accepts "t" order empty).1
submit-Settled_example = submit-Settled accepts "t" order empty no_row

abbrev stored_row : OrderRow Won
stored_row = record (order_row order "t") {
  id = 1;
  status = submitted;
  broker_order_id = some "b1";
}

abbrev working : World Won
working = record empty { store = record empty.store { orders = stored_row ∷ []; next_id = 2 } }

has_row : fetch_existing "c1" working.store ≡ some stored_row
unfolding fetch_existing
has_row = refl

abbrev fill : ℤ → Fill Won
fill n = record { qty = n; price = pos 100; now = "u" }

fill_all_status_example :
    let w' = fill_all "c1" (fill (pos 1) ∷ fill (pos 2) ∷ []) working in
    (row' : OrderRow Won) × (fetch_existing "c1" w'.store ≡ some row')
    × (filled_of "c1" w'.store.fills
        ≡ filled_of "c1" working.store.fills +ℤ sum_fills (fill (pos 1) ∷ fill (pos 2) ∷ []))
    × (row'.status ≡ (if leb_ℤ (pos 3) (filled_of "c1" w'.store.fills) then filled else partial))
    × (row'.qty ≡ pos 3)
    × (row'.broker_order_id ≡ some "b1")
fill_all_status_example =
    fill_all_status "c1" (fill (pos 1)) (fill (pos 2) ∷ []) working stored_row has_row
