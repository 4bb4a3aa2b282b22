-- ===== src/Toss/Tests.antt =====
-- A broker that refuses the first request with a 401 and answers the others; numbers are whole.
use quanteo.Base.{
  ℕ, zero, suc, ◌+◌, ◌-◌, ◌≤◌, ◌<◌, ◌≡◌, ◌⊎◌, refl, String, Bool, false, Option, none, some, List,
  [], ◌∷◌, ◌++◌, take, length, count_if, arith,
}
use quanteo.Base.Int.{pos}
use quanteo.Base.Result.{Result, ok}
use quanteo.Float.Won.{Won, won_float}
use quanteo.Domain.{buy, domestic, limit, Order}
use quanteo.Toss.Json.{Json, null, number, text, array, object, item, end, field, no_field}
use quanteo.Toss.Port.{Port, Reply, replied, Request, Readers}
use quanteo.Toss.Models.{TossOrder, Fill, ExchangeRate}
use quanteo.Toss.Http.{Client, do_request}
use quanteo.Toss.Orders.{place_order, list_orders}
use quanteo.Toss.Trades.{trades_page_limit, fills_of, get_trades}
use quanteo.Toss.FillPages.{last, count_pages, IsLatestFirst, get_trades-Pages}
use quanteo.Toss.Rates.{rate_ttl, get_exchange_rate}
use quanteo.Toss.RateCache.{get_exchange_rate-again}
use quanteo.Toss.Once.{TakesOnce, place_order-taken}
use quanteo.Toss.Answers.{NoError, do_request-IsAnswer}
use quanteo.Toss.Parse.{parse_toss_order}
use quanteo.Toss.Wire.{wire_order, parse_toss_order-wire_order}

pub record Broker : Type 0 where
  pub taken : ℕ
  pub answers : ℕ

abbrev number_of : Json Won → Option Won
number_of (number x) = some x
number_of j = none

abbrev text_of : Json Won → Option String
text_of (text t) = some t
text_of j = none

abbrev shown : Json Won → String
shown (text t) = t
shown j = ""

abbrev readers : Readers Won
readers = record {
  str = shown;
  float = number_of;
  int = number_of;
  decimal = number_of;
  iso_time = text_of;
  occurs = λ k j. false;
  price_text = λ x. "70000";
  truncated = λ x. x;
}

abbrev answer : Json Won → ℕ → Broker → Reply Won × Broker
answer body zero w = (replied 401 none, record w { answers = 1 })
answer body (suc n) w =
    (replied 200 (some body), record w { answers = suc (suc n); taken = w.taken + 1 })

abbrev token_body : Json Won
token_body = object (field "access_token" (text "t2") no_field)

abbrev port : Json Won → Port Won Broker
port body = record {
  time = λ w. pos 100;
  monotonic = λ w. 1000;
  wait = λ d w. w;
  send = λ req w. answer body w.answers w;
  post_token = λ id secret w. (replied 200 (some token_body), w);
  read_cache = λ w. none;
  write_cache = λ j w. w;
  remove_cache = λ w. w;
}

abbrev client : ℕ → Client Won Broker
client answers = record {
  auth = record { client_id = "id"; client_secret = "secret"; token = none; refresh_at = none };
  account_seq = some "7";
  market_throttler = record { interval = 200; last_call = 0 };
  order_throttler = record { interval = 500; last_call = 0 };
  rates = [];
  world = record { taken = 0; answers = answers };
}

abbrev order_id : Json Won
order_id = object (field "result" (object (field "orderId" (text "b1") no_field)) no_field)

answer_one : (body : Json Won) (n : ℕ) (w : Broker) → (answer body n w).1.taken ≤ w.taken + 1
answer_one body zero w = omega arith
answer_one body (suc n) w = omega arith

answer_refused :
    (body : Json Won) (n : ℕ) (w : Broker) (b : Option (Json Won))
    → (answer body n w).0 ≡ replied 401 b
    → (answer body n w).1.taken ≤ w.taken
answer_refused body zero w b h = omega arith
answer_refused body (suc n) w b h = ground arith

takes_once : TakesOnce (port order_id) (λ w. w.taken)
takes_once = record {
  one = λ req w. answer_one order_id w.answers w;
  refused = λ req w b h. answer_refused order_id w.answers w b h;
  token = λ id secret w. omega arith;
  written = λ j w. omega arith;
  removed = λ w. omega arith;
  waited = λ d w. omega arith;
}

abbrev order : Order Won
order = record {
  client_order_id = "c1";
  symbol = "A";
  market = domestic;
  side = buy;
  order_type = limit;
  qty = pos 2;
  price = pos 70000;
  source_signal = record {
    strategy = "test";
    symbol = "A";
    side = buy;
    qty = pos 2;
    price = none;
    reason = "";
  };
}

place_order-taken_example : (place_order readers (port order_id) order (client 0)).1.world.taken ≤ 1
place_order-taken_example =
    place_order-taken readers (port order_id) (λ w. w.taken) takes_once order (client 0)

-- The refused order was sent again under the new token, and taken once.
placed_after_401 :
    (place_order readers (port order_id) order (client 0)).1.world
    ≡ record { taken = 1; answers = 2 }
unfolding place_order
placed_after_401 = refl

abbrev request : Request Won
request = record {
  method = "GET";
  path = "/api/v1/accounts" ∷ [];
  token = "t1";
  account = none;
  params = [];
  json_body = none;
}

abbrev renewed : Client Won Broker
renewed = record (client 0) {
  auth = record {
    client_id = "id";
    client_secret = "secret";
    token = some (record {
      access_token = text "t2";
      token_type = text "Bearer";
      expires_in = pos 3600;
      issued_at = pos 100;
    });
    refresh_at = none;
  };
  world = record { taken = 1; answers = 2 };
}

answered_second : do_request readers (port order_id) request (client 0) ≡ (ok order_id, renewed)
unfolding do_request
answered_second = refl

do_request-IsAnswer_example :
    (token : String) × (before : Broker) × (code : ℕ) × ((port order_id).send
        (record request { token = token })
        before
      ≡ (replied code (some order_id), renewed.world))
    × (200 ≤ code)
    × (code < 300)
    × NoError order_id
do_request-IsAnswer_example =
    do_request-IsAnswer readers (port order_id) request (client 0) renewed order_id answered_second

abbrev toss_order : TossOrder Won
toss_order = record {
  order_id = text "b1";
  client_order_id = text "c1";
  symbol = text "A";
  side = text "BUY";
  order_type = text "LIMIT";
  status = text "FILLED";
  quantity = pos 2;
  price = some (pos 70000);
  currency = text "KRW";
  ordered_at = "d1";
  execution = record {
    filled_quantity = pos 2;
    avg_fill_price = some (pos 69900);
    fees = none;
    filled_at = some "d2";
  };
}

parse_toss_order-wire_order_example :
    parse_toss_order readers (wire_order toss_order) "now" ≡ ok toss_order
parse_toss_order-wire_order_example =
    parse_toss_order-wire_order readers (λ x. refl) (λ x. refl) toss_order "now" (refl, refl)
      (refl, refl)

abbrev orders_body : Json Won
orders_body = object (
    field "result" (object (field "orders" (array (item (wire_order toss_order) end)) no_field))
      no_field)

abbrev listed : Client Won Broker
listed =
    (list_orders readers (port orders_body) "CLOSED" none null trades_page_limit "now" (client 1)).1

one_page :
    list_orders readers (port orders_body) "CLOSED" none null trades_page_limit "now" (client 1)
    ≡ (ok (toss_order ∷ [], null), listed)
unfolding list_orders wire_order
one_page = refl

-- Times are not compared here.
abbrev never : String → String → Bool
never s t = false

get_trades-Pages_example :
    (got sorted rest : List (Fill Won)) × (c' : Client Won Broker) × (get_trades readers
        (port orders_body)
        never
        2
        5
        "now"
        (client 1)
      ≡ (ok (some (take 5 sorted)), c'))
    × IsLatestFirst never sorted
    × ((test : Fill Won → Bool) → count_if test sorted ≡ count_if test got)
    × (fills_of (toss_order ∷ []) ≡ got ++ rest)
    × ((5 ≤ length got) ⊎ (rest ≡ []))
unfolding count_pages
get_trades-Pages_example =
    get_trades-Pages readers (port orders_body) never (λ s t h. refl) 5 2 "now" (client 1)
      (last toss_order [] one_page refl) (omega arith)

abbrev rate_body : Json Won
rate_body = object (
    field "result"
      (object (field "rate" (number (pos 1380)) (field "midRate" (number (pos 1375)) no_field)))
      no_field)

abbrev asked : Result (ExchangeRate Won) × Client Won Broker
asked = get_exchange_rate readers (port rate_body) "USD" "KRW" "now" (client 1)

abbrev rate : ExchangeRate Won
rate = record {
  base_currency = text "USD";
  quote_currency = text "KRW";
  rate = pos 1380;
  mid_rate = pos 1375;
  rate_change_type = text "";
  valid_from = "";
  valid_until = "";
}

asked_once : asked ≡ (ok rate, asked.1)
unfolding get_exchange_rate
asked_once = refl

get_exchange_rate-again_example :
    (at : ℕ) × ((at ≡ 1000) ⊎ ((asked.1 ≡ client 1) × (1000 - at < rate_ttl)))
    × ((later : Client Won Broker) (now' : String)
        → later.rates ≡ asked.1.rates
        → 1000 - at < rate_ttl
        → get_exchange_rate readers (port rate_body) "USD" "KRW" now' later ≡ (ok rate, later))
get_exchange_rate-again_example =
    get_exchange_rate-again readers (port rate_body) "USD" "KRW" "now" (client 1) asked.1 rate
      asked_once
