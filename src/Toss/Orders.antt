-- ===== src/Toss/Orders.antt =====
-- core/adapters/toss/rest.py, the operations on orders: place, list, look up, cancel, modify, and
-- the account's fills.
use quanteo.Base.{
  ℕ, String, Bool, true, false, Option, none, some, List, [], ◌∷◌, ◌++◌, str_eq, if◌then◌else◌,
}
use quanteo.Base.Int.{ℤ, pos}
use quanteo.Base.Result.{Result, ok, err, conflict_error, runtime_error, ◌>>=◌ as bind}
use quanteo.Float.{Float}
use quanteo.Domain.{Order, OrderType, limit, market, is_buy, submitted}
use quanteo.Executor.{OrderAck}
use quanteo.Toss.Json.{
  Json, null, bool, number, text, object, Fields, no_field, field, empty_list, get_or, get_opt,
  elements, is_true,
}
use quanteo.Toss.Call.{Call, ◌>>=◌, pure, lift, raise, traverse}
use quanteo.Toss.Port.{Port, Readers}
use quanteo.Toss.Models.{TossOrder}
use quanteo.Toss.Http.{Client, request_market, request_order}
use quanteo.Toss.Parse.{parse_toss_order}
use quanteo.Toss.Read.{result_object}

module _ {R : Type 0} ⦃f : Float R⦄ (read : Readers R) where
  abbrev price_field : OrderType → R → Fields R
  price_field limit price = field "price" (text (read.price_text price)) no_field
  price_field market price = no_field

  abbrev type_text : OrderType → String
  type_text limit = "LIMIT"
  type_text market = "MARKET"

  unfoldable pub order_body : Order R → Json R
  order_body o = object (
      field "clientOrderId" (text o.client_order_id) (
        field "symbol" (text o.symbol) (
          field "side" (text (if is_buy o.side then "BUY" else "SELL")) (
            field "orderType" (text (type_text o.order_type))
              (field "quantity" (number (f.of_int o.qty)) (price_field o.order_type o.price))))))

  -- The id of the answer is taken as a text.
  abbrev ack_if : Order R → String → Bool → Result OrderAck
  ack_if o order_id false = err runtime_error
  ack_if o order_id true = ok (record {
    client_order_id = o.client_order_id;
    broker_order_id = order_id;
    symbol = o.symbol;
    status = submitted;
  })

  unfoldable pub read_ack : Order R → Json R → Result OrderAck
  unfolding get_or is_true
  read_ack o body =
      bind (result_object read body)
        (λ result. bind (get_opt "orderId" result) (λ id. ack_if o (read.str id) (is_true id)))

  -- The page and the cursor of the next one, `null` if there is none.
  abbrev next_cursor : Json R → Bool → Result (Json R)
  next_cursor result true = get_opt "nextCursor" result
  next_cursor result false = ok null

  unfoldable pub read_page : (now : String) → Json R → Result (List (TossOrder R) × Json R)
  unfolding get_or is_true elements parse_toss_order
  read_page now body = bind (result_object read body) (λ result.
      bind (get_or "orders" empty_list result) (λ items.
        bind (get_or "hasNext" (bool false) result) (λ has_next.
          bind (next_cursor result (is_true has_next)) (λ cursor. bind (elements items) (λ rows.
            bind (traverse (λ row. parse_toss_order read row now) rows)
              (λ orders. ok (orders, cursor)))))))

  unfoldable pub read_order_id : (default : Json R) → Json R → Result (Json R)
  unfolding get_or
  read_order_id d body = bind (result_object read body) (get_or "orderId" d)

  abbrev shown : {V : Type 0} → (V → Json R) → Option V → Option (Json R)
  shown show none = none
  shown show (some v) = some (show v)

  abbrev optional : String → Option (Json R) → Fields R → Fields R
  optional k none fs = fs
  optional k (some v) fs = field k v fs

  unfoldable pub modify_body :
      (order_type : String) → (quantity : Option ℤ) → (price : Option R) → Bool → Json R
  modify_body order_type quantity price confirm_high_value = object (
      field "orderType" (text order_type) (
        optional "quantity" (shown (λ q. number (f.of_int q)) quantity) (
          optional "price" (shown (λ p. text (read.price_text p)) price) (
            optional "confirmHighValueOrder" (if confirm_high_value then some (bool true) else none)
              no_field))))

-- The fields of a parameter that is left out if it is falsy.
abbrev text_param : {R : Type 0} → String → Option String → List (String × Json R)
text_param k none = []
text_param k (some s) = if str_eq s "" then [] else (k, text s) ∷ []

module _ {R W : Type 0} ⦃f : Float R⦄ (read : Readers R) (port : Port R W) where
  unfoldable pub place_order : Order R → Call (Client R W) OrderAck
  unfolding order_body request_order read_ack
  place_order o = do
    body ← request_order read port "POST" ("/api/v1/orders" ∷ []) (some (order_body read o))
    lift (read_ack read o body)

  abbrev page_params : String → Option String → Json R → ℕ → List (String × Json R)
  page_params status symbol cursor count =
      (("status", text status) ∷ ("limit", number (f.of_int (pos count))) ∷ [])
      ++ text_param "symbol" symbol
      ++ (if is_true cursor then ("cursor", cursor) ∷ [] else [])

  unfoldable pub list_orders :
      (status : String)
      → (symbol : Option String) → (cursor : Json R) → (count : ℕ) → (now : String)
      → Call (Client R W) (List (TossOrder R) × Json R)
  unfolding is_true request_market read_page
  list_orders status symbol cursor count now = do
    body ←
        request_market read port "GET" ("/api/v1/orders" ∷ [])
          (page_params status symbol cursor count) true
    lift (read_page read now body)

  unfoldable pub get_order : (order_id : String) → (now : String) → Call (Client R W) (TossOrder R)
  unfolding request_market parse_toss_order get_or
  get_order order_id now = do
    body ← request_market read port "GET" ("/api/v1/orders/" ∷ order_id ∷ []) [] true
    lift (bind (result_object read body) (λ result. parse_toss_order read result now))

  -- The handler of `TossConflictError`: the order is looked up.
  abbrev cancelled : String → String → Result (Json R) → Call (Client R W) (Json R)
  cancelled order_id now (ok body) = lift (read_order_id read (text order_id) body)
  cancelled order_id now (err conflict_error) = do o ← get_order order_id now; pure o.order_id
  cancelled order_id now (err e) = raise e

  unfoldable pub cancel_order : (order_id : String) → (now : String) → Call (Client R W) (Json R)
  unfolding request_order read_order_id get_order
  cancel_order order_id now c =
      let (r, c') =
        request_order read port "POST" ("/api/v1/orders/" ∷ order_id ∷ "/cancel" ∷ []) none c in
      cancelled order_id now r c'

  unfoldable pub modify_order :
      (order_id order_type : String) → Option ℤ → Option R → Bool → Call (Client R W) (Json R)
  unfolding modify_body request_order read_order_id
  modify_order order_id order_type quantity price confirm = do
    body ←
        request_order read port "POST" ("/api/v1/orders/" ∷ order_id ∷ "/modify" ∷ [])
          (some (modify_body read order_type quantity price confirm))
    lift (read_order_id read (text order_id) body)
