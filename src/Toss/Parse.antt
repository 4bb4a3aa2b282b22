-- ===== src/Toss/Parse.antt =====
-- core/adapters/toss/rest.py, the reading of the answers: numbers and times that may be missing or
-- malformed, orders, holdings, candles, calendars. `now` is the time that replaces a malformed one.
use quanteo.Base.{String, Bool, true, false, Option, none, some, if◌then◌else◌}
use quanteo.Base.Int.{ℤ}
use quanteo.Base.Result.{Result, ok, err, runtime_error, type_error, arithmetic_error, ◌>>=◌}
use quanteo.Float.{Float, nought}
use quanteo.Toss.Json.{
  Json, number, text, array, object, empty_object, lookup, or_default, get_or, get_opt, is_null,
  is_true,
}
use quanteo.Toss.Port.{Readers}
use quanteo.Toss.Models.{OrderExecution, TossOrder}

abbrev none_raises : {V : Type 0} → Option V → Result V
none_raises none = err runtime_error
none_raises (some v) = ok v

abbrev invalid_raises : {V : Type 0} → Option V → Result V
invalid_raises none = err arithmetic_error
invalid_raises (some v) = ok v

module _ {R : Type 0} ⦃f : Float R⦄ (read : Readers R) where
  abbrev pub safe_float : Json R → Result R
  safe_float j = none_raises (read.float j)

  abbrev pub safe_int : Json R → Result ℤ
  safe_int j = none_raises (read.int j)

  abbrev pub decimal_of : Json R → Result R
  decimal_of j = invalid_raises (read.decimal j)

  abbrev pub zero_json : Json R
  zero_json = number nought

  abbrev pub float_field : String → Json R → Result R
  float_field k j = do v ← get_or k zero_json j; safe_float v

  abbrev pub int_field : String → Json R → Result ℤ
  int_field k j = do v ← get_or k zero_json j; safe_int v

  -- `Decimal(str(j.get(k, "0")))`
  abbrev pub decimal_field : String → Json R → Result R
  decimal_field k j = do v ← get_or k (text "0") j; decimal_of v

  abbrev pub unless_null : Bool → Json R → Result (Option R)
  unless_null true v = ok none
  unless_null false v = do x ← decimal_of v; ok (some x)

  abbrev pub decimal_opt : String → Json R → Result (Option R)
  decimal_opt k j = do v ← get_opt k j; unless_null (is_null v) v

  abbrev parsed_or : Option String → Option String → Option String
  parsed_or fallback none = fallback
  parsed_or fallback (some t) = some t

  -- `_parse_toss_timestamp`
  unfoldable pub parse_toss_timestamp : Json R → (fallback : Option String) → Option String
  unfolding is_true
  parse_toss_timestamp raw fallback =
      if is_true raw then parsed_or fallback (read.iso_time raw) else fallback

  abbrev time_or : (now : String) → Option String → String
  time_or now none = now
  time_or now (some t) = t

  -- The `try` around `fromisoformat` that falls back to the present.
  abbrev pub time_or_now : Json R → (now : String) → String
  time_or_now j now = time_or now (read.iso_time j)

  abbrev dict_or_empty : Option (Json R) → Json R
  dict_or_empty (some (object fs)) = object fs
  dict_or_empty _ = empty_object

  -- `_safe_nested_dict` and `_safe_get`
  unfoldable pub safe_nested_dict : Json R → String → Result (Json R)
  unfolding lookup
  safe_nested_dict (object fs) k = ok (dict_or_empty (lookup k fs))
  safe_nested_dict j k = err type_error

  unfoldable pub safe_get : Json R → String → Result (Json R)
  unfolding lookup
  safe_get (object fs) k = ok (or_default zero_json (lookup k fs))
  safe_get (text s) k = if read.occurs k (text s) then err type_error else ok zero_json
  safe_get (array js) k = if read.occurs k (array js) then err type_error else ok zero_json
  safe_get j k = err type_error

  unfoldable pub parse_execution : Json R → Result (OrderExecution R)
  unfolding get_or parse_toss_timestamp
  parse_execution raw = do
    filled_at ← get_opt "filledAt" raw
    filled ← float_field "filledQuantity" raw
    price ← decimal_opt "averageFilledPrice" raw
    fees ← decimal_opt "fees" raw
    ok (record {
      filled_quantity = filled;
      avg_fill_price = price;
      fees = fees;
      filled_at = parse_toss_timestamp filled_at none;
    })

  unfoldable pub parse_toss_order : Json R → (now : String) → Result (TossOrder R)
  unfolding get_or parse_toss_timestamp parse_execution
  parse_toss_order item now = do
    execution_raw ← get_or "execution" empty_object item
    execution ← parse_execution execution_raw
    ordered_at ← get_opt "orderedAt" item
    price ← decimal_opt "price" item
    order_id ← get_or "orderId" (text "") item
    client_order_id ← get_opt "clientOrderId" item
    symbol ← get_or "symbol" (text "") item
    side ← get_or "side" (text "BUY") item
    order_type ← get_or "orderType" (text "LIMIT") item
    status ← get_or "status" (text "PENDING") item
    quantity ← float_field "quantity" item
    currency ← get_or "currency" (text "KRW") item
    ok (record {
      order_id = order_id;
      client_order_id = client_order_id;
      symbol = symbol;
      side = side;
      order_type = order_type;
      status = status;
      quantity = quantity;
      price = price;
      currency = currency;
      ordered_at = time_or now (parse_toss_timestamp ordered_at (some now));
      execution = execution;
    })
