-- ===== src/Toss/Wire.antt =====
-- An order as the broker writes it, and back: `_parse_toss_order` reads each field from its place.
use quanteo.Base.{◌≡◌, refl, String, false, Option, none, some, str_eq}
use quanteo.Base.Result.{ok}
use quanteo.Float.{Float}
use quanteo.Toss.Json.{
  Json, null, number, text, object, no_field, field, is_null, is_true, lookup, get_or,
}
use quanteo.Toss.Port.{Readers}
use quanteo.Toss.Models.{TossOrder, OrderExecution}
use quanteo.Toss.Parse.{parse_toss_order, parse_execution, parse_toss_timestamp, unless_null}

module _ {R : Type 0} where
  abbrev wire_number : Option R → Json R
  wire_number none = null
  wire_number (some x) = number x

  abbrev wire_time : Option String → Json R
  wire_time none = null
  wire_time (some t) = text t

  -- The keys of the API, in another order than the client reads them.
  unfoldable pub wire_execution : OrderExecution R → Json R
  wire_execution e = object (
      field "fees" (wire_number e.fees) (
        field "filledAt" (wire_time e.filled_at) (
          field "averageFilledPrice" (wire_number e.avg_fill_price)
            (field "filledQuantity" (number e.filled_quantity) no_field))))

  unfoldable pub wire_order : TossOrder R → Json R
  unfolding wire_execution
  wire_order o = object (
      field "orderId" o.order_id (
        field "symbol" o.symbol (
          field "side" o.side (
            field "status" o.status (
              field "orderType" o.order_type (
                field "currency" o.currency (
                  field "price" (wire_number o.price) (
                    field "quantity" (number o.quantity) (
                      field "orderedAt" (text o.ordered_at) (
                        field "clientOrderId" o.client_order_id
                          (field "execution" (wire_execution o.execution) no_field)))))))))))

module _ {R : Type 0} ⦃f : Float R⦄ (read : Readers R) where
  -- A time that is read as it was written; the empty text is none.
  abbrev pub IsTime : String → Type 0
  IsTime t = (read.iso_time (text t) ≡ some t) × (str_eq t "" ≡ false)

  abbrev pub IsTimeIfAny : Option String → Type 0
  IsTimeIfAny none = Unit
  IsTimeIfAny (some t) = IsTime t

  module _ (floats : (x : R) → read.float (number x) ≡ some x)
      (decimals : (x : R) → read.decimal (number x) ≡ some x) where
    decimal_back :
        (p : Option R) → unless_null read (is_null (wire_number p)) (wire_number p) ≡ ok p
    decimal_back none = refl
    decimal_back (some x) = rw (decimals x)

    time_back :
        (t : Option String) → IsTimeIfAny t → parse_toss_timestamp read (wire_time t) none ≡ t
    unfolding parse_toss_timestamp is_true
    time_back none h = refl
    time_back (some t) (back, full) = rw (full, back)

    parse_execution-wire :
        (e : OrderExecution R)
        → IsTimeIfAny e.filled_at
        → parse_execution read (wire_execution e) ≡ ok e
    unfolding parse_execution wire_execution get_or lookup
    parse_execution-wire e h = rw (
      floats e.filled_quantity,
      decimal_back e.avg_fill_price,
      decimal_back e.fees,
      time_back e.filled_at h,
    )

    -- If `float` and `Decimal` read a JSON number as its value, and the order's times are read as they are
    -- written: the order that is read from the JSON object of an order is that order.
    pub parse_toss_order-wire_order :
        (o : TossOrder R) (now : String)
        → IsTime o.ordered_at
        → IsTimeIfAny o.execution.filled_at
        → parse_toss_order read (wire_order o) now ≡ ok o
    unfolding parse_toss_order wire_order get_or lookup parse_toss_timestamp is_true
    parse_toss_order-wire_order o now (back, full) h =
        rw (parse_execution-wire o.execution h, decimal_back o.price, floats o.quantity, full, back)
