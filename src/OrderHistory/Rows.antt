-- ===== src/OrderHistory/Rows.antt =====
-- The rows that new orders of the broker get.
use quanteo.Base.{
  ℕ, ◌+◌, ◌≡◌, String, Bool, false, ◌||◌, Option, none, some, List, [], ◌∷◌, ◌++◌, arith,
  append_assoc, append-nil, str_eq, if◌then◌else◌, All, All-append, length, inl, inr, Option-cases,
}
use quanteo.Float.{Float, nought}
use quanteo.Domain.{domestic, overseas, Status, pending, partial, filled, cancelled, rejected}
use quanteo.Store.{Store, OrderRow}
use quanteo.Store.Effect.{kept_id, is_same, upsert_broker_order-appended}
use quanteo.OrderHistory.{TossOrder, local_status, broker_order, reflect_as, reflect, reflect_all}

-- The local status of an order of the broker.
abbrev pub status_of : String → Option Status
status_of s =
    if str_eq "PENDING" s
    then some pending
    else if str_eq "PENDING_CANCEL" s
    then some pending
    else if str_eq "PENDING_REPLACE" s
    then some pending
    else if str_eq "CANCEL_REJECTED" s
    then some pending
    else if str_eq "REPLACE_REJECTED" s
    then some pending
    else if str_eq "PARTIAL_FILLED" s
    then some partial
    else if str_eq "FILLED" s
    then some filled
    else if str_eq "CANCELED" s
    then some cancelled
    else if str_eq "REJECTED" s
    then some rejected
    else if str_eq "REPLACED" s
    then some cancelled
    else none

local_status-status_of : (s : String) → local_status s ≡ status_of s
unfolding local_status
local_status-status_of s = ground arith

module _ {R : Type 0} where
  -- The order has this client id, or this broker id.
  abbrev pub has_id : String → Option String → TossOrder R → Bool
  has_id client broker o =
      str_eq client (kept_id o.client_order_id o.order_id) || is_same broker o.order_id

  -- No row is one of these orders.
  abbrev pub Unseen : List (OrderRow R) → List (TossOrder R) → Type 0
  Unseen rows [] = Unit
  Unseen rows (o ∷ os) =
      All (λ r. has_id r.client_order_id r.broker_order_id o ≡ false) rows × Unseen rows os

  -- No two of the orders share a client id or a broker id.
  abbrev pub Apart : List (TossOrder R) → Type 0
  Apart [] = Unit
  Apart (o ∷ os) =
      All (λ p. has_id (kept_id o.client_order_id o.order_id) (some o.order_id) p ≡ false) os
      × Apart os

  Unseen-append :
      (rows : List (OrderRow R)) (r : OrderRow R) (os : List (TossOrder R))
      → Unseen rows os
      → All (λ p. has_id r.client_order_id r.broker_order_id p ≡ false) os
      → Unseen (rows ++ r ∷ []) os
  Unseen-append rows r [] h k = tt
  Unseen-append rows r (o ∷ os) (h, hs) (k, ks) = (
    All-append (λ q. has_id q.client_order_id q.broker_order_id o ≡ false) rows (r ∷ []) h (k, tt),
    Unseen-append rows r os hs ks,
  )

module _ {R : Type 0} ⦃f : Float R⦄ where
  abbrev price_or_zero : Option R → R
  price_or_zero none = nought
  price_or_zero (some p) = p

  abbrev pub row_of : (now : String) → ℕ → TossOrder R → Status → OrderRow R
  row_of now n o st = record {
    id = n;
    client_order_id = kept_id o.client_order_id o.order_id;
    broker_order_id = some o.order_id;
    symbol = o.symbol;
    market = if str_eq o.currency "KRW" then domestic else overseas;
    env = "prod";
    side = o.side;
    order_type = o.order_type;
    qty = o.quantity;
    price = price_or_zero o.price;
    status = st;
    created_at = o.ordered_at;
    updated_at = now;
  }

  -- The rows of the orders with a known status, with row ids from `n` on.
  abbrev pub rows_of : (now : String) → ℕ → List (TossOrder R) → List (OrderRow R)
  rows_of now n [] = []
  rows_of now n (o ∷ os) = elim (status_of o.status) [
    | none ↦ rows_of now n os
    | some st ↦ row_of now n o st ∷ rows_of now (n + 1) os
  ]

  -- The table with these rows at its end.
  abbrev with_rows : List (OrderRow R) → Store R → Store R
  with_rows rows s = record s { orders = s.orders ++ rows; next_id = s.next_id + length rows }

  reflect_as-new :
      (o : TossOrder R) (st : Status) (now : String) (s : Store R)
      → All (λ r. has_id r.client_order_id r.broker_order_id o ≡ false) s.orders
      → reflect_as o (some st) now s ≡ (1, with_rows (row_of now s.next_id o st ∷ []) s)
  reflect_as-new o st now s h =
      ground (arith, upsert_broker_order-appended (broker_order o st) now s h)

  pub reflect_all-rows :
      (now : String) (os : List (TossOrder R)) (s : Store R)
      → Unseen s.orders os
      → Apart os
      → reflect_all os now s
        ≡ (length (rows_of now s.next_id os), with_rows (rows_of now s.next_id os) s)
  unfolding reflect_all reflect
  reflect_all-rows now [] s unseen apart = ground (arith, append-nil s.orders)
  reflect_all-rows now (o ∷ os) s (unseen, rest) (apart, all_apart) =
      let known = local_status-status_of o.status in
      elim (Option-cases (status_of o.status)) [
        | inl e ↦ ground (arith, known, e, reflect_all-rows now os s rest all_apart)
        | inr (st, e) ↦
            let row = row_of now s.next_id o st in
            ground (
              arith,
              known,
              e,
              reflect_as-new o st now s unseen,
              reflect_all-rows now os (with_rows (row ∷ []) s)
                  (Unseen-append s.orders row os rest apart) all_apart,
              append_assoc s.orders (row ∷ []) (rows_of now (s.next_id + 1) os),
            )
      ]
