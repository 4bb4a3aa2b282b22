-- ===== src/Store/Effect.antt =====
-- What `upsert_broker_order` writes: into which rows, and which values.
use Prim.Native.String.{◌++◌ as concat}
use quanteo.Base.{
  ℕ, ◌+◌, ◌≡◌, ◌⊎◌, inl, inr, refl, String, Bool, true, false, ◌||◌, Option, none, some, List, [],
  ◌∷◌, ◌++◌, map, arith, str_eq, if◌then◌else◌, All, Bool-cases, Option-cases,
}
use quanteo.Base.Result.{ok}
use quanteo.Store.{
  Store, OrderRow, BrokerOrder, with_client, overwrite, matches, effective_client_id, find,
  update_where, fetch_existing, insert_order, upsert_broker_order,
}

module _ {A : Type 0} (p : A → Bool) where
  -- `x` is the first element of the list that passes the test.
  abbrev pub IsFirst : A → List A → Type 0
  IsFirst x xs =
      (before : List A) × (after : List A) × (xs ≡ before ++ x ∷ after)
      × All (λ y. p y ≡ false) before
      × (p x ≡ true)

  find-IsFirst : (xs : List A) (x : A) → find p xs ≡ some x → IsFirst x xs
  unfolding find
  find-IsFirst [] x h = cc
  find-IsFirst (y ∷ ys) x h = elim (Bool-cases (p y)) [
    | inl here ↦ let same : y ≡ x = ground arith in ([], ys, ground arith, tt, ground (arith, same))
    | inr past ↦
        let (before, after, split, none_yet, passes) = find-IsFirst ys x (ground arith) in
        (y ∷ before, after, ground (arith, split), (past, none_yet), passes)
  ]

  find-none : (xs : List A) → find p xs ≡ none → All (λ y. p y ≡ false) xs
  unfolding find
  find-none [] h = tt
  find-none (y ∷ ys) h = (ground arith, find-none ys (ground arith))

  pub All-find : (xs : List A) → All (λ y. p y ≡ false) xs → find p xs ≡ none
  unfolding find
  All-find [] h = refl
  All-find (y ∷ ys) (h, hs) = ground (arith, All-find ys hs)

-- The client id under which an order of the broker is kept: its own, or one made of the broker's id.
abbrev pub kept_id : Option String → String → String
kept_id none b = concat "toss-native-" b
kept_id (some c) b = if str_eq c "" then concat "toss-native-" b else c

abbrev pub is_same : Option String → String → Bool
is_same none b = false
is_same (some a) b = str_eq a b

module _ {R : Type 0} (b : BrokerOrder R) (now : String) where
  -- The row is one of the order: it has its client id, or its broker id.
  abbrev pub denotes : OrderRow R → Bool
  denotes r =
      str_eq r.client_order_id (kept_id b.client_order_id b.broker_order_id)
      || is_same r.broker_order_id b.broker_order_id

  -- The row with the broker's values; its ids, its environment and its creation stay.
  abbrev pub refilled : OrderRow R → OrderRow R
  refilled r = record {
    id = r.id;
    client_order_id = r.client_order_id;
    broker_order_id = some b.broker_order_id;
    symbol = b.symbol;
    market = b.market;
    env = r.env;
    side = b.side;
    order_type = b.order_type;
    qty = b.qty;
    price = b.price;
    status = b.status;
    created_at = r.created_at;
    updated_at = now;
  }

  -- A row of the order that has none yet.
  abbrev pub first_row : ℕ → OrderRow R
  first_row n = record {
    id = n;
    client_order_id = kept_id b.client_order_id b.broker_order_id;
    broker_order_id = some b.broker_order_id;
    symbol = b.symbol;
    market = b.market;
    env = "prod";
    side = b.side;
    order_type = b.order_type;
    qty = b.qty;
    price = b.price;
    status = b.status;
    created_at = b.ordered_at;
    updated_at = now;
  }

  abbrev pub appended : Store R → Store R
  appended s = record {
    orders = s.orders ++ first_row s.next_id ∷ [];
    fills = s.fills;
    positions = s.positions;
    next_id = s.next_id + 1;
  }

  -- The rows with the client id of `row` are filled again, and no others.
  abbrev pub refilled_like : OrderRow R → Store R → Store R
  refilled_like row s = record {
    orders =
        map (λ r. if str_eq r.client_order_id row.client_order_id then refilled r else r) s.orders;
    fills = s.fills;
    positions = s.positions;
    next_id = s.next_id;
  }

  update_where-map :
      (c : String) (xs : List (OrderRow R))
      → update_where (with_client c) (overwrite b now) xs
        ≡ map (λ r. if str_eq r.client_order_id c then refilled r else r) xs
  unfolding update_where
  update_where-map c [] = refl
  update_where-map c (x ∷ xs) = ground (arith, update_where-map c xs)

  no_client :
      (xs : List (OrderRow R))
      → All (λ r. denotes r ≡ false) xs
      → find (with_client (kept_id b.client_order_id b.broker_order_id)) xs ≡ none
  unfolding find
  no_client [] h = refl
  no_client (x ∷ xs) (h, hs) = ground (arith, no_client xs hs)

  pub upsert_broker_order-appended :
      (s : Store R)
      → All (λ r. denotes r ≡ false) s.orders
      → upsert_broker_order b now s ≡ ok (appended s)
  unfolding upsert_broker_order insert_order fetch_existing
  upsert_broker_order-appended s h =
      let unmatched : find (matches b) s.orders ≡ none = All-find denotes s.orders h in
      let unused : find (with_client (effective_client_id b)) s.orders ≡ none =
        no_client s.orders h in
      ground (arith, unmatched, unused)

  -- No UNIQUE constraint ever stops `upsert_broker_order`. If a row has the client id or the
  -- broker id of the order, then the rows with the client id of the first such row get the
  -- broker's values and the time of the write, keep their row id, client id, environment and time
  -- of creation, and all other rows stay as they are, each at its place. If there is none, one row
  -- is added at the end with the next row id. Fills and positions stay. The client id of an order
  -- that the broker gives none, or an empty one, is made of its broker id.
  pub upsert_broker_order-effect :
      (s : Store R)
      → ((row : OrderRow R) × IsFirst denotes row s.orders
          × (upsert_broker_order b now s ≡ ok (refilled_like row s)))
        ⊎ (All (λ r. denotes r ≡ false) s.orders × (upsert_broker_order b now s ≡ ok (appended s)))
  unfolding upsert_broker_order
  upsert_broker_order-effect s = elim (Option-cases (find (matches b) s.orders)) [
    | inl h ↦
        let unmatched = find-none denotes s.orders h in
        inr (unmatched, upsert_broker_order-appended s unmatched)
    | inr (row, h) ↦ inl (
      row,
      find-IsFirst denotes s.orders row h,
      ground (arith, h, update_where-map row.client_order_id s.orders),
    )
  ]
