-- ===== src/Store/Keys.antt =====
-- How often a client id stands in `orders`: every statement keeps it unique, and none removes a row.
use quanteo.Base.{
  ℕ, ◌+◌, ◌≤◌, ◌≡◌, ◌⊎◌, refl, ap, String, Bool, Option, none, some, List, [], ◌∷◌, arith, str_eq,
  eq_iff, if◌then◌else◌, count_if, count_if-append, inl, inr, Option-cases,
}
use quanteo.Base.Result.{ok}
use quanteo.Domain.{Status}
use quanteo.Store.{
  Store, OrderRow, BrokerOrder, with_client, set_status, overwrite, new_row, matches,
  effective_client_id, find, update_where, fetch_existing, insert_order, update_order_status,
  upsert_broker_order,
}

pub find-count : {A : Type 0} (p : A → Bool) (xs : List A) → find p xs ≡ none → count_if p xs ≡ 0
unfolding find
find-count p [] h = refl
find-count p (x ∷ xs) h = ground (arith, find-count p xs)

pub count-find :
    {A : Type 0} (p : A → Bool) (xs : List A) (x : A) → find p xs ≡ some x → 1 ≤ count_if p xs
unfolding find
count-find p [] x h = cc
count-find p (y ∷ xs) x h = ground (arith, count-find p xs x)

module _ {R : Type 0} where
  -- The rows of a client id.
  abbrev pub rows : String → Store R → ℕ
  rows c s = count_if (with_client c) s.orders

  -- A rewrite of rows that keeps their client ids.
  count-update_where :
      (c : String) (p : OrderRow R → Bool) (g : OrderRow R → OrderRow R)
      → ((r : OrderRow R) → (g r).client_order_id ≡ r.client_order_id)
      → (xs : List (OrderRow R))
      → count_if (with_client c) (update_where p g xs) ≡ count_if (with_client c) xs
  unfolding update_where
  count-update_where c p g same [] = refl
  count-update_where c p g same (x ∷ xs) =
      ground (arith, ap (λ t. str_eq t c) (same x), count-update_where c p g same xs)

  pub client-set_status :
      (st : Status) (b : Option String) (now : String) (r : OrderRow R)
      → (set_status st b now r).client_order_id ≡ r.client_order_id
  client-set_status st none now r = refl
  client-set_status st (some b) now r = refl

  pub rows-update_order_status :
      (j c : String) (st : Status) (b : Option String) (now : String) (s : Store R)
      → rows j (update_order_status c st b now s) ≡ rows j s
  unfolding update_order_status
  rows-update_order_status j c st b now s =
      count-update_where j (with_client c) (set_status st b now) (client-set_status st b now)
        s.orders

  -- An insertion succeeds for a new client id only, and adds one row of it.
  pub rows-insert_order :
      (j : String) (r : OrderRow R) (s : Store R) {t : Store R}
      → insert_order r s ≡ ok t
      → (rows r.client_order_id s ≡ 0)
        × (rows j t ≡ rows j s + (if str_eq r.client_order_id j then 1 else 0))
  unfolding insert_order fetch_existing
  rows-insert_order j r s e = ground (
    arith,
    find-count (with_client r.client_order_id) s.orders,
    count_if-append (with_client j) s.orders ((record r { id = s.next_id }) ∷ []),
  )

  -- `upsert_broker_order` keeps the number of rows of every client id, or adds the first row of its own.
  pub rows-upsert_broker_order :
      (j : String) (b : BrokerOrder R) (now : String) (s : Store R) {t : Store R}
      → upsert_broker_order b now s ≡ ok t
      → (rows j t ≡ rows j s) ⊎ ((effective_client_id b ≡ j) × (rows j s ≡ 0) × (rows j t ≡ 1))
  unfolding upsert_broker_order
  rows-upsert_broker_order j b now s {t} e = elim (Option-cases (find (matches b) s.orders)) [
    | inr (row, h) ↦ ground (
      arith,
      count-update_where j (with_client row.client_order_id) (overwrite b now) (λ r. refl) s.orders,
    )
    | inl h ↦ ground (
      arith,
      rows-insert_order j (new_row b now) s {t = t},
      eq_iff (effective_client_id b) j,
      rows-insert_order (effective_client_id b) (new_row b now) s {t = t},
    )
  ]
