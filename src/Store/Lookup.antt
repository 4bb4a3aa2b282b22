-- ===== src/Store/Lookup.antt =====
-- What a lookup by client id finds after each statement.
use mathlib.Core.Option
use mathlib.Core.Path.{subst}
use quanteo.Base.{
  ◌≡◌, ap, String, Bool, Option, none, some, List, [], ◌∷◌, ◌++◌, arith, str_eq, eq_iff,
  if◌then◌else◌, inl, inr, Bool-cases,
}
use quanteo.Base.Result.{ok}
use quanteo.Domain.{Status}
use quanteo.Store.{
  Store, OrderRow, with_client, set_status, find, update_where, fetch_existing, insert_order,
  update_order_status,
}
use quanteo.Store.Keys.{client-set_status}

pub find-append :
    {A : Type 0} (p : A → Bool) (xs : List A) (x : A)
    → find p (xs ++ x ∷ [])
      ≡ elim (find p xs) [ some y ↦ some y | none ↦ if p x then some x else none ]
unfolding find
find-append p [] x = ground arith
find-append p (y ∷ xs) x = ground (arith, find-append p xs x)

module _ {R : Type 0} where
  find-update_where :
      (j c : String) (g : OrderRow R → OrderRow R)
      → ((r : OrderRow R) → (g r).client_order_id ≡ r.client_order_id)
      → (xs : List (OrderRow R))
      → find (with_client j) (update_where (with_client c) g xs)
        ≡ (if str_eq c j then Option.map g (find (with_client j) xs) else find (with_client j) xs)
  unfolding find update_where
  find-update_where j c g same [] = ground arith
  find-update_where j c g same (x ∷ xs) = ground (
    arith,
    find-update_where j c g same xs,
    ap (λ t. str_eq t j) (same x),
    eq_iff x.client_order_id j,
    eq_iff x.client_order_id c,
    eq_iff c j,
  )

  -- A status change reaches exactly the rows of its client id.
  pub fetch-update_order_status :
      (j c : String) (st : Status) (b : Option String) (now : String) (s : Store R)
      → fetch_existing j (update_order_status c st b now s) ≡ (
          if str_eq c j
          then Option.map (set_status st b now) (fetch_existing j s)
          else fetch_existing j s)
  unfolding fetch_existing update_order_status
  fetch-update_order_status j c st b now s =
      find-update_where j c (set_status st b now) (client-set_status st b now) s.orders

  -- An inserted row is found under its client id, with its row id; the other ids are as before.
  pub fetch-insert_order :
      (j : String) (r : OrderRow R) (s : Store R) {t : Store R}
      → insert_order r s ≡ ok t
      → fetch_existing j t ≡ (
          if str_eq r.client_order_id j
          then some (record r { id = s.next_id })
          else fetch_existing j s)
  unfolding insert_order fetch_existing
  fetch-insert_order j r s {t} e =
      let row = record r { id = s.next_id } in
      elim (Bool-cases (str_eq r.client_order_id j)) [
        | inr other ↦ ground (arith, find-append (with_client j) s.orders row)
        | inl same ↦
            let free : find (with_client r.client_order_id) s.orders ≡ none = ground arith in
            let free_j : find (with_client j) s.orders ≡ none =
              subst (λ d. find (with_client d) s.orders ≡ none)
                ((eq_iff r.client_order_id j).0 same) free in
            ground (arith, find-append (with_client j) s.orders row)
      ]
