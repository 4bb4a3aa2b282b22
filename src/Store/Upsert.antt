-- ===== src/Store/Upsert.antt =====
-- `upsert_broker_order`: a broker order is found again, and writing it twice is writing it once.
use mathlib.Core.Path.{subst}
use text.Mathlib.TextPositions.{eq_refl}
use quanteo.Base.{
  ℕ, ◌≡◌, ◌≢◌, ◌∙◌, refl, sym, ap, String, Bool, true, none, some, List, [], ◌∷◌, ◌++◌, arith,
  eq_iff, if◌then◌else◌, inl, inr, Bool-cases, Option-cases,
}
use quanteo.Base.Result.{ok}
use quanteo.Store.Lookup.{find-append}
use quanteo.Store.{
  Store, OrderRow, BrokerOrder, with_client, overwrite, new_row, matches, effective_client_id, find,
  update_where, fetch_existing, insert_order, upsert_broker_order,
}

module _ {R : Type 0} (b : BrokerOrder R) (now : String) where
  matches-overwrite : (r : OrderRow R) → matches b (overwrite b now r) ≡ true
  matches-overwrite r = ground (arith, eq_refl b.broker_order_id)

  -- After the rewrite of the rows of `c`, of which one matches, the first match is a row of `c`.
  find-overwrite :
      (c : String) (xs : List (OrderRow R)) (row : OrderRow R)
      → find (matches b) xs ≡ some row
      → row.client_order_id ≡ c
      → (r : OrderRow R) × (find (matches b) (update_where (with_client c) (overwrite b now) xs)
          ≡ some r)
        × (r.client_order_id ≡ c)
  unfolding find update_where
  find-overwrite c [] row h e = cc
  find-overwrite c (x ∷ xs) row h e = elim (Bool-cases (with_client c x)) [
    | inl mine ↦ (
      overwrite b now x,
      ground (arith, matches-overwrite x),
      (eq_iff x.client_order_id c).0 mine,
    )
    | inr other ↦ elim (Bool-cases (matches b x)) [
      | inl here ↦
          let same : x ≡ row = ground arith in
          absurd (
            ground (
              arith,
              same,
              e,
              (eq_iff x.client_order_id c).1 (ap (λ r. r.client_order_id) same ∙ e),
            ))
      | inr past ↦
          let rest : find (matches b) xs ≡ some row = ground arith in
          let (r, found, client) = find-overwrite c xs row rest e in
          (r, ground (arith, found), client)
    ]
  ]

  overwrite_twice :
      (c : String) (xs : List (OrderRow R))
      → update_where
          (with_client c)
          (overwrite b now)
          (update_where (with_client c) (overwrite b now) xs)
        ≡ update_where (with_client c) (overwrite b now) xs
  unfolding update_where
  overwrite_twice c [] = refl
  overwrite_twice c (x ∷ xs) = ground (arith, overwrite_twice c xs)

  update_where-none :
      (c : String) (g : OrderRow R → OrderRow R) (xs : List (OrderRow R))
      → find (with_client c) xs ≡ none
      → update_where (with_client c) g xs ≡ xs
  unfolding find update_where
  update_where-none c g [] h = refl
  update_where-none c g (x ∷ xs) h = ground (arith, update_where-none c g xs)

  update_where-append :
      (p : OrderRow R → Bool) (g : OrderRow R → OrderRow R) (xs ys : List (OrderRow R))
      → update_where p g (xs ++ ys) ≡ update_where p g xs ++ update_where p g ys
  unfolding update_where
  update_where-append p g [] ys = refl
  update_where-append p g (x ∷ xs) ys =
      ap (λ t. (if p x then g x else x) ∷ t) (update_where-append p g xs ys)

  -- The rows are as a write of the order leaves them: its first match has a client id whose rows
  -- another write would not change.
  abbrev Written : List (OrderRow R) → Type 0
  Written xs =
      (r : OrderRow R) × (find (matches b) xs ≡ some r)
      × (update_where (with_client r.client_order_id) (overwrite b now) xs ≡ xs)

  overwrite-Written :
      (xs : List (OrderRow R)) (row : OrderRow R)
      → find (matches b) xs ≡ some row
      → Written (update_where (with_client row.client_order_id) (overwrite b now) xs)
  overwrite-Written xs row first =
      let c = row.client_order_id in
      let (r, found, client) = find-overwrite c xs row first refl in
      (
        r,
        found,
        subst
            (λ d.
              update_where (with_client d) (overwrite b now)
                (update_where (with_client c) (overwrite b now) xs)
              ≡ update_where (with_client c) (overwrite b now) xs)
            (sym client) (overwrite_twice c xs),
      )

  new_row-Written :
      (xs : List (OrderRow R)) (n : ℕ)
      → find (matches b) xs ≡ none
      → find (with_client (effective_client_id b)) xs ≡ none
      → Written (xs ++ (record (new_row b now) { id = n }) ∷ [])
  unfolding update_where
  new_row-Written xs n free unused =
      let r : OrderRow R = record (new_row b now) { id = n } in
      let c = effective_client_id b in
      (
        r,
        ground (arith, find-append (matches b) xs r, eq_refl c),
        update_where-append (with_client c) (overwrite b now) xs (r ∷ [])
            ∙ ground (arith, update_where-none c (overwrite b now) xs unused, eq_refl c),
      )

  upsert-Written :
      (s : Store R) {t : Store R} → upsert_broker_order b now s ≡ ok t → Written t.orders
  unfolding upsert_broker_order insert_order fetch_existing
  upsert-Written s {t} h = elim (Option-cases (find (matches b) s.orders)) [
    | inr (row, first) ↦ subst Written (ground arith) (overwrite-Written s.orders row first)
    | inl free ↦
        let c = effective_client_id b in
        elim (Option-cases (find (with_client c) s.orders)) [
          | inl unused ↦
              subst Written (ground arith) (new_row-Written s.orders s.next_id free unused)
          | inr (old, used) ↦ absurd (ground arith)
        ]
  ]

  -- Writing a broker order a second time, with the same reply and at the same time, succeeds and
  -- changes nothing; after a successful write the order is found by its ids.
  pub upsert_broker_order-twice :
      (s : Store R) {t : Store R}
      → upsert_broker_order b now s ≡ ok t
      → (upsert_broker_order b now t ≡ ok t) × (find (matches b) t.orders ≢ none)
  unfolding upsert_broker_order
  upsert_broker_order-twice s {t} h =
      let (r, found, still) = upsert-Written s h in
      (ground (arith, found, still), ground (arith, found))
