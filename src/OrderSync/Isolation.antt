-- ===== src/OrderSync/Isolation.antt =====
-- The orders of one pass do not affect each other.
use mathlib.Core.Option
use text.Mathlib.TextPositions.{eq_refl}
use quanteo.Base.{
  ◌≡◌, ◌∙◌, refl, ap, String, Bool, false, Option, none, some, List, [], ◌∷◌, ◌++◌, arith, str_eq,
  if◌then◌else◌, All, Bool-cases, inl, inr,
}
use quanteo.Base.Result.{Result, ok, err}
use quanteo.Domain.{Status, filled, cancelled, rejected}
use quanteo.Store.{PendingOrder, OrderRow, fetch_existing}
use quanteo.Store.Lookup.{fetch-update_order_status}
use quanteo.OrderSync.{
  Tables, closed_status, of_reply, of_id, known_id, new_status, write, sync_order, sync_orders,
}

-- None of the orders is the one with this client id.
abbrev pub Others : {R : Type 0} → String → List (PendingOrder R) → Type 0
Others c = All (λ o. str_eq o.client_order_id c ≡ false)

-- The local status of an order that the broker says is closed.
abbrev pub closed_as : String → Option Status
closed_as s =
    if str_eq "FILLED" s
    then some filled
    else if str_eq "CANCELED" s
    then some cancelled
    else if str_eq "REJECTED" s
    then some rejected
    else if str_eq "REPLACED" s
    then some cancelled
    else none

abbrev pub reply_verdict : Result String → Option Status
reply_verdict (ok s) = closed_as s
reply_verdict (err e) = none

-- The status that the broker's reply on an order calls for: none without a broker id, without a reply
-- and for a status that is not a closed one.
abbrev pub verdict : (String → Result String) → Option String → Option Status
verdict get_order none = none
verdict get_order (some b) = if str_eq b "" then none else reply_verdict (get_order b)

closed_status-closed_as : (s : String) → closed_status s ≡ closed_as s
unfolding closed_status
closed_status-closed_as s = ground arith

of_reply-verdict : (r : Result String) → of_reply r ≡ reply_verdict r
of_reply-verdict (ok s) = closed_status-closed_as s
of_reply-verdict (err e) = refl

of_id-verdict :
    (get_order : String → Result String) (id : Option String)
    → of_id get_order (known_id id) ≡ verdict get_order id
of_id-verdict get_order none = refl
of_id-verdict get_order (some b) = elim (Bool-cases (str_eq b "")) [
  | inl e ↦ simp e
  | inr e ↦ simp (e, of_reply-verdict)
]

module _ {R : Type 0} (get_order : String → Result String) (write_fails : String → Bool)
    (now : String) where
  -- The row with a new status, as written now.
  abbrev pub restated : Status → OrderRow R → OrderRow R
  restated st r = record r { status = st; updated_at = now }

  -- The row of an order after a verdict on it; it stays where there is none or where the write fails.
  abbrev pub expected : PendingOrder R → Option Status → Option (OrderRow R) → Option (OrderRow R)
  expected o none row = row
  expected o (some st) row =
      if write_fails o.client_order_id then row else Option.map (restated st) row

  new_status-verdict :
      (o : PendingOrder R)
      → new_status get_order write_fails now o ≡ verdict get_order o.broker_order_id
  unfolding new_status
  new_status-verdict o = of_id-verdict get_order o.broker_order_id

  write-fetch :
      (c : String) (o : PendingOrder R) (st : Option Status) (w : Tables R)
      → fetch_existing c (write get_order write_fails now o st w).0 ≡ (
          if str_eq o.client_order_id c
          then expected o st (fetch_existing c w.0)
          else fetch_existing c w.0)
  write-fetch c o none w = ground arith
  write-fetch c o (some st) (s, b) =
      ground (arith, fetch-update_order_status c o.client_order_id st none now s)

  sync_orders-Others :
      (c : String) (os : List (PendingOrder R)) (w : Tables R)
      → Others c os
      → fetch_existing c (sync_orders get_order write_fails now os w).0 ≡ fetch_existing c w.0
  unfolding sync_orders
  sync_orders-Others c [] w h = refl
  sync_orders-Others c (o ∷ os) w (h, hs) =
      let w' = sync_order get_order write_fails now o w in
      sync_orders-Others c os w' hs
      ∙ write-fetch c o (new_status get_order write_fails now o) w
      ∙ simp h

  sync_orders-append :
      (xs ys : List (PendingOrder R)) (w : Tables R)
      → sync_orders get_order write_fails now (xs ++ ys) w
        ≡ sync_orders get_order write_fails now ys (sync_orders get_order write_fails now xs w)
  unfolding sync_orders
  sync_orders-append [] ys w = refl
  sync_orders-append (x ∷ xs) ys w =
      sync_orders-append xs ys (sync_order get_order write_fails now x w)

  -- In a pass over a list that has an order once, its row ends as the broker's reply on it says:
  -- FILLED makes it filled, CANCELED and REPLACED make it cancelled, REJECTED makes it rejected, with
  -- the time of the pass; at another status, a failed query, a missing or empty broker id or a failed
  -- write it stays. This is so whatever happens with the other orders of the list. A row of no order
  -- in the list stays as it is.
  pub sync_orders-expected :
      (before after : List (PendingOrder R)) (o : PendingOrder R) (w : Tables R)
      → Others o.client_order_id before
      → Others o.client_order_id after
      → let w' = sync_orders get_order write_fails now (before ++ o ∷ after) w in
        (fetch_existing o.client_order_id w'.0
          ≡ expected o (verdict get_order o.broker_order_id) (fetch_existing o.client_order_id w.0))
        × ((c : String)
            → Others c (before ++ o ∷ after)
            → fetch_existing c w'.0 ≡ fetch_existing c w.0)
  unfolding sync_orders
  sync_orders-expected before after o w hb ha =
      let c = o.client_order_id in
      let w₁ = sync_orders get_order write_fails now before w in
      let st = new_status get_order write_fails now o in
      (
        ap (λ v. fetch_existing c v.0) (sync_orders-append before (o ∷ after) w)
            ∙ sync_orders-Others c after (write get_order write_fails now o st w₁) ha
            ∙ write-fetch c o st w₁
            ∙ simp eq_refl (ap (expected o st) (sync_orders-Others c before w hb))
            ∙ ap (λ v. expected o v (fetch_existing c w.0)) (new_status-verdict o),
        λ d h. sync_orders-Others d (before ++ o ∷ after) w h,
      )
