-- ===== src/Executor/Idempotent.antt =====
-- A call of `submit` that nothing interrupts, and what a later call of the same client id does.
use mathlib.Core.Path.{subst}
use text.Mathlib.TextPositions.{eq_refl}
use quanteo.Base.{◌+◌, ◌∙◌, ◌≡◌, refl, sym, ap, String, Option, none, some, [], ◌∷◌, ◌++◌, arith}
use quanteo.Base.Result.{Result, ok, err, runtime_error}
use quanteo.Float.{Float}
use quanteo.Domain.{Order, Status, submitted, rejected}
use quanteo.Store.{Store, OrderRow, fetch_existing, insert_order, update_order_status, set_status}
use quanteo.Store.Lookup.{fetch-update_order_status, fetch-insert_order}
use quanteo.Executor.{
  OrderAck, World, Phase, finished, known, after_call, order_row, advance, submit,
}

-- The broker's verdict in the row.
abbrev pub verdict : Result OrderAck → Status
verdict (ok ack) = submitted
verdict (err e) = rejected

abbrev pub broker_id : Result OrderAck → Option String
broker_id (ok ack) = some ack.broker_order_id
broker_id (err e) = none

module _ {R : Type 0} ⦃f : Float R⦄ where
  abbrev inserted : Order R → String → Store R → Store R
  inserted o now s = record s {
    orders = s.orders ++ (record (order_row o now) { id = s.next_id }) ∷ [];
    next_id = s.next_id + 1;
  }

  abbrev sent_world : Order R → String → World R → World R
  sent_world o now w = record w {
    store = inserted o now w.store;
    sent = w.sent ++ o.client_order_id ∷ [];
  }

  module _ (answer : Order R → Result OrderAck) (now : String) (o : Order R) (w : World R) where
    -- A call that finds the order returns what it finds, in the unchanged world.
    submit-known :
        (row : OrderRow R)
        → fetch_existing o.client_order_id w.store ≡ some row
        → submit answer now o w ≡ (finished (known o row), w)
    unfolding submit
    submit-known row h = simp h

    submit_steps :
        fetch_existing o.client_order_id w.store ≡ none
        → submit answer now o w ≡ advance answer now (after_call o (answer o)) (sent_world o now w)
    unfolding submit insert_order fetch_existing
    submit_steps h = simp h

    insert_steps :
        fetch_existing o.client_order_id w.store ≡ none
        → insert_order (order_row o now) w.store ≡ ok (inserted o now w.store)
    unfolding insert_order
    insert_steps h = rw (h, insert_order)

    fetch_inserted :
        fetch_existing o.client_order_id w.store ≡ none
        → fetch_existing o.client_order_id (inserted o now w.store)
          ≡ some (record (order_row o now) { id = w.store.next_id })
    fetch_inserted h =
        fetch-insert_order o.client_order_id (order_row o now) w.store (insert_steps h)
        ∙ simp eq_refl

    -- The state in which a first call leaves the world, by the broker's verdict.
    pub record Settled (r : Result OrderAck) (p : Phase R) (w' : World R) : Type 0 where
      pub row : OrderRow R
      pub returned : p ≡ finished r
      pub found : fetch_existing o.client_order_id w'.store ≡ some row
      pub status_eq : row.status ≡ verdict r
      pub broker_eq : row.broker_order_id ≡ broker_id r
      pub sent_eq : w'.sent ≡ w.sent ++ o.client_order_id ∷ []

    fetch_settled :
        fetch_existing o.client_order_id w.store ≡ none
        → (st : Status) (b : Option String)
        → fetch_existing o.client_order_id
            (update_order_status o.client_order_id st b now (inserted o now w.store))
          ≡ some (set_status st b now (record (order_row o now) { id = w.store.next_id }))
    fetch_settled h st b =
        fetch-update_order_status o.client_order_id o.client_order_id st b now
          (inserted o now w.store)
        ∙ simp (eq_refl, fetch_inserted h)

    settle :
        fetch_existing o.client_order_id w.store ≡ none
        → (r : Result OrderAck)
        → let (p, w') = advance answer now (after_call o r) (sent_world o now w) in Settled r p w'
    unfolding advance
    settle h (ok ack) = record {
      row =
          set_status submitted (some ack.broker_order_id) now
            (record (order_row o now) { id = w.store.next_id });
      returned = refl;
      found = fetch_settled h submitted (some ack.broker_order_id);
      status_eq = refl;
      broker_eq = refl;
      sent_eq = refl;
    }
    settle h (err e) = record {
      row = set_status rejected none now (record (order_row o now) { id = w.store.next_id });
      returned = refl;
      found = fetch_settled h rejected none;
      status_eq = refl;
      broker_eq = refl;
      sent_eq = refl;
    }

    -- The first `submit` of a client id runs to its end and returns, or raises, what the broker
    -- answers. The broker is called once, and the row of the order says `submitted` with the broker's
    -- id if it accepted, and `rejected` without one if it raised.
    pub submit-Settled :
        fetch_existing o.client_order_id w.store ≡ none
        → Settled (answer o) (submit answer now o w).0 (submit answer now o w).1
    submit-Settled h =
        subst (λ v. Settled (answer o) v.0 v.1) (sym (submit_steps h)) (settle h (answer o))

  -- What a repeated submission returns, by the broker's answer to the first.
  abbrev pub echo : Order R → Result OrderAck → Result OrderAck
  echo o (ok ack) = ok record {
    client_order_id = o.client_order_id;
    broker_order_id = ack.broker_order_id;
    symbol = o.symbol;
    status = submitted;
  }
  echo o (err e) = err runtime_error

  known-echo :
      (o : Order R) (row : OrderRow R) (r : Result OrderAck)
      → row.status ≡ verdict r
      → row.broker_order_id ≡ broker_id r
      → known o row ≡ echo o r
  known-echo o row (ok ack) p q = ground arith
  known-echo o row (err e) p q = ground arith

  -- Idempotence: after a first `submit`, a second one with the same client id, whatever the broker
  -- would answer by then, does not call it and changes nothing. It returns the broker's first id, or
  -- raises if the broker had refused.
  pub submit_again :
      (answer again : Order R → Result OrderAck) (now later : String) (o o' : Order R) (w : World R)
      → fetch_existing o.client_order_id w.store ≡ none
      → o'.client_order_id ≡ o.client_order_id
      → let w' = (submit answer now o w).1 in
        submit again later o' w' ≡ (finished (echo o' (answer o)), w')
  submit_again answer again now later o o' w h same =
      let v = submit-Settled answer now o w h in
      let w' = (submit answer now o w).1 in
      submit-known again later o' w' v.row (ap (λ c. fetch_existing c w'.store) same ∙ v.found)
      ∙ ap (λ r. (finished r, w')) (known-echo o' v.row (answer o) v.status_eq v.broker_eq)
