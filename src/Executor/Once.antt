-- ===== src/Executor/Once.antt =====
-- Any number of `submit` calls, interleaved at their awaits with each other, with fills and with the
-- feeds that write the same table: no order is sent twice.
use mathlib.Core.Path.{subst}
use quanteo.Base.{
  ℕ, zero, suc, ◌+◌, ◌≤◌, ◌≡◌, refl, String, Bool, false, Option, none, some, List, [], ◌∷◌, ◌++◌,
  arith, str_eq, if◌then◌else◌, count_if, count_if-append, inl, inr, Bool-cases, eq_iff,
}
use quanteo.Base.Int.{ℤ}
use quanteo.Base.Result.{Result, ok, err}
use quanteo.Float.{Float}
use quanteo.Domain.{Order, Status, submitted, rejected}
use quanteo.Store.{
  Store, BrokerOrder, OrderRow, fetch_existing, insert_order, update_order_status,
  upsert_broker_order,
}
use quanteo.Store.Keys.{rows, rows-update_order_status, rows-insert_order, rows-upsert_broker_order}
use quanteo.Executor.{
  OrderAck, World, Phase, fresh, checked, stored, answered, failed, finished, after_insert,
  order_row, advance, record_fill, after_lookup, add_fill, fill_row, fill_status, total_filled,
}

-- What can happen next. `turn i` lets the i-th call go on to its next await; the others are a new
-- call, a status change by `OrderSyncFeed`, a broker order by `OrderHistorySyncFeed`, and a fill.
pub data Move (R : Type 0) : Type 0 where
  arrive : Order R → Move R
  turn : ℕ → (Order R → Result OrderAck) → String → Move R
  status_change : String → Status → Option String → String → Move R
  observe : BrokerOrder R → String → Move R
  fill : String → ℤ → R → String → Move R

pub record System (R : Type 0) : Type 0 where
  pub tasks : List (Phase R)
  pub world : World R

abbrev keep_on_error : {R : Type 0} → World R → Result (Store R) → World R
keep_on_error w (ok s) = record w { store = s }
keep_on_error w (err e) = w

abbrev pub times : String → List String → ℕ
times c = count_if (λ d. str_eq d c)

-- The call is about to send the order `c`.
abbrev pub is_sending : {R : Type 0} → String → Phase R → Bool
is_sending c (stored o) = str_eq o.client_order_id c
is_sending c _ = false

module _ {R : Type 0} ⦃f : Float R⦄ where
  unfoldable pub advance_at :
      ℕ → (Order R → Result OrderAck) → String → List (Phase R) → World R → List (Phase R) × World R
  advance_at i answer now [] w = ([], w)
  advance_at zero answer now (p ∷ ps) w = let (p', w') = advance answer now p w in (p' ∷ ps, w')
  advance_at (suc i) answer now (p ∷ ps) w =
      let (ps', w') = advance_at i answer now ps w in (p ∷ ps', w')

  unfoldable pub move : Move R → System R → System R
  unfolding advance_at
  move (arrive o) s = record s { tasks = s.tasks ++ fresh o ∷ [] }
  move (turn i answer now) s =
      let (ps, w) = advance_at i answer now s.tasks s.world in record { tasks = ps; world = w }
  move (status_change c st b now) s = record s {
    world = record s.world { store = update_order_status c st b now s.world.store };
  }
  move (observe b now) s = record s {
    world = keep_on_error s.world (upsert_broker_order b now s.world.store);
  }
  move (fill c qty price now) s = record s { world = (record_fill c qty price now s.world).1 }

  unfoldable pub run : List (Move R) → System R → System R
  unfolding move
  run [] s = s
  run (m ∷ ms) s = run ms (move m s)

  -- The accounts of one client id: what was sent and what is about to be sent has a row, and there
  -- is at most one row.
  pub record IsOnce (c : String) (ps : List (Phase R)) (w : World R) : Type 0 where
    pub covered : times c w.sent + count_if (is_sending c) ps ≤ rows c w.store
    pub unique : rows c w.store ≤ 1

  insert-accounts :
      (c : String) (o : Order R) (now : String) (w : World R) (r : Result (Store R))
      → insert_order (order_row o now) w.store ≡ r
      → rows c w.store ≤ 1
      → let (p', w') = after_insert o w r in
        (times c w'.sent + (if is_sending c p' then 1 else 0) + rows c w.store
          ≤ times c w.sent + rows c w'.store)
        × (rows c w'.store ≤ 1)
  insert-accounts c o now w (err e) eq u = ground arith
  insert-accounts c o now w (ok t) eq u =
      let (new, counted) = rows-insert_order c (order_row o now) w.store eq in
      elim (Bool-cases (str_eq o.client_order_id c)) [
        | inl same ↦
            let first : rows c w.store ≡ 0 =
              subst (λ d. rows d w.store ≡ 0) ((eq_iff o.client_order_id c).0 same) new in
            ground arith
        | inr other ↦ ground arith
      ]

  advance-accounts :
      (c : String) (answer : Order R → Result OrderAck) (now : String) (p : Phase R) (w : World R)
      → rows c w.store ≤ 1
      → let (p', w') = advance answer now p w in
        (times c w'.sent + (if is_sending c p' then 1 else 0) + rows c w.store
          ≤ times c w.sent + (if is_sending c p then 1 else 0) + rows c w'.store)
        × (rows c w'.store ≤ 1)
  unfolding advance
  advance-accounts c answer now (fresh o) w u = ground arith
  advance-accounts c answer now (checked o) w u =
      let (accounts, unique) =
        insert-accounts c o now w (insert_order (order_row o now) w.store) refl u in
      (omega arith, unique)
  advance-accounts c answer now (stored o) w u =
      ground (arith, count_if-append (λ d. str_eq d c) w.sent (o.client_order_id ∷ []))
  advance-accounts c answer now (answered o ack) w u = ground (
    arith,
    rows-update_order_status c o.client_order_id submitted (some ack.broker_order_id) now w.store,
  )
  advance-accounts c answer now (failed o e) w u =
      ground (arith, rows-update_order_status c o.client_order_id rejected none now w.store)
  advance-accounts c answer now (finished r) w u = ground arith

  advance_at-accounts :
      (c : String) (i : ℕ) (answer : Order R → Result OrderAck) (now : String) (ps : List (Phase R))
      (w : World R)
      → rows c w.store ≤ 1
      → let (ps', w') = advance_at i answer now ps w in
        (times c w'.sent + count_if (is_sending c) ps' + rows c w.store
          ≤ times c w.sent + count_if (is_sending c) ps + rows c w'.store)
        × (rows c w'.store ≤ 1)
  unfolding advance_at
  advance_at-accounts c i answer now [] w u = ground arith
  advance_at-accounts c zero answer now (p ∷ ps) w u =
      let (accounts, unique) = advance-accounts c answer now p w u in (omega arith, unique)
  advance_at-accounts c (suc i) answer now (p ∷ ps) w u =
      let (accounts, unique) = advance_at-accounts c i answer now ps w u in (omega arith, unique)

  after_lookup-accounts :
      (c d : String) (qty : ℤ) (price : R) (now : String) (w : World R) (row : Option (OrderRow R))
      → let w' = (after_lookup d qty price now w row).1 in
        (w'.sent ≡ w.sent) × (rows c w'.store ≡ rows c w.store)
  after_lookup-accounts c d qty price now w none = (refl, refl)
  after_lookup-accounts c d qty price now w (some row) =
      let s = add_fill (fill_row row d qty price now) w.store in
      (refl, rows-update_order_status c d (fill_status row (total_filled d s)) none now s)

  record_fill-accounts :
      (c d : String) (qty : ℤ) (price : R) (now : String) (w : World R)
      → let w' = (record_fill d qty price now w).1 in
        (w'.sent ≡ w.sent) × (rows c w'.store ≡ rows c w.store)
  unfolding record_fill
  record_fill-accounts c d qty price now w =
      after_lookup-accounts c d qty price now w (fetch_existing d w.store)

  observe-accounts :
      (c : String) (b : BrokerOrder R) (now : String) (w : World R) (r : Result (Store R))
      → upsert_broker_order b now w.store ≡ r
      → rows c w.store ≤ 1
      → let w' = keep_on_error w r in
        (w'.sent ≡ w.sent) × (rows c w.store ≤ rows c w'.store) × (rows c w'.store ≤ 1)
  observe-accounts c b now w (err e) eq u = ground arith
  observe-accounts c b now w (ok t) eq u =
      ground (arith, rows-upsert_broker_order c b now w.store {t = t})

  move-IsOnce :
      (c : String) (m : Move R) (s : System R)
      → IsOnce c s.tasks s.world
      → IsOnce c (move m s).tasks (move m s).world
  unfolding move
  move-IsOnce c (arrive o) s v =
      ground (arith, count_if-append (is_sending c) s.tasks (fresh o ∷ []))
  move-IsOnce c (turn i answer now) s v =
      ground (arith, advance_at-accounts c i answer now s.tasks s.world v.unique)
  move-IsOnce c (status_change d st b now) s v =
      ground (arith, rows-update_order_status c d st b now s.world.store)
  move-IsOnce c (observe b now) s v = ground (
    arith,
    observe-accounts c b now s.world (upsert_broker_order b now s.world.store) refl v.unique,
  )
  move-IsOnce c (fill d qty price now) s v =
      ground (arith, record_fill-accounts c d qty price now s.world)

  run-IsOnce :
      (c : String) (ms : List (Move R)) (s : System R)
      → IsOnce c s.tasks s.world
      → IsOnce c (run ms s).tasks (run ms s).world
  unfolding run
  run-IsOnce c [] s v = v
  run-IsOnce c (m ∷ ms) s v = run-IsOnce c ms (move m s) (move-IsOnce c m s v)

  -- However the calls of `submit` interleave, with each other and with the other writers of the
  -- table, the broker is asked at most once to place the order of one client id. It holds from every
  -- state in which no call is at its `place_order`, the id has at most one row, and what was sent of
  -- it has that row.
  pub sent_once :
      (c : String) (ms : List (Move R)) (s : System R)
      → count_if (is_sending c) s.tasks ≡ 0
      → rows c s.world.store ≤ 1
      → times c s.world.sent ≤ rows c s.world.store
      → times c (run ms s).world.sent ≤ 1
  sent_once c ms s idle unique covered =
      let v = run-IsOnce c ms s (record { covered = omega arith; unique = unique }) in
      omega (arith, v.covered, v.unique)
