-- ===== src/OrderHistory/Backfill.antt =====
-- The first cycles: the whole closed history, page by page.
use quanteo.Base.{
  ℕ, zero, suc, ◌≤◌, ◌<◌, ◌≡◌, ◌∙◌, refl, ap, String, true, false, Option, none, some, List, [],
  ◌++◌, arith, append_assoc, ◌+◌, length,
}
use quanteo.Base.Result.{ok}
use quanteo.Float.{Float}
use quanteo.Store.{Store}
use quanteo.OrderHistory.{
  TossOrder, Pages, max_backfill_pages, fetch_pages, fetch_all_closed_orders, closed_orders,
  sync_once,
}
use quanteo.OrderHistory.Rows.{Unseen, Apart, rows_of, reflect_all-rows}

module _ {R : Type 0} (closed : Pages R) where
  -- From this cursor the broker serves these orders, on so many pages.
  pub data Serves : Option String → ℕ → List (TossOrder R) → Type 0 where
    last :
        {cursor : Option String} {page : List (TossOrder R)}
        → closed cursor ≡ ok (page, none)
        → Serves cursor 1 page
    more :
        {cursor : Option String} {next : String} {n : ℕ} {page rest : List (TossOrder R)}
        → closed cursor ≡ ok (page, some next)
        → Serves (some next) n rest
        → Serves cursor (suc n) (page ++ rest)

  fetch_pages-Serves :
      (fuel : ℕ) (acc : List (TossOrder R)) {cursor : Option String} {n : ℕ}
      {os : List (TossOrder R)}
      → Serves cursor n os
      → n ≤ fuel
      → fetch_pages closed fuel cursor acc ≡ ok (acc ++ os, true)
  unfolding fetch_pages
  fetch_pages-Serves zero acc (last e) h = absurd (omega arith)
  fetch_pages-Serves zero acc (more e v) h = absurd (omega arith)
  fetch_pages-Serves (suc fuel) acc (last e) h = rw e
  fetch_pages-Serves (suc fuel) acc (more {page = page} {rest = rest} e v) h = rw e (
      fetch_pages-Serves fuel (acc ++ page) v (omega arith)
      ∙ ap (λ t. ok (t, true)) (append_assoc acc page rest))

  fetch_pages-cut :
      (fuel : ℕ) (acc : List (TossOrder R)) {cursor : Option String} {n : ℕ}
      {os : List (TossOrder R)}
      → Serves cursor n os
      → fuel < n
      → (part : List (TossOrder R)) × (fetch_pages closed fuel cursor acc ≡ ok (part, false))
  unfolding fetch_pages
  fetch_pages-cut zero acc v h = (acc, refl)
  fetch_pages-cut (suc fuel) acc (last e) h = absurd (omega arith)
  fetch_pages-cut (suc fuel) acc (more {page = page} e v) h =
      rw e (fetch_pages-cut fuel (acc ++ page) v (omega arith))

  -- The backfill of a history that the broker serves on `n` pages brings all its orders, in the
  -- broker's order, and says that it is complete, if there are at most a hundred pages. With more
  -- pages it says that it is not, so that the next cycle tries the whole history again.
  pub fetch_all_closed_orders_lem :
      (n : ℕ) (os : List (TossOrder R))
      → Serves none n os
      → (n ≤ max_backfill_pages → fetch_all_closed_orders closed ≡ ok (os, true))
        × (max_backfill_pages < n
            → (part : List (TossOrder R)) × (fetch_all_closed_orders closed ≡ ok (part, false)))
  unfolding fetch_all_closed_orders
  fetch_all_closed_orders_lem n os v =
      (fetch_pages-Serves max_backfill_pages [] v, fetch_pages-cut max_backfill_pages [] v)

module _ {R : Type 0} ⦃f : Float R⦄ (opens : List (TossOrder R)) (closed : Pages R) where
  -- The first successful cycle over a history of at most a hundred pages, for a table without rows
  -- of these orders, and orders with different ids: every open and every closed order with a
  -- status of the broker's ten gets a row of its own at the end of the table, in the broker's
  -- order, the open ones first, with its status, the market by its currency, price 0 where it has
  -- none, and the next row ids; orders with other statuses get none. No write meets a UNIQUE
  -- constraint. The cycle counts these rows, and marks the backfill as done. The other rows stay,
  -- and so do the fills and the positions.
  pub sync_once-backfill :
      (now : String) (s : Store R) (n : ℕ) (os : List (TossOrder R))
      → Serves closed none n os
      → n ≤ max_backfill_pages
      → Unseen s.orders (opens ++ os)
      → Apart (opens ++ os)
      → let written = rows_of now s.next_id (opens ++ os) in
        sync_once (ok opens) closed now false s
        ≡ ok (
          length written,
          (true, record s { orders = s.orders ++ written; next_id = s.next_id + length written }),
        )
  unfolding sync_once closed_orders
  sync_once-backfill now s n os v h unseen apart = rw (
    (fetch_all_closed_orders_lem closed n os v).0 h,
    reflect_all-rows now (opens ++ os) s unseen apart,
  )
