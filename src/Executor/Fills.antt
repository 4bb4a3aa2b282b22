-- ===== src/Executor/Fills.antt =====
-- `record_fill`: the status follows the cumulative quantity.
use mathlib.Core.Path.{subst}
use text.Mathlib.TextPositions.{eq_refl}
use quanteo.Base.{
  ◌∙◌, ◌≡◌, refl, sym, ap, String, true, Option, none, some, List, [], ◌∷◌, ◌++◌, arith, str_eq,
  Bool-cases, inl, inr, if◌then◌else◌,
}
use quanteo.Base.Int.{ℤ, pos, ◌+ℤ◌, +ℤ_assoc, +ℤ-zero, zero-+ℤ}
use quanteo.Float.{Float}
use quanteo.Domain.{Status, filled, partial}
use quanteo.Store.{
  Store, OrderRow, FillRow, fetch_existing, select, set_status, update_order_status,
}
use quanteo.Store.Lookup.{fetch-update_order_status}
use quanteo.Executor.{
  World, sum_qty, of_client, total_filled, fill_row, fill_status, add_fill, after_lookup,
  record_fill,
}

-- One report of a fill: its quantity, its price and the clock.
pub record Fill (R : Type 0) : Type 0 where
  pub qty : ℤ
  pub price : R
  pub now : String

module _ {R : Type 0} ⦃f : Float R⦄ where
  sum_qty-append :
      (c : String) (xs : List (FillRow R)) (r : FillRow R)
      → of_client c r ≡ true
      → sum_qty (select (of_client c) (xs ++ r ∷ []))
        ≡ sum_qty (select (of_client c) xs) +ℤ r.fill_qty
  unfolding select
  sum_qty-append c [] r h = rw h (+ℤ-zero r.fill_qty ∙ sym (zero-+ℤ r.fill_qty))
  sum_qty-append c (x ∷ xs) r h =
      let ih = sum_qty-append c xs r h in
      elim (Bool-cases (of_client c x)) [
        | inl mine ↦
            simp mine (ap (λ t. x.fill_qty +ℤ t) ih ∙ sym (+ℤ_assoc x.fill_qty _ r.fill_qty))
        | inr other ↦ simp other ih
      ]

  total_filled-add_fill :
      (c : String) (r : FillRow R) (s : Store R)
      → of_client c r ≡ true
      → total_filled c (add_fill r s) ≡ total_filled c s +ℤ r.fill_qty
  unfolding total_filled
  total_filled-add_fill c r s h = sum_qty-append c s.fills r h

  total_filled-update :
      (c d : String) (st : Status) (b : Option String) (now : String) (s : Store R)
      → total_filled c (update_order_status d st b now s) ≡ total_filled c s
  unfolding total_filled update_order_status
  total_filled-update c d st b now s = refl

  fetch-add_fill :
      (c : String) (r : FillRow R) (s : Store R)
      → fetch_existing c (add_fill r s) ≡ fetch_existing c s
  unfolding fetch_existing
  fetch-add_fill c r s = refl

  -- What one fill of the row does to the tables.
  FillStep : String → ℤ → String → OrderRow R → Store R → Store R → Type 0
  FillStep c qty now row s t =
      (total_filled c t ≡ total_filled c s +ℤ qty)
      × (fetch_existing c t ≡ some (set_status (fill_status row (total_filled c t)) none now row))

  after_lookup-FillStep :
      (c : String) (qty : ℤ) (price : R) (now : String) (w : World R) (row : OrderRow R)
      → fetch_existing c w.store ≡ some row
      → FillStep c qty now row w.store (after_lookup c qty price now w (some row)).1.store
  unfolding FillStep
  after_lookup-FillStep c qty price now w row h =
      let s = add_fill (fill_row row c qty price now) w.store in
      let st = fill_status row (total_filled c s) in
      let total = total_filled-update c c st none now s in
      (
        total ∙ total_filled-add_fill c (fill_row row c qty price now) w.store (eq_refl c),
        fetch-update_order_status c c st none now s
            ∙ simp (eq_refl, fetch-add_fill, h)
                (ap (λ t. some (set_status (fill_status row t) none now row)) (sym total)),
      )

  fill_step :
      (c : String) (qty : ℤ) (price : R) (now : String) (w : World R) (row : OrderRow R)
      → fetch_existing c w.store ≡ some row
      → FillStep c qty now row w.store (record_fill c qty price now w).1.store
  unfolding record_fill
  fill_step c qty price now w row h =
      subst (λ r. FillStep c qty now row w.store (after_lookup c qty price now w r).1.store) (sym h)
        (after_lookup-FillStep c qty price now w row h)

  pub fill_all : String → List (Fill R) → World R → World R
  fill_all c [] w = w
  fill_all c (x ∷ xs) w = fill_all c xs (record_fill c x.qty x.price x.now w).1

  abbrev pub sum_fills : List (Fill R) → ℤ
  sum_fills [] = pos 0
  sum_fills (x ∷ xs) = x.qty +ℤ sum_fills xs

  -- The sum of the fills of a client id.
  abbrev pub filled_of : String → List (FillRow R) → ℤ
  filled_of c [] = pos 0
  filled_of c (r ∷ rs) =
      if str_eq r.client_order_id c then r.fill_qty +ℤ filled_of c rs else filled_of c rs

  sum_qty-filled_of :
      (c : String) (xs : List (FillRow R)) → sum_qty (select (of_client c) xs) ≡ filled_of c xs
  unfolding select
  sum_qty-filled_of c [] = refl
  sum_qty-filled_of c (x ∷ xs) = ground (arith, sum_qty-filled_of c xs)

  total_filled-filled_of : (c : String) (s : Store R) → total_filled c s ≡ filled_of c s.fills
  unfolding total_filled
  total_filled-filled_of c s = sum_qty-filled_of c s.fills

  fill_all-total :
      (c : String) (x : Fill R) (xs : List (Fill R)) (w : World R) (row : OrderRow R)
      → fetch_existing c w.store ≡ some row
      → let w' = fill_all c (x ∷ xs) w in
        (row' : OrderRow R) × (fetch_existing c w'.store ≡ some row')
        × (total_filled c w'.store ≡ total_filled c w.store +ℤ sum_fills (x ∷ xs))
        × (row'.status
            ≡ (if f.le row.qty (f.of_int (total_filled c w'.store)) then filled else partial))
        × (row'.qty ≡ row.qty)
        × (row'.broker_order_id ≡ row.broker_order_id)
  unfolding fill_all FillStep
  fill_all-total c x [] w row h =
      let (total, found) = fill_step c x.qty x.price x.now w row h in
      (
        _,
        found,
        total ∙ ap (λ t. total_filled c w.store +ℤ t) (sym (+ℤ-zero x.qty)),
        refl,
        refl,
        refl,
      )
  fill_all-total c x (y ∷ ys) w row h =
      let w₁ = (record_fill c x.qty x.price x.now w).1 in
      let (total, found) = fill_step c x.qty x.price x.now w row h in
      let (last, found', total', status, qty, broker) = fill_all-total c y ys w₁ _ found in
      (
        last,
        found',
        total'
            ∙ ap (λ t. t +ℤ sum_fills (y ∷ ys)) total
            ∙ +ℤ_assoc (total_filled c w.store) x.qty _,
        status,
        qty,
        broker,
      )

  -- After any number of fills of a known order, and at least one, the sum of the order's rows in
  -- `fills` has grown by their quantities, and the row says `filled` if that sum has reached the
  -- quantity of the order, and `partial` otherwise. The quantity of the row and its broker id stay.
  pub fill_all_status :
      (c : String) (x : Fill R) (xs : List (Fill R)) (w : World R) (row : OrderRow R)
      → fetch_existing c w.store ≡ some row
      → let w' = fill_all c (x ∷ xs) w in
        (row' : OrderRow R) × (fetch_existing c w'.store ≡ some row')
        × (filled_of c w'.store.fills ≡ filled_of c w.store.fills +ℤ sum_fills (x ∷ xs))
        × (row'.status
            ≡ (if f.le row.qty (f.of_int (filled_of c w'.store.fills)) then filled else partial))
        × (row'.qty ≡ row.qty)
        × (row'.broker_order_id ≡ row.broker_order_id)
  fill_all_status c x xs w row h =
      let (row', found, total, status, qty, broker) = fill_all-total c x xs w row h in
      let w' = fill_all c (x ∷ xs) w in
      let now = total_filled-filled_of c w'.store in
      let before = total_filled-filled_of c w.store in
      (
        row',
        found,
        sym now ∙ total ∙ ap (λ t. t +ℤ sum_fills (x ∷ xs)) before,
        status ∙ ap (λ t. if f.le row.qty (f.of_int t) then filled else partial) now,
        qty,
        broker,
      )
