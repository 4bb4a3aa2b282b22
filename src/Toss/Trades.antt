-- ===== src/Toss/Trades.antt =====
-- core/adapters/toss/rest.py, `get_trades`: the fills among the closed orders, page by page. Fuel
-- bounds the pages, since the cursors come from the server; `earlier` is `<` of two times.
use quanteo.Base.{
  ℕ, zero, suc, String, Bool, Option, none, some, List, [], ◌∷◌, ◌++◌, leb, take, length,
  if◌then◌else◌,
}
use quanteo.Float.{Float, nought}
use quanteo.Toss.Json.{Json, null, is_null}
use quanteo.Toss.Call.{Call, ◌>>=◌, pure}
use quanteo.Toss.Port.{Port, Readers}
use quanteo.Toss.Models.{TossOrder, Fill}
use quanteo.Toss.Http.{Client}
use quanteo.Toss.Orders.{list_orders}

abbrev pub trades_page_limit : ℕ
trades_page_limit = 100

abbrev or_else : {V : Type 0} → V → Option V → V
or_else d none = d
or_else d (some v) = v

module _ {R : Type 0} ⦃f : Float R⦄ where
  -- `avg_fill_price or Decimal("0")`
  abbrev pub fill_of : TossOrder R → Fill R
  fill_of o = record {
    symbol = o.symbol;
    price = or_else nought o.execution.avg_fill_price;
    volume = o.execution.filled_quantity;
    timestamp = or_else o.ordered_at o.execution.filled_at;
    currency = o.currency;
    side = o.side;
  }

  unfoldable pub fills_of : List (TossOrder R) → List (Fill R)
  fills_of [] = []
  fills_of (o ∷ os) =
      let rest = fills_of os in
      if f.le o.execution.filled_quantity nought then rest else fill_of o ∷ rest

  module _ (earlier : String → String → Bool) where
    -- The stable sort by the time, the latest first.
    unfoldable pub insert_fill : Fill R → List (Fill R) → List (Fill R)
    insert_fill x [] = x ∷ []
    insert_fill x (y ∷ ys) =
        if earlier x.timestamp y.timestamp then y ∷ insert_fill x ys else x ∷ y ∷ ys

    unfoldable pub sort_fills : List (Fill R) → List (Fill R)
    unfolding insert_fill
    sort_fills [] = []
    sort_fills (x ∷ xs) = insert_fill x (sort_fills xs)

module _ {S R : Type 0} ⦃f : Float R⦄
    (page : (cursor : Json R) → Call S (List (TossOrder R) × Json R)) (count : ℕ) where
  -- What the loop does with a page; `next` goes on with the fills and the cursor.
  abbrev pub with_page :
      List (Fill R)
      → (List (Fill R) → Json R → Call S (Option (List (Fill R))))
      → List (TossOrder R)
      → (cursor : Json R) → Call S (Option (List (Fill R)))
  with_page fills next [] cursor = pure (some fills)
  with_page fills next (o ∷ os) cursor =
      let fills' = fills ++ fills_of (o ∷ os) in
      if is_null cursor then pure (some fills') else next fills' cursor

  -- `none` when the fuel is spent.
  unfoldable pub collect_fills :
      ℕ → List (Fill R) → (cursor : Json R) → Call S (Option (List (Fill R)))
  unfolding fills_of
  collect_fills zero fills cursor = pure none
  collect_fills (suc n) fills cursor =
      if leb count (length fills)
      then pure (some fills)
      else page cursor >>= (λ got. with_page fills (collect_fills n) got.0 got.1)

module _ {R W : Type 0} ⦃f : Float R⦄ (read : Readers R) (port : Port R W)
    (earlier : String → String → Bool) where
  abbrev latest : ℕ → Option (List (Fill R)) → Option (List (Fill R))
  latest count none = none
  latest count (some fills) = some (take count (sort_fills earlier fills))

  unfoldable pub get_trades :
      (fuel : ℕ) → (count : ℕ) → (now : String) → Call (Client R W) (Option (List (Fill R)))
  unfolding list_orders sort_fills collect_fills
  get_trades fuel count now = do
    fills ←
        collect_fills (λ cursor. list_orders read port "CLOSED" none cursor trades_page_limit now)
          count fuel [] null
    pure (latest count fills)
