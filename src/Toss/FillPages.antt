-- ===== src/Toss/FillPages.antt =====
-- `get_trades` over the pages of the closed orders: it returns, and what it returns.
use quanteo.Base.{
  ℕ, zero, suc, ◌≤◌, ◌<◌, ◌≡◌, refl, ap, sym, ◌∙◌, ◌⊎◌, inl, inr, String, Bool, true, false, none,
  some, List, [], ◌∷◌, ◌++◌, append_assoc, append-nil, leb, take, length, count_if, arith,
  Bool-cases,
}
use quanteo.Base.Result.{ok}
use quanteo.Float.{Float, nought}
use quanteo.Toss.Json.{Json, null, is_null}
use quanteo.Toss.Call.{Call}
use quanteo.Toss.Port.{Port, Readers}
use quanteo.Toss.Models.{TossOrder, Fill}
use quanteo.Toss.Http.{Client}
use quanteo.Toss.Orders.{list_orders}
use quanteo.Toss.Trades.{
  trades_page_limit, insert_fill, fills_of, sort_fills, with_page, collect_fills, get_trades,
}

module _ {S R : Type 0} ⦃f : Float R⦄
    (page : (cursor : Json R) → Call S (List (TossOrder R) × Json R)) where
  -- The pages from a cursor on: an empty one, one without a cursor, or one with the pages that
  -- follow. The list holds their orders.
  pub data Pages : Json R → S → List (TossOrder R) → Type 0 where
    empty :
        {cursor next : Json R} {s s' : S} → page cursor s ≡ (ok ([], next), s') → Pages cursor s []
    last :
        {cursor next : Json R} {s s' : S} (o : TossOrder R) (os : List (TossOrder R))
        → page cursor s ≡ (ok (o ∷ os, next), s')
        → is_null next ≡ true
        → Pages cursor s (o ∷ os)
    more :
        {cursor next : Json R} {s s' : S} {later : List (TossOrder R)} (o : TossOrder R)
        (os : List (TossOrder R))
        → page cursor s ≡ (ok (o ∷ os, next), s')
        → is_null next ≡ false
        → Pages next s' later
        → Pages cursor s (o ∷ os ++ later)

  unfoldable pub count_pages :
      {cursor : Json R} {s : S} {os : List (TossOrder R)} → Pages cursor s os → ℕ
  count_pages (empty e) = 1
  count_pages (last o os e h) = 1
  count_pages (more o os e h rest) = suc (count_pages rest)

  fills_of-append : (xs ys : List (TossOrder R)) → fills_of (xs ++ ys) ≡ fills_of xs ++ fills_of ys
  unfolding fills_of
  fills_of-append [] ys = refl
  fills_of-append (o ∷ os) ys = elim (Bool-cases (f.le o.execution.filled_quantity nought)) [
    | inl h ↦ rw (h, fills_of-append os ys)
    | inr h ↦ rw (h, fills_of-append os ys)
  ]

  module _ (count : ℕ) where
    last_page :
        (n : ℕ) (fills : List (Fill R)) (next : Json R) (s : S) (o : TossOrder R)
        (os : List (TossOrder R))
        → is_null next ≡ true
        → with_page page count fills (collect_fills page count n) (o ∷ os) next s
          ≡ (ok (some (fills ++ fills_of (o ∷ os))), s)
    last_page n fills next s o os h = rw h

    next_page :
        (n : ℕ) (fills : List (Fill R)) (next : Json R) (s : S) (o : TossOrder R)
        (os : List (TossOrder R))
        → is_null next ≡ false
        → with_page page count fills (collect_fills page count n) (o ∷ os) next s
          ≡ collect_fills page count n (fills ++ fills_of (o ∷ os)) next s
    next_page n fills next s o os h = rw h

    collect_enough :
        (n : ℕ) (fills : List (Fill R)) (cursor : Json R) (s : S)
        → leb count (length fills) ≡ true
        → collect_fills page count (suc n) fills cursor s ≡ (ok (some fills), s)
    unfolding collect_fills
    collect_enough n fills cursor s h = rw h

    collect_page :
        (n : ℕ) (fills : List (Fill R)) (cursor next : Json R) (s s' : S) (os : List (TossOrder R))
        → leb count (length fills) ≡ false
        → page cursor s ≡ (ok (os, next), s')
        → collect_fills page count (suc n) fills cursor s
          ≡ with_page page count fills (collect_fills page count n) os next s'
    unfolding collect_fills
    collect_page n fills cursor next s s' os h e = rw (h, e)

    -- The fills that the loop has collected, out of those of all pages.
    abbrev Collected : (fuel : ℕ) → List (Fill R) → Json R → S → List (Fill R) → Type 0
    Collected fuel fills cursor s all =
        (got : List (Fill R)) × (rest : List (Fill R)) × (s' : S) × (collect_fills page count fuel
            fills cursor s
          ≡ (ok (some got), s'))
        × (all ≡ got ++ rest)
        × ((count ≤ length got) ⊎ (rest ≡ []))

    collect_fills-Pages :
        {cursor : Json R} {s : S} {os : List (TossOrder R)} (p : Pages cursor s os) (fuel : ℕ)
        (fills : List (Fill R))
        → count_pages p < fuel
        → Collected fuel fills cursor s (fills ++ fills_of os)
    unfolding count_pages fills_of
    collect_fills-Pages {cursor} {s} (empty {s' = s'} e) zero fills h = ground arith
    collect_fills-Pages {cursor} {s} (empty {next = next} {s' = s'} e) (suc n) fills h =
        elim (Bool-cases (leb count (length fills))) [
          | inl enough ↦
              (fills, [], s, collect_enough n fills cursor s enough, refl, inl (ground arith))
          | inr short ↦
              (fills, [], s', collect_page n fills cursor next s s' [] short e, refl, inr refl)
        ]
    collect_fills-Pages {cursor} {s} (last o os e alone) zero fills h = ground arith
    collect_fills-Pages {cursor} {s} (last {next = next} {s' = s'} o os e alone) (suc n) fills h =
        let whole = fills ++ fills_of (o ∷ os) in
        elim (Bool-cases (leb count (length fills))) [
          | inl enough ↦ (
            fills,
            fills_of (o ∷ os),
            s,
            collect_enough n fills cursor s enough,
            refl,
            inl (ground arith),
          )
          | inr short ↦ (
            whole,
            [],
            s',
            collect_page n fills cursor next s s' (o ∷ os) short e
                ∙ last_page n fills next s' o os alone,
            sym (append-nil whole),
            inr refl,
          )
        ]
    collect_fills-Pages {cursor} {s} (more o os e on rest) zero fills h = ground arith
    collect_fills-Pages {cursor} {s} (more {next = next} {s' = s'} {later = later} o os e on rest)
          (suc n) fills h =
        let whole = fills ++ fills_of (o ∷ os) in
        let all : whole ++ fills_of later ≡ fills ++ fills_of (o ∷ os ++ later) =
          append_assoc fills (fills_of (o ∷ os)) (fills_of later)
          ∙ ap (λ x. fills ++ x) (sym (fills_of-append (o ∷ os) later)) in
        elim (Bool-cases (leb count (length fills))) [
          | inl enough ↦ (
            fills,
            fills_of (o ∷ os ++ later),
            s,
            collect_enough n fills cursor s enough,
            refl,
            inl (ground arith),
          )
          | inr short ↦
              let (got, left, s'', run, split, done) =
                collect_fills-Pages rest n whole (omega arith) in
              (
                got,
                left,
                s'',
                collect_page n fills cursor next s s' (o ∷ os) short e
                    ∙ next_page n fills next s' o os on
                    ∙ run,
                sym all ∙ split,
                done,
              )
        ]

module _ {R : Type 0} ⦃f : Float R⦄ (earlier : String → String → Bool) where
  abbrev IsNotBefore : Fill R → List (Fill R) → Type 0
  IsNotBefore x [] = Unit
  IsNotBefore x (y ∷ ys) = earlier x.timestamp y.timestamp ≡ false

  -- No fill is earlier than the one that follows it.
  abbrev pub IsLatestFirst : List (Fill R) → Type 0
  IsLatestFirst [] = Unit
  IsLatestFirst (x ∷ xs) = IsNotBefore x xs × IsLatestFirst xs

  insert_fill-count :
      (p : Fill R → Bool) (x : Fill R) (ys : List (Fill R))
      → count_if p (insert_fill earlier x ys) ≡ count_if p (x ∷ ys)
  unfolding insert_fill
  insert_fill-count p x [] = refl
  insert_fill-count p x (y ∷ ys) = ground (arith, insert_fill-count p x ys)

  sort_fills-count :
      (p : Fill R → Bool) (xs : List (Fill R)) → count_if p (sort_fills earlier xs) ≡ count_if p xs
  unfolding sort_fills
  sort_fills-count p [] = refl
  sort_fills-count p (x ∷ xs) =
      omega (arith, insert_fill-count p x (sort_fills earlier xs), sort_fills-count p xs)

  module _ (asym : (s t : String) → earlier s t ≡ true → earlier t s ≡ false) where
    behind :
        (y x : Fill R) (ys : List (Fill R))
        → earlier y.timestamp x.timestamp ≡ false
        → IsNotBefore y ys
        → IsNotBefore y (insert_fill earlier x ys)
    unfolding insert_fill
    behind y x [] h late = h
    behind y x (z ∷ zs) h late = ground arith

    insert_fill-IsLatestFirst :
        (x : Fill R) (ys : List (Fill R))
        → IsLatestFirst ys
        → IsLatestFirst (insert_fill earlier x ys)
    unfolding insert_fill
    insert_fill-IsLatestFirst x [] h = (tt, tt)
    insert_fill-IsLatestFirst x (y ∷ ys) (late, h) =
        elim (Bool-cases (earlier x.timestamp y.timestamp)) [
          | inl e ↦ rw e (
            behind y x ys (asym x.timestamp y.timestamp e) late,
            insert_fill-IsLatestFirst x ys h,
          )
          | inr e ↦ rw e (e, (late, h))
        ]

    sort_fills-IsLatestFirst : (xs : List (Fill R)) → IsLatestFirst (sort_fills earlier xs)
    unfolding sort_fills
    sort_fills-IsLatestFirst [] = tt
    sort_fills-IsLatestFirst (x ∷ xs) =
        insert_fill-IsLatestFirst x (sort_fills earlier xs) (sort_fills-IsLatestFirst xs)

module _ {R W : Type 0} ⦃f : Float R⦄ (read : Readers R) (port : Port R W)
    (earlier : String → String → Bool)
    (asym : (s t : String) → earlier s t ≡ true → earlier t s ≡ false) where
  abbrev closed_page : (now : String) → Json R → Call (Client R W) (List (TossOrder R) × Json R)
  closed_page now cursor = list_orders read port "CLOSED" none cursor trades_page_limit now

  -- If the closed orders come in finitely many pages, `get_trades` returns with more fuel than pages.
  -- It has then read pages whose fills are a first part `got` of all fills, with `count` of them
  -- or more unless these are all; it returns the first `count` of `got` in an order with the latest first,
  -- which holds each fill as often as `got` does.
  pub get_trades-Pages :
      (count fuel : ℕ) (now : String) (c : Client R W) {os : List (TossOrder R)}
      (p : Pages (closed_page now) null c os)
      → count_pages (closed_page now) p < fuel
      → (got sorted rest : List (Fill R)) × (c' : Client R W) × (get_trades read port earlier fuel
            count now c
          ≡ (ok (some (take count sorted)), c'))
        × IsLatestFirst earlier sorted
        × ((test : Fill R → Bool) → count_if test sorted ≡ count_if test got)
        × (fills_of os ≡ got ++ rest)
        × ((count ≤ length got) ⊎ (rest ≡ []))
  unfolding get_trades
  get_trades-Pages count fuel now c p enough =
      let (got, rest, c', run, split, done) =
        collect_fills-Pages (closed_page now) count p fuel [] enough in
      (
        got,
        sort_fills earlier got,
        rest,
        c',
        rw run,
        sort_fills-IsLatestFirst earlier asym got,
        (λ test. sort_fills-count earlier test got),
        split,
        done,
      )
