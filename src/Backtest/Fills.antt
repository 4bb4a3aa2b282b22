-- ===== src/Backtest/Fills.antt =====
-- The three outcomes of `_fill_signal`: nothing, a purchase, a sale.
use quanteo.Base.{◌≡◌, refl, String, Option, List, [], ◌∷◌, ◌++◌, arith, inl, inr, Bool-cases}
use quanteo.Base.Int.{ℤ, pos, ltb_ℤ, ◌≤ℤ◌, min_ℤ}
use quanteo.Base.Result.{Result, ok, ◌>>=◌, >>=-eq-ok, ok_injective}
use quanteo.Float.{Float}
use quanteo.Domain.{Side, buy, sell, Signal}
use quanteo.Backtest.{
  Candle, Tick, Replay, Rates, fill_pending, after_bar, bar, window, candle_to_tick, Account,
  affordable, buy_up_to, buy_cost, buy_price, bought, sold, fill_buy, fill_sell, fill_signal,
}

module _ {R : Type 0} ⦃f : Float R⦄ (e : Rates R) (s : Signal R) (ts : String) (c : Candle R) where
  pub data Filled (a a' : Account R) : Type 0 where
    skipped : a ≡ a' → Filled a a'
    purchase : (qty : ℤ) → pos 1 ≤ℤ qty → bought e s ts c qty a ≡ a' → Filled a a'
    sale : (qty : ℤ) → pos 1 ≤ℤ qty → qty ≤ℤ a.holding.qty → sold e s ts c qty a ≡ a' → Filled a a'

  buy_up_to-Filled :
      (a : Account R) (qty : ℤ) {a' : Account R} → buy_up_to e s ts c a qty ≡ a' → Filled a a'
  buy_up_to-Filled a qty h = elim (Bool-cases (ltb_ℤ qty (pos 1))) [
    | inl none_left ↦ skipped (ground arith)
    | inr some_left ↦ purchase qty (ground arith) (ground arith)
  ]

  fill_buy-Filled :
      (a : Account R) {a' : Account R} → pos 1 ≤ℤ s.qty → fill_buy e s ts c a ≡ ok a' → Filled a a'
  fill_buy-Filled a {a'} enough h =
      let cost = buy_cost e c s.qty in
      elim (Bool-cases (f.lt a.cash (f.add cost (f.mul cost e.commission_rate)))) [
        | inr paid ↦ purchase s.qty enough (ground arith)
        | inl short ↦
            let bind : (affordable e a.cash (buy_price e c.open_price) >>= λ n.
            ok (buy_up_to e s ts c a n))
                ≡ ok a' =
              ground arith in
            let (qty, _, last) =
              >>=-eq-ok (affordable e a.cash (buy_price e c.open_price))
                (λ n. ok (buy_up_to e s ts c a n)) bind in
            buy_up_to-Filled a qty (ok_injective last)
      ]

  fill_sell-Filled : (a : Account R) {a' : Account R} → fill_sell e s ts c a ≡ a' → Filled a a'
  fill_sell-Filled a {a'} h =
      let qty = min_ℤ s.qty a.holding.qty in
      elim (Bool-cases (ltb_ℤ qty (pos 1))) [
        | inl none_held ↦ skipped (ground arith)
        | inr some_held ↦ sale qty (ground arith) (ground arith) (ground arith)
      ]

  pub fill_signal-Filled :
      (a : Account R) {a' : Account R}
      → pos 1 ≤ℤ s.qty
      → fill_signal e s ts c a ≡ ok a'
      → Filled a a'
  unfolding fill_signal
  fill_signal-Filled a {a'} enough h = by_side s.side refl
    where
      by_side : (side : Side) → s.side ≡ side → Filled a a'
      by_side buy eq = fill_buy-Filled a enough (ground arith)
      by_side sell eq = fill_sell-Filled a (ground arith)

module _ {R S : Type 0} ⦃f : Float R⦄ (e : Rates R)
    (on_tick : Tick R → List (Candle R) → S → Result (Option (Signal R) × S)) where
  -- A round that succeeds.
  pub bar-parts :
      (c : Candle R) (p : Replay R S) {q : Replay R S}
      → bar e on_tick c p ≡ ok q
      → (a : Account R) × (fill_pending e p.pending c p.account ≡ ok a)
        × (r : Option (Signal R) × S) × (on_tick
              (candle_to_tick c)
              (window (p.seen ++ c ∷ []))
              p.strategy
            ≡ ok r)
        × (after_bar e on_tick c p a r ≡ q)
  unfolding bar
  bar-parts c p h =
      let told = on_tick (candle_to_tick c) (window (p.seen ++ c ∷ [])) p.strategy in
      let (a, filled, rest) =
        >>=-eq-ok (fill_pending e p.pending c p.account)
          (λ a. told >>= λ r. ok (after_bar e on_tick c p a r)) h in
      let (r, said, last) = >>=-eq-ok told (λ r. ok (after_bar e on_tick c p a r)) rest in
      (a, filled, r, said, ok_injective last)
