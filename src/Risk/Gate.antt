-- ===== src/Risk/Gate.antt =====
-- What an approved order has passed, and what is approved: the branches of `evaluate`.
use quanteo.Base.{
  ℕ, ◌<◌, ◌≡◌, ◌≢◌, sym, ap, ◌∙◌, String, true, false, Option, none, some, arith, ltb,
  if◌then◌else◌,
}
use quanteo.Base.Int.{ℤ, pos, ◌≤ℤ◌}
use quanteo.Base.Result.{Result, ok, >>=-eq-ok}
use quanteo.Float.{Float}
use quanteo.Domain.{
  domestic, buy, sell, pause, kill, limit, market, Signal, Portfolio, Order, IsSignal, get,
  total_exposure,
}
use quanteo.Risk.{
  RiskManager, Decision, approved, Reason, unless, or_zero, truthy, refresh_daily_counter,
  check_halt, check_price, check_daily_orders, check_total_exposure, check_position_value,
  added_value, held_value, apply_reduce, build_order, approve, order_qty, decide, evaluate,
  is_approved,
}

module _ {R : Type 0} ⦃f : Float R⦄ where
  -- The order carries the signal's fields and a quantity of at least one.
  pub record Carries (s : Signal R) (o : Order R) : Type 0 where
    pub symbol_eq : o.symbol ≡ s.symbol
    pub side_eq : o.side ≡ s.side
    pub qty_pos : pos 1 ≤ℤ o.qty
    pub source_eq : o.source_signal ≡ s

  pub approve-Carries :
      (id : String) (s : Signal R) (qty : ℤ) {o : Order R}
      → approve id s qty ≡ ok (approved o)
      → Carries s o × (o.qty ≡ qty) × (o.client_order_id ≡ id) × (o.price ≡ or_zero s.price)
  unfolding approve
  approve-Carries id s qty h = ground arith

  pub unless-approved :
      (r : Option Reason) (s : Signal R) (k : Result (Decision R)) (o : Order R)
      → unless r s k ≡ ok (approved o)
      → k ≡ ok (approved o)
  unless-approved none s k o h = h
  unless-approved (some r) s k o h = cc

  -- The conditions for a BUY, in the words of the configuration.
  pub record MayBuy (m : RiskManager R) (s : Signal R) (p : Portfolio R) : Type 0 where
    pub not_paused : m.halt ≢ pause
    pub not_killed : m.halt ≢ kill
    pub priced : s.price ≢ none
    pub below_daily : m.daily_order_count < m.config.max_daily_orders
    pub exposure_fits :
        f.lt m.config.max_total_exposure (f.add (total_exposure p) (added_value s)) ≡ false
    pub position_fits :
        f.lt m.config.max_position_value
          (f.add (held_value (get s.symbol p.positions)) (added_value s))
        ≡ false

  pub decide-MayBuy :
      (id : String) (m : RiskManager R) (s : Signal R) (p : Portfolio R) {o : Order R}
      → s.side ≡ buy
      → decide id m s p ≡ ok (approved o)
      → MayBuy m s p
  unfolding decide check_halt check_price check_daily_orders check_total_exposure
      check_position_value
  decide-MayBuy id m s p e h = ground arith

  pub decide-approve :
      (id : String) (m : RiskManager R) (s : Signal R) (p : Portfolio R) {o : Order R}
      → decide id m s p ≡ ok (approved o)
      → (q : ℤ) × (order_qty m s ≡ ok q) × (approve id s q ≡ ok (approved o))
  unfolding decide
  decide-approve id m s p h = >>=-eq-ok (order_qty m s) (approve id s) (ground arith)

  apply_reduce-refresh :
      (today : ℕ) (m : RiskManager R) (s : Signal R) (q : ℤ)
      → s.side ≡ buy
      → order_qty (refresh_daily_counter today m) s ≡ ok q
      → apply_reduce m s.qty ≡ ok q
  unfolding refresh_daily_counter apply_reduce
  apply_reduce-refresh today m s q e h = ground arith

  approve_total :
      (id : String) (s : Signal R) (q : ℤ)
      → IsSignal s
      → pos 1 ≤ℤ q
      → (o : Order R) × (approve id s q ≡ ok (approved o))
  unfolding approve build_order
  approve_total id s q v h = (
    record {
      client_order_id = id;
      symbol = s.symbol;
      market = domestic;
      side = s.side;
      order_type = if truthy s.price then limit else market;
      qty = q;
      price = or_zero s.price;
      source_signal = s;
    },
    ground arith,
  )

  apply_reduce-pos :
      (m : RiskManager R) (n q : ℤ) → pos 1 ≤ℤ n → apply_reduce m n ≡ ok q → pos 1 ≤ℤ q
  unfolding apply_reduce
  apply_reduce-pos m n q h e = ground arith

  -- An approved BUY has passed every gate at the day's counter, and the order carries the signal's
  -- symbol, side and price and the quantity that `apply_reduce` leaves, which is at least one.
  pub evaluate-MayBuy :
      (today : ℕ) (id : String) (s : Signal R) (p : Portfolio R) (m : RiskManager R) {o : Order R}
      → s.side ≡ buy
      → (evaluate today id s p m).0 ≡ ok (approved o)
      → MayBuy (refresh_daily_counter today m) s p
        × Carries s o
        × (apply_reduce m s.qty ≡ ok o.qty)
        × (o.price ≡ or_zero s.price)
  unfolding evaluate
  evaluate-MayBuy today id s p m e h =
      let m' = refresh_daily_counter today m in
      let (q, eq, built) = decide-approve id m' s p h in
      let (carries, qty, _, price) = approve-Carries id s q built in
      (
        decide-MayBuy id m' s p e h,
        carries,
        apply_reduce-refresh today m s q e eq ∙ ap ok (sym qty),
        price,
      )

  refresh-apply_reduce :
      (today : ℕ) (m : RiskManager R) (n : ℤ)
      → apply_reduce (refresh_daily_counter today m) n ≡ apply_reduce m n
  unfolding refresh_daily_counter apply_reduce
  refresh-apply_reduce today m n = ground arith

  MayBuy-decide :
      (id : String) (m : RiskManager R) (s : Signal R) (p : Portfolio R) (q : ℤ) (o : Order R)
      → s.side ≡ buy
      → MayBuy m s p
      → apply_reduce m s.qty ≡ ok q
      → approve id s q ≡ ok (approved o)
      → is_approved (decide id m s p) ≡ true
  unfolding decide check_halt check_price check_daily_orders check_total_exposure
      check_position_value
  MayBuy-decide id m s p q o e may h built = ground arith

  -- The converse: the gates are all there is. A constructed BUY signal that passes them is approved,
  -- if the scaling by the ratio gives a number.
  pub MayBuy-evaluate :
      (today : ℕ) (id : String) (s : Signal R) (p : Portfolio R) (m : RiskManager R) (q : ℤ)
      → s.side ≡ buy
      → IsSignal s
      → MayBuy (refresh_daily_counter today m) s p
      → apply_reduce m s.qty ≡ ok q
      → is_approved (evaluate today id s p m).0 ≡ true
  unfolding evaluate
  MayBuy-evaluate today id s p m q e v may eq =
      let m' = refresh_daily_counter today m in
      let h : apply_reduce m' s.qty ≡ ok q = refresh-apply_reduce today m s.qty ∙ eq in
      let (o, built) = approve_total id s q v (apply_reduce-pos m' s.qty q v.qty_pos h) in
      MayBuy-decide id m' s p q o e may h built

  -- For a SELL, the daily limit is the only gate: no halt level blocks or scales it.
  pub decide_sell :
      (id : String) (m : RiskManager R) (s : Signal R) (p : Portfolio R)
      → s.side ≡ sell
      → decide id m s p ≡ unless (check_daily_orders m) s (approve id s s.qty)
  unfolding decide check_halt check_price
  decide_sell id m s p e = ground arith

  daily-config :
      (today : ℕ) (m : RiskManager R) (s : Signal R) (k : Result (Decision R)) (o : Order R)
      → k ≡ ok (approved o)
      → is_approved (unless (check_daily_orders (refresh_daily_counter today m)) s k)
        ≡ ltb (refresh_daily_counter today m).daily_order_count m.config.max_daily_orders
  unfolding check_daily_orders refresh_daily_counter
  daily-config today m s k o e = ground arith

  -- A constructed SELL signal is approved exactly while the day's counter is below the limit, at
  -- every halt level and whatever the portfolio holds, and then for its whole quantity.
  pub evaluate_sell :
      (today : ℕ) (id : String) (s : Signal R) (p : Portfolio R) (m : RiskManager R)
      → s.side ≡ sell
      → IsSignal s
      → (is_approved (evaluate today id s p m).0
          ≡ ltb (refresh_daily_counter today m).daily_order_count m.config.max_daily_orders)
        × ((o : Order R) → (evaluate today id s p m).0 ≡ ok (approved o) → o.qty ≡ s.qty)
  unfolding evaluate
  evaluate_sell today id s p m e v =
      let m' = refresh_daily_counter today m in
      let (o, built) = approve_total id s s.qty v v.qty_pos in
      (
        rw (decide_sell id m' s p e) (daily-config today m s (approve id s s.qty) o built),
        λ o' h.
            (approve-Carries id s s.qty (
              unless-approved (check_daily_orders m') s (approve id s s.qty) o'
                (sym (decide_sell id m' s p e) ∙ h))).1,
      )
