-- ===== src/Risk/Tests.antt =====
-- A manager in whole won: a limit of 1000 for each symbol, 1500 in all, two orders a day.
use native.Mathlib.Nat.{mul_assoc, mul_comm, mul-div_left, mul-le-mul_left, mul-le-mul_right}
use quanteo.Base.{
  ℕ, ◌+◌, ◌*◌, ◌/◌, leb, ◌≤◌, ◌≡◌, ◌↔◌, refl, true, false, none, some, List, [], ◌∷◌, arith, ltb,
  All,
}
use quanteo.Base.Int.{ℤ, pos, pos_part, negsuc, ◌≤ℤ◌, ◌+ℤ◌, ◌*ℤ◌}
use quanteo.Base.Result.{ok}
use quanteo.Float.Tenths.{Tenths, tenths_float}
use quanteo.Float.Won.{Won, won_float}
use quanteo.Domain.{
  domestic, buy, sell, reduce, pause, kill, limit, Signal, Position, Portfolio, Order, IsSignal,
  get, total_exposure,
}
use quanteo.Risk.{
  RiskManager, approved, is_approved, rank, refresh_daily_counter, check_halt, check_price,
  check_daily_orders, check_total_exposure, check_position_value, apply_reduce, build_order,
  approve, decide, evaluate, or_zero, held_value,
}
use quanteo.Risk.Gate.{MayBuy, Carries, evaluate-MayBuy, MayBuy-evaluate, evaluate_sell}
use quanteo.Risk.Halt.{
  Call, submit, leave, escalate, reset, read_count, session, session-peak, session_halted,
  evaluate-kill-pause,
}
use quanteo.Risk.Daily.{Request, approved_on, approved_on-limit}
use quanteo.Risk.Exposure.{IsMonotone, exact_ints, evaluate-exposure}

abbrev manager : RiskManager Won
manager = record {
  config = record {
    max_position_value = pos 1000;
    max_daily_orders = 2;
    max_total_exposure = pos 1500;
    stop_loss_pct = negsuc 4;
    take_profit_pct = pos 3;
    reduce_ratio = pos 0;
  };
  halt = reduce;
  daily_order_count = 1;
  daily_reset_date = 100;
}

abbrev entry : Signal Won
entry = record {
  strategy = "ma";
  symbol = "A";
  side = buy;
  qty = pos 5;
  price = some (pos 100);
  reason = "cross";
}

abbrev leaving : Signal Won
leaving = record entry { side = sell; price = none }

abbrev held : Position Won
held = record { symbol = "A"; market = domestic; qty = pos 4; avg_price = pos 100 }

abbrev portfolio : Portfolio Won
portfolio = record { positions = ("A", held) ∷ []; deposit = pos 0 }

-- REDUCE leaves one share of the five.
abbrev order : Order Won
order = record {
  client_order_id = "id";
  symbol = "A";
  market = domestic;
  side = buy;
  order_type = limit;
  qty = pos 1;
  price = pos 100;
  source_signal = entry;
}

entry_approved : (evaluate 100 "id" entry portfolio manager).0 ≡ ok (approved order)
unfolding evaluate refresh_daily_counter decide check_halt check_price check_daily_orders
    check_total_exposure check_position_value total_exposure apply_reduce approve build_order get
    ◌+ℤ◌ ◌*ℤ◌
entry_approved = refl

entry-IsSignal : IsSignal entry
entry-IsSignal = record { qty_pos = omega arith; price_pos = refl }

leaving-IsSignal : IsSignal leaving
leaving-IsSignal = record { qty_pos = omega arith; price_pos = refl }

evaluate-MayBuy_example :
    MayBuy (refresh_daily_counter 100 manager) entry portfolio
    × Carries entry order
    × (apply_reduce manager (pos 5) ≡ ok (pos 1))
    × (pos 100 ≡ or_zero (some (pos 100)))
evaluate-MayBuy_example = evaluate-MayBuy 100 "id" entry portfolio manager refl entry_approved

one_share : apply_reduce manager (pos 5) ≡ ok (pos 1)
unfolding apply_reduce ◌*ℤ◌
one_share = refl

MayBuy-evaluate_example : is_approved (evaluate 100 "id" entry portfolio manager).0 ≡ true
MayBuy-evaluate_example =
    MayBuy-evaluate 100 "id" entry portfolio manager (pos 1) refl entry-IsSignal
      evaluate-MayBuy_example.0 one_share

evaluate_sell_example :
    (is_approved (evaluate 100 "id" leaving portfolio manager).0
      ≡ ltb (refresh_daily_counter 100 manager).daily_order_count 2)
    × ((o : Order Won)
        → (evaluate 100 "id" leaving portfolio manager).0 ≡ ok (approved o)
        → o.qty ≡ pos 5)
evaluate_sell_example = evaluate_sell 100 "id" leaving portfolio manager refl leaving-IsSignal

abbrev calls : List (Call Won)
calls =
    escalate kill
    ∷ submit 100 "a" entry portfolio
    ∷ escalate pause
    ∷ submit 100 "b" leaving portfolio
    ∷ leave "c" held (pos 90)
    ∷ []

tens : (a x : ℕ) → a * 10 * x / 10 ≡ a * x
tens a x =
    rw (mul_assoc a 10 x, mul_comm 10 x, ← mul_assoc a x 10) (mul-div_left (a * x) (omega arith))

session-peak_example :
    rank (session (reset ∷ escalate pause ∷ read_count 101 ∷ []) (manager, none)).1.0.halt ≡ 2
session-peak_example = session-peak (reset ∷ escalate pause ∷ read_count 101 ∷ []) (manager, none)

session_halted_example :
    All (λ o. o.side ≡ sell) (session calls (record manager { halt = pause }, none)).0
session_halted_example =
    session_halted calls (record manager { halt = pause }, none) (tt, (tt, (tt, (tt, (tt, tt)))))
      (omega arith)

evaluate-kill-pause_example :
    ((evaluate 100 "id" leaving portfolio (record manager { halt = kill })).0 ≡ ok (approved order))
    ↔ ((evaluate 100 "id" leaving portfolio (record manager { halt = pause })).0
        ≡ ok (approved order))
evaluate-kill-pause_example = evaluate-kill-pause 100 "id" leaving portfolio manager order

abbrev day : ℕ → Request Won
day t = record { today = t; id = "id"; signal = leaving; portfolio = portfolio }

approved_on-limit_example : approved_on 100 (day 100 ∷ day 100 ∷ day 101 ∷ []) manager ≤ 2
approved_on-limit_example =
    approved_on-limit 100 (day 100 ∷ day 100 ∷ day 101 ∷ []) manager (omega arith) (omega arith)

add_mono : (cap a b c : ℕ) → leb c b ≡ true → ltb cap (a + b) ≡ false → ltb cap (a + c) ≡ false
add_mono cap a b c h k = ground arith

mul_mono :
    (m n : ℤ) (x : ℕ)
    → ltb 0 x ≡ true
    → pos 1 ≤ℤ m
    → m ≤ℤ n
    → n ≤ℤ pos exact_ints
    → leb (pos_part m * 10 * x / 10) (pos_part n * 10 * x / 10) ≡ true
mul_mono m n x above one le small =
    let parts : pos_part m ≤ pos_part n = ground arith in
    let grown : pos_part m * x ≤ pos_part n * x = mul-le-mul_right x parts in
    ground (arith, tens (pos_part m) x, tens (pos_part n) x)

scale_le :
    (n : ℤ) (x : ℕ)
    → pos 1 ≤ℤ n
    → n ≤ℤ pos exact_ints
    → leb x 10 ≡ true
    → leb (pos_part n * 10 * x / 10) (pos_part n * 10) ≡ true
scale_le n x one small ratio =
    let parts : x ≤ 10 = ground arith in
    let grown : pos_part n * x ≤ pos_part n * 10 = mul-le-mul_left (pos_part n) parts in
    ground (arith, tens (pos_part n) x)

trunc_le :
    (n q : ℤ) (x : ℕ)
    → pos 1 ≤ℤ n
    → n ≤ℤ pos exact_ints
    → leb x (pos_part n * 10) ≡ true
    → some (pos (x / 10)) ≡ some q
    → q ≤ℤ n
trunc_le n q x one small le e = ground arith

laws : IsMonotone Tenths
laws = record { add_mono = add_mono; mul_mono = mul_mono; scale_le = scale_le; trunc_le = trunc_le }

-- The same manager in tenths of a won, with a ratio of a half: two shares of the five are left.
abbrev halving : RiskManager Tenths
halving = record {
  config = record {
    max_position_value = 10000;
    max_daily_orders = 2;
    max_total_exposure = 15000;
    stop_loss_pct = 0;
    take_profit_pct = 30;
    reduce_ratio = 5;
  };
  halt = reduce;
  daily_order_count = 1;
  daily_reset_date = 100;
}

abbrev entry_tenths : Signal Tenths
entry_tenths = record {
  strategy = "ma";
  symbol = "A";
  side = buy;
  qty = pos 5;
  price = some 1000;
  reason = "cross";
}

abbrev portfolio_tenths : Portfolio Tenths
portfolio_tenths = record {
  positions = ("A", record { symbol = "A"; market = domestic; qty = pos 4; avg_price = 1000 }) ∷ [];
  deposit = 0;
}

abbrev two_shares : Order Tenths
two_shares = record {
  client_order_id = "id";
  symbol = "A";
  market = domestic;
  side = buy;
  order_type = limit;
  qty = pos 2;
  price = 1000;
  source_signal = entry_tenths;
}

halved : (evaluate 100 "id" entry_tenths portfolio_tenths halving).0 ≡ ok (approved two_shares)
unfolding evaluate refresh_daily_counter decide check_halt check_price check_daily_orders
    check_total_exposure check_position_value total_exposure apply_reduce approve build_order get
halved = refl

entry_tenths-IsSignal : IsSignal entry_tenths
entry_tenths-IsSignal = record { qty_pos = omega arith; price_pos = refl }

evaluate-exposure_example :
    (pos 1 ≤ℤ pos 2)
    × (pos 2 ≤ℤ pos 5)
    × (ltb 15000 (total_exposure portfolio_tenths + 20 * 1000 / 10) ≡ false)
    × (ltb 10000 (held_value (get "A" portfolio_tenths.positions) + 20 * 1000 / 10) ≡ false)
evaluate-exposure_example =
    evaluate-exposure 100 "id" entry_tenths portfolio_tenths halving two_shares refl
      entry_tenths-IsSignal (omega arith) refl refl laws halved
