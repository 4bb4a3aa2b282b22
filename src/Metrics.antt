-- ===== src/Metrics.antt =====
-- core/backtest/metrics.py: the pairing of a backtest's trades, its wins and losses, the returns and
-- the draw-down of its equity curve. The Sharpe ratio and the annual return are left out: they take a
-- square root and a power of floats.
pub mod Pairs
pub mod Tests
use quanteo.Base.{ℕ, ◌+◌, Bool, true, false, Option, List, [], ◌∷◌, ◌++◌, if◌then◌else◌}
use quanteo.Base.Int.{pos}
use quanteo.Float.{Float, nought}
use quanteo.Domain.{Side, buy, sell}
use quanteo.Backtest.{Trade}

-- `pairs` and `buy_queue`.
pub record Pairing (R : Type 0) : Type 0 where
  pub pairs : List (Trade R × Trade R)
  pub queue : List (Trade R)

pub record Tally (R : Type 0) : Type 0 where
  pub wins : ℕ
  pub losses : ℕ
  pub total_profit : R
  pub total_loss : R

module _ {R : Type 0} where
  abbrev pub take_buy : Trade R → Pairing R → List (Trade R) → Pairing R
  take_buy t p [] = p
  take_buy t p (b ∷ bs) = record { pairs = p.pairs ++ (b, t) ∷ []; queue = bs }

  abbrev pub pair_as : Side → Trade R → Pairing R → Pairing R
  pair_as buy t p = record p { queue = p.queue ++ t ∷ [] }
  pair_as sell t p = take_buy t p p.queue

  -- One round of the loop: a sale without a waiting purchase is skipped.
  unfoldable pub pair_step : Trade R → Pairing R → Pairing R
  pair_step t p = pair_as t.side t p

  unfoldable pub pair_all : List (Trade R) → Pairing R → Pairing R
  unfolding pair_step
  pair_all [] p = p
  pair_all (t ∷ ts) p = pair_all ts (pair_step t p)

  unfoldable pub pair_trades : List (Trade R) → List (Trade R × Trade R)
  unfolding pair_all
  pair_trades ts = (pair_all ts (record { pairs = []; queue = [] })).pairs

module _ {R : Type 0} ⦃f : Float R⦄ where
  -- `Trade.net_amount`; the unary minus is a difference from 0.0, which has the same value.
  unfoldable pub net_amount : Trade R → R
  net_amount t =
      let gross = f.mul t.price (f.of_int t.qty) in
      elim t.side [
        | buy ↦ f.sub nought (f.add gross t.commission)
        | sell ↦ f.sub (f.sub gross t.commission) t.tax
      ]

  -- `abs` of a number that is not positive.
  abbrev negated : R → R
  negated x = if f.lt x nought then f.sub nought x else x

  unfoldable pub tally : List (Trade R × Trade R) → Tally R → Tally R
  unfolding net_amount
  tally [] k = k
  tally ((b, s) ∷ rest) k =
      let pnl = f.add (net_amount s) (net_amount b) in
      let won = record k { wins = k.wins + 1; total_profit = f.add k.total_profit pnl } in
      let lost = record k {
        losses = k.losses + 1;
        total_loss = f.add k.total_loss (negated pnl);
      } in
      tally rest (if f.lt nought pnl then won else lost)

  abbrev pub drawdown : R → R → R
  drawdown peak value = if f.lt nought peak then f.div (f.sub peak value) peak else nought

  -- Python's `max` keeps the first of two equal or unordered numbers.
  abbrev pub max_float : R → R → R
  max_float a b = if f.lt a b then b else a

  unfoldable pub mdd_from : R → R → List R → R
  mdd_from peak mdd [] = mdd
  mdd_from peak mdd (v ∷ vs) =
      let top = if f.lt peak v then v else peak in mdd_from top (max_float mdd (drawdown top v)) vs

  unfoldable pub calculate_mdd : List R → R
  unfolding mdd_from
  calculate_mdd [] = nought
  calculate_mdd (v ∷ vs) = mdd_from v nought vs

  abbrev daily_return : R → R → R
  daily_return prev next = if f.lt nought prev then f.div (f.sub next prev) prev else nought

  unfoldable pub equity_to_returns : List R → List R
  equity_to_returns [] = []
  equity_to_returns (v ∷ []) = []
  equity_to_returns (v ∷ w ∷ ws) = daily_return v w ∷ equity_to_returns (w ∷ ws)
