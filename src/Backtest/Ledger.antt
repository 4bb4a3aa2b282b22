-- ===== src/Backtest/Ledger.antt =====
-- The trades of a run as a ledger of shares.
use mathlib.Core.Path.{subst}
use quanteo.Base.{
  ℕ, ◌+◌, ◌≡◌, ◌∙◌, refl, ap, String, Option, none, some, List, [], ◌∷◌, ◌++◌, arith, length,
  length-append, if◌then◌else◌, All, All-append,
}
use quanteo.Base.Int.{ℤ, pos, ltb_ℤ, ◌≤ℤ◌, ◌+ℤ◌, ◌-ℤ◌, max_ℤ, int_laws, +ℤ_parts}
use quanteo.Base.Result.{Result, ok, >>=-eq-ok, ok_injective}
use quanteo.Float.{Float}
use quanteo.Domain.{buy, sell, Signal}
use quanteo.Backtest.Fills.{bar-parts, Filled, skipped, purchase, sale, fill_signal-Filled}
use quanteo.Backtest.{
  Candle, Tick, Trade, Rates, Account, Replay, BacktestResult, bought, sold, buy_trade, sell_trade,
  fill_pending, stamped, bar, bars, equity_of, fresh, result_of, replay, window, candle_to_tick,
}

module _ {R : Type 0} where
  -- The shares after the trades, if no sale is larger than what is held then.
  abbrev pub shares : ℤ → List (Trade R) → Option ℤ
  shares held [] = some held
  shares held (t ∷ ts) =
      let more = shares (held +ℤ t.qty) ts in
      let fewer = shares (held -ℤ t.qty) ts in
      elim t.side [ buy ↦ more | sell ↦ if ltb_ℤ held t.qty then none else fewer ]

  abbrev pub HasQty : Trade R → Type 0
  HasQty t = pos 1 ≤ℤ t.qty

  shares-buy :
      (held n : ℤ) (ts : List (Trade R)) (t : Trade R)
      → shares held ts ≡ some n
      → t.side ≡ buy
      → shares held (ts ++ t ∷ []) ≡ some (n +ℤ t.qty)
  shares-buy held n [] t h e = ground arith
  shares-buy held n (x ∷ xs) t h e =
      ground (arith, shares-buy (held +ℤ x.qty) n xs t, shares-buy (held -ℤ x.qty) n xs t)

  shares-sell :
      (held n : ℤ) (ts : List (Trade R)) (t : Trade R)
      → shares held ts ≡ some n
      → t.side ≡ sell
      → t.qty ≤ℤ n
      → shares held (ts ++ t ∷ []) ≡ some (n -ℤ t.qty)
  shares-sell held n [] t h e enough = ground arith
  shares-sell held n (x ∷ xs) t h e enough =
      ground (arith, shares-sell (held +ℤ x.qty) n xs t, shares-sell (held -ℤ x.qty) n xs t)

  -- The account agrees with its trades.
  pub record IsBooked (a : Account R) : Type 0 where
    pub booked : shares (pos 0) a.trades ≡ some a.holding.qty
    pub held : pos 0 ≤ℤ a.holding.qty
    pub traded : All HasQty a.trades

-- A covered sale leaves what the code computes with `max`.
kept : (held qty : ℤ) → qty ≤ℤ held → held -ℤ qty ≡ max_ℤ (pos 0) (held -ℤ qty)
unfolding ◌-ℤ◌
kept held qty h = ground arith

module _ {R : Type 0} ⦃f : Float R⦄ (e : Rates R) where
  bought-IsBooked :
      (s : Signal R) (ts : String) (c : Candle R) (qty : ℤ) (a : Account R)
      → pos 1 ≤ℤ qty
      → IsBooked a
      → IsBooked (bought e s ts c qty a)
  bought-IsBooked s ts c qty a enough b = record {
    booked = shares-buy (pos 0) a.holding.qty a.trades (buy_trade e s ts c qty) b.booked refl;
    held = omega (int_laws, +ℤ_parts a.holding.qty qty);
    traded = All-append HasQty a.trades (buy_trade e s ts c qty ∷ []) b.traded (enough, tt);
  }

  sold-IsBooked :
      (s : Signal R) (ts : String) (c : Candle R) (qty : ℤ) (a : Account R)
      → pos 1 ≤ℤ qty
      → qty ≤ℤ a.holding.qty
      → IsBooked a
      → IsBooked (sold e s ts c qty a)
  sold-IsBooked s ts c qty a enough covered b = record {
    booked =
        shares-sell (pos 0) a.holding.qty a.trades (sell_trade e s ts c qty) b.booked refl covered
        ∙ ap some (kept a.holding.qty qty covered);
    held = ground arith;
    traded = All-append HasQty a.trades (sell_trade e s ts c qty ∷ []) b.traded (enough, tt);
  }

  fill_signal-IsBooked :
      (s : Signal R) (ts : String) (c : Candle R) (a : Account R) {a' : Account R}
      → Filled e s ts c a a'
      → IsBooked a
      → IsBooked a'
  fill_signal-IsBooked s ts c a (skipped same) b = subst IsBooked same b
  fill_signal-IsBooked s ts c a (purchase qty enough same) b =
      subst IsBooked same (bought-IsBooked s ts c qty a enough b)
  fill_signal-IsBooked s ts c a (sale qty enough covered same) b =
      subst IsBooked same (sold-IsBooked s ts c qty a enough covered b)

  module _ {S : Type 0}
      (on_tick : Tick R → List (Candle R) → S → Result (Option (Signal R) × S)) where
    -- The constructor of `Signal` refuses a quantity below 1.
    abbrev pub HasSignals : Type 0
    HasSignals =
        (t : Tick R) (w : List (Candle R)) (σ : S) (s : Signal R) (σ' : S)
        → on_tick t w σ ≡ ok (some s, σ')
        → pos 1 ≤ℤ s.qty

    abbrev pub IsPending : Option (Signal R × String) → Type 0
    IsPending none = Unit
    IsPending (some (s, ts)) = pos 1 ≤ℤ s.qty

    pub record IsRunning (n : ℕ) (p : Replay R S) : Type 0 where
      pub account : IsBooked p.account
      pub pending : IsPending p.pending
      pub valued : length p.equity ≡ n

    fill_pending-IsBooked :
        (o : Option (Signal R × String)) (c : Candle R) (a : Account R) {a' : Account R}
        → IsPending o
        → IsBooked a
        → fill_pending e o c a ≡ ok a'
        → IsBooked a'
    fill_pending-IsBooked none c a pending b h = subst IsBooked (ground arith) b
    fill_pending-IsBooked (some (s, ts)) c a pending b h =
        fill_signal-IsBooked s ts c a (fill_signal-Filled e s ts c a pending h) b

    stamped-IsPending :
        (ts : String) (signal : Option (Signal R))
        → ((s : Signal R) → signal ≡ some s → pos 1 ≤ℤ s.qty)
        → IsPending (stamped e on_tick ts signal)
    stamped-IsPending ts none h = tt
    stamped-IsPending ts (some s) h = h s refl

    pub bar-IsRunning :
        (c : Candle R) (n : ℕ) (p : Replay R S) {q : Replay R S}
        → HasSignals
        → IsRunning n p
        → bar e on_tick c p ≡ ok q
        → IsRunning (n + 1) q
    bar-IsRunning c n p signals r h =
        let (a, filled, (signal, σ), told, same) = bar-parts e on_tick c p h in
        subst (IsRunning (n + 1)) same record {
          account = fill_pending-IsBooked p.pending c p.account r.pending r.account filled;
          pending = stamped-IsPending c.timestamp signal (λ s eq.
              signals (candle_to_tick c) (window (p.seen ++ c ∷ [])) p.strategy s σ
                (told ∙ ap (λ x. ok (x, σ)) eq));
          valued = omega (arith, length-append p.equity (equity_of e c a ∷ []), r.valued);
        }

    bars-IsRunning :
        (cs : List (Candle R)) (n : ℕ) (p : Replay R S) {q : Replay R S}
        → HasSignals
        → IsRunning n p
        → bars e on_tick cs p ≡ ok q
        → IsRunning (n + length cs) q
    unfolding bars
    bars-IsRunning [] n p {q} signals r h =
        subst (λ x. IsRunning x q) (omega arith) (subst (IsRunning n) (ok_injective h) r)
    bars-IsRunning (c ∷ cs) n p {q} signals r h =
        let (p', first, rest) = >>=-eq-ok (bar e on_tick c p) (bars e on_tick cs) h in
        subst (λ x. IsRunning x q) (omega arith)
          (bars-IsRunning cs (n + 1) p' signals (bar-IsRunning c n p signals r first) rest)

    pub fresh-IsRunning : (σ : S) → IsRunning 0 (fresh e on_tick σ)
    fresh-IsRunning σ = record {
      account = record { booked = refl; held = ground arith; traded = tt };
      pending = tt;
      valued = refl;
    }

    -- A replay never sells a share that it does not hold: the trades, booked one by one from zero,
    -- never go below it. Each trade has at least one share, and the equity curve has one value for
    -- each candle. The strategy's signals have a quantity of at least 1.
    pub replay-ledger :
        (cs : List (Candle R)) (σ : S) {r : BacktestResult R}
        → HasSignals
        → replay e on_tick cs σ ≡ ok r
        → (n : ℤ) × (shares (pos 0) r.trades ≡ some n)
          × (pos 0 ≤ℤ n)
          × All HasQty r.trades
          × (length r.equity_curve ≡ length cs)
    unfolding replay
    replay-ledger cs σ {r} signals h =
        let (p, played, last) =
          >>=-eq-ok (bars e on_tick cs (fresh e on_tick σ)) (λ q. ok (result_of e on_tick q)) h in
        let run = bars-IsRunning cs 0 (fresh e on_tick σ) signals (fresh-IsRunning σ) played in
        let same = ok_injective last in
        (
          p.account.holding.qty,
          subst (λ x. shares (pos 0) x.trades ≡ some p.account.holding.qty) same run.account.booked,
          run.account.held,
          subst (λ x. All HasQty x.trades) same run.account.traded,
          subst (λ x. length x.equity_curve ≡ length cs) same (omega (arith, run.valued)),
        )
