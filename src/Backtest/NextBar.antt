-- ===== src/Backtest/NextBar.antt =====
-- When and at what price a replay fills.
use mathlib.Core.Path.{subst}
use quanteo.Base.{
  ℕ, ◌+◌, ◌≡◌, ◌∙◌, refl, sym, ap, String, Option, none, some, List, [], ◌∷◌, ◌++◌, append_assoc,
  append-nil, All, All-append,
}
use quanteo.Base.Result.{Result, ok, >>=-eq-ok, ok_injective}
use quanteo.Float.{Float}
use quanteo.Domain.{Side, buy, sell, Signal}
use quanteo.Backtest.{
  Candle, Tick, Trade, Rates, Account, Replay, BacktestResult, buy_price, sell_price, buy_trade,
  sell_trade, stamped, fill_pending, bar, bars, fresh, result_of, replay,
}
use quanteo.Backtest.Fills.{Filled, skipped, purchase, sale, fill_signal-Filled, bar-parts}
use quanteo.Backtest.Ledger.{HasSignals, IsPending, IsRunning, bar-IsRunning, fresh-IsRunning}

All-map :
    {A : Type 0} {P Q : A → Type 0} → ((x : A) → P x → Q x) → (xs : List A) → All P xs → All Q xs
All-map g [] h = tt
All-map g (x ∷ xs) (h, hs) = (g x h, All-map g xs hs)

module _ {R S : Type 0} ⦃f : Float R⦄ (e : Rates R)
    (on_tick : Tick R → List (Candle R) → S → Result (Option (Signal R) × S)) where
  abbrev pub price_at : Side → R → R
  price_at buy raw = buy_price e raw
  price_at sell raw = sell_price e raw

  -- The trade comes from a signal of the candle right before that of its fill, at the open price of the
  -- latter with the slippage of its side.
  pub record IsNextBar (cs : List (Candle R)) (t : Trade R) : Type 0 where
    pub earlier : List (Candle R)
    pub signalled : Candle R
    pub filled : Candle R
    pub later : List (Candle R)
    pub adjacent : cs ≡ earlier ++ signalled ∷ filled ∷ later
    pub signal_eq : t.signal_timestamp ≡ signalled.timestamp
    pub fill_eq : t.timestamp ≡ filled.timestamp
    pub price_eq : t.price ≡ price_at t.side filled.open_price

  -- The pending signal is of the last candle seen.
  abbrev IsOfLast : List (Candle R) → Option (Signal R × String) → Type 0
  IsOfLast seen none = Unit
  IsOfLast seen (some (s, ts)) =
      (earlier : List (Candle R)) × (a : Candle R) × (seen ≡ earlier ++ a ∷ []) × (ts ≡ a.timestamp)

  record IsTimed (p : Replay R S) : Type 0 where
    traded : All (IsNextBar p.seen) p.account.trades
    pending : IsOfLast p.seen p.pending

  one_later :
      (seen : List (Candle R)) (c : Candle R) (t : Trade R)
      → IsNextBar seen t
      → IsNextBar (seen ++ c ∷ []) t
  one_later seen c t n = record {
    earlier = n.earlier;
    signalled = n.signalled;
    filled = n.filled;
    later = n.later ++ c ∷ [];
    adjacent =
        ap (λ x. x ++ c ∷ []) n.adjacent
        ∙ append_assoc n.earlier (n.signalled ∷ n.filled ∷ n.later) (c ∷ []);
    signal_eq = n.signal_eq;
    fill_eq = n.fill_eq;
    price_eq = n.price_eq;
  }

  -- A trade of a signal of the last candle seen, filled at the next one.
  at_next :
      (seen : List (Candle R)) (s : Signal R) (ts : String) (c : Candle R) (t : Trade R)
      → IsOfLast seen (some (s, ts))
      → t.signal_timestamp ≡ ts
      → t.timestamp ≡ c.timestamp
      → t.price ≡ price_at t.side c.open_price
      → IsNextBar (seen ++ c ∷ []) t
  at_next seen s ts c t (earlier, a, eq, ts_eq) signal_eq fill_eq price_eq = record {
    earlier = earlier;
    signalled = a;
    filled = c;
    later = [];
    adjacent = ap (λ x. x ++ c ∷ []) eq ∙ append_assoc earlier (a ∷ []) (c ∷ []);
    signal_eq = signal_eq ∙ ts_eq;
    fill_eq = fill_eq;
    price_eq = price_eq;
  }

  module _ (seen : List (Candle R)) (c : Candle R) where
    abbrev Timed : Account R → Type 0
    Timed a = All (IsNextBar (seen ++ c ∷ [])) a.trades

    fill-Timed :
        (s : Signal R) (ts : String) (a : Account R) {a' : Account R}
        → IsOfLast seen (some (s, ts))
        → Filled e s ts c a a'
        → Timed a
        → Timed a'
    fill-Timed s ts a last (skipped h) b = subst Timed h b
    fill-Timed s ts a last (purchase qty _ h) b =
        let t = buy_trade e s ts c qty in
        subst Timed h (
          All-append (IsNextBar (seen ++ c ∷ [])) a.trades (t ∷ []) b
            (at_next seen s ts c t last refl refl refl, tt))
    fill-Timed s ts a last (sale qty _ _ h) b =
        let t = sell_trade e s ts c qty in
        subst Timed h (
          All-append (IsNextBar (seen ++ c ∷ [])) a.trades (t ∷ []) b
            (at_next seen s ts c t last refl refl refl, tt))

    pending-Timed :
        (o : Option (Signal R × String)) (a : Account R) {a' : Account R}
        → IsPending e on_tick o
        → IsOfLast seen o
        → fill_pending e o c a ≡ ok a'
        → Timed a
        → Timed a'
    pending-Timed none a pending last h b = subst Timed (ok_injective h) b
    pending-Timed (some (s, ts)) a pending last h b =
        fill-Timed s ts a last (fill_signal-Filled e s ts c a pending h) b

  stamped-IsOfLast :
      (seen : List (Candle R)) (c : Candle R) (o : Option (Signal R))
      → IsOfLast (seen ++ c ∷ []) (stamped e on_tick c.timestamp o)
  stamped-IsOfLast seen c none = tt
  stamped-IsOfLast seen c (some s) = (seen, c, refl, refl)

  bar-IsTimed :
      (c : Candle R) (p : Replay R S) {q : Replay R S}
      → IsPending e on_tick p.pending
      → IsTimed p
      → bar e on_tick c p ≡ ok q
      → IsTimed q × (q.seen ≡ p.seen ++ c ∷ [])
  bar-IsTimed c p pending t h =
      let (a, filled, (signal, σ), told, same) = bar-parts e on_tick c p h in
      (
        subst IsTimed same record {
          traded =
              pending-Timed p.seen c p.pending p.account pending t.pending filled
                (All-map (one_later p.seen c) p.account.trades t.traded);
          pending = stamped-IsOfLast p.seen c signal;
        },
        sym (ap (λ x. x.seen) same),
      )

  bars-IsTimed :
      (cs : List (Candle R)) (n : ℕ) (p : Replay R S) {q : Replay R S}
      → HasSignals e on_tick
      → IsRunning e on_tick n p
      → IsTimed p
      → bars e on_tick cs p ≡ ok q
      → IsTimed q × (q.seen ≡ p.seen ++ cs)
  unfolding bars
  bars-IsTimed [] n p signals r t h =
      let same = ok_injective h in
      (subst IsTimed same t, sym (ap (λ x. x.seen) same) ∙ sym (append-nil p.seen))
  bars-IsTimed (c ∷ cs) n p signals r t h =
      let (p', first, rest) = >>=-eq-ok (bar e on_tick c p) (bars e on_tick cs) h in
      let (t', seen') = bar-IsTimed c p r.pending t first in
      let (timed, seen) =
        bars-IsTimed cs (n + 1) p' signals (bar-IsRunning e on_tick c n p signals r first) t'
          rest in
      (timed, seen ∙ ap (λ x. x ++ cs) seen' ∙ append_assoc p.seen (c ∷ []) cs)

  -- Every trade of a replay is filled at the open of the candle right after the one whose close raised
  -- its signal, and at that open price with the slippage of its side: no trade uses the price of the
  -- candle that it was decided on. The strategy's signals have a quantity of at least 1.
  pub replay-IsNextBar :
      (cs : List (Candle R)) (σ : S) {r : BacktestResult R}
      → HasSignals e on_tick
      → replay e on_tick cs σ ≡ ok r
      → All (IsNextBar cs) r.trades
  unfolding replay
  replay-IsNextBar cs σ signals h =
      let start = fresh e on_tick σ in
      let (q, played, last) =
        >>=-eq-ok (bars e on_tick cs start) (λ x. ok (result_of e on_tick x)) h in
      let (timed, seen) =
        bars-IsTimed cs 0 start signals (fresh-IsRunning e on_tick σ)
          (record { traded = tt; pending = tt }) played in
      subst (λ x. All (IsNextBar cs) x.trades) (ok_injective last)
        (subst (λ x. All (IsNextBar x) q.account.trades) seen timed.traded)
