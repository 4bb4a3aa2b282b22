-- ===== src/Backtest/Causal.antt =====
-- A replay does not look ahead.
use mathlib.Core.Path.{subst}
use quanteo.Base.{
  ℕ, ◌+◌, ◌≡◌, ◌∙◌, refl, sym, ap, String, Option, none, some, List, [], ◌∷◌, ◌++◌, append_assoc,
  append-nil,
}
use quanteo.Base.Result.{Result, ok, ◌>>=◌, >>=-eq-ok, ok_injective}
use quanteo.Float.{Float}
use quanteo.Domain.{Signal}
use quanteo.Backtest.{
  Candle, Tick, Rates, Account, Replay, BacktestResult, buy_trade, sell_trade, equity_of,
  fill_pending, bar, bars, fresh, result_of, replay,
}
use quanteo.Backtest.Fills.{Filled, skipped, purchase, sale, fill_signal-Filled, bar-parts}
use quanteo.Backtest.Ledger.{HasSignals, IsPending, IsRunning, bar-IsRunning, fresh-IsRunning}

-- The second list goes on from the first one.
abbrev pub Continues : {A : Type 0} → List A → List A → Type 0
Continues {A} xs ys = (more : List A) × (ys ≡ xs ++ more)

same_list : {A : Type 0} {xs ys : List A} → xs ≡ ys → Continues xs ys
same_list {xs = xs} e = ([], sym e ∙ sym (append-nil xs))

one_more : {A : Type 0} (xs : List A) {ys : List A} (x : A) → xs ++ x ∷ [] ≡ ys → Continues xs ys
one_more xs x e = (x ∷ [], sym e)

two_steps :
    {A : Type 0} (xs : List A) {ys zs : List A}
    → Continues xs ys
    → Continues ys zs
    → Continues xs zs
two_steps xs (a, e) (b, h) = (a ++ b, h ∙ ap (λ t. t ++ b) e ∙ append_assoc xs a b)

module _ {R S : Type 0} ⦃f : Float R⦄ (e : Rates R)
    (on_tick : Tick R → List (Candle R) → S → Result (Option (Signal R) × S)) where
  fill_trades :
      (s : Signal R) (ts : String) (c : Candle R) (a : Account R) {a' : Account R}
      → Filled e s ts c a a'
      → Continues a.trades a'.trades
  fill_trades s ts c a (skipped h) = same_list (ap (λ x. x.trades) h)
  fill_trades s ts c a (purchase qty _ h) =
      one_more a.trades (buy_trade e s ts c qty) (ap (λ x. x.trades) h)
  fill_trades s ts c a (sale qty _ _ h) =
      one_more a.trades (sell_trade e s ts c qty) (ap (λ x. x.trades) h)

  pending_trades :
      (o : Option (Signal R × String)) (c : Candle R) (a : Account R) {a' : Account R}
      → IsPending e on_tick o
      → fill_pending e o c a ≡ ok a'
      → Continues a.trades a'.trades
  pending_trades none c a pending h = same_list (ap (λ x. x.trades) (ok_injective h))
  pending_trades (some (s, ts)) c a pending h =
      fill_trades s ts c a (fill_signal-Filled e s ts c a pending h)

  abbrev Later : Replay R S → Replay R S → Type 0
  Later p q = Continues p.account.trades q.account.trades × Continues p.equity q.equity

  bar-Later :
      (c : Candle R) (p : Replay R S) {q : Replay R S}
      → IsPending e on_tick p.pending
      → bar e on_tick c p ≡ ok q
      → Later p q
  bar-Later c p pending h =
      let (a, filled, r, told, same) = bar-parts e on_tick c p h in
      (
        subst (λ x. Continues p.account.trades x.account.trades) same
            (pending_trades p.pending c p.account pending filled),
        one_more p.equity (equity_of e c a) (ap (λ x. x.equity) same),
      )

  bars-Later :
      (cs : List (Candle R)) (n : ℕ) (p : Replay R S) {q : Replay R S}
      → HasSignals e on_tick
      → IsRunning e on_tick n p
      → bars e on_tick cs p ≡ ok q
      → Later p q
  unfolding bars
  bars-Later [] n p signals r h =
      let same = ok_injective h in
      (same_list (ap (λ x. x.account.trades) same), same_list (ap (λ x. x.equity) same))
  bars-Later (c ∷ cs) n p signals r h =
      let (p', first, rest) = >>=-eq-ok (bar e on_tick c p) (bars e on_tick cs) h in
      let (trades, equity) = bar-Later c p r.pending first in
      let (trades', equity') =
        bars-Later cs (n + 1) p' signals (bar-IsRunning e on_tick c n p signals r first) rest in
      (two_steps p.account.trades trades trades', two_steps p.equity equity equity')

  bars_split :
      (xs ys : List (Candle R)) (n : ℕ) (p : Replay R S) {q : Replay R S}
      → HasSignals e on_tick
      → IsRunning e on_tick n p
      → bars e on_tick (xs ++ ys) p ≡ ok q
      → (m : Replay R S) × (bars e on_tick xs p ≡ ok m) × Later m q
  unfolding bars
  bars_split [] ys n p signals r h = (p, refl, bars-Later ys n p signals r h)
  bars_split (c ∷ cs) ys n p signals r h =
      let (p', first, rest) = >>=-eq-ok (bar e on_tick c p) (bars e on_tick (cs ++ ys)) h in
      let (m, played, later) =
        bars_split cs ys (n + 1) p' signals (bar-IsRunning e on_tick c n p signals r first) rest in
      (m, ap (λ x. x >>= bars e on_tick cs) first ∙ played, later)

  -- From the same warmed strategy, the replay of a longer history succeeds only if the replay of each
  -- of its beginnings does, and then goes on from it: candles that come later change no trade and no
  -- equity value of the days before. The strategy's signals have a quantity of at least 1.
  pub replay-causal :
      (xs ys : List (Candle R)) (σ : S) {r : BacktestResult R}
      → HasSignals e on_tick
      → replay e on_tick (xs ++ ys) σ ≡ ok r
      → (b : BacktestResult R) × (replay e on_tick xs σ ≡ ok b)
        × Continues b.trades r.trades
        × Continues b.equity_curve r.equity_curve
  unfolding replay
  replay-causal xs ys σ signals h =
      let start = fresh e on_tick σ in
      let (q, played, last) =
        >>=-eq-ok (bars e on_tick (xs ++ ys) start) (λ x. ok (result_of e on_tick x)) h in
      let (m, begun, (trades, equity)) =
        bars_split xs ys 0 start signals (fresh-IsRunning e on_tick σ) played in
      let same = ok_injective last in
      (
        result_of e on_tick m,
        ap (λ x. x >>= λ y. ok (result_of e on_tick y)) begun,
        subst (λ x. Continues m.account.trades x.trades) same trades,
        subst (λ x. Continues m.equity x.equity_curve) same equity,
      )
