-- ===== src/Metrics/Pairs.antt =====
-- First in, first out.
use mathlib.Core.Path.{subst}
use quanteo.Base.{
  ℕ, ◌+◌, ◌-◌, ◌≤◌, ◌≡◌, ◌∙◌, refl, sym, ap, List, [], ◌∷◌, ◌++◌, map, append_assoc, append-nil,
  arith, length, length-append,
}
use quanteo.Domain.{Side, buy, sell}
use quanteo.Backtest.{Trade}
use quanteo.Metrics.{Pairing, pair_as, pair_step, pair_all, pair_trades}

map-append : {A B : Type 0} (g : A → B) (xs ys : List A) → map g (xs ++ ys) ≡ map g xs ++ map g ys
map-append g [] ys = refl
map-append g (x ∷ xs) ys = ap (λ t. g x ∷ t) (map-append g xs ys)

abbrev pub bought_of : {R : Type 0} → List (Trade R × Trade R) → List (Trade R)
bought_of ps = map (λ p. p.0) ps

abbrev pub sold_of : {R : Type 0} → List (Trade R × Trade R) → List (Trade R)
sold_of ps = map (λ p. p.1) ps

-- A trade in front of the trades of its side.
abbrev pub if_buy : {R : Type 0} → Side → Trade R → List (Trade R) → List (Trade R)
if_buy buy t ts = t ∷ ts
if_buy sell t ts = ts

abbrev pub if_sell : {R : Type 0} → Side → Trade R → List (Trade R) → List (Trade R)
if_sell buy t ts = ts
if_sell sell t ts = t ∷ ts

abbrev AfterTrade : Side → ℕ → (ℕ → Type 0) → Type 0
AfterTrade buy n rest = rest (n + 1)
AfterTrade sell n rest = (1 ≤ n) × rest (n - 1)

module _ {R : Type 0} where
  -- The purchases, and the sales, of a list of trades.
  unfoldable pub buys_of : List (Trade R) → List (Trade R)
  buys_of [] = []
  buys_of (t ∷ ts) = if_buy t.side t (buys_of ts)

  unfoldable pub sells_of : List (Trade R) → List (Trade R)
  sells_of [] = []
  sells_of (t ∷ ts) = if_sell t.side t (sells_of ts)

  -- No sale comes before its purchase, with `n` purchases waiting.
  abbrev pub IsCovered : List (Trade R) → ℕ → Type 0
  IsCovered [] n = Unit
  IsCovered (t ∷ ts) n = AfterTrade t.side n (IsCovered ts)

  pair_as-buys :
      (t : Trade R) (side : Side) (ps : List (Trade R × Trade R)) (q rest : List (Trade R))
      → let p = pair_as side t (record { pairs = ps; queue = q }) in
        bought_of p.pairs ++ (p.queue ++ rest) ≡ bought_of ps ++ (q ++ if_buy side t rest)
  pair_as-buys t buy ps q rest = ap (λ x. bought_of ps ++ x) (append_assoc q (t ∷ []) rest)
  pair_as-buys t sell ps [] rest = refl
  pair_as-buys t sell ps (b ∷ bs) rest =
      ap (λ x. x ++ (bs ++ rest)) (map-append (λ p. p.0) ps ((b, t) ∷ []))
      ∙ append_assoc (bought_of ps) (b ∷ []) (bs ++ rest)

  pair_all-buys :
      (ts : List (Trade R)) (p : Pairing R)
      → bought_of (pair_all ts p).pairs ++ (pair_all ts p).queue
        ≡ bought_of p.pairs ++ (p.queue ++ buys_of ts)
  unfolding pair_all pair_step buys_of
  pair_all-buys [] p = ap (λ x. bought_of p.pairs ++ x) (sym (append-nil p.queue))
  pair_all-buys (t ∷ ts) p =
      pair_all-buys ts (pair_step t p) ∙ pair_as-buys t t.side p.pairs p.queue (buys_of ts)

  pair_as-sells :
      (t : Trade R) (side : Side) (P : ℕ → Type 0) (ps : List (Trade R × Trade R))
      (q rest : List (Trade R))
      → AfterTrade side (length q) P
      → let p = pair_as side t (record { pairs = ps; queue = q }) in
        (sold_of p.pairs ++ rest ≡ sold_of ps ++ if_sell side t rest) × P (length p.queue)
  pair_as-sells t buy P ps q rest h = (refl, subst P (sym (length-append q (t ∷ []))) h)
  pair_as-sells t sell P ps [] rest (h, _) = absurd (omega arith)
  pair_as-sells t sell P ps (b ∷ bs) rest (_, h) = (
    ap (λ x. x ++ rest) (map-append (λ p. p.1) ps ((b, t) ∷ []))
        ∙ append_assoc (sold_of ps) (t ∷ []) rest,
    subst P (omega arith) h,
  )

  pair_all-sells :
      (ts : List (Trade R)) (p : Pairing R)
      → IsCovered ts (length p.queue)
      → sold_of (pair_all ts p).pairs ≡ sold_of p.pairs ++ sells_of ts
  unfolding pair_all pair_step sells_of
  pair_all-sells [] p h = sym (append-nil (sold_of p.pairs))
  pair_all-sells (t ∷ ts) p h =
      let (same, covered) = pair_as-sells t t.side (IsCovered ts) p.pairs p.queue (sells_of ts) h in
      pair_all-sells ts (pair_step t p) covered ∙ same

  -- The pairs match purchases and sales first in, first out: their purchases are the first purchases of
  -- the list, in order, and the others are left unpaired. If no sale comes before its purchase, every
  -- sale is in a pair, in order.
  pub pair_trades-fifo :
      (ts : List (Trade R))
      → ((left : List (Trade R)) × (bought_of (pair_trades ts) ++ left ≡ buys_of ts))
        × (IsCovered ts 0 → sold_of (pair_trades ts) ≡ sells_of ts)
  unfolding pair_trades
  pair_trades-fifo ts =
      let start : Pairing R = record { pairs = []; queue = [] } in
      (((pair_all ts start).queue, pair_all-buys ts start), λ h. pair_all-sells ts start h)
