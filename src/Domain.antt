-- ===== src/Domain.antt =====
-- The types that the components exchange: core/strategy/base.py (signals), core/risk/models.py
-- (positions, portfolios, orders) and the market of core/config/settings.py. Time stamps that are
-- only logged are left out; the fresh order id is an argument.
use quanteo.Base.{
  ℕ, String, Bool, true, false, not, Option, none, some, List, [], ◌∷◌, map, ◌≡◌, str_eq, arith,
  if◌then◌else◌,
}
use quanteo.Base.Int.{ℤ, pos, ltb_ℤ, ◌≤ℤ◌}
use text.Mathlib.TextPositions.{eq_refl}
use quanteo.Base.Result.{Error, Result, ok, err, value_error}
use quanteo.Float.{Float, nought}

pub data Market : Type 0 where
  domestic overseas : Market

pub data Side : Type 0 where
  buy sell : Side

pub data OrderType : Type 0 where
  market limit : OrderType

-- In the order of the declaration, which `graduated_halt` relies on; `no_halt` is `NONE`.
pub data HaltLevel : Type 0 where
  no_halt reduce pause kill : HaltLevel

abbrev pub is_buy : Side → Bool
is_buy buy = true
is_buy sell = false

pub record Signal (R : Type 0) : Type 0 where
  pub strategy : String
  pub symbol : String
  pub side : Side
  pub qty : ℤ
  pub price : Option R
  pub reason : String

pub record Position (R : Type 0) : Type 0 where
  pub symbol : String
  pub market : Market
  pub qty : ℤ
  pub avg_price : R

-- `positions` is the dict, with its entries in insertion order and no key twice.
pub record Portfolio (R : Type 0) : Type 0 where
  pub positions : List (String × Position R)
  pub deposit : R

pub record Order (R : Type 0) : Type 0 where
  pub client_order_id : String
  pub symbol : String
  pub market : Market
  pub side : Side
  pub order_type : OrderType
  pub qty : ℤ
  pub price : R
  pub source_signal : Signal R

-- `orders.status`, with the CHECK constraint of its column.
pub data Status : Type 0 where
  pending submitted partial filled cancelled rejected : Status

pub data Change : Type 0 where
  opened updated closed : Change

pub record PositionUpdate (R : Type 0) : Type 0 where
  pub symbol : String
  pub market : Market
  pub env : String
  pub qty : R
  pub avg_price : R
  pub book_value : R
  pub change : Change

-- The payloads of the events that the components publish.
pub data Payload (R : Type 0) : Type 0 where
  halt_changed : HaltLevel → Payload R
  signal_raised : Signal R → Payload R
  submit_failed : String → Error → Payload R
  order_sent : String → String → String → Side → ℤ → R → Payload R
  order_fill : String → String → ℤ → R → String → Payload R
  order_closed : String → Option String → String → Status → Payload R
  position_changed : PositionUpdate R → Payload R
  sync_failed : String → ℕ → Error → Payload R

module _ {ℓ} {V : Type ℓ} where
  -- `dict.get`
  unfoldable pub get : String → List (String × V) → Option V
  get k [] = none
  get k ((j, v) ∷ m) = if str_eq j k then some v else get k m

  -- `d[k] = v`: in the place of the old entry, or at the end.
  unfoldable pub put : String → V → List (String × V) → List (String × V)
  put k v [] = (k, v) ∷ []
  put k v ((j, w) ∷ m) = if str_eq j k then (j, v) ∷ m else (j, w) ∷ put k v m

  -- `d.pop(k, None)`
  unfoldable pub remove_key : String → List (String × V) → List (String × V)
  remove_key k [] = []
  remove_key k ((j, w) ∷ m) = if str_eq j k then m else (j, w) ∷ remove_key k m

  pub get-put : (k : String) (v : V) (m : List (String × V)) → get k (put k v m) ≡ some v
  unfolding get put
  get-put k v [] = simp eq_refl
  get-put k v ((j, w) ∷ m) = ground (arith, get-put k v m)

module _ {R : Type 0} ⦃f : Float R⦄ where
  abbrev is_positive : Option R → Bool
  is_positive none = true
  is_positive (some p) = not (f.le p nought)

  -- `Signal.__post_init__`, at the end of the constructor.
  unfoldable pub make_signal : Signal R → Result (Signal R)
  make_signal s =
      if ltb_ℤ s.qty (pos 1)
      then err value_error
      else if is_positive s.price
      then ok s
      else err value_error

  abbrev unpriced_limit : OrderType → R → Bool
  unpriced_limit limit p = f.le p nought
  unpriced_limit market p = false

  -- `Order.__post_init__`
  unfoldable pub make_order : Order R → Result (Order R)
  make_order o =
      if ltb_ℤ o.qty (pos 1)
      then err value_error
      else if unpriced_limit o.order_type o.price
      then err value_error
      else ok o

  unfoldable pub book_value : Position R → R
  book_value p = f.mul (f.of_int p.qty) p.avg_price

  unfoldable pub unrealized_pnl_pct : Position R → R → R
  unrealized_pnl_pct p current =
      if f.le p.avg_price nought then nought else f.div (f.sub current p.avg_price) p.avg_price

  unfoldable pub total_exposure : Portfolio R → R
  unfolding book_value
  total_exposure p = f.total (map (λ e. book_value e.1) p.positions)

  unfoldable pub total_assets : Portfolio R → R
  unfolding total_exposure
  total_assets p = f.add p.deposit (total_exposure p)

  -- What a constructed signal satisfies.
  pub record IsSignal (s : Signal R) : Type 0 where
    pub qty_pos : pos 1 ≤ℤ s.qty
    pub price_pos : is_positive s.price ≡ true

  -- The constructor returns its argument, and exactly a well-formed one.
  pub make_signal-IsSignal : (s : Signal R) {t : Signal R} → make_signal s ≡ ok t → IsSignal t
  unfolding make_signal
  make_signal-IsSignal s h = ground arith
