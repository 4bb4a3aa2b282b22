-- ===== src/Risk/Daily.antt =====
-- The daily limit over a session whose dates do not run backwards.
use mathlib.Core.Path.{subst}
use quanteo.Base.{
  ℕ, ◌+◌, ◌<◌, ◌≤◌, ◌≡◌, refl, sym, String, true, List, [], ◌∷◌, arith, ◌==◌, if◌then◌else◌,
}
use quanteo.Base.Result.{Result, ok, err}
use quanteo.Float.{Float}
use quanteo.Domain.{Signal, Portfolio}
use quanteo.Risk.{
  RiskManager, Decision, approved, rejection, refresh_daily_counter, check_daily_orders, decide,
  evaluate, is_approved,
}

pub record Request (R : Type 0) : Type 0 where
  pub today : ℕ
  pub id : String
  pub signal : Signal R
  pub portfolio : Portfolio R

-- The dates do not run backwards.
abbrev pub IsForward : {R : Type 0} → ℕ → List (Request R) → Type 0
IsForward d [] = Unit
IsForward d (r ∷ rs) = (d ≤ r.today) × IsForward r.today rs

module _ {R : Type 0} ⦃f : Float R⦄ where
  -- One for an order, and none for a rejection or an exception.
  abbrev pub number_of : Result (Decision R) → ℕ
  number_of (ok (approved o)) = 1
  number_of (ok (rejection s r)) = 0
  number_of (err e) = 0

  number_of_lem : (d : Result (Decision R)) → number_of d ≡ (if is_approved d then 1 else 0)
  number_of_lem (ok (approved o)) = refl
  number_of_lem (ok (rejection s r)) = refl
  number_of_lem (err e) = refl

  -- How many requests of day `d` are approved.
  unfoldable pub approved_on : ℕ → List (Request R) → RiskManager R → ℕ
  approved_on d [] m = 0
  approved_on d (r ∷ rs) m =
      let (decision, m') = evaluate r.today r.id r.signal r.portfolio m in
      (if (r.today == d) then number_of decision else 0) + approved_on d rs m'

  decide-below :
      (id : String) (s : Signal R) (p : Portfolio R) (m : RiskManager R)
      → is_approved (decide id m s p) ≡ true
      → m.daily_order_count < m.config.max_daily_orders
  unfolding decide check_daily_orders
  decide-below id s p m h = ground arith

  -- One evaluation and the counter of its day.
  counter_step :
      (t : ℕ) (id : String) (s : Signal R) (p : Portfolio R) (m : RiskManager R)
      → let (d, m') = evaluate t id s p m in
        let before : ℕ = (if t == m.daily_reset_date then m.daily_order_count else 0) in
        let one = number_of d in
        (m'.daily_reset_date ≡ t)
        × (m'.config ≡ m.config)
        × (m'.daily_order_count ≡ before + one)
        × (0 < number_of d → before < m.config.max_daily_orders)
  unfolding evaluate refresh_daily_counter
  counter_step t id s p m =
      let m' = refresh_daily_counter t m in
      ground (arith, decide-below id s p m', number_of_lem (decide id m' s p))

  approved_on-past :
      (d : ℕ) (rs : List (Request R)) (t : ℕ) (m : RiskManager R)
      → d < t
      → IsForward t rs
      → approved_on d rs m ≡ 0
  unfolding approved_on
  approved_on-past d [] t m h w = refl
  approved_on-past d (r ∷ rs) t m h (le, w) =
      ground (arith, approved_on-past d rs r.today (evaluate r.today r.id r.signal r.portfolio m).1)

  approved_on-le :
      (d : ℕ) (rs : List (Request R)) (m : RiskManager R)
      → m.daily_order_count ≤ m.config.max_daily_orders
      → IsForward m.daily_reset_date rs
      → approved_on d rs m + (if m.daily_reset_date == d then m.daily_order_count else 0)
        ≤ m.config.max_daily_orders
  unfolding approved_on
  approved_on-le d [] m h w = ground arith
  approved_on-le d (r ∷ rs) m h (le, w) =
      let m' = (evaluate r.today r.id r.signal r.portfolio m).1 in
      let (date, config, counter, below) = counter_step r.today r.id r.signal r.portfolio m in
      let bounded : m'.daily_order_count ≤ m'.config.max_daily_orders = ground arith in
      let ih = approved_on-le d rs m' bounded (subst (λ t. IsForward t rs) (sym date) w) in
      ground (arith, ih, approved_on-past d rs r.today m')

  -- From a manager whose counter is within the limit, in a session whose dates do not run backwards,
  -- neither from one request to the next nor from the date of the counter to the first, on no day are
  -- more requests approved than the limit, whatever the signals are.
  pub approved_on-limit :
      (d : ℕ) (rs : List (Request R)) (m : RiskManager R)
      → m.daily_order_count ≤ m.config.max_daily_orders
      → IsForward m.daily_reset_date rs
      → approved_on d rs m ≤ m.config.max_daily_orders
  approved_on-limit d rs m h w = omega (arith, approved_on-le d rs m h w)
