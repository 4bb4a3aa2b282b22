-- ===== src/MultiTimeframe/Loads.antt =====
-- What `load` returns is what its cache holds afterwards.
use text.Mathlib.TextPositions.{eq_refl}
use quanteo.Base.{
  ℕ, ◌≡◌, refl, ap, sym, ◌∙◌, String, true, false, Option, none, some, List, [], arith,
}
use quanteo.Base.Result.{Result, ok, err, runtime_error}
use quanteo.Float.{Float}
use quanteo.MarketData.{Candle}
use quanteo.MultiTimeframe.{TimeframeState, MultiTimeframeData}
use quanteo.MultiTimeframe.Loader.{
  CachedState, Timeframe, daily, weekly, monthly, sixty_min, Loader, same_frame, keep_state,
  valid_state, stored, load_missing, load_timeframe, fetch_and_compute, state_or_stale, assembled,
  load,
}

-- The state of an entry, expired or not.
abbrev pub held : {R : Type 0} → Option (CachedState R) → Option (TimeframeState R)
held none = none
held (some entry) = some entry.state

-- The state of an entry, or one that says that there is none.
abbrev pub state_of : {R : Type 0} → ℕ → Option (CachedState R) → TimeframeState R
state_of now (some entry) = entry.state
state_of now none = record {
  candles = [];
  cci = [];
  cci_signal = [];
  ma5 = [];
  ma20 = [];
  volume_ma20 = [];
  last_updated = now;
  is_resampled = true;
  is_empty = true;
}

abbrev pub from_daily :
    {R : Type 0}
    → ℕ
    → (Timeframe → Option (CachedState R))
    → Option (CachedState R)
    → Result (MultiTimeframeData R)
from_daily now c none = err runtime_error
from_daily now c (some day) = ok (record {
  monthly = state_of now (c monthly);
  weekly = state_of now (c weekly);
  daily = day.state;
  sixty_min = state_of now (c sixty_min);
})

-- What the entries of a symbol amount to.
abbrev pub outcome :
    {R : Type 0} → ℕ → (Timeframe → Option (CachedState R)) → Result (MultiTimeframeData R)
outcome now c = from_daily now c (c daily)

same_frame_refl : (t : Timeframe) → same_frame t t ≡ true
same_frame_refl daily = refl
same_frame_refl weekly = refl
same_frame_refl monthly = refl
same_frame_refl sixty_min = refl

valid_is_held :
    {R : Type 0} (o : Option (CachedState R)) (now : ℕ) (s : TimeframeState R)
    → valid_state o now ≡ some s
    → held o ≡ some s
valid_is_held none now s h = cc
valid_is_held (some entry) now s h = ground arith

module _ {R W : Type 0} ⦃f : Float R⦄ (tiny scale : R) (most least : R → R → R)
    (fetch : (symbol interval : String) → (count : ℕ) → W → Result (List (Candle R)) × W)
    (to_weekly to_monthly : List (Candle R) → List (Candle R)) where
  stored-held :
      (symbol : String) (frame : Timeframe) (now : ℕ) (l : Loader R W)
      (r : Result (TimeframeState R) × W) (s : TimeframeState R)
      → (stored tiny scale most least fetch to_weekly to_monthly symbol frame now l r).0 ≡ ok s
      → held (
          (stored tiny scale most least fetch to_weekly to_monthly symbol frame now l r).1.cache
            symbol frame)
        ≡ some s
  unfolding keep_state
  stored-held symbol frame now l (err e, w) s h = cc
  stored-held symbol frame now l (ok state, w) s h =
      rw (eq_refl symbol, same_frame_refl frame) (ground arith)

  stored-other :
      (symbol : String) (frame t : Timeframe) (now : ℕ) (l : Loader R W)
      (r : Result (TimeframeState R) × W)
      → same_frame t frame ≡ false
      → (stored tiny scale most least fetch to_weekly to_monthly symbol frame now l r).1.cache
          symbol t
        ≡ l.cache symbol t
  unfolding keep_state
  stored-other symbol frame t now l (err e, w) h = refl
  stored-other symbol frame t now l (ok state, w) h = rw (eq_refl symbol, h) refl

  missing-held :
      (symbol : String) (frame : Timeframe) (now : ℕ) (o : Option (TimeframeState R))
      (l : Loader R W) (s : TimeframeState R)
      → ((s' : TimeframeState R) → o ≡ some s' → held (l.cache symbol frame) ≡ some s')
      → (load_missing tiny scale most least fetch to_weekly to_monthly symbol frame now o l).0
        ≡ ok s
      → held (
          (load_missing tiny scale most least fetch to_weekly to_monthly symbol frame now o
              l).1.cache
            symbol frame)
        ≡ some s
  missing-held symbol frame now (some state) l s known h = ground (arith, known state refl)
  missing-held symbol frame now none l s known h =
      stored-held symbol frame now l
        (fetch_and_compute tiny scale most least fetch to_weekly to_monthly symbol frame now l) s h

  missing-other :
      (symbol : String) (frame t : Timeframe) (now : ℕ) (o : Option (TimeframeState R))
      (l : Loader R W)
      → same_frame t frame ≡ false
      → (load_missing tiny scale most least fetch to_weekly to_monthly symbol frame now o l).1.cache
          symbol t
        ≡ l.cache symbol t
  missing-other symbol frame t now (some state) l h = refl
  missing-other symbol frame t now none l h =
      stored-other symbol frame t now l
        (fetch_and_compute tiny scale most least fetch to_weekly to_monthly symbol frame now l) h

  stale_is_held :
      (r : Result (TimeframeState R)) (entry : Option (CachedState R))
      → ((s : TimeframeState R) → r ≡ ok s → held entry ≡ some s)
      → state_or_stale tiny scale most least fetch to_weekly to_monthly r entry ≡ held entry
  stale_is_held (ok s) entry h = sym (h s refl)
  stale_is_held (err e) none h = refl
  stale_is_held (err e) (some entry) h = refl

  module _ (symbol : String) (now : ℕ) where
    abbrev step : Timeframe → Loader R W → Result (TimeframeState R) × Loader R W
    step frame l =
        load_timeframe tiny scale most least fetch to_weekly to_monthly symbol frame now l

    step-held :
        (frame : Timeframe) (l : Loader R W) (s : TimeframeState R)
        → (step frame l).0 ≡ ok s
        → held ((step frame l).1.cache symbol frame) ≡ some s
    unfolding load_timeframe
    step-held frame l s h =
        missing-held symbol frame now (valid_state (l.cache symbol frame) now) l s
          (λ s' valid. valid_is_held (l.cache symbol frame) now s' valid) h

    step-other :
        (frame t : Timeframe) (l : Loader R W)
        → same_frame t frame ≡ false
        → (step frame l).1.cache symbol t ≡ l.cache symbol t
    unfolding load_timeframe
    step-other frame t l h =
        missing-other symbol frame t now (valid_state (l.cache symbol frame) now) l h

    load-assembled :
        (l : Loader R W)
        → let (r, l') = load tiny scale most least fetch to_weekly to_monthly symbol now l in
          r
          ≡ assembled tiny scale most least fetch to_weekly to_monthly now
              (held (l'.cache symbol daily))
              (held (l'.cache symbol weekly))
              (held (l'.cache symbol monthly))
              (held (l'.cache symbol sixty_min))
    unfolding load
    load-assembled l =
        let (day, l1) = step daily l in
        let (week, l2) = step weekly l1 in
        let (month, l3) = step monthly l2 in
        let (hour, l4) = step sixty_min l3 in
        let week_kept = step-other monthly weekly l2 refl in
        let day_kept = step-other monthly daily l2 refl ∙ step-other weekly daily l1 refl in
        let day_held = stale_is_held day (l4.cache symbol daily) (λ s h.
          ap held (step-other sixty_min daily l3 refl ∙ day_kept) ∙ step-held daily l s h) in
        let week_held = stale_is_held week (l4.cache symbol weekly) (λ s h.
          ap held (step-other sixty_min weekly l3 refl ∙ week_kept) ∙ step-held weekly l1 s h) in
        let month_held =
          stale_is_held month (l4.cache symbol monthly)
            (λ s h. ap held (step-other sixty_min monthly l3 refl) ∙ step-held monthly l2 s h) in
        let hour_held =
          stale_is_held hour (l4.cache symbol sixty_min) (λ s h. step-held sixty_min l3 s h) in
        rw (day_held, week_held, month_held, hour_held) refl

    assembled-outcome :
        (c : Timeframe → Option (CachedState R))
        → assembled tiny scale most least fetch to_weekly to_monthly now
            (held (c daily))
            (held (c weekly))
            (held (c monthly))
            (held (c sixty_min))
          ≡ outcome now c
    assembled-outcome c = ground arith

    -- After `load`, its cache decides its outcome, whatever the broker answered: it raises if the cache
    -- has no daily entry, and otherwise returns the states of the daily, weekly, monthly and hourly
    -- entries, expired or not, each at its place, with a state of no candles and no values, marked as
    -- empty, for an entry that is missing.
    pub load-held :
        (l : Loader R W)
        → let (r, l') = load tiny scale most least fetch to_weekly to_monthly symbol now l in
          r ≡ outcome now (l'.cache symbol)
    load-held l =
        load-assembled l
        ∙ assembled-outcome
            ((load tiny scale most least fetch to_weekly to_monthly symbol now l).1.cache symbol)
