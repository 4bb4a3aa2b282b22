-- ===== src/MultiTimeframe/Loader.antt =====
-- core/strategy/multi_timeframe.py, the loader that keeps the states in a cache. The broker's candles, as
-- `Candle`, and the resampling by pandas are arguments; the three loads that run at once run here
-- one after the other, as they write different entries of the cache. Times are whole milliseconds.
use quanteo.Base.{
  ℕ, ◌+◌, String, Bool, true, false, ◌&&◌, Option, none, some, List, [], ltb, ◌==◌, str_eq, length,
  if◌then◌else◌,
}
use quanteo.Base.Result.{Result, ok, err, runtime_error}
use quanteo.Float.{Float}
use quanteo.MarketData.{Candle}
use quanteo.MultiTimeframe.{
  TimeframeState, MultiTimeframeData, compute_timeframe_state, aggregate_minute_candles_to_hourly,
}

-- A state with the time at which it ends to be valid.
pub record CachedState (R : Type 0) : Type 0 where
  pub state : TimeframeState R
  pub expires_at : ℕ

pub data Timeframe : Type 0 where
  daily weekly monthly sixty_min : Timeframe

-- `cache[symbol]` by the timeframe, and the outside.
pub record Loader (R W : Type 0) : Type 0 where
  pub cache : String → Timeframe → Option (CachedState R)
  pub world : W

-- The time to live, in milliseconds.
abbrev pub ttl : Timeframe → ℕ
ttl daily = 300000
ttl weekly = 1800000
ttl monthly = 3600000
ttl sixty_min = 60000

abbrev pub same_frame : Timeframe → Timeframe → Bool
same_frame daily daily = true
same_frame weekly weekly = true
same_frame monthly monthly = true
same_frame sixty_min sixty_min = true
same_frame _ _ = false

module _ {R W : Type 0} where
  -- `cache[symbol][timeframe] = entry`
  unfoldable pub keep_state : String → Timeframe → CachedState R → Loader R W → Loader R W
  keep_state symbol frame entry l = record l {
    cache = λ s t. if str_eq s symbol && same_frame t frame then some entry else l.cache s t;
  }

abbrev pub valid_state :
    {R : Type 0} → Option (CachedState R) → (now : ℕ) → Option (TimeframeState R)
valid_state none now = none
valid_state (some entry) now = if ltb now entry.expires_at then some entry.state else none

module _ {R W : Type 0} ⦃f : Float R⦄ (tiny scale : R) (most least : R → R → R)
    (fetch : (symbol interval : String) → (count : ℕ) → W → Result (List (Candle R)) × W)
    (to_weekly to_monthly : List (Candle R) → List (Candle R)) where
  abbrev computed : Bool → ℕ → Result (List (Candle R)) → Result (TimeframeState R)
  computed is_resampled now (err e) = err e
  computed is_resampled now (ok candles) =
      compute_timeframe_state tiny scale candles now is_resampled

  -- Resampled candles, of which there must be some.
  abbrev resampled :
      (List (Candle R) → List (Candle R)) → Result (List (Candle R)) → Result (List (Candle R))
  resampled to_frame (err e) = err e
  resampled to_frame (ok candles) =
      if length (to_frame candles) == 0 then err runtime_error else ok (to_frame candles)

  -- `_fetch_and_compute_daily`, of which the candles are used; its checks may raise.
  abbrev candles_of : Result (TimeframeState R) → Result (List (Candle R))
  candles_of (err e) = err e
  candles_of (ok state) = ok state.candles

  abbrev on_daily :
      Option (CachedState R) → (symbol : String) → (now : ℕ) → W → Result (List (Candle R)) × W
  on_daily (some entry) symbol now w = (ok entry.state.candles, w)
  on_daily none symbol now w =
      let (r, w') = fetch symbol "1d" 500 w in (candles_of (computed false now r), w')

  unfoldable pub fetch_and_compute :
      String → Timeframe → (now : ℕ) → Loader R W → Result (TimeframeState R) × W
  unfolding compute_timeframe_state aggregate_minute_candles_to_hourly
  fetch_and_compute symbol daily now l =
      let (r, w) = fetch symbol "1d" 500 l.world in (computed false now r, w)
  fetch_and_compute symbol weekly now l =
      let (r, w) = on_daily (l.cache symbol daily) symbol now l.world in
      (computed true now (resampled to_weekly r), w)
  fetch_and_compute symbol monthly now l =
      let (r, w) = on_daily (l.cache symbol daily) symbol now l.world in
      (computed true now (resampled to_monthly r), w)
  fetch_and_compute symbol sixty_min now l =
      let (r, w) = fetch symbol "1m" 3600 l.world in
      (computed true now (resampled (aggregate_minute_candles_to_hourly most least) r), w)

  abbrev pub stored :
      String
      → Timeframe
      → (now : ℕ) → Loader R W
      → Result (TimeframeState R) × W
      → Result (TimeframeState R) × Loader R W
  stored symbol frame now l (err e, w) = (err e, record l { world = w })
  stored symbol frame now l (ok state, w) = (
    ok state,
    keep_state symbol frame (record { state = state; expires_at = now + ttl frame })
        (record l { world = w }),
  )

  abbrev pub load_missing :
      String
      → Timeframe
      → (now : ℕ) → Option (TimeframeState R)
      → Loader R W
      → Result (TimeframeState R) × Loader R W
  load_missing symbol frame now (some state) l = (ok state, l)
  load_missing symbol frame now none l =
      stored symbol frame now l (fetch_and_compute symbol frame now l)

  unfoldable pub load_timeframe :
      String → Timeframe → (now : ℕ) → Loader R W → Result (TimeframeState R) × Loader R W
  unfolding fetch_and_compute keep_state
  load_timeframe symbol frame now l =
      load_missing symbol frame now (valid_state (l.cache symbol frame) now) l

  -- A timeframe that failed falls back on what the cache has, expired or not.
  abbrev pub state_or_stale :
      Result (TimeframeState R) → Option (CachedState R) → Option (TimeframeState R)
  state_or_stale (ok state) entry = some state
  state_or_stale (err e) none = none
  state_or_stale (err e) (some entry) = some entry.state

  abbrev pub empty_state : (now : ℕ) → TimeframeState R
  empty_state now = record {
    candles = [];
    cci = [];
    cci_signal = [];
    ma5 = [];
    ma20 = [];
    volume_ma20 = [];
    last_updated = now;
    is_resampled = true;
    is_empty = true;
  }

  abbrev pub or_empty_state : (now : ℕ) → Option (TimeframeState R) → TimeframeState R
  or_empty_state now none = empty_state now
  or_empty_state now (some state) = state

  abbrev pub assembled :
      (now : ℕ) → (day week month hour : Option (TimeframeState R)) → Result (MultiTimeframeData R)
  assembled now none week month hour = err runtime_error
  assembled now (some day) week month hour = ok (record {
    monthly = or_empty_state now month;
    weekly = or_empty_state now week;
    daily = day;
    sixty_min = or_empty_state now hour;
  })

  -- The daily candles come first, since the weekly and monthly ones are made of them.
  unfoldable pub load : String → (now : ℕ) → Loader R W → Result (MultiTimeframeData R) × Loader R W
  unfolding load_timeframe
  load symbol now l =
      let (day, l1) = load_timeframe symbol daily now l in
      let (week, l2) = load_timeframe symbol weekly now l1 in
      let (month, l3) = load_timeframe symbol monthly now l2 in
      let (hour, l4) = load_timeframe symbol sixty_min now l3 in
      (
        assembled now (state_or_stale day (l4.cache symbol daily))
            (state_or_stale week (l4.cache symbol weekly))
            (state_or_stale month (l4.cache symbol monthly))
            (state_or_stale hour (l4.cache symbol sixty_min)),
        l4,
      )
