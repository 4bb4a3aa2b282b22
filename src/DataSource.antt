-- ===== src/DataSource.antt =====
-- core/backtest/toss_data_source.py: the candles for a backtest, from the broker through a cache, and
-- from a CSV file. `instant` is the time that an ISO text denotes, a number.
pub mod History
pub mod Range
pub mod Tests
use Prim.Native.String.{◌++◌ as append}
use quanteo.Base.{
  ℕ, zero, suc, ◌+◌, ◌-◌, String, Bool, true, false, not, ◌&&◌, Option, none, some, List, [], ◌∷◌,
  ◌++◌, map, ltb, leb, str_eq, last_n, length, if◌then◌else◌,
}
use quanteo.Base.Int.{ℤ}
use quanteo.Base.Result.{Result, ok, err, value_error}
use quanteo.Domain.{Market, domestic, overseas, get, put, remove_key}
use quanteo.MarketData.{Candle}
use quanteo.Toss.Call.{Call, ◌>>=◌, ◌>>◌, pure, lift}
use quanteo.Toss.Json.{Json, is_text}
use quanteo.Toss.Models.{TossCandle}

-- A row of `candle_cache`: its candles and the time at which it was written.
pub record CacheRow (R : Type 0) : Type 0 where
  pub candles : List (Candle R)
  pub cached_at : ℕ

-- The table by its primary key, and the outside.
pub record DataSource (R W : Type 0) : Type 0 where
  pub cache : List (String × CacheRow R)
  pub world : W

-- 24 hours, in milliseconds.
abbrev pub cache_ttl : ℕ
cache_ttl = 86400000

abbrev before_text : Option String → String
before_text none = ""
before_text (some t) = t

abbrev pub filter_if {ℓ} : {A : Type ℓ} → (A → Bool) → List A → List A
filter_if p [] = []
filter_if p (x ∷ xs) = if p x then x ∷ filter_if p xs else filter_if p xs

-- `_make_key`; `show` is the text of a number.
abbrev pub make_key :
    (show : ℕ → String)
    → (symbol interval : String) → (count : ℕ) → (before : Option String) → Bool
    → String
make_key show symbol interval count before adjusted = append symbol (
    append ":" (
      append interval (
        append ":" (
          append (show count) (
            append ":"
              (append (before_text before) (append ":" (if adjusted then "1" else "0"))))))))

-- The `get_candles` of the broker's client.
abbrev pub Fetch : Type 0 → Type 0 → Type 0
Fetch R W =
    (symbol interval : String)
    → (count : ℕ) → (before : Option String) → Bool
    → Call W (List (TossCandle R))

module _ {R W : Type 0} (show : ℕ → String) (now : W → ℕ) where
  abbrev is_old : CacheRow R → W → Bool
  is_old row w = ltb cache_ttl (now w - row.cached_at)

  abbrev looked_up :
      (key : String)
      → Option (CacheRow R)
      → DataSource R W
      → Option (List (Candle R)) × DataSource R W
  looked_up key none s = (none, s)
  looked_up key (some row) s =
      if is_old row s.world
      then (none, record s { cache = remove_key key s.cache })
      else (some row.candles, s)

  -- `_CacheDB.get` and `_CacheDB.put`. The candles are kept as they are: the code writes them as
  -- JSON and reads them back.
  unfoldable pub cache_get :
      (key : String) → DataSource R W → Option (List (Candle R)) × DataSource R W
  unfolding get remove_key
  cache_get key s = looked_up key (get key s.cache) s

  unfoldable pub cache_put : (key : String) → List (Candle R) → DataSource R W → DataSource R W
  unfolding put
  cache_put key candles s = record s {
    cache = put key (record { candles = candles; cached_at = now s.world }) s.cache;
  }

  -- `_convert_toss_candles`
  abbrev converted : (symbol : String) → TossCandle R → Candle R
  converted symbol tc = record {
    symbol = symbol;
    open_price = tc.open_price;
    high = tc.high_price;
    low = tc.low_price;
    close = tc.close_price;
    volume = tc.volume;
    timestamp = tc.timestamp;
    market = if is_text tc.currency "KRW" then domestic else overseas;
  }

  unfoldable pub convert_toss_candles : (symbol : String) → List (TossCandle R) → List (Candle R)
  unfolding is_text
  convert_toss_candles symbol [] = []
  convert_toss_candles symbol (tc ∷ tcs) = converted symbol tc ∷ convert_toss_candles symbol tcs

  abbrev fetched :
      (symbol key : String)
      → DataSource R W
      → Result (List (TossCandle R)) × W
      → Result (List (Candle R)) × DataSource R W
  fetched symbol key s (err e, w) = (err e, record s { world = w })
  fetched symbol key s (ok tcs, w) =
      let candles = convert_toss_candles symbol tcs in
      (ok candles, cache_put key candles (record s { world = w }))

  abbrev from_broker :
      Fetch R W
      → (symbol interval : String) → (count : ℕ) → (before : Option String) → Bool
      → Option (List (Candle R)) × DataSource R W
      → Result (List (Candle R)) × DataSource R W
  from_broker fetch symbol interval count before adjusted (some candles, s) = (ok candles, s)
  from_broker fetch symbol interval count before adjusted (none, s) =
      fetched symbol (make_key show symbol interval count before adjusted) s
        (fetch symbol interval count before adjusted s.world)

  unfoldable pub get_candles :
      Fetch R W
      → (symbol interval : String) → (count : ℕ) → (before : Option String) → Bool
      → Call (DataSource R W) (List (Candle R))
  unfolding cache_get cache_put convert_toss_candles
  get_candles fetch symbol interval count before adjusted s =
      from_broker fetch symbol interval count before adjusted
        (cache_get (make_key show symbol interval count before adjusted) s)

abbrev pub batch_size : ℕ
batch_size = 200

-- The batch is no older than the last one.
abbrev pub is_repeated : Option ℕ → (oldest : ℕ) → Bool
is_repeated none oldest = false
is_repeated (some prev) oldest = leb prev oldest

module _ {R : Type 0} (instant : String → ℕ) where
  abbrev pub at : Candle R → ℕ
  at c = instant c.timestamp

  abbrev pub is_from : (start : ℕ) → Candle R → Bool
  is_from start c = leb start (at c)

  -- The stable `sorted` by the time.
  unfoldable pub insert_candle : Candle R → List (Candle R) → List (Candle R)
  insert_candle x [] = x ∷ []
  insert_candle x (y ∷ ys) = if leb (at x) (at y) then x ∷ y ∷ ys else y ∷ insert_candle x ys

  unfoldable pub sort_candles : List (Candle R) → List (Candle R)
  unfolding insert_candle
  sort_candles [] = []
  sort_candles (x ∷ xs) = insert_candle x (sort_candles xs)

module _ {R S : Type 0} (instant : String → ℕ)
    (page : (before : Option String) → Call S (List (Candle R))) (pause : S → S) where
  -- What the loop does with a batch; `next` goes on before the oldest candle of it.
  abbrev pub with_batch :
      (start : Option ℕ)
      → (prev : Option ℕ) → (all : List (Candle R))
      → (Candle R → List (Candle R) → Call S (List (Candle R)))
      → List (Candle R)
      → Call S (List (Candle R))
  with_batch start prev all next [] = pure all
  with_batch none prev all next (b ∷ bs) =
      if is_repeated prev (at instant b) then pure all else pure ((b ∷ bs) ++ all)
  with_batch (some s) prev all next (b ∷ bs) =
      if is_repeated prev (at instant b)
      then pure all
      else (let valid = filter_if (is_from instant s) (b ∷ bs) in
          if ltb (length valid) (length (b ∷ bs))
          then pure (valid ++ all)
          else next b (valid ++ all))

  -- The loop of `fetch_range`, by the rounds that are left.
  unfoldable pub range_loop :
      ℕ
      → (start : Option ℕ) → (before : Option String) → (prev : Option ℕ) → (all : List (Candle R))
      → Call S (List (Candle R))
  range_loop zero start before prev all = pure all
  range_loop (suc k) start before prev all =
      page before
      >>= with_batch start prev all
          (λ b all' σ. range_loop k start (some b.timestamp) (some (at instant b)) all' (pause σ))

  unfoldable pub fetch_range :
      (start : Option ℕ) → (end_date : Option String) → Call S (List (Candle R))
  unfolding range_loop sort_candles
  fetch_range start end_date = do
    all ← range_loop 500 start end_date none []
    pure (sort_candles instant all)

module _ {R : Type 0} (instant : String → ℕ) (is_iso : String → Bool) where
  -- `xs[-count:]`, which is all of them for 0.
  abbrev last_count : ℕ → List (Candle R) → List (Candle R)
  last_count zero xs = xs
  last_count (suc n) xs = last_n (suc n) xs

  abbrev of_symbol : String → List (Candle R) → List (Candle R)
  of_symbol symbol candles = filter_if (λ c. str_eq c.symbol symbol) candles

  -- The CSV source, with the candles that it has loaded.
  unfoldable pub csv_get_candles :
      (symbol : String)
      → (count : ℕ) → (before : Option String) → List (Candle R)
      → Result (List (Candle R))
  csv_get_candles symbol count none candles = ok (last_count count (of_symbol symbol candles))
  csv_get_candles symbol count (some t) candles =
      if str_eq t ""
      then ok (last_count count (of_symbol symbol candles))
      else if is_iso t
      then ok (
          last_count count
            (filter_if (λ c. ltb (instant c.timestamp) (instant t)) (of_symbol symbol candles)))
      else err value_error

  abbrev from_start : Option ℕ → List (Candle R) → List (Candle R)
  from_start none cs = cs
  from_start (some s) cs = filter_if (λ c. leb s (instant c.timestamp)) cs

  abbrev to_end : Option ℕ → List (Candle R) → List (Candle R)
  to_end none cs = cs
  to_end (some e) cs = filter_if (λ c. leb (instant c.timestamp) e) cs

  unfoldable pub csv_fetch_range :
      (symbol : String) → (start end_date : Option ℕ) → List (Candle R) → List (Candle R)
  csv_fetch_range symbol start end_date candles =
      to_end end_date (from_start start (of_symbol symbol candles))
