-- ===== src/Toss/Account.antt =====
-- core/adapters/toss/rest.py, the operations that only read: prices, holdings, limits, calendars,
-- stocks, candles, and the exchange rate with its cache.
use quanteo.Base.{
  ℕ, String, Bool, true, false, Option, none, some, List, [], ◌∷◌, ◌++◌, str_eq, if◌then◌else◌,
}
use quanteo.Base.Int.{ℤ, pos}
use quanteo.Base.Result.{Result, ok}
use quanteo.Float.{Float}
use quanteo.Toss.Json.{Json, text, number}
use quanteo.Toss.Call.{Call, ◌>>=◌, pure, lift}
use quanteo.Toss.Port.{Port, Readers}
use quanteo.Toss.Models.{
  PriceInfo, BalanceInfo, BuyingPowerInfo, Commission, PriceLimits, MarketCalendar, StockInfo,
  StockWarning, TossCandle,
}
use quanteo.Toss.Http.{Client, request_market}
use quanteo.Toss.Read.{read_account_seq, read_price, read_balance}
use quanteo.Toss.ReadMarket.{
  read_buying_power, read_sellable_quantity, read_commissions, read_price_limits, read_calendar,
  read_stocks, read_stock_warnings, read_candles,
}

module _ {R W : Type 0} ⦃f : Float R⦄ (read : Readers R) (port : Port R W) where
  abbrev fetch :
      {V : Type 0}
      → List String
      → List (String × Json R)
      → Bool
      → (Json R → Result V)
      → Call (Client R W) V
  fetch path params with_account reader = do
    body ← request_market read port "GET" path params with_account
    lift (reader body)

  unfoldable pub initialize : Call (Client R W) (Unit {0})
  unfolding request_market read_account_seq
  initialize = do
    seq ← fetch ("/api/v1/accounts" ∷ []) [] false (read_account_seq read)
    λ c. (ok tt, record c { account_seq = some seq })

  unfoldable pub get_price : String → Call (Client R W) (PriceInfo R)
  unfolding request_market read_price
  get_price symbol =
      fetch ("/api/v1/prices" ∷ []) (("symbols", text symbol) ∷ []) false (read_price read symbol)

  unfoldable pub get_balance : Option String → Call (Client R W) (BalanceInfo R)
  unfolding request_market read_balance
  get_balance symbol = fetch ("/api/v1/holdings" ∷ []) [] true (read_balance read symbol)

  unfoldable pub get_buying_power : String → Call (Client R W) (BuyingPowerInfo R)
  unfolding request_market read_buying_power
  get_buying_power currency =
      fetch ("/api/v1/buying-power" ∷ []) (("currency", text currency) ∷ []) true
        (read_buying_power read currency)

  unfoldable pub get_sellable_quantity : String → Call (Client R W) ℤ
  unfolding request_market read_sellable_quantity
  get_sellable_quantity symbol =
      fetch ("/api/v1/sellable-quantity" ∷ []) (("symbol", text symbol) ∷ []) true
        (read_sellable_quantity read)

  unfoldable pub get_commissions : Call (Client R W) (List (Commission R))
  unfolding request_market read_commissions
  get_commissions = fetch ("/api/v1/commissions" ∷ []) [] true (read_commissions read)

  unfoldable pub get_price_limits : String → (now : String) → Call (Client R W) (PriceLimits R)
  unfolding request_market read_price_limits
  get_price_limits symbol now =
      fetch ("/api/v1/price-limits" ∷ []) (("symbol", text symbol) ∷ []) false
        (read_price_limits read symbol now)

  abbrev before_param : Option String → List (String × Json R)
  before_param none = []
  before_param (some t) = if str_eq t "" then [] else ("before", text t) ∷ []

  abbrev date_param : Option String → List (String × Json R)
  date_param none = []
  date_param (some d) = if str_eq d "" then [] else ("date", text d) ∷ []

  unfoldable pub get_market_calendar_kr : Option String → Call (Client R W) (MarketCalendar R)
  unfolding request_market read_calendar
  get_market_calendar_kr date =
      fetch ("/api/v1/market-calendar/KR" ∷ []) (date_param date) false
        (read_calendar read "integrated")

  unfoldable pub get_market_calendar_us : Option String → Call (Client R W) (MarketCalendar R)
  unfolding request_market read_calendar
  get_market_calendar_us date =
      fetch ("/api/v1/market-calendar/US" ∷ []) (date_param date) false
        (read_calendar read "regular")

  unfoldable pub is_market_open : (market : String) → Call (Client R W) Bool
  unfolding get_market_calendar_kr get_market_calendar_us
  is_market_open market = do
    cal ← if str_eq market "KR" then get_market_calendar_kr none else get_market_calendar_us none
    pure cal.today.is_open

  -- `joined` is the symbols with commas between.
  unfoldable pub get_stocks : (joined : String) → Call (Client R W) (List (StockInfo R))
  unfolding request_market read_stocks
  get_stocks joined =
      fetch ("/api/v1/stocks" ∷ []) (("symbols", text joined) ∷ []) false (read_stocks read)

  unfoldable pub get_stock_warnings : String → Call (Client R W) (List (StockWarning R))
  unfolding request_market read_stock_warnings
  get_stock_warnings symbol =
      fetch ("/api/v1/stocks/" ∷ symbol ∷ "/warnings" ∷ []) [] false (read_stock_warnings read)

  unfoldable pub get_candles :
      (symbol interval : String)
      → (count : ℕ) → (before : Option String) → (adjusted : Bool) → (now : String)
      → Call (Client R W) (List (TossCandle R))
  unfolding request_market read_candles
  get_candles symbol interval count before adjusted now =
      fetch ("/api/v1/candles" ∷ [])
        ((("symbol", text symbol)
            ∷ ("interval", text interval)
            ∷ ("count", number (f.of_int (pos count)))
            ∷ ("adjusted", text (if adjusted then "true" else "false"))
            ∷ [])
          ++ before_param before)
        false (read_candles read now)
