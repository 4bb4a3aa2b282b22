-- ===== src/Toss/ReadMarket.antt =====
-- core/adapters/toss/rest.py, the reading of the answers on the account's limits, calendars,
-- stocks, exchange rates and candles.
use quanteo.Base.{String, Bool, true, false, List}
use quanteo.Base.Int.{ℤ}
use quanteo.Base.Result.{Result, ok, err, runtime_error, ◌>>=◌}
use quanteo.Float.{Float}
use quanteo.Toss.Json.{
  Json, null, bool, text, array, object, empty_object, lookup, or_default, get_or, get_opt,
  elements, is_true,
}
use quanteo.Toss.Call.{traverse}
use quanteo.Toss.Port.{Readers}
use quanteo.Toss.Parse.{int_field, decimal_field, decimal_opt, time_or_now}
use quanteo.Toss.Models.{
  BuyingPowerInfo, Commission, PriceLimits, MarketDay, MarketCalendar, StockInfo, StockWarning,
  ExchangeRate, TossCandle,
}
use quanteo.Toss.Read.{result_object, result_list}

module _ {R : Type 0} ⦃f : Float R⦄ (read : Readers R) where
  unfoldable pub read_buying_power : String → Json R → Result (BuyingPowerInfo R)
  unfolding get_or
  read_buying_power currency body = do
    result ← result_object read body
    unit ← get_or "currency" (text currency) result
    power ← decimal_field read "cashBuyingPower" result
    ok (record { currency = unit; cash_buying_power = power })

  unfoldable pub read_sellable_quantity : Json R → Result ℤ
  unfolding get_or
  read_sellable_quantity body = do
    result ← result_object read body
    quantity ← decimal_field read "sellableQuantity" result
    ok (read.truncated quantity)

  abbrev commission_of : Json R → Result (Commission R)
  commission_of item = do
    country ← get_or "marketCountry" (text "") item
    rate ← decimal_field read "commissionRate" item
    start ← get_opt "startDate" item
    stop ← get_opt "endDate" item
    ok (record {
      market_country = country;
      commission_rate = rate;
      start_date = start;
      end_date = stop;
    })

  unfoldable pub read_commissions : Json R → Result (List (Commission R))
  unfolding get_or elements
  read_commissions body = do
    items ← result_list read body
    rows ← elements items
    traverse commission_of rows

  unfoldable pub read_price_limits : String → (now : String) → Json R → Result (PriceLimits R)
  unfolding get_or
  read_price_limits symbol now body = do
    result ← result_object read body
    raw_ts ← get_or "timestamp" (text "") result
    upper ← decimal_opt read "upperLimitPrice" result
    lower ← decimal_opt read "lowerLimitPrice" result
    currency ← get_or "currency" (text "KRW") result
    ok (record {
      symbol = symbol;
      upper_limit_price = upper;
      lower_limit_price = lower;
      timestamp = time_or_now read raw_ts now;
      currency = currency;
    })

  abbrev opened_day : Json R → Json R → Bool → String → String → Result (MarketDay R)
  opened_day date hours false open_key close_key =
      ok (record { date = date; is_open = false; open_time = null; close_time = null })
  opened_day date hours true open_key close_key = do
    open_time ← get_opt open_key hours
    close_time ← get_opt close_key hours
    ok (record { date = date; is_open = true; open_time = open_time; close_time = close_time })

  -- `_parse_kr_market_day` and `_parse_us_market_day`, which read `integrated` and `regular`: a day
  -- without hours is closed.
  unfoldable pub parse_market_day : (hours : String) → Json R → Result (MarketDay R)
  unfolding get_or is_true
  parse_market_day key raw = do
    date ← get_or "date" (text "") raw
    hours ← get_opt key raw
    opened_day date hours (is_true hours) "open" "close"

  abbrev day_field : String → String → Json R → Result (MarketDay R)
  day_field key k result = do day ← get_or k empty_object result; parse_market_day key day

  unfoldable pub read_calendar : (hours : String) → Json R → Result (MarketCalendar R)
  unfolding get_or parse_market_day
  read_calendar key body = do
    result ← result_object read body
    today ← day_field key "today" result
    previous ← day_field key "previousBusinessDay" result
    next ← day_field key "nextBusinessDay" result
    ok (record { today = today; previous_business_day = previous; next_business_day = next })

  abbrev stock_of : Json R → Result (StockInfo R)
  stock_of item = do
    symbol ← get_or "symbol" (text "") item
    name ← get_or "name" (text "") item
    english ← get_or "englishName" (text "") item
    market ← get_or "market" (text "") item
    status ← get_or "status" (text "NORMAL") item
    currency ← get_or "currency" (text "KRW") item
    isin ← get_or "isinCode" (text "") item
    common ← get_or "isCommonShare" (bool true) item
    ok (record {
      symbol = symbol;
      name = name;
      english_name = english;
      market = market;
      status = status;
      currency = currency;
      isin_code = isin;
      is_common_share = is_true common;
    })

  unfoldable pub read_stocks : Json R → Result (List (StockInfo R))
  unfolding get_or is_true elements
  read_stocks body = do items ← result_list read body; rows ← elements items; traverse stock_of rows

  abbrev warning_of : Json R → Result (StockWarning R)
  warning_of item = do
    type ← get_or "warningType" (text "") item
    start ← get_opt "startDate" item
    stop ← get_opt "endDate" item
    ok (record { warning_type = type; start_date = start; end_date = stop })

  unfoldable pub read_stock_warnings : Json R → Result (List (StockWarning R))
  unfolding get_or elements
  read_stock_warnings body = do
    items ← result_list read body
    rows ← elements items
    traverse warning_of rows

  unfoldable pub read_exchange_rate : (base quote now : String) → Json R → Result (ExchangeRate R)
  unfolding get_or
  read_exchange_rate base quote now body = do
    result ← result_object read body
    base_currency ← get_or "baseCurrency" (text base) result
    quote_currency ← get_or "quoteCurrency" (text quote) result
    rate ← decimal_field read "rate" result
    mid ← decimal_field read "midRate" result
    change ← get_or "rateChangeType" (text "") result
    from ← get_or "validFrom" (text "") result
    until ← get_or "validUntil" (text "") result
    ok (record {
      base_currency = base_currency;
      quote_currency = quote_currency;
      rate = rate;
      mid_rate = mid;
      rate_change_type = change;
      valid_from = time_or_now read from now;
      valid_until = time_or_now read until now;
    })

  abbrev candle_of : (now : String) → Json R → Result (TossCandle R)
  candle_of now item = do
    raw_ts ← get_or "timestamp" (text "") item
    open_price ← decimal_field read "openPrice" item
    high ← decimal_field read "highPrice" item
    low ← decimal_field read "lowPrice" item
    close ← decimal_field read "closePrice" item
    volume ← int_field read "volume" item
    currency ← get_or "currency" (text "KRW") item
    ok (record {
      timestamp = time_or_now read raw_ts now;
      open_price = open_price;
      high_price = high;
      low_price = low;
      close_price = close;
      volume = volume;
      currency = currency;
    })

  -- `result.get("candles", result)` of a dict, and `result` itself if it is none.
  abbrev candle_items : Json R → Json R
  candle_items (object fs) = or_default (object fs) (lookup "candles" fs)
  candle_items j = j

  -- A value that is no list raises.
  abbrev list_items : Json R → Result (Json R)
  list_items (array js) = ok (array js)
  list_items j = err runtime_error

  unfoldable pub read_candles : (now : String) → Json R → Result (List (TossCandle R))
  unfolding get_or lookup elements
  read_candles now body = do
    result ← result_object read body
    items ← list_items (candle_items result)
    rows ← elements items
    traverse (candle_of now) rows
