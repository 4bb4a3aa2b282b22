-- ===== src/Toss/Rates.antt =====
-- core/adapters/toss/rest.py, `get_exchange_rate`: the rate of the last minute, or a new one.
use Prim.Native.String.{◌++◌ as append}
use quanteo.Base.{ℕ, ◌-◌, String, false, Option, none, some, [], ◌∷◌, ltb, if◌then◌else◌}
use quanteo.Base.Result.{ok}
use quanteo.Float.{Float}
use quanteo.Domain.{get, put}
use quanteo.Toss.Json.{text}
use quanteo.Toss.Call.{Call, ◌>>=◌, pure, lift}
use quanteo.Toss.Port.{Port, Readers}
use quanteo.Toss.Models.{ExchangeRate}
use quanteo.Toss.Http.{Client, request_market}
use quanteo.Toss.ReadMarket.{read_exchange_rate}

-- One minute.
abbrev pub rate_ttl : ℕ
rate_ttl = 60000

abbrev pub cache_key : (base_currency quote_currency : String) → String
cache_key base_currency quote_currency = append base_currency (append "/" quote_currency)

abbrev pub fresh_rate :
    {R : Type 0} → Option (ExchangeRate R × ℕ) → (now : ℕ) → Option (ExchangeRate R)
fresh_rate none now = none
fresh_rate (some (rate, at)) now = if ltb (now - at) rate_ttl then some rate else none

module _ {R W : Type 0} ⦃f : Float R⦄ (read : Readers R) (port : Port R W) where
  abbrev pub keep_rate : (key : String) → ExchangeRate R → Client R W → Client R W
  keep_rate key rate c = record c { rates = put key (rate, port.monotonic c.world) c.rates }

  abbrev pub rate_of :
      (base_currency quote_currency now : String)
      → Option (ExchangeRate R)
      → Call (Client R W) (ExchangeRate R)
  rate_of base_currency quote_currency now (some rate) = pure rate
  rate_of base_currency quote_currency now none = do
    body ←
        request_market read port "GET" ("/api/v1/exchange-rate" ∷ [])
          (("baseCurrency", text base_currency) ∷ ("quoteCurrency", text quote_currency) ∷ []) false
    rate ← lift (read_exchange_rate read base_currency quote_currency now body)
    λ c. (ok rate, keep_rate (cache_key base_currency quote_currency) rate c)

  unfoldable pub get_exchange_rate :
      (base_currency quote_currency now : String) → Call (Client R W) (ExchangeRate R)
  unfolding get put request_market read_exchange_rate
  get_exchange_rate base_currency quote_currency now c =
      rate_of base_currency quote_currency now
        (fresh_rate (get (cache_key base_currency quote_currency) c.rates) (port.monotonic c.world))
        c
