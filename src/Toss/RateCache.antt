-- ===== src/Toss/RateCache.antt =====
-- A rate that `get_exchange_rate` returned is returned again for a minute, without a request.
use mathlib.Core.Path.{subst}
use quanteo.Base.{
  ℕ, ◌-◌, ◌<◌, ◌≡◌, refl, ap, sym, ◌∙◌, ◌⊎◌, inl, inr, String, false, Option, none, some, [], ◌∷◌,
  ltb, arith, Bool-cases,
}
use quanteo.Base.Result.{Result, ok, err, ok_injective}
use quanteo.Float.{Float}
use quanteo.Domain.{get, get-put}
use quanteo.Toss.Json.{Json, text}
use quanteo.Toss.Call.{after}
use quanteo.Toss.Port.{Port, Readers}
use quanteo.Toss.Models.{ExchangeRate}
use quanteo.Toss.Http.{Client, request_market}
use quanteo.Toss.ReadMarket.{read_exchange_rate}
use quanteo.Toss.Rates.{rate_ttl, cache_key, fresh_rate, keep_rate, rate_of, get_exchange_rate}

fresh_rate-some :
    {R : Type 0} (o : Option (ExchangeRate R × ℕ)) (now : ℕ) (rate : ExchangeRate R)
    → fresh_rate o now ≡ some rate
    → (at : ℕ) × (o ≡ some (rate, at)) × (now - at < rate_ttl)
fresh_rate-some none now rate h = cc
fresh_rate-some (some (r, at)) now rate h = elim (Bool-cases (ltb (now - at) rate_ttl)) [
  | inl young ↦ (at, ground arith, ground arith)
  | inr old ↦ ground arith
]

kept_is_fresh :
    {R : Type 0} (o : Option (ExchangeRate R × ℕ)) (rate : ExchangeRate R) (at now : ℕ)
    → o ≡ some (rate, at)
    → now - at < rate_ttl
    → fresh_rate o now ≡ some rate
kept_is_fresh o rate at now h young = ground arith

module _ {R W : Type 0} ⦃f : Float R⦄ (read : Readers R) (port : Port R W) where
  kept_last :
      (key : String) (r : Result (ExchangeRate R) × Client R W) (rate : ExchangeRate R)
      (c' : Client R W)
      → after (λ rate c. (ok rate, keep_rate read port key rate c)) r ≡ (ok rate, c')
      → get key c'.rates ≡ some (rate, port.monotonic c'.world)
  kept_last key (err e, c) rate c' h = cc
  kept_last key (ok new, c) rate c' h =
      let at = port.monotonic c.world in
      subst (λ d. get key d.rates ≡ some (rate, port.monotonic d.world)) (ap (λ p. p.1) h)
        (get-put key (new, at) c.rates ∙ ap (λ x. some (x, at)) (ok_injective (ap (λ p. p.0) h)))

  requested_last :
      (key : String) (reader : Json R → Result (ExchangeRate R)) (r : Result (Json R) × Client R W)
      (rate : ExchangeRate R) (c' : Client R W)
      → after
          (λ body c. after (λ rate c. (ok rate, keep_rate read port key rate c)) (reader body, c))
          r
        ≡ (ok rate, c')
      → get key c'.rates ≡ some (rate, port.monotonic c'.world)
  requested_last key reader (err e, c) rate c' h = cc
  requested_last key reader (ok body, c) rate c' h = kept_last key (reader body, c) rate c' h

  -- Where a returned rate stands in the cache.
  rate_at :
      (base_currency quote_currency now : String) (o : Option (ExchangeRate R)) (c c' : Client R W)
      (rate : ExchangeRate R)
      → let key = cache_key base_currency quote_currency in
        fresh_rate (get key c.rates) (port.monotonic c.world) ≡ o
        → rate_of read port base_currency quote_currency now o c ≡ (ok rate, c')
        → (at : ℕ) × (get key c'.rates ≡ some (rate, at))
          × ((at ≡ port.monotonic c'.world) ⊎ ((c' ≡ c) × (port.monotonic c.world - at < rate_ttl)))
  rate_at base_currency quote_currency now (some held) c c' rate found h =
      let key = cache_key base_currency quote_currency in
      let (at, known, young) =
        fresh_rate-some (get key c.rates) (port.monotonic c.world) held found in
      let same = ap (λ p. p.1) h in
      (
        at,
        subst (λ d. get key d.rates ≡ some (rate, at)) same
            (known ∙ ap (λ r. some (r, at)) (ok_injective (ap (λ p. p.0) h))),
        inr (sym same, young),
      )
  rate_at base_currency quote_currency now none c c' rate found h =
      let key = cache_key base_currency quote_currency in
      (
        port.monotonic c'.world,
        requested_last key (read_exchange_rate read base_currency quote_currency now)
            (request_market read port "GET" ("/api/v1/exchange-rate" ∷ [])
              (("baseCurrency", text base_currency) ∷ ("quoteCurrency", text quote_currency) ∷ [])
              false c)
            rate c' h,
        inl refl,
      )

  -- A rate that `get_exchange_rate` returned stands in the cache under the time `at` at which it
  -- came: when the call returned, or, if nothing was sent and the client is unchanged, less than a minute before the
  -- call. In every later state with this cache, less than a minute after `at`, the call returns the same
  -- rate and changes nothing, so it sends no request either.
  pub get_exchange_rate-again :
      (base_currency quote_currency now : String) (c c' : Client R W) (rate : ExchangeRate R)
      → get_exchange_rate read port base_currency quote_currency now c ≡ (ok rate, c')
      → (at : ℕ) × ((at ≡ port.monotonic c'.world)
          ⊎ ((c' ≡ c) × (port.monotonic c.world - at < rate_ttl)))
        × ((later : Client R W) (now' : String)
            → later.rates ≡ c'.rates
            → port.monotonic later.world - at < rate_ttl
            → get_exchange_rate read port base_currency quote_currency now' later
              ≡ (ok rate, later))
  unfolding get_exchange_rate
  get_exchange_rate-again base_currency quote_currency now c c' rate h =
      let key = cache_key base_currency quote_currency in
      let (at, known, since) =
        rate_at base_currency quote_currency now
          (fresh_rate (get key c.rates) (port.monotonic c.world)) c c' rate refl h in
      (
        at,
        since,
        (λ later now' same young.
            ap (λ o. rate_of read port base_currency quote_currency now' o later)
              (kept_is_fresh (get key later.rates) rate at (port.monotonic later.world)
                (ap (get key) same ∙ known) young)),
      )
