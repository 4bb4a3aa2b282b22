-- ===== src/Toss/Port.antt =====
-- What the client takes from outside the repository: the clock, the network, the cache file and the
-- readers of numbers and times of the standard library.
use quanteo.Base.{ℕ, String, Bool, Option, List}
use quanteo.Base.Int.{ℤ}
use quanteo.Toss.Json.{Json}

-- A request to the REST API. The path is given by the pieces that its f-string joins; `token` is
-- the value behind `Bearer` in the header, `account` the header `X-Tossinvest-Account`.
pub record Request (R : Type 0) : Type 0 where
  pub method : String
  pub path : List String
  pub token : String
  pub account : Option String
  pub params : List (String × Json R)
  pub json_body : Option (Json R)

-- What the HTTP client returns or raises. The body is `none` where `resp.json()` raises.
pub data Reply (R : Type 0) : Type 0 where
  failed : Reply R
  replied : (status_code : ℕ) → Option (Json R) → Reply R

-- `time` is `time.time()`, `monotonic` is `time.monotonic()` in whole milliseconds, `wait` is
-- `asyncio.sleep`. `post_token` is the POST to /oauth2/token with the client's id and secret.
-- `read_cache` is `none` if there is no file or it does not hold JSON; `write_cache` and
-- `remove_cache` may leave the file as it is, since the code only logs their exceptions.
pub record Port (R W : Type 0) : Type 0 where
  pub time : W → R
  pub monotonic : W → ℕ
  pub wait : ℕ → W → W
  pub send : Request R → W → Reply R × W
  pub post_token : String → String → W → Reply R × W
  pub read_cache : W → Option (Json R)
  pub write_cache : Json R → W → W
  pub remove_cache : W → W

-- `str`, `float`, `int` and `Decimal(str(...))` of a JSON value, and `datetime.fromisoformat`,
-- with `none` where they raise; `fromisoformat` is given the text with `Z` replaced by `+00:00`.
-- `occurs` is `k in v` for a text or a list `v`, `price_text` is
-- `str(Decimal(str(x)))` of a float and `str(x)` of a decimal,
-- `truncated` is `int(...)` of a decimal.
pub record Readers (R : Type 0) : Type 0 where
  pub str : Json R → String
  pub float : Json R → Option R
  pub int : Json R → Option ℤ
  pub decimal : Json R → Option R
  pub iso_time : Json R → Option String
  pub occurs : String → Json R → Bool
  pub price_text : R → String
  pub truncated : R → ℤ
