-- ===== src/Toss/Http.antt =====
-- core/adapters/toss/rest.py, the requests: the throttlers, the headers, the renewal of the token
-- after a 401 with one more attempt, the reading of the answer.
use quanteo.Base.{
  ℕ, zero, suc, String, Bool, true, false, ◌&&◌, Option, none, some, List, [], ltb, leb, ◌==◌,
  if◌then◌else◌,
}
use quanteo.Base.Result.{
  Result, ok, err, runtime_error, value_error, conflict_error, http_error, ◌>>=◌ as bind,
}
use quanteo.Float.{Float}
use quanteo.Throttler.{Throttler, new_throttler, acquire}
use quanteo.Toss.Json.{Json, text, empty_object, contains, get_key, get_or, get_opt}
use quanteo.Toss.Call.{Call, ◌>>=◌, ◌>>◌, pure, lift, raise}
use quanteo.Toss.Port.{Port, Reply, failed, replied, Request, Readers}
use quanteo.Toss.Auth.{TossAuth, get_access_token, refresh_on_401}
use quanteo.Toss.Models.{ExchangeRate}

-- `rates` is the cache of exchange rates, each with the time of its arrival.
pub record Client (R W : Type 0) : Type 0 where
  pub auth : TossAuth R
  pub account_seq : Option String
  pub market_throttler : Throttler
  pub order_throttler : Throttler
  pub rates : List (String × (ExchangeRate R × ℕ))
  pub world : W

-- Five market requests and two orders a second.
unfoldable pub new_client : {R W : Type 0} → TossAuth R → W → Client R W
unfolding new_throttler
new_client a w = record {
  auth = a;
  account_seq = none;
  market_throttler = new_throttler 200;
  order_throttler = new_throttler 500;
  rates = [];
  world = w;
}

abbrev pub on_auth : {R W V : Type 0} → Call (TossAuth R × W) V → Call (Client R W) V
on_auth call c = let (r, (a, w)) = call (c.auth, c.world) in (r, record c { auth = a; world = w })

-- `_get_account_seq`
abbrev pub account_of : {R W : Type 0} → Option String → Call (Client R W) String
account_of none = raise runtime_error
account_of (some seq) = pure seq

abbrev pub get_account_seq : {R W : Type 0} → Call (Client R W) String
get_account_seq c = account_of c.account_seq c

-- What `raise_for_status` lets through.
abbrev pub is_success : ℕ → Bool
is_success code = leb 200 code && ltb code 300

module _ {R : Type 0} where
  abbrev pub body_of : Option (Json R) → Result (Json R)
  body_of none = err value_error
  body_of (some j) = ok j

  abbrev pub conflict : Option (Json R) → Result (Json R)
  conflict body = bind (body_of body) (λ j.
      bind (get_or "error" empty_object j)
        (λ e. bind (get_or "code" (text "") e) (λ code. err conflict_error)))

  abbrev pub reject_error : Json R → Bool → Result (Json R)
  reject_error j false = ok j
  reject_error j true = bind (get_key "error" j) (λ e.
      bind (get_opt "code" e) (λ code. bind (get_opt "message" e) (λ message. err runtime_error)))

  -- The body of an answer whose status is a success.
  unfoldable pub accepted_body : Option (Json R) → Result (Json R)
  unfolding contains get_key get_or
  accepted_body body = bind (body_of body) (λ j. bind (contains "error" j) (reject_error j))

  abbrev pub conflict_or_body : ℕ → Option (Json R) → Result (Json R)
  conflict_or_body code body =
      if code == 409
      then conflict body
      else if is_success code
      then accepted_body body
      else err http_error

module _ {R W : Type 0} ⦃f : Float R⦄ (read : Readers R) (port : Port R W) where
  abbrev pub transmit : Request R → Call (Client R W) (Reply R)
  transmit req c = let (reply, w) = port.send req c.world in (ok reply, record c { world = w })

  -- `retry` is the rest of the loop, on the first attempt.
  abbrev pub answered : Bool → Call (Client R W) (Json R) → Reply R → Call (Client R W) (Json R)
  answered is_first retry failed = raise http_error
  answered is_first retry (replied code body) =
      if code == 401
      then (if is_first then retry else raise runtime_error)
      else lift (conflict_or_body code body)

  -- The loop of `_do_request`, by the attempts that are left.
  unfoldable pub attempts : ℕ → Request R → Call (Client R W) (Json R)
  unfolding refresh_on_401 accepted_body get_or
  attempts zero req = raise runtime_error
  attempts (suc n) req = do
    reply ← transmit req
    answered (n == 1)
        (do
          t ← on_auth (refresh_on_401 read port)
          attempts n (record req { token = read.str t.access_token }))
        reply

  unfoldable pub do_request : Request R → Call (Client R W) (Json R)
  unfolding attempts
  do_request req = attempts 2 req

  abbrev pub acquire_market : Call (Client R W) (Unit {0})
  acquire_market c =
      let (th, w) = acquire port.monotonic port.wait c.market_throttler c.world in
      (ok tt, record c { market_throttler = th; world = w })

  abbrev pub acquire_order : Call (Client R W) (Unit {0})
  acquire_order c =
      let (th, w) = acquire port.monotonic port.wait c.order_throttler c.world in
      (ok tt, record c { order_throttler = th; world = w })

  abbrev pub account_if : Bool → Call (Client R W) (Option String)
  account_if false = pure none
  account_if true = do seq ← get_account_seq; pure (some seq)

  abbrev pub request_of :
      String
      → List String
      → String
      → Option String
      → List (String × Json R)
      → Option (Json R)
      → Request R
  request_of method path token account params json_body = record {
    method = method;
    path = path;
    token = token;
    account = account;
    params = params;
    json_body = json_body;
  }

  -- Its callers pass no JSON body.
  unfoldable pub request_market :
      String
      → List String
      → List (String × Json R)
      → (with_account : Bool) → Call (Client R W) (Json R)
  unfolding acquire get_access_token do_request
  request_market method path params with_account = do
    acquire_market
    t ← on_auth (get_access_token read port)
    account ← account_if with_account
    do_request (request_of method path (read.str t.access_token) account params none)

  unfoldable pub request_order : String → List String → Option (Json R) → Call (Client R W) (Json R)
  unfolding acquire get_access_token do_request
  request_order method path json_body = do
    acquire_order
    t ← on_auth (get_access_token read port)
    seq ← get_account_seq
    do_request (request_of method path (read.str t.access_token) (some seq) [] json_body)
