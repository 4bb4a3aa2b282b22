-- ===== src/Toss/Auth.antt =====
-- core/adapters/toss/auth.py: the access token in memory and in the cache file, its renewal after a
-- 401 and ahead of its end. The lock makes these run one after another, so each is one step.
use quanteo.Base.{String, Bool, Option, none, some, ◌==◌, if◌then◌else◌}
use quanteo.Base.Int.{ℤ, pos}
use quanteo.Base.Result.{Result, ok, err, runtime_error, value_error, http_error, ◌>>=◌}
use quanteo.Float.{Float, nought}
use quanteo.Toss.Json.{Json, number, text, object, no_field, field, get_or, get_key}
use quanteo.Toss.Call.{Call, ◌>>=◌ as bind_calls}
use quanteo.Toss.Port.{Port, Reply, failed, replied, Readers}

pub record OAuth2Token (R : Type 0) : Type 0 where
  pub access_token : Json R
  pub token_type : Json R
  pub expires_in : ℤ
  pub issued_at : R

-- `refresh_at` is the time at which the background task wakes, `none` if there is no such task.
pub record TossAuth (R : Type 0) : Type 0 where
  pub client_id : String
  pub client_secret : String
  pub token : Option (OAuth2Token R)
  pub refresh_at : Option R

module _ {R : Type 0} ⦃f : Float R⦄ where
  unfoldable pub expires_at : OAuth2Token R → R
  expires_at t = f.add t.issued_at (f.of_int t.expires_in)

  abbrev pub margin : R
  margin = f.of_int (pos 60)

  -- `is_valid`, with the time of the call.
  unfoldable pub is_valid : OAuth2Token R → (now : R) → Bool
  unfolding expires_at
  is_valid t now = f.lt now (f.sub (expires_at t) margin)

  unfoldable pub to_dict : OAuth2Token R → Json R
  to_dict t = object (
      field "access_token" t.access_token (
        field "token_type" t.token_type (
          field "expires_in" (number (f.of_int t.expires_in))
            (field "issued_at" (number t.issued_at) no_field))))

  -- The token if there is one and it is valid.
  abbrev pub usable : Option (OAuth2Token R) → (now : R) → Option (OAuth2Token R)
  usable none now = none
  usable (some t) now = if is_valid t now then some t else none

abbrev pub or_raise : {V : Type 0} → Option V → Result V
or_raise none = err value_error
or_raise (some v) = ok v

module _ {R : Type 0} ⦃f : Float R⦄ (read : Readers R) where
  abbrev pub token_of : Json R → Json R → Json R → Json R → Result (OAuth2Token R)
  token_of access type expires issued = do
    seconds ← or_raise (read.int expires)
    at ← or_raise (read.float issued)
    ok (record { access_token = access; token_type = type; expires_in = seconds; issued_at = at })

  unfoldable pub from_dict : Json R → Result (OAuth2Token R)
  unfolding get_or get_key
  from_dict j = do
    access ← get_key "access_token" j
    type ← get_or "token_type" (text "Bearer") j
    expires ← get_or "expires_in" (number nought) j
    issued ← get_or "issued_at" (number nought) j
    token_of access type expires issued

abbrev no_error : {V : Type 0} → Result V → Option V
no_error (err e) = none
no_error (ok v) = some v

module _ {R W : Type 0} ⦃f : Float R⦄ (read : Readers R) (port : Port R W) where
  abbrev pub parsed_cache : Option (Json R) → Option (OAuth2Token R)
  parsed_cache none = none
  parsed_cache (some j) = no_error (from_dict read j)

  unfoldable pub load_cache : W → Option (OAuth2Token R)
  load_cache w = parsed_cache (port.read_cache w)

  -- The old task is cancelled; a token that ends within the margin gets no new one.
  unfoldable pub schedule_refresh : OAuth2Token R → TossAuth R → (now : R) → TossAuth R
  unfolding expires_at
  schedule_refresh t a now =
      let delay = f.sub (f.sub (expires_at t) now) margin in
      record a { refresh_at = if f.le delay nought then none else some (f.add now delay) }

  abbrev issued_token : Json R → (now : R) → Result (OAuth2Token R)
  issued_token body now = do
    access ← get_key "access_token" body
    type ← get_or "token_type" (text "Bearer") body
    expires ← get_or "expires_in" (number (f.of_int (pos 3600))) body
    seconds ← or_raise (read.int expires)
    ok (record { access_token = access; token_type = type; expires_in = seconds; issued_at = now })

  abbrev json_of : Option (Json R) → Result (Json R)
  json_of none = err value_error
  json_of (some j) = ok j

  abbrev pub read_issued : Reply R → (now : R) → Result (OAuth2Token R)
  read_issued failed now = err http_error
  read_issued (replied code body) now =
      if code == 200 then json_of body >>= (λ j. issued_token j now) else err runtime_error

  -- `_issue_token`: the new token's time is read after the answer came.
  unfoldable pub issue_token : Call (TossAuth R × W) (OAuth2Token R)
  unfolding get_or get_key
  issue_token (a, w) =
      let (reply, w') = port.post_token a.client_id a.client_secret w in
      (read_issued reply (port.time w'), (a, w'))

  -- The new token is kept in memory and in the file.
  abbrev pub keep_token : OAuth2Token R → TossAuth R × W → TossAuth R × W
  keep_token t (a, w) = (record a { token = some t }, port.write_cache (to_dict t) w)

  abbrev pub kept : OAuth2Token R → Call (TossAuth R × W) (OAuth2Token R)
  kept t s = (ok t, keep_token t s)

  abbrev pub scheduled : OAuth2Token R → Call (TossAuth R × W) (OAuth2Token R)
  scheduled t (a, w) = (ok t, (schedule_refresh t a (port.time w), w))

  abbrev pub from_cache : Option (OAuth2Token R) → Call (TossAuth R × W) (OAuth2Token R)
  from_cache (some t) (a, w) = scheduled t (record a { token = some t }, w)
  from_cache none s = bind_calls issue_token (λ t. bind_calls (kept t) scheduled) s

  abbrev pub from_memory : Option (OAuth2Token R) → Call (TossAuth R × W) (OAuth2Token R)
  from_memory (some t) s = (ok t, s)
  from_memory none (a, w) = from_cache (usable (load_cache w) (port.time w)) (a, w)

  unfoldable pub get_access_token : Call (TossAuth R × W) (OAuth2Token R)
  unfolding load_cache issue_token schedule_refresh is_valid
  get_access_token (a, w) = from_memory (usable a.token (port.time w)) (a, w)

  unfoldable pub refresh_on_401 : Call (TossAuth R × W) (OAuth2Token R)
  unfolding issue_token
  refresh_on_401 (a, w) =
      bind_calls issue_token kept (record a { token = none }, port.remove_cache w)

  -- The body of the background task once it has slept. Its exceptions are logged.
  abbrev ended : Result (OAuth2Token R) × (TossAuth R × W) → TossAuth R × W
  ended (err e, (a, w)) = (record a { refresh_at = none }, w)
  ended (ok t, s) = s

  unfoldable pub refresh_loop : TossAuth R × W → TossAuth R × W
  unfolding issue_token schedule_refresh
  refresh_loop s = ended (bind_calls issue_token (λ t. bind_calls (kept t) scheduled) s)
