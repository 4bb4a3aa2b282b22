-- ===== src/Toss/Answers.antt =====
-- What `_do_request` returns is the body of an accepted answer, whatever came before it.
use quanteo.Base.{
  ℕ, zero, suc, ◌≤◌, ◌<◌, ◌≡◌, refl, ap, ◌∙◌, String, Bool, true, false, Option, none, some, arith,
  ◌==◌, if◌then◌else◌,
}
use mathlib.Core.Path.{subst}
use quanteo.Base.Result.{
  Result, ok, err, ok_injective, conflict_error, runtime_error, >>=-eq-ok, ◌>>=◌,
}
use quanteo.Float.{Float}
use quanteo.Toss.Json.{
  Json, null, bool, number, text, array, object, contains, lookup, has_text, has_part, get_key,
  get_or, empty_object,
}
use quanteo.Toss.Call.{Call, after, lift, raise}
use quanteo.Toss.Port.{Port, Reply, failed, replied, Request, Readers}
use quanteo.Toss.Auth.{OAuth2Token, refresh_on_401}
use quanteo.Toss.Http.{
  Client, on_auth, answered, attempts, do_request, is_success, conflict_or_body, accepted_body,
  conflict, reject_error, body_of,
}

-- A body that does not speak of an error.
abbrev pub NoError : {R : Type 0} → Json R → Type 0
NoError (object fs) = lookup "error" fs ≡ none
NoError (array js) = has_text "error" js ≡ false
NoError (text s) = has_part "error" s ≡ false
NoError j = ⊥

contains-NoError : {R : Type 0} (j : Json R) → contains "error" j ≡ ok false → NoError j
unfolding contains
contains-NoError (object fs) h = ground arith
contains-NoError (array js) h = ground arith
contains-NoError (text s) h = ground arith
contains-NoError null h = cc
contains-NoError (bool b) h = cc
contains-NoError (number x) h = cc

not_rejected :
    {R : Type 0} (k j : Json R) (b : Bool)
    → reject_error k b ≡ ok j
    → contains "error" k ≡ ok b
    → (some k ≡ some j) × (contains "error" j ≡ ok false)
unfolding get_key get_or
not_rejected k j false h found =
    let same = ok_injective h in
    (ap some same, subst (λ i. contains "error" i ≡ ok false) same found)
not_rejected k j true h found = ground arith

accepted_body-ok :
    {R : Type 0} (body : Option (Json R)) (j : Json R)
    → accepted_body body ≡ ok j
    → (body ≡ some j) × (contains "error" j ≡ ok false)
unfolding accepted_body
accepted_body-ok none j h = cc
accepted_body-ok (some k) j h =
    let (b, found, rest) = >>=-eq-ok (contains "error" k) (reject_error k) h in
    not_rejected k j b rest found

conflict-fails : {R : Type 0} (body : Option (Json R)) (j : Json R) → conflict body ≡ ok j → ⊥
unfolding get_or
conflict-fails body j h =
    let (k, e, rest) =
      >>=-eq-ok (body_of body)
        (λ k.
          get_or "error" empty_object k
          >>= (λ e. get_or "code" (text "") e >>= (λ c. err conflict_error)))
        h in
    let (e', p, rest') =
      >>=-eq-ok (get_or "error" empty_object k)
        (λ e. get_or "code" (text "") e >>= (λ c. err conflict_error)) rest in
    let (c, q, never) = >>=-eq-ok (get_or "code" (text "") e') (λ c. err conflict_error) rest' in cc

conflict_or_body-ok :
    {R : Type 0} (code : ℕ) (body : Option (Json R)) (j : Json R)
    → conflict_or_body code body ≡ ok j
    → (is_success code ≡ true) × (body ≡ some j) × (contains "error" j ≡ ok false)
conflict_or_body-ok code body j h = ground (arith, conflict-fails body j, accepted_body-ok body j)

module _ {R W : Type 0} ⦃f : Float R⦄ (read : Readers R) (port : Port R W) where
  -- An answer to the request, under the token that it was sent with, whose body is `j`.
  record IsAnswer (req : Request R) (j : Json R) (after_it : W) : Type 0 where
    pub token : String
    pub before : W
    pub code : ℕ
    pub sent : port.send (record req { token = token }) before ≡ (replied code (some j), after_it)
    pub success : is_success code ≡ true
    pub no_error : contains "error" j ≡ ok false

  branch-IsAnswer :
      (is_401 is_first : Bool) (code : ℕ) (body : Option (Json R))
      (retry : Call (Client R W) (Json R)) (req : Request R) (w : W) (c c' : Client R W)
      (j : Json R)
      → port.send req w ≡ (replied code body, c.world)
      → (retry c ≡ (ok j, c') → IsAnswer req j c'.world)
      → (if is_401
            then (if is_first then retry else raise runtime_error)
            else lift (conflict_or_body code body))
          c
        ≡ (ok j, c')
      → IsAnswer req j c'.world
  branch-IsAnswer true true code body retry req w c c' j sent later h = later h
  branch-IsAnswer true false code body retry req w c c' j sent later h = cc
  branch-IsAnswer false is_first code body retry req w c c' j sent later h =
      let (success, whole, fine) = conflict_or_body-ok code body j (ap (λ p. p.0) h) in
      record {
        token = req.token;
        before = w;
        code = code;
        sent =
            sent
            ∙ ap (λ b. (replied code b, c.world)) whole
            ∙ ap (λ p. (replied code (some j), p.1.world)) h;
        success = success;
        no_error = fine;
      }

  answered-IsAnswer :
      (is_first : Bool) (reply : Reply R) (retry : Call (Client R W) (Json R)) (req : Request R)
      (w : W) (c c' : Client R W) (j : Json R)
      → port.send req w ≡ (reply, c.world)
      → (retry c ≡ (ok j, c') → IsAnswer req j c'.world)
      → answered read port is_first retry reply c ≡ (ok j, c')
      → IsAnswer req j c'.world
  answered-IsAnswer is_first failed retry req w c c' j sent later h = cc
  answered-IsAnswer is_first (replied code body) retry req w c c' j sent later h =
      branch-IsAnswer (code == 401) is_first code body retry req w c c' j sent later h

  renewed-IsAnswer :
      (next : OAuth2Token R → Call (Client R W) (Json R)) (req : Request R)
      (r : Result (OAuth2Token R) × Client R W) (c' : Client R W) (j : Json R)
      → ((t : OAuth2Token R) (c : Client R W) → next t c ≡ (ok j, c') → IsAnswer req j c'.world)
      → after next r ≡ (ok j, c')
      → IsAnswer req j c'.world
  renewed-IsAnswer next req (err e, c) c' j later h = cc
  renewed-IsAnswer next req (ok t, c) c' j later h = later t c h

  attempts-IsAnswer :
      (n : ℕ) (req : Request R) (c c' : Client R W) (j : Json R)
      → attempts read port n req c ≡ (ok j, c')
      → IsAnswer req j c'.world
  unfolding attempts
  attempts-IsAnswer zero req c c' j h = cc
  attempts-IsAnswer (suc n) req c c' j h =
      let again = λ (t : OAuth2Token R).
        attempts read port n (record req { token = read.str t.access_token }) in
      let received = record c { world = (port.send req c.world).1 } in
      answered-IsAnswer (n == 1) (port.send req c.world).0
        (λ c1. after again (on_auth (refresh_on_401 read port) c1)) req c.world received c' j refl
        (λ retried.
          renewed-IsAnswer again req (on_auth (refresh_on_401 read port) received) c' j
            (λ t c2 more.
              let a =
                attempts-IsAnswer n (record req { token = read.str t.access_token }) c2 c' j more in
              record {
                token = a.token;
                before = a.before;
                code = a.code;
                sent = a.sent;
                success = a.success;
                no_error = a.no_error;
              })
            retried)
        h

  -- If `_do_request` returns a value, it is the unchanged body of an answer to the request, sent
  -- under some token as the last thing that happened outside, with a status from 200 to 299. It is an
  -- object without the key `error`, a list without the element `error`, or a text in which `error`
  -- does not occur. So a 401, a 409, another failing status, a body that is no JSON, an error body,
  -- a number, a Boolean and null are exceptions in every state of the client.
  pub do_request-IsAnswer :
      (req : Request R) (c c' : Client R W) (j : Json R)
      → do_request read port req c ≡ (ok j, c')
      → (token : String) × (before : W) × (code : ℕ) × (port.send
            (record req { token = token })
            before
          ≡ (replied code (some j), c'.world))
        × (200 ≤ code)
        × (code < 300)
        × NoError j
  unfolding do_request
  do_request-IsAnswer req c c' j h =
      let a = attempts-IsAnswer 2 req c c' j h in
      let success = a.success in
      (a.token, a.before, a.code, a.sent, ground arith, ground arith, contains-NoError j a.no_error)
