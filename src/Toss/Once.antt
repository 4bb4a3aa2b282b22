-- ===== src/Toss/Once.antt =====
-- An order reaches the broker at most once, although `_do_request` may send it again.
use quanteo.Base.{
  ℕ, zero, suc, ◌+◌, ◌≤◌, ◌≡◌, ap, String, Bool, Option, none, some, List, [], ◌∷◌, ltb, ◌-◌, arith,
  ◌==◌, if◌then◌else◌, if_intro,
}
use quanteo.Base.Result.{runtime_error}
use quanteo.Float.{Float}
use quanteo.Domain.{Order}
use quanteo.Throttler.{acquire}
use quanteo.Toss.Json.{Json}
use quanteo.Toss.Call.{Call, after, after-measure, lift, raise}
use quanteo.Toss.Port.{Port, Reply, failed, replied, Request, Readers}
use quanteo.Toss.Auth.{
  OAuth2Token, TossAuth, to_dict, issue_token, kept, scheduled, from_cache, from_memory,
  get_access_token, refresh_on_401, usable, load_cache,
}
use quanteo.Toss.Http.{
  Client, on_auth, answered, attempts, do_request, acquire_order, conflict_or_body, account_of,
  request_of, request_order,
}
use quanteo.Toss.Orders.{place_order, order_body, read_ack}

-- `taken` counts the orders that the broker took. A request adds one at most, and none if it is
-- refused with a 401; the token endpoint, the cache file and waiting add none.
pub record TakesOnce {R W : Type 0} (port : Port R W) (taken : W → ℕ) : Type 0 where
  pub one : (req : Request R) (w : W) → taken (port.send req w).1 ≤ taken w + 1
  pub refused :
      (req : Request R) (w : W) (body : Option (Json R))
      → (port.send req w).0 ≡ replied 401 body
      → taken (port.send req w).1 ≤ taken w
  pub token : (id secret : String) (w : W) → taken (port.post_token id secret w).1 ≤ taken w
  pub written : (j : Json R) (w : W) → taken (port.write_cache j w) ≤ taken w
  pub removed : (w : W) → taken (port.remove_cache w) ≤ taken w
  pub waited : (d : ℕ) (w : W) → taken (port.wait d w) ≤ taken w

module _ {R W : Type 0} ⦃f : Float R⦄ (read : Readers R) (port : Port R W) (taken : W → ℕ)
    (once : TakesOnce port taken) where
  abbrev held : TossAuth R × W → ℕ
  held s = taken s.1

  abbrev held_by : Client R W → ℕ
  held_by c = taken c.world

  issue-taken : (s : TossAuth R × W) → held (issue_token read port s).1 ≤ held s + 0
  unfolding issue_token
  issue-taken (a, w) = omega (arith, once.token a.client_id a.client_secret w)

  kept-taken : (t : OAuth2Token R) (s : TossAuth R × W) → held (kept read port t s).1 ≤ held s + 0
  kept-taken t (a, w) = omega (arith, once.written (to_dict t) w)

  scheduled-taken :
      (t : OAuth2Token R) (s : TossAuth R × W) → held (scheduled read port t s).1 ≤ held s + 0
  scheduled-taken t (a, w) = omega arith

  renewal-taken :
      (next : OAuth2Token R → Call (TossAuth R × W) (OAuth2Token R)) (s : TossAuth R × W)
      → ((t : OAuth2Token R) (s' : TossAuth R × W) → held (next t s').1 ≤ held s' + 0)
      → held (after next (issue_token read port s)).1 ≤ held s
  renewal-taken next s h =
      omega (arith, issue-taken s, after-measure held 0 next (issue_token read port s) h)

  from_cache-taken :
      (o : Option (OAuth2Token R)) (s : TossAuth R × W) → held (from_cache read port o s).1 ≤ held s
  from_cache-taken (some t) (a, w) =
      omega (arith, scheduled-taken t (record a { token = some t }, w))
  from_cache-taken none s =
      renewal-taken (λ t s'. after (scheduled read port) (kept read port t s')) s
        (λ t s'. omega (
          arith,
          kept-taken t s',
          after-measure held 0 (scheduled read port) (kept read port t s') scheduled-taken,
        ))

  from_memory-taken :
      (o : Option (OAuth2Token R)) (s : TossAuth R × W)
      → held (from_memory read port o s).1 ≤ held s
  from_memory-taken (some t) s = omega arith
  from_memory-taken none (a, w) =
      from_cache-taken (usable (load_cache read port w) (port.time w)) (a, w)

  get_access_token-taken :
      (c : Client R W) → held_by (on_auth (get_access_token read port) c).1 ≤ held_by c
  unfolding get_access_token
  get_access_token-taken c =
      from_memory-taken (usable c.auth.token (port.time c.world)) (c.auth, c.world)

  refresh_on_401-taken :
      (c : Client R W) → held_by (on_auth (refresh_on_401 read port) c).1 ≤ held_by c
  unfolding refresh_on_401
  refresh_on_401-taken c =
      let emptied = record c.auth { token = none } in
      omega (
        arith,
        once.removed c.world,
        renewal-taken (kept read port) (emptied, port.remove_cache c.world) kept-taken,
      )

  answered-taken :
      (is_first : Bool) (retry : Call (Client R W) (Json R)) (reply : Reply R) (c : Client R W)
      (n : ℕ)
      → ((c' : Client R W) → held_by (retry c').1 ≤ held_by c' + 1)
      → held_by c ≤ n + 1
      → ((body : Option (Json R)) → reply ≡ replied 401 body → held_by c ≤ n)
      → held_by (answered read port is_first retry reply c).1 ≤ n + 1
  answered-taken is_first retry failed c n later any refused = any
  answered-taken is_first retry (replied code body) c n later any refused =
      if_intro (λ call. held_by (call c).1 ≤ n + 1) (code == 401)
        (if is_first then retry else raise runtime_error) (lift (conflict_or_body code body))
        (λ is_401.
          let unchanged = refused body (ap (λ k. replied k body) (ground arith)) in
          if_intro (λ call. held_by (call c).1 ≤ n + 1) is_first retry (raise runtime_error)
            (λ first. omega (arith, later c)) (λ second. omega arith))
        (λ other. any)

  attempts-taken :
      (n : ℕ) (req : Request R) (c : Client R W)
      → held_by (attempts read port n req c).1 ≤ held_by c + 1
  unfolding attempts
  attempts-taken zero req c = omega arith
  attempts-taken (suc n) req c =
      answered-taken (n == 1)
        (λ c'.
          after (λ t. attempts read port n (record req { token = read.str t.access_token }))
            (on_auth (refresh_on_401 read port) c'))
        (port.send req c.world).0 (record c { world = (port.send req c.world).1 }) (held_by c)
        (λ c'. omega (
          arith,
          refresh_on_401-taken c',
          after-measure held_by 1
              (λ t. attempts read port n (record req { token = read.str t.access_token }))
              (on_auth (refresh_on_401 read port) c')
              (λ t c''. attempts-taken n (record req { token = read.str t.access_token }) c''),
        ))
        (once.one req c.world) (once.refused req c.world)

  acquire_order-taken : (c : Client R W) → held_by (acquire_order read port c).1 ≤ held_by c
  unfolding acquire
  acquire_order-taken c =
      let th = c.order_throttler in
      let wait = th.interval - (port.monotonic c.world - th.last_call) in
      if_intro (λ w. taken w ≤ taken c.world) (ltb 0 wait) (port.wait wait c.world) c.world
        (λ waits. once.waited wait c.world) (λ none. omega arith)

  account-taken :
      {V : Type 0} (seq : Option String) (next : String → Call (Client R W) V) (c : Client R W)
      → ((s : String) (c' : Client R W) → held_by (next s c').1 ≤ held_by c' + 1)
      → held_by (after next (account_of seq c)).1 ≤ held_by c + 1
  account-taken none next c h = omega arith
  account-taken (some s) next c h = h s c

  -- Every order operation sends its request at most once past the 401s.
  request_order-taken :
      (method : String) (path : List String) (body : Option (Json R)) (c : Client R W)
      → held_by (request_order read port method path body c).1 ≤ held_by c + 1
  unfolding request_order do_request
  request_order-taken method path body c =
      let (acquired, c1) = acquire_order read port c in
      omega (
        arith,
        acquire_order-taken c,
        get_access_token-taken c1,
        after-measure held_by 1
            (λ t c2.
              after
                (λ seq.
                  do_request read port
                    (request_of read port method path (read.str t.access_token) (some seq) [] body))
                (account_of c2.account_seq c2))
            (on_auth (get_access_token read port) c1)
            (λ t c2.
              account-taken c2.account_seq
                (λ seq.
                  do_request read port
                    (request_of read port method path (read.str t.access_token) (some seq) [] body))
                c2
                (λ seq c3.
                  attempts-taken 2
                    (request_of read port method path (read.str t.access_token) (some seq) [] body)
                    c3)),
      )

  -- If a request makes the broker take at most one order, and none when it is refused with a 401, and
  -- nothing else makes it take one: `place_order` makes the broker take at most one
  -- order, whatever the answers are, also when the token was renewed and the order was sent again.
  pub place_order-taken :
      (o : Order R) (c : Client R W) → taken (place_order read port o c).1.world ≤ taken c.world + 1
  unfolding place_order
  place_order-taken o c =
      let sent =
        request_order read port "POST" ("/api/v1/orders" ∷ []) (some (order_body read o)) c in
      omega (
        arith,
        request_order-taken "POST" ("/api/v1/orders" ∷ []) (some (order_body read o)) c,
        after-measure held_by 0 (λ body. lift (read_ack read o body)) sent (λ body c'. omega arith),
      )
