-- ===== src/PollLoop/Alerts.antt =====
-- When the loop alerts.
use quanteo.Base.{
  ℕ, ◌+◌, ◌≡◌, ◌∙◌, refl, ap, String, Bool, true, false, some, List, [], ◌∷◌, arith, ◌==◌, leb,
  if◌then◌else◌, length, length-append, count_if, ◌≤◌, ◌<◌, Bool-cases, inl, inr,
}
use quanteo.Base.Result.{Error, Result, ok, err, is_ok}
use quanteo.Events.{Event, EventBus, publish}
use quanteo.Domain.{Payload}
use quanteo.PollLoop.{Round, Feed, alert, settle, run, alert_threshold}

-- The specification: the failures of each maximal row of failing cycles, up to the first stop, of
-- which the first may go on from `n` earlier ones. A row alerts if it grows to three.
abbrev pub streaks : ℕ → List Round → List ℕ
streaks n [] = n ∷ []
streaks n (r ∷ rs) =
    let more = streaks (n + 1) rs in
    let fresh = streaks 0 rs in
    if is_ok r.outcome
    then n ∷ (if r.stop then 0 ∷ [] else fresh)
    else if r.stop
    then (n + 1) ∷ []
    else more

abbrev reaches : ℕ → Bool
reaches n = leb alert_threshold n

module _ {R : Type 0} (source : String) where
  abbrev feed : ℕ → EventBus (Payload R) → Feed R
  feed n b = record { failures = n; bus = some b }

  -- The bus after the rounds, and the events that it has gained.
  abbrev Alerted : ℕ → List Round → EventBus (Payload R) → Type 0
  Alerted n rs b =
      (b' : EventBus (Payload R)) × ((run source rs (feed n b)).bus ≡ some b')
      × (length b'.queue + (if reaches n then 1 else 0)
          ≡ length b.queue + count_if reaches (streaks n rs))

  publish_alert :
      (e : Event (Payload R)) (b : EventBus (Payload R))
      → length b.queue < b.maxsize
      → (length (publish e b).queue ≡ length b.queue + 1) × ((publish e b).maxsize ≡ b.maxsize)
  unfolding publish
  publish_alert e b h = ground (arith, length-append b.queue (e ∷ []))

  -- One failure: the bus gains an event exactly when the row of failures reaches the threshold.
  failure_step :
      (e : Error) (n : ℕ) (b : EventBus (Payload R))
      → length b.queue < b.maxsize
      → (c : EventBus (Payload R)) × ((settle source (err e) (feed n b)).bus ≡ some c)
        × (length c.queue + (if reaches n then 1 else 0)
            ≡ length b.queue + (if reaches (n + 1) then 1 else 0))
        × (length c.queue ≤ length b.queue + 1)
        × (c.maxsize ≡ b.maxsize)
  unfolding settle
  failure_step e n b room = elim (Bool-cases (n + 1 == alert_threshold)) [
    | inl third ↦
        let (grown, same) = publish_alert (alert source (n + 1) e) b room in
        (publish (alert source (n + 1) e) b, rw third, ground arith, omega arith, same)
    | inr other ↦ (b, rw other, ground arith, omega arith, refl)
  ]

  round_Alerted :
      (o : Result (Unit {0})) (stop : Bool) (rs : List Round) (n : ℕ) (b : EventBus (Payload R))
      → ((m : ℕ) (c : EventBus (Payload R))
          → length c.queue + length rs ≤ c.maxsize
          → Alerted m rs c)
      → length b.queue + length rs + 1 ≤ b.maxsize
      → Alerted n (record { outcome = o; stop = stop } ∷ rs) b
  unfolding run
  round_Alerted (ok u) true rs n b ih room = (b, refl, ground arith)
  round_Alerted (ok u) false rs n b ih room =
      let (c, eq, counts) = ih 0 b (omega arith) in (c, eq, ground arith)
  round_Alerted (err e) true rs n b ih room =
      let (c, eq, grown, little, same) = failure_step e n b (omega arith) in (c, eq, omega arith)
  round_Alerted (err e) false rs n b ih room =
      let (c, eq, grown, little, same) = failure_step e n b (omega arith) in
      let (d, eq', counts) = ih (n + 1) c (ground arith) in
      (
        d,
        ap (λ x. (run source rs (record { failures = n + 1; bus = x })).bus) eq ∙ eq',
        omega arith,
      )

  Alerted-run :
      (rs : List Round) (n : ℕ) (b : EventBus (Payload R))
      → length b.queue + length rs ≤ b.maxsize
      → Alerted n rs b
  unfolding run
  Alerted-run [] n b room = (b, refl, ground arith)
  Alerted-run (r ∷ rs) n b room =
      round_Alerted r.outcome r.stop rs n b (Alerted-run rs) (omega arith)

  -- A loop that starts with no failure and has room on its bus publishes one alert for each row of
  -- at least three failing cycles in succession, however long the row is, and none for shorter rows
  -- and for successes; a stop ends the loop.
  pub run-alerts :
      (rs : List Round) (b : EventBus (Payload R))
      → length b.queue + length rs ≤ b.maxsize
      → (b' : EventBus (Payload R)) × ((run source rs (record { failures = 0; bus = some b })).bus
          ≡ some b')
        × (length b'.queue ≡ length b.queue + count_if (λ k. leb 3 k) (streaks 0 rs))
  run-alerts rs b room = let (b', eq, counts) = Alerted-run rs 0 b room in (b', eq, omega arith)
