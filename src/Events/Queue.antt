-- ===== src/Events/Queue.antt =====
-- The queue of the bus: bounded, and first in, first out, also while handlers publish.
use quanteo.Base.{
  ℕ, ◌+◌, ◌≤◌, ◌<◌, ◌≡◌, refl, sym, ap, ◌∙◌, Bool, true, false, List, [], ◌∷◌, ◌++◌, inl, inr,
  arith, length, length-append, append_assoc, append-nil, Bool-cases, if_intro, if◌then◌else◌,
}
use quanteo.Events.{
  Event, EventBus, Handler, Outcome, returned, raised, cancelled, publish_nowait, publish,
  run_handlers, after, finish, next_event, dispatch, loop_round,
}

-- The bound holds, and `busy` events are taken from the queue and not yet marked as done.
pub record IsSound {P : Type 0} (busy : ℕ) (b : EventBus P) : Type 0 where
  pub within : 0 < b.maxsize → length b.queue ≤ b.maxsize
  pub counted : length b.queue + busy ≤ b.unfinished

pub publish-IsSound :
    {P : Type 0} (busy : ℕ) (e : Event P) (b : EventBus P)
    → IsSound busy b
    → IsSound busy (publish e b)
unfolding publish
publish-IsSound busy e b v = ground (arith, length-append b.queue (e ∷ []))

queue-publish :
    {P : Type 0} (e : Event P) (b : EventBus P)
    → (publish e b).queue ≡ b.queue ++ (if (publish_nowait e b).0 then e ∷ [] else [])
unfolding publish
queue-publish e b = ground (arith, append-nil b.queue)

-- What a schedule does to the bus from outside: it publishes, or the loop makes a round.
pub data Action (P : Type 0) : Type 0 where
  post : Event P → Action P
  round : Action P

-- The first list is the second with some elements left out.
pub data Within {A : Type 0} : List A → List A → Type 0 where
  done : (ys : List A) → Within [] ys
  both : {x : A} {xs ys : List A} → Within xs ys → Within (x ∷ xs) (x ∷ ys)
  skip : {y : A} {xs ys : List A} → Within xs ys → Within xs (y ∷ ys)

Within-append : {A : Type 0} (zs : List A) {xs ys : List A} → Within xs ys → Within xs (zs ++ ys)
Within-append [] w = w
Within-append (z ∷ zs) w = skip (Within-append zs w)

abbrev first : {P : Type 0} → List (Event P) → List (Event P)
first [] = []
first (e ∷ es) = e ∷ []

module _ {P S : Type 0}
    (call : Handler → Event P → EventBus P × S → Outcome × (EventBus P × S)) where
  -- Handlers keep the bus sound, whatever is in progress; `publish` does.
  abbrev pub KeepsSound : Type 0
  KeepsSound =
      (busy : ℕ) (h : Handler) (e : Event P) (b : EventBus P) (s : S)
      → IsSound busy b
      → IsSound busy (call h e (b, s)).1.0

  after-IsSound :
      (busy : ℕ) (o : Outcome) (rest : EventBus P × S → Bool × (EventBus P × S))
      (w : EventBus P × S)
      → ((b : EventBus P) (s : S) → IsSound busy b → IsSound busy (rest (b, s)).1.0)
      → IsSound busy w.0
      → IsSound busy (after o rest w).1.0
  after-IsSound busy cancelled rest w keep v = v
  after-IsSound busy returned rest (b, s) keep v = keep b s v
  after-IsSound busy raised rest (b, s) keep v = keep b s v

  run_handlers-IsSound :
      KeepsSound
      → (busy : ℕ) (hs : List Handler) (e : Event P) (b : EventBus P) (s : S) → IsSound busy b
      → IsSound busy (run_handlers call hs e (b, s)).1.0
  unfolding run_handlers
  run_handlers-IsSound keep busy [] e b s v = v
  run_handlers-IsSound keep busy (h ∷ hs) e b s v =
      after-IsSound busy (call h e (b, s)).0 (run_handlers call hs e) (call h e (b, s)).1
        (run_handlers-IsSound keep busy hs e) (keep busy h e b s v)

  finish-IsSound : (r : Bool × (EventBus P × S)) → IsSound 1 r.1.0 → IsSound 0 (finish call r).0
  finish-IsSound (true, (b, s)) v = ground arith
  finish-IsSound (false, w) v = ground arith

  next_event-IsSound :
      KeepsSound
      → (b : EventBus P) (s : S) (q : List (Event P)) → b.queue ≡ q
      → IsSound 0 b
      → IsSound 0 (next_event call b s q).0
  unfolding dispatch
  next_event-IsSound keep b s [] eq v = v
  next_event-IsSound keep b s (e ∷ rest) eq v =
      let taken : IsSound 1 (record b { queue = rest }) = ground (arith, ap length eq) in
      finish-IsSound _ (
        run_handlers-IsSound keep 1 (b.handlers e.type ++ b.wildcard) e (record b { queue = rest })
          s taken)

  loop_round-IsSound :
      KeepsSound → (b : EventBus P) (s : S) → IsSound 0 b → IsSound 0 (loop_round call (b, s)).0
  unfolding loop_round
  loop_round-IsSound keep b s v =
      if_intro (λ w. IsSound 0 w.0) b.running (next_event call b s b.queue) (b, s)
        (λ _. next_event-IsSound keep b s b.queue refl v) (λ _. v)

  -- The schedule, with the events that the loop took, in the order in which it took them.
  abbrev pub taken : EventBus P → List (Event P)
  taken b = if b.running then first b.queue else []

  unfoldable pub run : List (Action P) → EventBus P × S → List (Event P) × (EventBus P × S)
  run [] w = ([], w)
  run (post e ∷ acts) (b, s) = run acts (publish e b, s)
  run (round ∷ acts) (b, s) = let (es, w) = run acts (loop_round call (b, s)) in (taken b ++ es, w)

  -- If the handlers keep the bus sound, every schedule of publications and dispatch rounds does:
  -- the queue stays within its bound, and `join` counts at least the events still queued.
  pub run-IsSound :
      KeepsSound
      → (acts : List (Action P)) (b : EventBus P) (s : S) → IsSound 0 b
      → IsSound 0 (run acts (b, s)).1.0
  unfolding run
  run-IsSound keep [] b s v = v
  run-IsSound keep (post e ∷ acts) b s v =
      run-IsSound keep acts (publish e b) s (publish-IsSound 0 e b v)
  run-IsSound keep (round ∷ acts) b s v =
      let (b', s') = loop_round call (b, s) in
      run-IsSound keep acts b' s' (loop_round-IsSound keep b s v)

  -- Handlers change the queue by publishing only.
  abbrev pub OnlyPublish : Type 0
  OnlyPublish =
      (h : Handler) (e : Event P) (b : EventBus P) (s : S)
      → (new : List (Event P)) × ((call h e (b, s)).1.0.queue ≡ b.queue ++ new)

  after-queue :
      (o : Outcome) (rest : EventBus P × S → Bool × (EventBus P × S)) (w : EventBus P × S)
      → ((b : EventBus P) (s : S)
          → (new : List (Event P)) × ((rest (b, s)).1.0.queue ≡ b.queue ++ new))
      → (new : List (Event P)) × ((after o rest w).1.0.queue ≡ w.0.queue ++ new)
  after-queue cancelled rest w grow = ([], sym (append-nil _))
  after-queue returned rest (b, s) grow = grow b s
  after-queue raised rest (b, s) grow = grow b s

  run_handlers-queue :
      OnlyPublish
      → (hs : List Handler) (e : Event P) (b : EventBus P) (s : S)
      → (new : List (Event P)) × ((run_handlers call hs e (b, s)).1.0.queue ≡ b.queue ++ new)
  unfolding run_handlers
  run_handlers-queue grow [] e b s = ([], sym (append-nil _))
  run_handlers-queue grow (h ∷ hs) e b s =
      let (new, p) = grow h e b s in
      let (more, q) =
        after-queue (call h e (b, s)).0 (run_handlers call hs e) (call h e (b, s)).1
          (run_handlers-queue grow hs e) in
      (new ++ more, q ∙ ap (λ t. t ++ more) p ∙ append_assoc b.queue new more)

  finish-queue : (r : Bool × (EventBus P × S)) → (finish call r).0.queue ≡ r.1.0.queue
  finish-queue (true, w) = refl
  finish-queue (false, w) = refl

  next_event-queue :
      OnlyPublish
      → (b : EventBus P) (s : S) (q : List (Event P)) → b.queue ≡ q
      → (new : List (Event P)) × (b.queue ++ new ≡ first q ++ (next_event call b s q).0.queue)
  unfolding dispatch
  next_event-queue grow b s [] eq = ([], append-nil _)
  next_event-queue grow b s (e ∷ rest) eq =
      let hs = b.handlers e.type ++ b.wildcard in
      let left = record b { queue = rest } in
      let (new, p) = run_handlers-queue grow hs e left s in
      (new, rw (finish-queue (run_handlers call hs e (left, s)), p) (ap (λ t. t ++ new) eq))

  loop_round-queue :
      OnlyPublish
      → (b : EventBus P) (s : S)
      → (new : List (Event P)) × (b.queue ++ new ≡ taken b ++ (loop_round call (b, s)).0.queue)
  unfolding loop_round
  loop_round-queue grow b s = elim (Bool-cases b.running) [
    | inl on ↦ simp on (next_event-queue grow b s b.queue refl)
    | inr off ↦ simp off ([], append-nil _)
  ]

  -- The events of the schedule that the queue accepted.
  unfoldable pub accepted : List (Action P) → EventBus P × S → List (Event P)
  accepted [] w = []
  accepted (post e ∷ acts) (b, s) =
      let rest = accepted acts (publish e b, s) in if (publish_nowait e b).0 then e ∷ rest else rest
  accepted (round ∷ acts) w = accepted acts (loop_round call w)

  -- First in, first out: under handlers that only publish, the events that the loop took over any
  -- schedule, followed by those still queued, are the events queued at the start followed by those
  -- that came in since, among which are the schedule's own accepted events in their order.
  pub run_fifo :
      OnlyPublish
      → (acts : List (Action P)) (b : EventBus P) (s : S)
      → (new : List (Event P)) × (b.queue ++ new
          ≡ (run acts (b, s)).0 ++ (run acts (b, s)).1.0.queue)
        × Within (accepted acts (b, s)) new
  unfolding run accepted
  run_fifo grow [] b s = ([], append-nil _, done [])
  run_fifo grow (post e ∷ acts) b s =
      let (new, p, w) = run_fifo grow acts (publish e b) s in
      elim (Bool-cases (publish_nowait e b).0) [
        | inl in_queue ↦ (
          e ∷ new,
          sym (append_assoc b.queue (e ∷ []) new)
              ∙ ap (λ t. t ++ new) (sym (queue-publish e b ∙ rw in_queue))
              ∙ p,
          simp in_queue (both w),
        )
        | inr dropped ↦ (
          new,
          ap (λ t. t ++ new) (sym (queue-publish e b ∙ rw dropped (append-nil _))) ∙ p,
          simp dropped w,
        )
      ]
  run_fifo grow (round ∷ acts) b s =
      let (new, p) = loop_round-queue grow b s in
      let (more, q, w) = run_fifo grow acts (loop_round call (b, s)).0 (loop_round call (b, s)).1 in
      (
        new ++ more,
        sym (append_assoc b.queue new more)
            ∙ ap (λ t. t ++ more) p
            ∙ append_assoc (taken b) _ more
            ∙ ap (λ t. taken b ++ t) q
            ∙ sym (append_assoc (taken b) _ _),
        Within-append new w,
      )
