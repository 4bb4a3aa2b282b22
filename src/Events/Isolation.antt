-- ===== src/Events/Isolation.antt =====
-- `_dispatch`: one handler's exception does not reach the others.
use mathlib.Core.List.{foldl}
use quanteo.Base.{◌≡◌, ◌≢◌, refl, true, List, [], ◌∷◌, ◌++◌}
use quanteo.Events.{
  Event, EventBus, Handler, Outcome, returned, raised, cancelled, after, run_handlers, dispatch,
}

module _ {P S : Type 0}
    (call : Handler → Event P → EventBus P × S → Outcome × (EventBus P × S)) where
  run_handlers-foldl :
      (hs : List Handler) (e : Event P) (w : EventBus P × S)
      → ((h : Handler) (v : EventBus P × S) → (call h e v).0 ≢ cancelled)
      → run_handlers call hs e w ≡ (true, foldl (λ v h. (call h e v).1) w hs)
  unfolding run_handlers
  run_handlers-foldl [] e w calm = refl
  run_handlers-foldl (h ∷ hs) e w calm =
      go (call h e w) (calm h w) (run_handlers-foldl hs e (call h e w).1 calm)
    where
      go :
          (r : Outcome × (EventBus P × S))
          → r.0 ≢ cancelled
          → run_handlers call hs e r.1 ≡ (true, foldl (λ v k. (call k e v).1) r.1 hs)
          → after r.0 (run_handlers call hs e) r.1 ≡ (true, foldl (λ v k. (call k e v).1) r.1 hs)
      go (returned, v) p ih = ih
      go (raised, v) p ih = ih
      go (cancelled, v) p ih = absurd (p refl)

  -- If no call is cancelled, dispatching an event calls every handler subscribed to its type and
  -- then every wildcard handler, once each and in subscription order, whether or not they raise:
  -- the state is what these calls make of it one after the other. The handlers are those registered
  -- before the first call.
  pub dispatch-foldl :
      (e : Event P) (b : EventBus P) (s : S)
      → ((h : Handler) (v : EventBus P × S) → (call h e v).0 ≢ cancelled)
      → dispatch call e (b, s)
        ≡ (true, foldl (λ v h. (call h e v).1) (b, s) (b.handlers e.type ++ b.wildcard))
  unfolding dispatch
  dispatch-foldl e b s calm = run_handlers-foldl (b.handlers e.type ++ b.wildcard) e (b, s) calm
