-- ===== src/Events/Subscriptions.antt =====
-- Subscribing and unsubscribing.
use quanteo.Base.{
  ℕ, ◌+◌, ◌-◌, ◌≡◌, refl, sym, ap, ◌∙◌, inl, inr, Bool-cases, List, [], ◌∷◌, arith, ◌==◌,
  if◌then◌else◌, count_if, count_if-append,
}
use quanteo.Events.{
  EventType, tick, quote, candle, signal, order_submitted, order_filled, order_cancelled,
  order_rejected, position_updated, risk_breach, kill_switch, error, status, EventBus, Handler,
  index, remove_first, subscribe, unsubscribe,
}

-- How often a handler is registered.
abbrev pub times : Handler → List Handler → ℕ
times h = count_if (λ k. k == h)

times-remove_first :
    (h j : Handler) (hs : List Handler)
    → times j (remove_first h hs) ≡ times j hs - (if h == j then 1 else 0)
unfolding remove_first
times-remove_first h j [] = ground arith
times-remove_first h j (k ∷ hs) = ground (arith, times-remove_first h j hs)

of_index : ℕ → EventType
of_index n =
    if n == 0
    then tick
    else if n == 1
    then quote
    else if n == 2
    then candle
    else if n == 3
    then signal
    else if n == 4
    then order_submitted
    else if n == 5
    then order_filled
    else if n == 6
    then order_cancelled
    else if n == 7
    then order_rejected
    else if n == 8
    then position_updated
    else if n == 9
    then risk_breach
    else if n == 10
    then kill_switch
    else if n == 11
    then error
    else status

of_index-index : (t : EventType) → of_index (index t) ≡ t
unfolding of_index
of_index-index tick = refl
of_index-index quote = refl
of_index-index candle = refl
of_index-index signal = refl
of_index-index order_submitted = refl
of_index-index order_filled = refl
of_index-index order_cancelled = refl
of_index-index order_rejected = refl
of_index-index position_updated = refl
of_index-index risk_breach = refl
of_index-index kill_switch = refl
of_index-index error = refl
of_index-index status = refl

index-injective : (t u : EventType) → index t ≡ index u → t ≡ u
index-injective t u e = sym (of_index-index t) ∙ ap of_index e ∙ of_index-index u

module _ {P : Type 0} where
  -- For every event type, subscribing a handler adds one call of it for that type and changes no
  -- other handler and no other type; unsubscribing takes one away, if there is one.
  pub subscribe-unsubscribe-times :
      (t u : EventType) (h j : Handler) (b : EventBus P)
      → let one : ℕ = (if index u == index t then (if h == j then 1 else 0) else 0) in
        (times j ((subscribe t h b).handlers u) ≡ times j (b.handlers u) + one)
        × (times j ((unsubscribe t h b).handlers u) ≡ times j (b.handlers u) - one)
  unfolding subscribe unsubscribe
  subscribe-unsubscribe-times t u h j b = elim (Bool-cases (index u == index t)) [
    | inl same ↦
        let eq : b.handlers u ≡ b.handlers t = ap b.handlers (index-injective u t (ground arith)) in
        ground (
          arith,
          ap (times j) eq,
          count_if-append (λ k. k == j) (b.handlers t) (h ∷ []),
          times-remove_first h j (b.handlers t),
        )
    | inr other ↦ ground arith
  ]
