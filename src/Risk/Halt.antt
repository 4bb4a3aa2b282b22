-- ===== src/Risk/Halt.antt =====
-- The kill switch: `graduated_halt` over a session, and what each level lets through.
use Prim.Native.Nat.{max}
use mathlib.Core.Path.{subst}
use quanteo.Base.{
  ℕ, ◌≤◌, ◌≡◌, ◌↔◌, ◌⊎◌, inl, inr, refl, sym, ap, ◌∙◌, String, Option, none, some, List, [], ◌∷◌,
  ◌++◌, arith, All, All-append,
}
use quanteo.Base.Result.{Result, ok, err}
use quanteo.Float.{Float}
use quanteo.Events.{EventBus}
use quanteo.Domain.{
  Side, buy, sell, HaltLevel, pause, kill, Signal, Position, Portfolio, Order, Payload,
}
use quanteo.Risk.{
  RiskManager, Decision, approved, rejection, rank, refresh_daily_counter, check_halt,
  check_daily_orders, decide, evaluate, graduated_halt, apply_reduce, check_total_exposure,
  check_position_value, check_exit, reset_halt, read_daily_order_count,
}
use quanteo.Risk.Exit.{Closes, check_exit_lem}
use quanteo.Risk.Gate.{MayBuy, evaluate-MayBuy, approve-Carries, decide-approve}

-- One call of a method of the manager: `evaluate`, `check_exit`, `graduated_halt`, `reset_halt`,
-- `daily_order_count`.
pub data Call (R : Type 0) : Type 0 where
  submit : ℕ → String → Signal R → Portfolio R → Call R
  leave : String → Position R → R → Call R
  escalate : HaltLevel → Call R
  reset : Call R
  read_count : ℕ → Call R

-- The calls of a session in which nobody resets the level.
abbrev pub NoReset : {R : Type 0} → Call R → Type 0
NoReset reset = ⊥
NoReset c = Unit

abbrev order_of : {R : Type 0} → Result (Decision R) → List (Order R)
order_of (ok (approved o)) = o ∷ []
order_of _ = []

abbrev exit_of : {R : Type 0} → Result (Option (Order R)) → List (Order R)
exit_of (ok (some o)) = o ∷ []
exit_of _ = []

-- The manager and the bus that it may publish on.
abbrev pub Shared : Type 0 → Type 0
Shared R = RiskManager R × Option (EventBus (Payload R))

Side-cases : (x : Side) → (x ≡ buy) ⊎ (x ≡ sell)
Side-cases buy = inl refl
Side-cases sell = inr refl

module _ {R : Type 0} ⦃f : Float R⦄ where
  unfoldable pub step : Call R → Shared R → List (Order R) × Shared R
  step (submit today id s p) (m, b) = let (d, m') = evaluate today id s p m in (order_of d, (m', b))
  step (leave id p current) (m, b) = (exit_of (check_exit id m p current), (m, b))
  step (escalate level) w = ([], graduated_halt level w)
  step reset (m, b) = ([], (reset_halt m, b))
  step (read_count today) (m, b) = ([], ((read_daily_order_count today m).1, b))

  -- The approved orders of a session, in order, and its final state.
  unfoldable pub session : List (Call R) → Shared R → List (Order R) × Shared R
  unfolding step
  session [] w = ([], w)
  session (c ∷ cs) w =
      let (os, w') = step c w in let (rest, last) = session cs w' in (os ++ rest, last)

  -- The highest level asked for since the last reset, starting from the present one.
  abbrev pub peak : List (Call R) → ℕ → ℕ
  peak [] n = n
  peak (escalate level ∷ cs) n = peak cs (max n (rank level))
  peak (reset ∷ cs) n = peak cs 0
  peak (submit today id s p ∷ cs) n = peak cs n
  peak (leave id p current ∷ cs) n = peak cs n
  peak (read_count today ∷ cs) n = peak cs n

  halt-evaluate :
      (today : ℕ) (id : String) (s : Signal R) (p : Portfolio R) (m : RiskManager R)
      → (evaluate today id s p m).1.halt ≡ m.halt
  unfolding evaluate refresh_daily_counter
  halt-evaluate today id s p m = ground arith

  rank-graduated_halt :
      (level : HaltLevel) (w : Shared R)
      → rank (graduated_halt level w).0.halt ≡ max (rank w.0.halt) (rank level)
  unfolding graduated_halt
  rank-graduated_halt level w = ground arith

  halt-read : (today : ℕ) (m : RiskManager R) → (read_daily_order_count today m).1.halt ≡ m.halt
  unfolding read_daily_order_count
  halt-read today m = ground arith

  rank-reset : (m : RiskManager R) → rank (reset_halt m).halt ≡ 0
  unfolding reset_halt
  rank-reset m = refl

  -- The halt level after a session of calls of the manager's methods is the highest of those asked for
  -- since the last `reset_halt`, where the level at the start of the session counts as asked for if
  -- there was no reset, and the level of no halt if there was one. So the level falls by a reset alone,
  -- and no request is lost.
  pub session-peak :
      (cs : List (Call R)) (w : Shared R) → rank (session cs w).1.0.halt ≡ peak cs (rank w.0.halt)
  unfolding session
  session-peak [] w = refl
  session-peak (submit today id s p ∷ cs) (m, b) =
      session-peak cs ((evaluate today id s p m).1, b)
      ∙ ap (λ h. peak cs (rank h)) (halt-evaluate today id s p m)
  session-peak (leave id p current ∷ cs) (m, b) = session-peak cs (m, b)
  session-peak (escalate level ∷ cs) w =
      session-peak cs (graduated_halt level w) ∙ ap (peak cs) (rank-graduated_halt level w)
  session-peak (reset ∷ cs) (m, b) = session-peak cs (reset_halt m, b) ∙ ap (peak cs) (rank-reset m)
  session-peak (read_count today ∷ cs) (m, b) =
      session-peak cs ((read_daily_order_count today m).1, b)
      ∙ ap (λ h. peak cs (rank h)) (halt-read today m)

  halted_buy :
      (m : RiskManager R) (s : Signal R) (p : Portfolio R) → MayBuy m s p → ¬ (2 ≤ rank m.halt)
  halted_buy m s p may h = ground (arith, may.not_paused, may.not_killed)

  rank-refresh :
      (today : ℕ) (m : RiskManager R)
      → 2 ≤ rank m.halt
      → 2 ≤ rank (refresh_daily_counter today m).halt
  unfolding refresh_daily_counter
  rank-refresh today m h = ground arith

  sell_side :
      (today : ℕ) (id : String) (s : Signal R) (p : Portfolio R) (m : RiskManager R) (o : Order R)
      → (evaluate today id s p m).0 ≡ ok (approved o)
      → o.side ≡ s.side
  unfolding evaluate
  sell_side today id s p m o e =
      let (q, eq, built) = decide-approve id (refresh_daily_counter today m) s p e in
      (approve-Carries id s q built).0.side_eq

  evaluate_halted :
      (today : ℕ) (id : String) (s : Signal R) (p : Portfolio R) (m : RiskManager R)
      → 2 ≤ rank m.halt
      → (r : Result (Decision R)) → (evaluate today id s p m).0 ≡ r
      → All (λ o. o.side ≡ sell) (order_of r)
  evaluate_halted today id s p m h (ok (approved o)) e = elim (Side-cases s.side) [
    | inl b ↦
        let may = (evaluate-MayBuy today id s p m b e).0 in
        absurd (halted_buy (refresh_daily_counter today m) s p may (rank-refresh today m h))
    | inr x ↦ (sell_side today id s p m o e ∙ x, tt)
  ]
  evaluate_halted today id s p m h (ok (rejection t r)) e = tt
  evaluate_halted today id s p m h (err x) e = tt

  exit_sells :
      (id : String) (p : Position R) (x : Result (Option (Order R))) (r : Option (Order R))
      → x ≡ ok r
      → ((o : Order R) → r ≡ some o → Closes id p o)
      → All (λ o. o.side ≡ sell) (exit_of x)
  exit_sells id p (err e) r h closes = tt
  exit_sells id p (ok none) r h closes = tt
  exit_sells id p (ok (some o)) r h closes = ((closes o (ground arith)).side_eq, tt)

  step_halted :
      (c : Call R) (w : Shared R)
      → NoReset c
      → 2 ≤ rank w.0.halt
      → All (λ o. o.side ≡ sell) (step c w).0 × (2 ≤ rank (step c w).1.0.halt)
  unfolding step
  step_halted (submit today id s p) (m, b) kept h = (
    evaluate_halted today id s p m h (evaluate today id s p m).0 refl,
    subst (λ x. 2 ≤ rank x) (sym (halt-evaluate today id s p m)) h,
  )
  step_halted (leave id p current) (m, b) kept h =
      let (r, found, _, closes) = check_exit_lem id m p current in
      (exit_sells id p (check_exit id m p current) r found closes, h)
  step_halted (escalate level) w kept h = (tt, ground (arith, rank-graduated_halt level w))
  step_halted reset w kept h = absurd kept
  step_halted (read_count today) (m, b) kept h =
      (tt, subst (λ x. 2 ≤ rank x) (sym (halt-read today m)) h)

  -- Once the level is PAUSE or KILL, no BUY is approved, by whatever calls of the manager's methods,
  -- as long as `reset_halt` is not among them.
  pub session_halted :
      (cs : List (Call R)) (w : Shared R)
      → All NoReset cs
      → 2 ≤ rank w.0.halt
      → All (λ o. o.side ≡ sell) (session cs w).0
  unfolding session
  session_halted [] w kept h = tt
  session_halted (c ∷ cs) w (kept, all_kept) h =
      let (now, still) = step_halted c w kept h in
      All-append (λ o. o.side ≡ sell) (step c w).0 (session cs (step c w).1).0 now
        (session_halted cs (step c w).1 all_kept still)

  -- KILL and PAUSE let through the same orders: an order is approved under the one exactly if it is
  -- under the other.
  pub evaluate-kill-pause :
      (today : ℕ) (id : String) (s : Signal R) (p : Portfolio R) (m : RiskManager R) (o : Order R)
      → ((evaluate today id s p (record m { halt = kill })).0 ≡ ok (approved o))
        ↔ ((evaluate today id s p (record m { halt = pause })).0 ≡ ok (approved o))
  unfolding evaluate decide check_halt refresh_daily_counter check_daily_orders check_total_exposure
      check_position_value apply_reduce
  evaluate-kill-pause today id s p m o = (λ h. ground arith, λ h. ground arith)
