-- ===== src/Throttler/Spacing.antt =====
-- The calls that `acquire` lets through lie an interval apart, so a span of time holds only so many.
use native.Mathlib.Numerals.{unary_clauses}
use quanteo.Base.{
  ℕ, ◌+◌, ◌-◌, ◌*◌, ◌≤◌, ◌≡◌, Bool, true, false, ◌&&◌, List, [], ◌∷◌, arith, ltb, leb,
  if◌then◌else◌, if_intro, All, Bool-cases, inl, inr, count_if,
}
use quanteo.Throttler.{Throttler, acquire, acquire_all}

-- Each time is an interval after the one before, which for the first is `last`.
abbrev pub IsSpaced : (interval last : ℕ) → List ℕ → Type 0
IsSpaced interval last [] = Unit
IsSpaced interval last (t ∷ ts) = (last + interval ≤ t) × IsSpaced interval t ts

-- The calls in a span of time.
abbrev pub in_span : (from span : ℕ) → ℕ → Bool
in_span from span t = leb from t && leb t (from + span)

module _ {W : Type 0} (clock : W → ℕ) (sleep : ℕ → W → W)
    (slept : (d : ℕ) (w : W) → clock w + d ≤ clock (sleep d w)) where
  acquire_all-IsSpaced :
      (happen : List (W → W)) (th : Throttler) (w : W)
      → All (λ h. (v : W) → clock v ≤ clock (h v)) happen
      → th.last_call ≤ clock w
      → IsSpaced th.interval th.last_call (acquire_all clock sleep happen th w)
  unfolding acquire_all acquire
  acquire_all-IsSpaced [] th w later started = tt
  acquire_all-IsSpaced (h ∷ hs) th w (here, later) started =
      let wait = th.interval - (clock (h w) - th.last_call) in
      let woken = if ltb 0 wait then sleep wait (h w) else h w in
      let enough : th.last_call + th.interval ≤ clock woken =
        if_intro (λ v. th.last_call + th.interval ≤ clock v) (ltb 0 wait) (sleep wait (h w)) (h w)
          (λ waits. omega (arith, here w, slept wait (h w))) (λ none. ground (arith, here w)) in
      (
        enough,
        acquire_all-IsSpaced hs (record th { last_call = clock woken }) woken later (omega arith),
      )

count_more :
    (interval count : ℕ) (b : Bool)
    → interval * ((if b then 1 else 0) + count) ≡ (if b then interval else 0) + interval * count
count_more interval count true = omega arith
count_more interval count false = omega arith

-- The calls after one at `t`, which is in the span or behind it.
count_after :
    (interval from span t : ℕ) (ts : List ℕ)
    → IsSpaced interval t ts
    → from ≤ t
    → interval * count_if (in_span from span) ts ≤ from + span - t
count_after interval from span t [] h before = simp unary_clauses (omega arith)
count_after interval from span t (u ∷ us) (gap, h) before =
    let rest = count_after interval from span u us h (omega arith) in
    let more = count_more interval (count_if (in_span from span) us) (in_span from span u) in
    ground arith

-- A span of time holds at most one call more than intervals fit into it.
IsSpaced-count :
    (interval from span last : ℕ) (ts : List ℕ)
    → IsSpaced interval last ts
    → interval * count_if (in_span from span) ts ≤ span + interval
IsSpaced-count interval from span last [] h = simp unary_clauses (omega arith)
IsSpaced-count interval from span last (t ∷ ts) (gap, h) =
    let rest = IsSpaced-count interval from span t ts h in
    let more = count_more interval (count_if (in_span from span) ts) (in_span from span t) in
    elim (Bool-cases (leb from t)) [
      | inl before ↦
          let after = count_after interval from span t ts h (ground arith) in ground arith
      | inr late ↦ ground arith
    ]

module _ {W : Type 0} (clock : W → ℕ) (sleep : ℕ → W → W)
    (slept : (d : ℕ) (w : W) → clock w + d ≤ clock (sleep d w)) where
  -- For calls of `acquire` one after another, with a clock that does not go back and a sleep that
  -- lasts at least as long as it was asked to: each call returns an interval or more after the one
  -- before, and any span of time holds at most one call more than intervals fit into it.
  pub acquire_all-IsSpaced-count :
      (happen : List (W → W)) (th : Throttler) (w : W) (from span : ℕ)
      → All (λ h. (v : W) → clock v ≤ clock (h v)) happen
      → th.last_call ≤ clock w
      → IsSpaced th.interval th.last_call (acquire_all clock sleep happen th w)
        × (th.interval * count_if (in_span from span) (acquire_all clock sleep happen th w)
            ≤ span + th.interval)
  acquire_all-IsSpaced-count happen th w from span later started =
      let spaced = acquire_all-IsSpaced clock sleep slept happen th w later started in
      (
        spaced,
        IsSpaced-count th.interval from span th.last_call (acquire_all clock sleep happen th w)
            spaced,
      )
