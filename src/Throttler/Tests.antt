-- ===== src/Throttler/Tests.antt =====
-- Three calls at once, with two of them a second: the second and the third wait.
use quanteo.Base.{ℕ, ◌+◌, ◌*◌, ◌≤◌, ◌≡◌, refl, List, [], ◌∷◌, arith, count_if}
use quanteo.Throttler.{new_throttler, acquire_all}
use quanteo.Throttler.Spacing.{IsSpaced, in_span, acquire_all-IsSpaced-count}

-- The world is its clock.
abbrev clock : ℕ → ℕ
clock w = w

abbrev sleep : ℕ → ℕ → ℕ
sleep d w = w + d + 1

abbrev at_once : List (ℕ → ℕ)
at_once = clock ∷ clock ∷ clock ∷ []

calls : acquire_all clock sleep at_once (new_throttler 500) 1000 ≡ 1000 ∷ 1501 ∷ 2002 ∷ []
unfolding acquire_all new_throttler
calls = refl

acquire_all-IsSpaced-count_example :
    IsSpaced 500 0 (1000 ∷ 1501 ∷ 2002 ∷ [])
    × (500 * count_if (in_span 1000 1000) (1000 ∷ 1501 ∷ 2002 ∷ []) ≤ 1500)
unfolding acquire_all new_throttler
acquire_all-IsSpaced-count_example =
    acquire_all-IsSpaced-count clock sleep (λ d w. omega arith) at_once (new_throttler 500) 1000
      1000 1000 ((λ v. omega arith), ((λ v. omega arith), ((λ v. omega arith), tt))) (omega arith)
