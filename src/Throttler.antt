-- ===== src/Throttler.antt =====
-- core/adapters/throttler.py: the limiter with a fixed interval. Its lock makes the calls of
-- `acquire` run one after another. The clock and `sleep` are arguments; times are whole milliseconds.
pub mod Spacing
pub mod Tests
use quanteo.Base.{ℕ, ◌-◌, List, [], ◌∷◌, ltb, if◌then◌else◌}

pub record Throttler : Type 0 where
  pub interval : ℕ
  pub last_call : ℕ

unfoldable pub new_throttler : (interval : ℕ) → Throttler
new_throttler interval = record { interval = interval; last_call = 0 }

module _ {W : Type 0} (clock : W → ℕ) (sleep : ℕ → W → W) where
  unfoldable pub acquire : Throttler → W → Throttler × W
  acquire th w =
      let wait = th.interval - (clock w - th.last_call) in
      let woken = if ltb 0 wait then sleep wait w else w in
      (record th { last_call = clock woken }, woken)

  -- A call after each of the things that happen in between, and the time that each call returned.
  unfoldable pub acquire_all : List (W → W) → Throttler → W → List ℕ
  unfolding acquire
  acquire_all [] th w = []
  acquire_all (happen ∷ rest) th w =
      let (th', w') = acquire th (happen w) in th'.last_call ∷ acquire_all rest th' w'
