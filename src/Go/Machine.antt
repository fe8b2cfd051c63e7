-- ===== src/Go/Machine.antt =====
-- The machine that the node runs on: its monotonic clock, in nanoseconds, and all that is outside
-- the program (the Docker daemon), whose type is a parameter. A call to the outside takes time.
use worldland_sdk.Base.{ℕ, ◌+◌}
use worldland_sdk.Go.Errors.{Result, Act}

pub record Machine (W : Type 0) : Type 0 where
  pub clock : ℕ
  pub world : W

pub record Reply (A W : Type 0) : Type 0 where
  pub result : Result A
  pub took : ℕ
  pub world : W

-- What code outside the program does to the world.
abbrev pub Outside : Type 0 → Type 0 → Type 0
Outside W A = W → Reply A W

abbrev pub moved : {A W : Type 0} → Machine W → Reply A W → Result A × Machine W
moved m r = (r.result, record { clock = m.clock + r.took; world = r.world })

abbrev pub perform : {A W : Type 0} → Outside W A → Act (Machine W) A
perform f m = moved m (f m.world)

-- time.Sleep, which wakes up no earlier; a later wake-up is one more call to the outside.
abbrev pub sleep : {W : Type 0} → ℕ → Machine W → Machine W
sleep d m = record m { clock = m.clock + d }
