-- ===== src/Go/Context.antt =====
-- context.Context, reduced to the instant at which `Done` closes and the error that `Err` then
-- returns. Instants and durations are nanoseconds of the monotonic clock.
use worldland_sdk.Base.{ℕ, ◌+◌, Bool, false, Option, none, some, leb}
use worldland_sdk.Go.Errors.{Sentinel, deadline_exceeded, canceled}

pub record Context : Type 0 where
  pub done_at : Option ℕ
  pub reason : Sentinel

abbrev pub background : Context
background = record { done_at = none; reason = canceled }

-- context.WithTimeout(context.Background(), d), called at `now`
abbrev pub with_timeout : ℕ → ℕ → Context
with_timeout now d = record { done_at = some (now + d); reason = deadline_exceeded }

abbrev pub closed_by : Option ℕ → ℕ → Bool
closed_by none now = false
closed_by (some t) now = leb t now

-- select { case <-ctx.Done(): … default: }
abbrev pub is_done : Context → ℕ → Bool
is_done ctx now = closed_by ctx.done_at now

abbrev pub second : ℕ
second = 1_000_000_000

abbrev pub minute : ℕ
minute = 60_000_000_000
