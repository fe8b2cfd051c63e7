-- ===== src/Cmd/Price.antt =====
-- The check of the price in cmd/node/main.go.
use worldland_sdk.Base.{ℕ, ◌≤◌, ◌≡◌, ◌↔◌, arith}
use worldland_sdk.Go.Errors.{ok}
use worldland_sdk.Go.Strconv.{itoa}
use worldland_sdk.Go.Strconv.Roundtrip.{parse_big-itoa}
use worldland_sdk.Cmd.{check_price, min_price_per_sec}

-- A price written in decimal digits is accepted exactly from 2777777777778 on, however long it is.
pub check_price_iff : (n : ℕ) → (check_price (itoa n) ≡ ok tt) ↔ (min_price_per_sec ≤ n)
unfolding check_price
check_price_iff n = rw (parse_big-itoa n) (ground arith)
