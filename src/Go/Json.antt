-- ===== src/Go/Json.antt =====
-- The values that encoding/json makes of a JSON text, as far as the program asserts their types.
-- float64 is a parameter: its type, with the two conversions that the program makes.
use worldland_sdk.Base.{ℕ, String, Bool, Option, some}

pub record Float64 (F : Type 0) : Type 0 where
  -- int64(v), as a bit pattern
  pub to_int64 : F → ℕ
  -- float64(n)
  pub of_int : ℕ → F

pub data Json (F : Type 0) : Type 0 where
  null : Json F
  boolean : Bool → Json F
  number : F → Json F
  string : String → Json F
  -- an object or an array, which the program does not look into
  composite : Json F

-- s, _ := v.(string)
abbrev pub as_string : {F : Type 0} → Option (Json F) → String
as_string (some (string s)) = s
as_string _ = ""

-- if v, ok := v.(float64); ok { n = int64(v) }
abbrev pub as_int64 : {F : Type 0} → Float64 F → ℕ → Option (Json F) → ℕ
as_int64 float otherwise (some (number v)) = float.to_int64 v
as_int64 float otherwise _ = otherwise
