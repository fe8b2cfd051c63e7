-- ===== src/Go/Strings.antt =====
-- strings.TrimSpace and slices of a string's beginning, on texts whose characters are one byte long.
use Prim.Native.Char.{Char, code}
use worldland_sdk.Base.{
  ℕ, zero, suc, String, Bool, ◌&&◌, ◌||◌, Option, none, some, leb, if◌then◌else◌, ◌==◌, ℕ-eq,
  String-eq,
}

-- unicode.IsSpace in ASCII: tab to carriage return, and the blank
abbrev is_space : ℕ → Bool
is_space c = (leb 9 c && leb c 13) || c == 32

unfoldable pub trim_left : String → String
trim_left String.[] = ""
trim_left (String.◌∷◌ c s) =
    let rest = trim_left s in if is_space (code c) then rest else String.◌∷◌ c s

unfoldable pub trim_right : String → String
trim_right String.[] = ""
trim_right (String.◌∷◌ c s) =
    let rest = trim_right s in if is_space (code c) && rest == "" then "" else String.◌∷◌ c rest

abbrev pub trim_space : String → String
trim_space s = trim_right (trim_left s)

abbrev pub put_before : Char → Option String → Option String
put_before c none = none
put_before c (some s) = some (String.◌∷◌ c s)

-- s[:n], which panics where the string is shorter
unfoldable pub first_bytes : ℕ → String → Option String
first_bytes zero s = some ""
first_bytes (suc n) String.[] = none
first_bytes (suc n) (String.◌∷◌ c s) = put_before c (first_bytes n s)
