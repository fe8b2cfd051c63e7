-- ===== src/Go/Strconv.antt =====
-- strconv.Itoa on the non-negative ints, and strconv.Atoi, whose results are those of int64.
pub mod Roundtrip
use Prim.Native.Char.{code}
use Prim.Native.String
use worldland_sdk.Base.{
  ℕ, zero, suc, ◌+◌, ◌-◌, ◌*◌, ◌/◌, ◌%◌, ◌^◌, ◌<◌, String, ◌≡◌, refl, Bool, ◌&&◌, Option, none,
  some, List, [], ◌∷◌, ◌++◌, arith, leb, ltb, if◌then◌else◌, ◌==◌, ℕ-eq,
}

-- An int: `negsuc n` is -(n + 1).
pub data ℤ : Type 0 where
  pos : ℕ → ℤ
  negsuc : ℕ → ℤ

abbrev pub max_int : ℕ
max_int = 9_223_372_036_854_775_807

abbrev digit_text : ℕ → String
digit_text zero = "0"
digit_text (suc zero) = "1"
digit_text (suc (suc zero)) = "2"
digit_text (suc (suc (suc zero))) = "3"
digit_text (suc (suc (suc (suc zero)))) = "4"
digit_text (suc (suc (suc (suc (suc zero))))) = "5"
digit_text (suc (suc (suc (suc (suc (suc zero)))))) = "6"
digit_text (suc (suc (suc (suc (suc (suc (suc zero))))))) = "7"
digit_text (suc (suc (suc (suc (suc (suc (suc (suc zero)))))))) = "8"
digit_text (suc (suc (suc (suc (suc (suc (suc (suc (suc n))))))))) = "9"

-- The digits of `n` in front of `out`, by fuel: a number has at most as many digits as its value,
-- so `n` rounds after the first are enough.
unfoldable pub digits_before : ℕ → ℕ → String → String
digits_before zero n out = out
digits_before (suc fuel) n out =
    let out' = String.◌++◌ (digit_text (n % 10)) out in
    let more = digits_before fuel (n / 10) out' in if n / 10 == 0 then out' else more

unfoldable pub itoa : ℕ → String
itoa n = digits_before (suc n) n ""

abbrev pub codes : String → List ℕ
codes String.[] = []
codes (String.◌∷◌ c s) = code c ∷ codes s

-- The value of a row of digits, behind the value read so far.
unfoldable pub read_digits : ℕ → List ℕ → Option ℕ
read_digits acc [] = some acc
read_digits acc (c ∷ s) =
    let rest = read_digits (acc * 10 + (c - b'0')) s in
    if leb b'0' c && leb c b'9' then rest else none

-- At least one digit, and nothing else.
abbrev pub read_number : List ℕ → Option ℕ
read_number [] = none
read_number (c ∷ s) = read_digits 0 (c ∷ s)

abbrev pub in_range : Option ℕ → Option ℤ
in_range none = none
in_range (some n) = if leb n max_int then some (pos n) else none

abbrev pub negated : Option ℕ → Option ℤ
negated none = none
negated (some zero) = some (pos 0)
negated (some (suc n)) = if leb n max_int then some (negsuc n) else none

unfoldable pub parse_int : List ℕ → Option ℤ
parse_int [] = none
parse_int (c ∷ s) =
    if c == b'-'
    then negated (read_number s)
    else if c == b'+'
    then in_range (read_number s)
    else in_range (read_number (c ∷ s))

-- `none` stands for the error of `Atoi`.
unfoldable pub atoi : String → Option ℤ
atoi s = parse_int (codes s)

-- (*big.Int).SetString(s, 10): the same texts, and no bound.
abbrev pub unbounded : Option ℕ → Option ℤ
unbounded none = none
unbounded (some n) = some (pos n)

abbrev pub negated_unbounded : Option ℕ → Option ℤ
negated_unbounded none = none
negated_unbounded (some zero) = some (pos 0)
negated_unbounded (some (suc n)) = some (negsuc n)

unfoldable pub parse_big : List ℕ → Option ℤ
parse_big [] = none
parse_big (c ∷ s) =
    if c == b'-'
    then negated_unbounded (read_number s)
    else if c == b'+'
    then unbounded (read_number s)
    else unbounded (read_number (c ∷ s))

itoa_port : itoa 30000 ≡ "30000"
unfolding itoa digits_before
itoa_port = refl

atoi_port : atoi "30000" ≡ some (pos 30000)
unfolding atoi parse_int read_digits
atoi_port = refl

atoi_signed : atoi "-12" ≡ some (negsuc 11)
unfolding atoi parse_int read_digits
atoi_signed = refl
