-- ===== src/Go/Strconv/Roundtrip.antt =====
-- Itoa and Atoi are inverse on the ints that are not negative.
use Prim.Native.Char.{code}
use Prim.Native.String
use text.Mathlib.TextLemmas.{nil-append, cons-append}
use worldland_sdk.Base.{
  ℕ, zero, suc, ◌+◌, ◌-◌, ◌*◌, ◌/◌, ◌%◌, ◌<◌, ◌≤◌, String, ◌≡◌, refl, ap, ◌∙◌, true, some, List, [],
  ◌∷◌, ◌++◌, arith, ◌==◌, ℕ-eq, Bool-cases, inl, inr,
}
use worldland_sdk.Go.Strconv.{
  pos, max_int, digit_text, digits_before, itoa, codes, read_digits, in_range, parse_int, atoi,
  parse_big, unbounded,
}

codes-append : (s t : String) → codes (String.◌++◌ s t) ≡ codes s ++ codes t
codes-append String.[] t = rw nil-append
codes-append (String.◌∷◌ c s) t = rw cons-append (ap (λ l. code c ∷ l) (codes-append s t))

codes-digit_text : (d : ℕ) → d < 10 → codes (digit_text d) ≡ (b'0' + d) ∷ []
codes-digit_text zero h = refl
codes-digit_text (suc zero) h = refl
codes-digit_text (suc (suc zero)) h = refl
codes-digit_text (suc (suc (suc zero))) h = refl
codes-digit_text (suc (suc (suc (suc zero)))) h = refl
codes-digit_text (suc (suc (suc (suc (suc zero))))) h = refl
codes-digit_text (suc (suc (suc (suc (suc (suc zero)))))) h = refl
codes-digit_text (suc (suc (suc (suc (suc (suc (suc zero))))))) h = refl
codes-digit_text (suc (suc (suc (suc (suc (suc (suc (suc zero)))))))) h = refl
codes-digit_text (suc (suc (suc (suc (suc (suc (suc (suc (suc zero))))))))) h = refl
codes-digit_text (suc (suc (suc (suc (suc (suc (suc (suc (suc (suc n)))))))))) h =
    absurd (omega arith)

codes-digit :
    (n : ℕ) (out : String)
    → codes (String.◌++◌ (digit_text (n % 10)) out) ≡ (b'0' + n % 10) ∷ codes out
codes-digit n out =
    codes-append (digit_text (n % 10)) out
    ∙ ap (λ l. l ++ codes out) (codes-digit_text (n % 10) (omega arith))

read_digits-cons :
    (acc d : ℕ) (s : List ℕ)
    → d < 10
    → read_digits acc ((b'0' + d) ∷ s) ≡ read_digits (acc * 10 + d) s
unfolding read_digits
read_digits-cons acc d s h =
    let e : acc * 10 + (b'0' + d - b'0') ≡ acc * 10 + d = omega arith in
    ground (arith, ap (λ t. read_digits t s) e)

read_digits-digit :
    (q n : ℕ) (out : String)
    → q ≡ n / 10
    → read_digits q (codes (String.◌++◌ (digit_text (n % 10)) out)) ≡ read_digits n (codes out)
read_digits-digit q n out h =
    let e : q * 10 + n % 10 ≡ n = omega arith in
    ap (read_digits q) (codes-digit n out)
    ∙ read_digits-cons q (n % 10) (codes out) (omega arith)
    ∙ ap (λ t. read_digits t (codes out)) e

read_digits-digits_before :
    (fuel n : ℕ) (out : String)
    → n ≤ fuel
    → read_digits 0 (codes (digits_before (suc fuel) n out)) ≡ read_digits n (codes out)
unfolding digits_before
read_digits-digits_before zero n out h =
    let e : (n / 10 == 0) ≡ true = ground arith in rw e (read_digits-digit 0 n out (omega arith))
read_digits-digits_before (suc fuel) n out h = elim (Bool-cases (n / 10 == 0)) [
  | inl e ↦ rw e (read_digits-digit 0 n out (ground arith))
  | inr e ↦ rw e (
      read_digits-digits_before fuel (n / 10) (String.◌++◌ (digit_text (n % 10)) out) (omega arith)
      ∙ read_digits-digit (n / 10) n out refl)
]

-- A text of digits begins with a digit.
record StartsWithDigit (s : List ℕ) : Type 0 where
  head : ℕ
  tail : List ℕ
  whole : s ≡ head ∷ tail
  low : b'0' ≤ head
  high : head ≤ b'9'

StartsWithDigit-digit :
    (n : ℕ) (out : String) → StartsWithDigit (codes (String.◌++◌ (digit_text (n % 10)) out))
StartsWithDigit-digit n out = record {
  head = b'0' + n % 10;
  tail = codes out;
  whole = codes-digit n out;
  low = omega arith;
  high = omega arith;
}

digits_before-StartsWithDigit :
    (fuel n : ℕ) (out : String)
    → StartsWithDigit (codes out)
    → StartsWithDigit (codes (digits_before fuel n out))
unfolding digits_before
digits_before-StartsWithDigit zero n out h = h
digits_before-StartsWithDigit (suc fuel) n out h = elim (Bool-cases (n / 10 == 0)) [
  | inl e ↦ rw e (StartsWithDigit-digit n out)
  | inr e ↦ rw e (digits_before-StartsWithDigit fuel (n / 10) _ (StartsWithDigit-digit n out))
]

itoa-StartsWithDigit : (n : ℕ) → StartsWithDigit (codes (itoa n))
unfolding itoa digits_before
itoa-StartsWithDigit n = elim (Bool-cases (n / 10 == 0)) [
  | inl e ↦ rw e (StartsWithDigit-digit n "")
  | inr e ↦ rw e (digits_before-StartsWithDigit n (n / 10) _ (StartsWithDigit-digit n ""))
]

parse_int-digits : (s : List ℕ) → StartsWithDigit s → parse_int s ≡ in_range (read_digits 0 s)
parse_int-digits s d = rw d.whole (go d.head d.tail d.low d.high)
  where
    go :
        (c : ℕ) (r : List ℕ)
        → b'0' ≤ c
        → c ≤ b'9'
        → parse_int (c ∷ r) ≡ in_range (read_digits 0 (c ∷ r))
    go c r l h = unfold parse_int in ground arith

read_digits-itoa : (n : ℕ) → read_digits 0 (codes (itoa n)) ≡ some n
unfolding itoa
read_digits-itoa n = read_digits-digits_before n n "" (omega arith) ∙ (unfold read_digits in refl)

-- Atoi reads back what Itoa prints.
pub atoi-itoa : (n : ℕ) → n ≤ max_int → atoi (itoa n) ≡ some (pos n)
unfolding atoi
atoi-itoa n h =
    parse_int-digits (codes (itoa n)) (itoa-StartsWithDigit n)
    ∙ ap in_range (read_digits-itoa n)
    ∙ ground arith

parse_big-digits : (s : List ℕ) → StartsWithDigit s → parse_big s ≡ unbounded (read_digits 0 s)
parse_big-digits s d = rw d.whole (go d.head d.tail d.low d.high)
  where
    go :
        (c : ℕ) (r : List ℕ)
        → b'0' ≤ c
        → c ≤ b'9'
        → parse_big (c ∷ r) ≡ unbounded (read_digits 0 (c ∷ r))
    go c r l h = unfold parse_big in ground arith

-- A decimal number is read back whatever its size.
pub parse_big-itoa : (n : ℕ) → parse_big (codes (itoa n)) ≡ some (pos n)
parse_big-itoa n =
    parse_big-digits (codes (itoa n)) (itoa-StartsWithDigit n) ∙ ap unbounded (read_digits-itoa n)
