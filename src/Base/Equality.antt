-- ===== src/Base/Equality.antt =====
-- Go's `==` on the key types of its maps, as an interface.
use Prim.Native.Nat.{ℕ}
use Prim.Native.String.{String}
use mathlib.Core.Path.{◌≡◌, refl}
use mathlib.Core.Logic.{◌↔◌}
use mathlib.Core.Bool.{Bool, true}
use text.Mathlib.Text.{◌==◌ as str_eq}
use text.Mathlib.TextEquality.{eq_iff}
use worldland_sdk.Base.Tests.{nat_eq, nat_eq_iff}

pub record Comparable {ℓ} (K : Type ℓ) : Type ℓ where
  pub same : K → K → Bool
  pub same_iff : (j k : K) → (same j k ≡ true) ↔ (j ≡ k)

instance abbrev pub ℕ-eq : Comparable ℕ
ℕ-eq = record { same = nat_eq; same_iff = nat_eq_iff }

instance abbrev pub String-eq : Comparable String
String-eq = record { same = str_eq; same_iff = eq_iff }

infix 50 ◌==◌
module _ {ℓ} {K : Type ℓ} ⦃c : Comparable K⦄ where
  abbrev pub ◌==◌ : K → K → Bool
  ◌==◌ = c.same

  pub ==_refl : (k : K) → c.same k k ≡ true
  ==_refl k = (c.same_iff k k).1 refl

-- Tests of two texts, for the lists of `ground`.
pub text_iff : (s t : String) → (str_eq s t ≡ true) ↔ (s ≡ t)
text_iff = eq_iff
