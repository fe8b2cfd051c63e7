-- ===== src/Go/Outcome.antt =====
-- What holds of the result of an action, if it succeeded.
use worldland_sdk.Go.Errors.{Result, ok, err}

abbrev pub IfOk : {S A : Type 0} → (A → S → Type 0) → Result A × S → Type 0
IfOk P (ok a, s) = P a s
IfOk P (err e, s) = Unit {0}

pub IfOk-weaken :
    {S A : Type 0} (P Q : A → S → Type 0) (r : Result A × S)
    → ((a : A) (s : S) → P a s → Q a s)
    → IfOk P r
    → IfOk Q r
IfOk-weaken P Q (ok a, s) h p = h a s p
IfOk-weaken P Q (err e, s) h p = tt
