-- ===== src/Rental/Pending.antt =====
-- The list of sleeping cleanups of internal/rental/executor.go: no session has two, and one is taken
-- out when it runs.
use worldland_sdk.Base.{sym, String, List, [], ◌∷◌, ◌++◌, All, ◌≢◌, ℕ-eq, String-eq}
use worldland_sdk.Rental.{Cleanup}

abbrev pub OtherSession : String → Cleanup → Type 0
OtherSession session_id c = c.session_id ≢ session_id

-- No session has two cleanups.
abbrev pub Distinct : List Cleanup → Type 0
Distinct [] = Unit {0}
Distinct (c ∷ cs) = All (OtherSession c.session_id) cs × Distinct cs

pub All-map {ℓ κ} :
    {A : Type ℓ} {P Q : A → Type κ} (xs : List A) → ((a : A) → P a → Q a) → All P xs → All Q xs
All-map [] f h = tt
All-map (x ∷ xs) f h = (f x h.0, All-map xs f h.1)

pub All-map_both {ℓ κ} :
    {A : Type ℓ} {P Q R : A → Type κ} (xs : List A)
    → ((a : A) → P a → Q a → R a)
    → All P xs
    → All Q xs
    → All R xs
All-map_both [] f h k = tt
All-map_both (x ∷ xs) f h k = (f x h.0 k.0, All-map_both xs f h.1 k.1)

pub All-append {ℓ κ} :
    {A : Type ℓ} (P : A → Type κ) (xs : List A) (y : A) → All P xs → P y → All P (xs ++ y ∷ [])
All-append P [] y h p = (p, tt)
All-append P (x ∷ xs) y h p = (h.0, All-append P xs y h.1 p)

pub Distinct-append :
    (cs : List Cleanup) (c : Cleanup)
    → Distinct cs
    → All (OtherSession c.session_id) cs
    → Distinct (cs ++ c ∷ [])
Distinct-append [] c h o = (tt, tt)
Distinct-append (d ∷ cs) c h o =
    (All-append _ cs c h.0 (λ e. o.0 (sym e)), Distinct-append cs c h.1 o.1)

-- `c` stands in the first list, and the second is the others in their order.
pub data Picked (c : Cleanup) : List Cleanup → List Cleanup → Type 0 where
  here : {cs : List Cleanup} → Picked c (c ∷ cs) cs
  there : {d : Cleanup} {cs ds : List Cleanup} → Picked c cs ds → Picked c (d ∷ cs) (d ∷ ds)

pub Picked-All {κ} :
    (P : Cleanup → Type κ) {c : Cleanup} {cs ds : List Cleanup}
    → Picked c cs ds
    → All P cs
    → P c × All P ds
Picked-All P here h = h
Picked-All P (there p) h = let rest = Picked-All P p h.1 in (rest.0, (h.0, rest.1))

pub Picked-Distinct :
    {c : Cleanup} {cs ds : List Cleanup}
    → Picked c cs ds
    → Distinct cs
    → All (OtherSession c.session_id) ds × Distinct ds
Picked-Distinct here h = h
Picked-Distinct {c} (there {d = d} p) h =
    let rest = Picked-Distinct p h.1 in
    let ends = Picked-All (OtherSession d.session_id) p h.0 in
    (((λ e. ends.0 (sym e)), rest.0), (ends.1, rest.1))
