-- ===== src/Rental/Keys.antt =====
-- A table of rentals of internal/rental/executor.go in which each stands under its own session, once.
use worldland_sdk.Base.{
  ◌≡◌, ◌≢◌, refl, sym, ap, ◌∙◌, String, none, some, List, [], ◌∷◌, map, All, ◌==◌, Bool-cases, inl,
  inr, String-eq, text_iff, arith,
}
use mathlib.Core.List.{Memᴰ}
use mathlib.Core.List.Memᴰ
use worldland_sdk.Go.Map.{Map, lookup, insert, delete, lookup-insert, lookup-delete}
use worldland_sdk.Rental.{RentalState}

abbrev pub values : Map String RentalState → List RentalState
values active = map (λ entry. entry.1) active

-- A table in which each rental stands under its own session, once.
abbrev pub OwnKeys : Map String RentalState → Type 0
OwnKeys [] = Unit {0}
OwnKeys ((s, state) ∷ active) = (state.session_id ≡ s) × (lookup s active ≡ none) × OwnKeys active

-- No session has two rentals.
abbrev pub Once : List RentalState → Type 0
Once [] = Unit {0}
Once (state ∷ rest) = All (λ other. other.session_id ≢ state.session_id) rest × Once rest

pub OwnKeys-insert :
    (s : String) (state : RentalState) (active : Map String RentalState)
    → state.session_id ≡ s
    → OwnKeys active
    → OwnKeys (insert s state active)
unfolding insert lookup
OwnKeys-insert s state [] own k = (own, refl, tt)
OwnKeys-insert s state ((t, other) ∷ active) own k = elim (Bool-cases (t == s)) [
  | inl e ↦ rw e (own, ap (λ key. lookup key active) (sym ((text_iff t s).0 e)) ∙ k.1, k.2)
  | inr e ↦ rw e (
    k.0,
    ground (arith, k.1, text_iff t s, text_iff s t, lookup-insert s t state active),
    OwnKeys-insert s state active own k.2,
  )
]

pub OwnKeys-delete :
    (s : String) (active : Map String RentalState) → OwnKeys active → OwnKeys (delete s active)
unfolding delete
OwnKeys-delete s [] k = tt
OwnKeys-delete s ((t, other) ∷ active) k = elim (Bool-cases (t == s)) [
  | inl e ↦ rw e (OwnKeys-delete s active k.2)
  | inr e ↦ rw e (k.0, ground (arith, k.1, lookup-delete s t active), OwnKeys-delete s active k.2)
]

pub lookup-own :
    (s : String) (state : RentalState) (active : Map String RentalState)
    → OwnKeys active
    → lookup s active ≡ some state
    → state.session_id ≡ s
unfolding lookup
lookup-own s state [] k h = ground arith
lookup-own s state ((t, other) ∷ active) k h =
    ground (arith, h, k.0, text_iff t s, lookup-own s state active k.2)

pub lookup-Mem :
    (s : String) (state : RentalState) (active : Map String RentalState)
    → lookup s active ≡ some state
    → Memᴰ state (values active)
unfolding lookup
lookup-Mem s state [] h = absurd (ground arith)
lookup-Mem s state ((t, other) ∷ active) h = elim (Bool-cases (t == s)) [
  | inl e ↦ Memᴰ.head (ground (arith, h, e))
  | inr e ↦ Memᴰ.tail (lookup-Mem s state active (ground (arith, h, e)))
]

untracked-others :
    (s : String) (active : Map String RentalState)
    → OwnKeys active
    → lookup s active ≡ none
    → All (λ other. other.session_id ≢ s) (values active)
unfolding lookup
untracked-others s [] k h = tt
untracked-others s ((t, other) ∷ active) k h = (
  ground (arith, h, k.0, text_iff t s),
  untracked-others s active k.2 (ground (arith, h, text_iff t s)),
)

pub Mem-lookup :
    (state : RentalState) (active : Map String RentalState)
    → OwnKeys active
    → Memᴰ state (values active)
    → lookup state.session_id active ≡ some state
unfolding lookup
Mem-lookup state [] k m = absurd (Memᴰ.not-nil m)
Mem-lookup state ((t, other) ∷ active) k m = elim (Memᴰ.cases_cons m) [
  | inl e ↦ ground (arith, e, k.0, text_iff t state.session_id)
  | inr rest ↦
      ground (arith, k.1, k.0, text_iff t state.session_id, Mem-lookup state active k.2 rest)
]

pub values-Once : (active : Map String RentalState) → OwnKeys active → Once (values active)
values-Once [] k = tt
values-Once ((t, other) ∷ active) k =
    (rw k.0 (untracked-others t active k.2 k.1), values-Once active k.2)
