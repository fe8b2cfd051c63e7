-- ===== src/Mining/Rented.antt =====
-- The GPUs of internal/mining/daemon.go that are rented out, `pausedGPUs`, and those that are left.
use worldland_sdk.Base.{
  String, Bool, true, false, not, Option, none, some, List, [], ◌∷◌, length, ltb, if◌then◌else◌,
  String-eq,
}
use worldland_sdk.Go.Map.{Map, lookup, insert, delete}

abbrev marked : Option Bool → Bool
marked none = false
marked (some b) = b

-- m.pausedGPUs[gpu], false for a missing key
abbrev pub is_rented : Map String Bool → String → Bool
is_rented rented gpu = marked (lookup gpu rented)

unfoldable pub unrented : Map String Bool → List String → List String
unrented rented [] = []
unrented rented (gpu ∷ gpus) =
    let rest = unrented rented gpus in if not (is_rented rented gpu) then gpu ∷ rest else rest

abbrev pub available_of : Map String Bool → List String → List String
available_of rented [] = if ltb 0 (length rented) then [] else "all" ∷ []
available_of rented (gpu ∷ gpus) = unrented rented (gpu ∷ gpus)

unfoldable pub mark_all : List String → Map String Bool → Map String Bool
mark_all [] rented = rented
mark_all (gpu ∷ gpus) rented = mark_all gpus (insert gpu true rented)

unfoldable pub unmark_all : List String → Map String Bool → Map String Bool
unmark_all [] rented = rented
unmark_all (gpu ∷ gpus) rented = unmark_all gpus (delete gpu rented)
