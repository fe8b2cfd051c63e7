-- ===== src/Mining/Gpus.antt =====
-- Which GPUs `MiningDaemon` of internal/mining/daemon.go mines on: the configured ones that are not
-- rented.
use worldland_sdk.Base.{
  ◌≡◌, ◌≢◌, refl, ◌∙◌, inl, inr, String, Bool, true, false, not, ◌&&◌, ◌||◌, List, [], ◌∷◌, ◌==◌,
  String-eq, text_iff, Bool-cases, arith,
}
use worldland_sdk.Go.Map.{Map, insert, delete, lookup-insert, lookup-delete}
use worldland_sdk.Mining.{MiningDaemon, available_gpus}
use worldland_sdk.Mining.Rented.{unrented, is_rented, mark_all, unmark_all, available_of}

abbrev pub contains : List String → String → Bool
contains [] gpu = false
contains (g ∷ gpus) gpu = g == gpu || contains gpus gpu

contains-unrented :
    (rented : Map String Bool) (gpus : List String) (gpu : String)
    → contains (unrented rented gpus) gpu ≡ (contains gpus gpu && not (is_rented rented gpu))
unfolding unrented
contains-unrented rented [] gpu = refl
contains-unrented rented (g ∷ gpus) gpu = elim (Bool-cases (g == gpu)) [
  | inl e ↦
      rw ((text_iff g gpu).0 e)
        (ground (arith, text_iff gpu gpu, contains-unrented rented gpus gpu))
  | inr e ↦ ground (arith, contains-unrented rented gpus gpu)
]

-- With configured GPUs, mining may use exactly those of them that are not rented.
pub contains-available_gpus :
    {W : Type 0} (m : MiningDaemon W) (gpu : String)
    → m.config.gpu_device_ids ≢ []
    → contains (available_gpus m) gpu
      ≡ (contains m.config.gpu_device_ids gpu && not (is_rented m.paused_gpus gpu))
unfolding available_gpus
contains-available_gpus m gpu some_ids = go m.config.gpu_device_ids some_ids
  where
    go :
        (ids : List String)
        → ids ≢ []
        → contains (available_of m.paused_gpus ids) gpu
          ≡ (contains ids gpu && not (is_rented m.paused_gpus gpu))
    go [] h = absurd (h refl)
    go (g ∷ ids) h = contains-unrented m.paused_gpus (g ∷ ids) gpu

-- Pausing rents out the given GPUs and no others.
pub is_rented-mark_all :
    (gpus : List String) (rented : Map String Bool) (gpu : String)
    → is_rented (mark_all gpus rented) gpu ≡ (contains gpus gpu || is_rented rented gpu)
unfolding mark_all
is_rented-mark_all [] rented gpu = refl
is_rented-mark_all (g ∷ gpus) rented gpu =
    is_rented-mark_all gpus (insert g true rented) gpu
    ∙ ground (arith, text_iff g gpu, lookup-insert g gpu true rented)

pub is_rented-unmark_all :
    (gpus : List String) (rented : Map String Bool) (gpu : String)
    → is_rented (unmark_all gpus rented) gpu ≡ (not (contains gpus gpu) && is_rented rented gpu)
unfolding unmark_all
is_rented-unmark_all [] rented gpu = refl
is_rented-unmark_all (g ∷ gpus) rented gpu =
    is_rented-unmark_all gpus (delete g rented) gpu
    ∙ ground (arith, text_iff g gpu, lookup-delete g gpu rented)

-- Renting GPUs out and returning the same ones leaves a GPU as it was, if it was free or is not
-- among them.
pub unmark_all-mark_all :
    (gpus : List String) (rented : Map String Bool) (gpu : String)
    → (contains gpus gpu ≡ true → is_rented rented gpu ≡ false)
    → is_rented (unmark_all gpus (mark_all gpus rented)) gpu ≡ is_rented rented gpu
unmark_all-mark_all gpus rented gpu free =
    is_rented-unmark_all gpus (mark_all gpus rented) gpu
    ∙ ground (arith, is_rented-mark_all gpus rented gpu)
