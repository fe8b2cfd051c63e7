-- ===== src/Mining/Free.antt =====
-- The GPU that `getAvailableGPUs` of internal/mining/daemon.go puts first, described without it.
use worldland_sdk.Base.{
  ◌≡◌, ◌≢◌, refl, sym, ap, inl, inr, String, Bool, true, false, some, List, [], ◌∷◌, ◌++◌, All,
  String-eq, Bool-cases, arith,
}
use worldland_sdk.Go.Map.{Map, lookup}
use worldland_sdk.Mining.Rented.{unrented, is_rented, available_of}

module _ (rented : Map String Bool) where
  abbrev pub IsRented : String → Type 0
  IsRented gpu = lookup gpu rented ≡ some true

  -- Mining may use no GPU: every configured one is rented, or none is configured and some GPU is in
  -- the table.
  pub data NoneFree (ids : List String) : Type 0 where
    all_rented : ids ≢ [] → All IsRented ids → NoneFree ids
    any_rented : ids ≡ [] → rented ≢ [] → NoneFree ids

  -- The first configured GPU that is not rented, or "all" where none is configured or in the table.
  pub data FirstFree (ids : List String) (gpu : String) : Type 0 where
    first :
        (before after : List String)
        → ids ≡ before ++ gpu ∷ after
        → All IsRented before
        → (lookup gpu rented ≢ some true)
        → FirstFree ids gpu
    all_free : ids ≡ [] → rented ≡ [] → gpu ≡ "all" → FirstFree ids gpu

  is_rented-IsRented : (gpu : String) → is_rented rented gpu ≡ true → IsRented gpu
  is_rented-IsRented gpu h = ground arith

  not_rented : (gpu : String) → is_rented rented gpu ≡ false → lookup gpu rented ≢ some true
  not_rented gpu h e = ground (arith, h, e)

  unrented-none : (ids : List String) → unrented rented ids ≡ [] → All IsRented ids
  unfolding unrented
  unrented-none [] h = tt
  unrented-none (g ∷ ids) h = elim (Bool-cases (is_rented rented g)) [
    | inl e ↦ (is_rented-IsRented g e, unrented-none ids (rw e at h))
    | inr e ↦ absurd (ground (arith, h, e))
  ]

  -- Where the search through the list stops.
  unrented-first :
      (ids gpus : List String) (gpu : String)
      → unrented rented ids ≡ gpu ∷ gpus
      → (before : List String) × (after : List String) × (ids ≡ before ++ gpu ∷ after)
        × All IsRented before
        × (lookup gpu rented ≢ some true)
  unfolding unrented
  unrented-first [] gpus gpu h = absurd cc
  unrented-first (g ∷ ids) gpus gpu h = elim (Bool-cases (is_rented rented g)) [
    | inl e ↦
        let (before, after, at, all, free) = unrented-first ids gpus gpu (rw e at h) in
        (g ∷ before, after, ap (λ l. g ∷ l) at, (is_rented-IsRented g e, all), free)
    | inr e ↦
        let same : g ≡ gpu = ground (arith, h, e) in
        ([], ids, ap (λ x. x ∷ ids) same, tt, rw (sym same) (not_rented g e))
  ]

  pub available_of-NoneFree : (ids : List String) → available_of rented ids ≡ [] → NoneFree ids
  available_of-NoneFree [] h = any_rented refl (λ e. absurd (ground (arith, h, e)))
  available_of-NoneFree (g ∷ ids) h = all_rented (λ e. cc) (unrented-none (g ∷ ids) h)

  pub available_of-FirstFree :
      (ids gpus : List String) (gpu : String)
      → available_of rented ids ≡ gpu ∷ gpus
      → FirstFree ids gpu
  available_of-FirstFree [] gpus gpu h = go rented refl
    where
      go : (r : Map String Bool) → rented ≡ r → FirstFree [] gpu
      go [] e = all_free refl e (ground (arith, h, e))
      go (x ∷ r) e = absurd (ground (arith, h, e))
  available_of-FirstFree (g ∷ ids) gpus gpu h =
      let (before, after, at, all, free) = unrented-first (g ∷ ids) gpus gpu h in
      first before after at all free
