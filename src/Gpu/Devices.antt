-- ===== src/Gpu/Devices.antt =====
-- The loops over the devices in internal/adapters/nvml/nvml.go, against a machine that is described
-- device by device.
use worldland_sdk.Base.{ℕ, zero, suc, ◌+◌, ◌≡◌, refl, ap, Option, none, some, List, [], ◌∷◌}
use worldland_sdk.Go.Errors.{GoError, ok, err}
use worldland_sdk.Go.Machine.{Machine, perform}
use worldland_sdk.Gpu.{
  Nvml, Device, GpuSpec, spec_of, collect, collected, get_specs, get_device_count,
}

abbrev pub kept {ℓ} : {A : Type ℓ} → Option A → List A → List A
kept none rest = rest
kept (some a) rest = a ∷ rest

-- What stands in the slots from `i` on, of `n`.
abbrev pub present {ℓ} : {A : Type ℓ} → (ℕ → Option A) → ℕ → ℕ → List A
present slot zero i = []
present slot (suc n) i = kept (slot i) (present slot n (i + 1))

module _ {W : Type 0} (nvml : Nvml W) where
  -- NVML has no device at index `i`, or one of which `a` is read, whenever it is asked.
  pub data Answering {A : Type 0} (read : Device → Machine W → A × Machine W) (i : ℕ)
      : Option A → Type 0 where
    absent :
        (e : GoError)
        → ((w : W) → (nvml.device_by_index i w).result ≡ err e)
        → Answering read i none
    there :
        (device : Device) (a : A)
        → ((w : W) → (nvml.device_by_index i w).result ≡ ok device)
        → ((n : Machine W) → (read device n).0 ≡ a)
        → Answering read i (some a)

  collected-present :
      {A : Type 0} {read : Device → Machine W → A × Machine W} {i : ℕ} {others : List A}
      (m : Machine W) (rest : Machine W → List A × Machine W) (o : Option A)
      → Answering read i o
      → ((k : Machine W) → (rest k).0 ≡ others)
      → (collected nvml read rest (perform (nvml.device_by_index i) m)).0 ≡ kept o others
  collected-present m rest none (absent e said) h = rw (said m.world) (h _)
  collected-present m rest (some a) (there device b said reads) h =
      rw (said m.world) (rw (reads _, h _))

  module _ {A : Type 0} (read : Device → Machine W → A × Machine W) (slot : ℕ → Option A)
      (steady : (i : ℕ) → Answering read i (slot i)) where
    collect-present : (n i : ℕ) (m : Machine W) → (collect nvml read n i m).0 ≡ present slot n i
    unfolding collect
    collect-present zero i m = refl
    collect-present (suc n) i m =
        collected-present m (λ k. collect nvml read n (i + 1) k) (slot i) (steady i)
          (λ k. collect-present n (i + 1) k)

  -- On a machine whose devices answer the same whenever they are asked, `GetSpecs` lists what is read
  -- of the devices that can be had, in the order of their indices, and skips the others.
  pub get_specs-present :
      (slot : ℕ → Option GpuSpec) (count : ℕ) (m : Machine W)
      → ((i : ℕ) → Answering (spec_of nvml) i (slot i))
      → (nvml.device_count m.world).result ≡ ok count
      → (get_specs nvml m).0 ≡ ok (present slot count 0)
  unfolding get_specs get_device_count
  get_specs-present slot count m steady counted =
      rw counted (ap ok (collect-present (spec_of nvml) slot steady count 0 _))
