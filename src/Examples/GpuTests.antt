-- ===== src/Examples/GpuTests.antt =====
-- internal/adapters/nvml/nvml.go on a machine whose second device cannot be had.
use worldland_sdk.Base.{ℕ, zero, suc, ◌≡◌, refl, Option, some, none}
use worldland_sdk.Go.Errors.{text, Result, ok, err}
use worldland_sdk.Go.Machine.{Outside}
use worldland_sdk.Gpu.{Nvml, Device, GpuSpec, spec_of, get_specs}
use worldland_sdk.Gpu.Devices.{Answering, absent, there, present, get_specs-present}
use worldland_sdk.Examples.World.{machine, says}

abbrev answer : ℕ → Result Device
answer zero = ok (record { handle = 0 })
answer (suc i) = err (text "not found")

abbrev by_index : ℕ → Outside ℕ Device
by_index i w = record { result = answer i; took = 1; world = w }

abbrev nvml : Nvml ℕ
nvml = record {
  init = says tt;
  shutdown = says tt;
  device_count = says 2;
  device_by_index = by_index;
  uuid = λ device. says "GPU-0";
  name = λ device. says "A100";
  memory_info = λ device. says (record { total = 2097152; used = 1048576 });
  utilization_rates = λ device. says (record { gpu = 3; memory = 4 });
  temperature = λ device. says 40;
  driver_version = says "550";
}

abbrev slot : ℕ → Option GpuSpec
slot zero = some (record { uuid = "GPU-0"; name = "A100"; memory_total = 2; driver_ver = "550" })
slot (suc i) = none

steady : (i : ℕ) → Answering nvml (spec_of nvml) i (slot i)
steady zero = there (record { handle = 0 }) _ (λ w. refl) (λ n. refl)
steady (suc i) = absent (text "not found") (λ w. refl)

get_specs-present_example : (get_specs nvml machine).0 ≡ ok (present slot 2 0)
get_specs-present_example = get_specs-present nvml slot 2 machine steady refl
