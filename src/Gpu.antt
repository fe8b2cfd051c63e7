-- ===== src/Gpu.antt =====
-- internal/adapters/nvml/nvml.go: `NVMLProvider`, over NVML's own calls, which are parameters. The
-- records are those of internal/domain/metrics.go.
pub mod Devices
pub mod Providers
use worldland_sdk.Base.{ℕ, zero, suc, ◌+◌, ◌*◌, ◌/◌, String, List, [], ◌∷◌}
use worldland_sdk.Go.Errors.{GoError, Result, ok, err, wrap, Act, ◌>>=◌, ◌>>◌}
use worldland_sdk.Go.Machine.{Machine, Outside, perform}
use worldland_sdk.Container.{◌<>◌}

pub record GpuSpec : Type 0 where
  pub uuid : String
  pub name : String
  pub memory_total : ℕ
  pub driver_ver : String

pub record GpuMetrics : Type 0 where
  pub uuid : String
  pub name : String
  pub memory_total : ℕ
  pub memory_used : ℕ
  pub gpu_util : ℕ
  pub memory_util : ℕ
  pub temperature : ℕ

pub record Device : Type 0 where
  pub handle : ℕ

pub record Memory : Type 0 where
  pub total : ℕ
  pub used : ℕ

pub record Utilization : Type 0 where
  pub gpu : ℕ
  pub memory : ℕ

-- An answer other than SUCCESS is an error, whose text is that of `ErrorString`.
pub record Nvml (W : Type 0) : Type 0 where
  pub init : Outside W (Unit {0})
  pub shutdown : Outside W (Unit {0})
  pub device_count : Outside W ℕ
  pub device_by_index : ℕ → Outside W Device
  pub uuid : Device → Outside W String
  pub name : Device → Outside W String
  pub memory_info : Device → Outside W Memory
  pub utilization_rates : Device → Outside W Utilization
  pub temperature : Device → Outside W ℕ
  pub driver_version : Outside W String

abbrev explain : {A : Type 0} → String → Result A → Result A
explain message (ok a) = ok a
explain message (err e) = err (wrap message e)

-- x, _ := …: the zero value where the call fails
abbrev pub or_zero : {A : Type 0} → A → Result A → A
or_zero z (ok a) = a
or_zero z (err e) = z

abbrev pub asked : {A W : Type 0} → A → Outside W A → Machine W → A × Machine W
asked z f m = let (r, m') = perform f m in (or_zero z r, m')

abbrev pub no_memory : Memory
no_memory = record { total = 0; used = 0 }

abbrev pub idle : Utilization
idle = record { gpu = 0; memory = 0 }

abbrev pub mebibyte : ℕ
mebibyte = 1024 * 1024

module _ {W : Type 0} (nvml : Nvml W) where
  abbrev pub spec_of : Device → Machine W → GpuSpec × Machine W
  spec_of device m0 =
      let (uuid, m1) = asked "" (nvml.uuid device) m0 in
      let (name, m2) = asked "" (nvml.name device) m1 in
      let (memory, m3) = asked no_memory (nvml.memory_info device) m2 in
      let (driver, m4) = asked "" nvml.driver_version m3 in
      (
        record {
          uuid = uuid;
          name = name;
          memory_total = memory.total / mebibyte;
          driver_ver = driver;
        },
        m4,
      )

  abbrev pub metrics_of : Device → Machine W → GpuMetrics × Machine W
  metrics_of device m0 =
      let (uuid, m1) = asked "" (nvml.uuid device) m0 in
      let (name, m2) = asked "" (nvml.name device) m1 in
      let (memory, m3) = asked no_memory (nvml.memory_info device) m2 in
      let (util, m4) = asked idle (nvml.utilization_rates device) m3 in
      let (temperature, m5) = asked 0 (nvml.temperature device) m4 in
      (
        record {
          uuid = uuid;
          name = name;
          memory_total = memory.total / mebibyte;
          memory_used = memory.used / mebibyte;
          gpu_util = util.gpu;
          memory_util = util.memory;
          temperature = temperature;
        },
        m5,
      )

  abbrev pub collected :
      {A : Type 0}
      → (Device → Machine W → A × Machine W)
      → (Machine W → List A × Machine W)
      → Result Device × Machine W
      → List A × Machine W
  collected read rest (err e, m) = rest m
  collected read rest (ok device, m) =
      let (a, m') = read device m in let (more, m'') = rest m' in (a ∷ more, m'')

  -- The loop over the devices from `i` on, by the rounds that are left: a device that fails is
  -- skipped.
  unfoldable pub collect :
      {A : Type 0} → (Device → Machine W → A × Machine W) → ℕ → ℕ → Machine W → List A × Machine W
  collect read zero i m = ([], m)
  collect read (suc rounds) i m =
      collected read (λ n. collect read rounds (i + 1) n) (perform (nvml.device_by_index i) m)

  unfoldable pub init : Act (Machine W) (Unit {0})
  init m = let (r, m') = perform nvml.init m in (explain "NVML init failed" r, m')

  unfoldable pub shutdown : Act (Machine W) (Unit {0})
  shutdown m = let (r, m') = perform nvml.shutdown m in (explain "NVML shutdown failed" r, m')

  unfoldable pub get_device_count : Act (Machine W) ℕ
  get_device_count m =
      let (r, m') = perform nvml.device_count m in (explain "failed to get device count" r, m')

  abbrev listing : {A : Type 0} → (Device → Machine W → A × Machine W) → Act (Machine W) (List A)
  listing read m =
      (do count ← get_device_count; λ n. let (all, n') = collect read count 0 n in (ok all, n')) m

  unfoldable pub get_specs : Act (Machine W) (List GpuSpec)
  get_specs = listing spec_of

  unfoldable pub get_metrics : Act (Machine W) (List GpuMetrics)
  get_metrics = listing metrics_of
