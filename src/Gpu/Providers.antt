-- ===== src/Gpu/Providers.antt =====
-- internal/domain/interfaces.go: `GPUProvider`, and the three types that implement it: the two
-- `NVMLProvider`s of internal/adapters/nvml/nvml.go and nvml_stub.go, of which a build has one, and
-- `MockGPUProvider` of mock.go.
use worldland_sdk.Base.{ℕ, Option, none, some, List, length}
use worldland_sdk.Go.Errors.{GoError, text, Result, ok, err, Act, pure, fail}
use worldland_sdk.Go.Machine.{Machine}
use worldland_sdk.Gpu.{
  GpuSpec, GpuMetrics, Nvml, init, shutdown, get_device_count, get_metrics, get_specs,
}

pub record GpuProvider (W : Type 0) : Type 0 where
  pub init : Act (Machine W) (Unit {0})
  pub shutdown : Act (Machine W) (Unit {0})
  pub get_device_count : Act (Machine W) ℕ
  pub get_metrics : Act (Machine W) (List GpuMetrics)
  pub get_specs : Act (Machine W) (List GpuSpec)

unfoldable pub nvml_provider : {W : Type 0} → Nvml W → GpuProvider W
nvml_provider nvml = record {
  init = init nvml;
  shutdown = shutdown nvml;
  get_device_count = get_device_count nvml;
  get_metrics = get_metrics nvml;
  get_specs = get_specs nvml;
}

-- Built with the tag nonvml.
unfoldable pub stub_provider : {W : Type 0} → GpuProvider W
stub_provider = record {
  init = fail (text "NVML not available (built with nonvml tag)");
  shutdown = pure tt;
  get_device_count = fail (text "NVML not available");
  get_metrics = fail (text "NVML not available");
  get_specs = fail (text "NVML not available");
}

pub record MockGpuProvider : Type 0 where
  pub metrics : List GpuMetrics
  pub specs : List GpuSpec
  pub init_err : Option GoError

unfoldable pub new_mock_gpu_provider : List GpuMetrics → List GpuSpec → MockGpuProvider
new_mock_gpu_provider metrics specs = record { metrics = metrics; specs = specs; init_err = none }

abbrev as_result : Option GoError → Result (Unit {0})
as_result none = ok tt
as_result (some e) = err e

unfoldable pub mock_provider : {W : Type 0} → MockGpuProvider → GpuProvider W
mock_provider p = record {
  init = λ m. (as_result p.init_err, m);
  shutdown = pure tt;
  get_device_count = pure (length p.metrics);
  get_metrics = pure p.metrics;
  get_specs = pure p.specs;
}
