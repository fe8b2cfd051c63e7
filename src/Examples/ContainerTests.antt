-- ===== src/Examples/ContainerTests.antt =====
-- internal/container/docker.go with the daemon of Examples/World.antt.
use worldland_sdk.Base.{ℕ, ◌≡◌, refl, false, some, none, String-eq, if◌then◌else◌, arith}
use worldland_sdk.Go.Machine.{Machine}
use worldland_sdk.Go.Strconv.{pos}
use worldland_sdk.Container.{
  ContainerConfig, port_bindings, container_info, gpu_device, is_gpu_uuid,
}
use worldland_sdk.Container.Client.{ContainerJson}
use worldland_sdk.Container.Create.{container_info-port_bindings}

abbrev config : ContainerConfig
config = record {
  session_id = "s1";
  image = "ubuntu";
  gpu_device_id = "GPU-9f2c";
  ssh_password = "secret";
  ssh_port = 30000;
  memory_bytes = 1024;
  cpu_count = 2;
  use_image_entrypoint = false;
}

abbrev published : ContainerJson
published = record {
  id = "c0ffee";
  network_settings = some (record { ports = some (port_bindings config) });
  state = none;
}

all_devices : gpu_device config ≡ "all"
unfolding gpu_device is_gpu_uuid
all_devices = refl

container_info-port_bindings_example :
    (container_info published).ssh_port
    ≡ (if config.use_image_entrypoint then pos 0 else pos config.ssh_port)
container_info-port_bindings_example =
    container_info-port_bindings config published (omega arith) refl

abbrev later : Machine ℕ
later = record { clock = 1002; world = 1 }
