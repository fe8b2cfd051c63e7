-- ===== src/Cmd/Flags.antt =====
-- cmd/node/main.go: the flags, and what `main` makes of them before it talks to anybody.
use worldland_sdk.Base.{ℕ, String, Bool, true, not, ◌&&◌, if◌then◌else◌, ◌==◌, String-eq}
use worldland_sdk.Go.Errors.{Result, ok, err, Act, wrapping}
use worldland_sdk.Go.Machine.{Machine, perform}
use worldland_sdk.Go.Strings.{trim_space}
use worldland_sdk.Gpu.Providers.{GpuProvider}
use worldland_sdk.Cmd.{Registration, detect, default_gpu}
use worldland_sdk.Cmd.Os.{Os, CertPaths}

pub record Flags : Type 0 where
  pub hub_addr : String
  pub hub_http : String
  pub api_port : String
  pub host_addr : String
  pub cert_file : String
  pub key_file : String
  pub ca_file : String
  pub cert_dir : String
  pub node_id : String
  pub enable_mining : Bool
  pub mining_image : String
  pub mining_data_dir : String
  pub private_key : String
  pub private_key_file : String
  pub siwe_domain : String
  pub gpu_type : String
  pub memory_gb : ℕ
  pub price_per_sec : String

-- The values of flags that are not given.
abbrev pub default_flags : String → Flags
default_flags cert_dir = record {
  hub_addr = "localhost:8443";
  hub_http = "";
  api_port = "8444";
  host_addr = "";
  cert_file = "";
  key_file = "";
  ca_file = "";
  cert_dir = cert_dir;
  node_id = "";
  enable_mining = true;
  mining_image = "mingeyom/worldland-mio:latest";
  mining_data_dir = "/data/worldland";
  private_key = "";
  private_key_file = "";
  siwe_domain = "";
  gpu_type = default_gpu;
  memory_gb = 24;
  price_per_sec = "2777777777778";
}

abbrev or_else : String → String → String
or_else default given = if given == "" then default else given

abbrev pub host_of : Flags → String
host_of flags = or_else "localhost" flags.host_addr

module _ {W : Type 0} (os : Os W) where
  -- The paths of the certificates, in the directory of certificates where they are not given.
  unfoldable pub cert_paths : Flags → CertPaths
  cert_paths flags = record {
    cert = or_else (os.join flags.cert_dir "node.crt") flags.cert_file;
    key = or_else (os.join flags.cert_dir "node.key") flags.key_file;
    ca = or_else (os.join flags.cert_dir "ca.crt") flags.ca_file;
  }

  abbrev trimmed : Result String × Machine W → Result String × Machine W
  trimmed (ok bytes, m) = (ok (trim_space bytes), m)
  trimmed (err e, m) = (err e, m)

  -- The hex key, from its flag or else from its file; "" where neither is given.
  unfoldable pub private_key_of : Flags → Act (Machine W) String
  private_key_of flags m =
      if flags.private_key == "" && not (flags.private_key_file == "")
      then wrapping "Failed to read private key file"
          (trimmed (perform (os.read_file flags.private_key_file) m))
      else (ok flags.private_key, m)

module _ {W : Type 0} (provider : GpuProvider W) where
  abbrev detected : Flags → Result (Unit {0}) × Machine W → Registration × Machine W
  detected flags (err e, m) = (detect flags.gpu_type flags.memory_gb (err e) (err e), m)
  detected flags (ok done, m) =
      let (specs, m') = provider.get_specs m in
      (detect flags.gpu_type flags.memory_gb (ok done) specs, (provider.shutdown m').1)

  -- Early GPU detection, before the registration
  unfoldable pub early_detection : Flags → Machine W → Registration × Machine W
  early_detection flags m = detected flags (provider.init m)
