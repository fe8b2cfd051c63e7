-- ===== src/Cmd/Os.antt =====
-- cmd/node/main.go: the functions over files, certificates and ids. The package os and filepath.Join
-- are parameters.
pub mod Certificates
use worldland_sdk.Base.{
  ℕ, String, Bool, true, false, Option, none, some, List, [], ◌∷◌, if◌then◌else◌, ◌==◌, String-eq,
}
use worldland_sdk.Go.Errors.{GoError, text, Result, ok, err, Act, ◌>>=◌, ◌>>◌, pure}
use worldland_sdk.Go.Machine.{Machine, Outside, perform}
use worldland_sdk.Go.Strings.{trim_space, first_bytes}
use worldland_sdk.Container.{◌<>◌}
use worldland_sdk.Auth.{CertificateBundle}
use worldland_sdk.Gpu.{GpuSpec}
use worldland_sdk.Gpu.Providers.{GpuProvider}

-- `missing` is os.IsNotExist of the error of os.Stat.
pub record Os (W : Type 0) : Type 0 where
  pub user_home_dir : Outside W String
  pub hostname : Outside W String
  pub missing : String → Machine W → Bool × Machine W
  pub read_file : String → Outside W String
  pub mkdir_all : String → ℕ → Outside W (Unit {0})
  pub write_file : String → String → ℕ → Outside W (Unit {0})
  pub join : String → String → String

-- What the bundle is saved as.
pub record CertPaths : Type 0 where
  pub cert : String
  pub key : String
  pub ca : String

module _ {W : Type 0} (os : Os W) where
  abbrev cert_dir_in : Result String → String
  cert_dir_in (err e) = ".worldland/certs"
  cert_dir_in (ok home) = os.join (os.join home ".worldland") "certs"

  unfoldable pub default_cert_dir : Machine W → String × Machine W
  default_cert_dir m = let (r, m') = perform os.user_home_dir m in (cert_dir_in r, m')

  -- The first file that is missing ends the loop.
  unfoldable pub all_exist : List String → Machine W → Bool × Machine W
  all_exist [] m = (true, m)
  all_exist (f ∷ files) m =
      let (gone, m') = os.missing f m in
      let rest = all_exist files m' in if gone then (false, m') else rest

  unfoldable pub certs_exist : CertPaths → Machine W → Bool × Machine W
  certs_exist p = all_exist (p.cert ∷ p.key ∷ p.ca ∷ [])

  abbrev host_id : Result String → String
  host_id (err e) = "CPU-unknown"
  host_id (ok hostname) = "CPU-" <> hostname

  abbrev by_hostname : Machine W → Result String × Machine W
  by_hostname m = let (r, m') = perform os.hostname m in (ok (host_id r), m')

  -- machineID[:16]
  abbrev shortened : Option String → Result String
  shortened none = err (text "panic: slice bounds out of range")
  shortened (some id) = ok ("MACHINE-" <> id)

  abbrev pub machine_id_of : Result String → Machine W → Result String × Machine W
  machine_id_of (err e) m = by_hostname m
  machine_id_of (ok bytes) m =
      if trim_space bytes == ""
      then by_hostname m
      else (shortened (first_bytes 16 (trim_space bytes)), m)

  -- A panic is an error here: both end the program.
  unfoldable pub get_machine_id : Act (Machine W) String
  get_machine_id m = let (r, m') = perform (os.read_file "/etc/machine-id") m in machine_id_of r m'

  unfoldable pub save_certificates : String → CertificateBundle → Act (Machine W) CertPaths
  save_certificates cert_dir bundle =
      let paths : CertPaths = record {
        cert = os.join cert_dir "node.crt";
        key = os.join cert_dir "node.key";
        ca = os.join cert_dir "ca.crt";
      } in
      (do
        perform (os.mkdir_all cert_dir 0o700)
        perform (os.write_file paths.cert bundle.certificate 0o644)
        perform (os.write_file paths.key bundle.private_key 0o600)
        perform (os.write_file paths.ca bundle.ca_certificate 0o644)
        pure paths)

abbrev first_uuid : Result (List GpuSpec) → String
first_uuid (ok (spec ∷ specs)) = spec.uuid
first_uuid _ = "GPU-UNKNOWN"

module _ {W : Type 0} (provider : GpuProvider W) where
  abbrev uuid_after : Result (Unit {0}) → Machine W → String × Machine W
  uuid_after (err e) m = ("GPU-UNKNOWN", m)
  uuid_after (ok done) m =
      let (r, m') = provider.get_specs m in (first_uuid r, (provider.shutdown m').1)

  unfoldable pub get_gpu_uuid : Machine W → String × Machine W
  get_gpu_uuid m = let (r, m') = provider.init m in uuid_after r m'
