-- ===== src/Cmd/Enroll.antt =====
-- cmd/node/main.go: the login with a wallet, the certificates of the first start and the registration
-- of the node.
pub mod Kept
use worldland_sdk.Base.{ℕ, String, Bool, Option, none, some, not, if◌then◌else◌, ◌==◌, String-eq}
use worldland_sdk.Go.Errors.{
  GoError, text, Result, ok, err, wrap, Act, ◌>>=◌, ◌>>◌, pure, wrapping, ignoring,
}
use worldland_sdk.Go.Machine.{Machine}
use worldland_sdk.Container.{◌<>◌}
use worldland_sdk.Auth.{
  Libraries, SiweClient, get_address, new_siwe_client_with_domain, login, issue_certificate,
  register_node,
}
use worldland_sdk.Gpu.Providers.{GpuProvider}
use worldland_sdk.Cmd.{Registration, hub_http_url}
use worldland_sdk.Cmd.Os.{
  Os, CertPaths, certs_exist, save_certificates, get_machine_id, get_gpu_uuid,
}
use worldland_sdk.Cmd.Flags.{Flags, cert_paths, private_key_of}

-- What the start goes on with.
pub record Enrolled : Type 0 where
  pub paths : CertPaths
  pub node_id : String
  pub wallet_address : String

-- A registration that fails is only logged.
abbrev pub registered_id : String → Result String → String
registered_id node_id (err e) = node_id
registered_id node_id (ok id) = if node_id == "" then id else node_id

module _ {W K : Type 0} (os : Os W) (libs : Libraries W K) (provider : GpuProvider W) where
  abbrev pub at_machine : {A : Type 0} → Act (Machine W) A → Act (SiweClient W K) A
  at_machine f c = let (r, m) = f c.machine in (r, record c { machine = m })

  abbrev pub bootstrap : Flags → Act (SiweClient W K) CertPaths
  bootstrap flags = do
    bundle ← λ c. wrapping "Failed to issue bootstrap certificate" (issue_certificate libs c)
    λ c.
        wrapping "Failed to save certificates"
          (at_machine (save_certificates os flags.cert_dir bundle) c)

  -- Certificates are asked for where one of the files is missing.
  unfoldable pub obtain_certificates : Flags → Act (SiweClient W K) CertPaths
  obtain_certificates flags c =
      let (exist, m) = certs_exist os (cert_paths os flags) c.machine in
      if exist
      then (ok (cert_paths os flags), record c { machine = m })
      else bootstrap flags (record c { machine = m })

  abbrev told : Machine W → String × Machine W → Result String × Machine W
  told m (uuid, m') = (ok uuid, m')

  abbrev pub device_uuid : Registration → Act (Machine W) String
  device_uuid reg m =
      if reg.is_cpu_node then get_machine_id os m else told m (get_gpu_uuid provider m)

  abbrev pub register : Flags → Registration → String → Act (SiweClient W K) String
  register flags reg uuid c =
      let (r, c') = register_node libs uuid reg.gpu_type reg.memory_gb flags.price_per_sec c in
      (ok (registered_id flags.node_id r), c')

  -- What is done with a client that has a wallet.
  unfoldable pub enroll_wallet : Flags → Registration → Act (SiweClient W K) Enrolled
  enroll_wallet flags reg = do
    (λ c. wrapping "SIWE authentication failed" (login libs c))
    paths ← obtain_certificates flags
    uuid ← at_machine (device_uuid reg)
    node_id ← register flags reg uuid
    λ c. (ok (record { paths = paths; node_id = node_id; wallet_address = get_address libs c }), c)

  abbrev pub machine_after : Result Enrolled × SiweClient W K → Result Enrolled × Machine W
  machine_after (r, c) = (r, c.machine)

  abbrev pub with_client : Flags → Registration → Result (SiweClient W K) → Act (Machine W) Enrolled
  with_client flags reg (err e) m = (err (wrap "Failed to create SIWE client" e), m)
  with_client flags reg (ok c) m = machine_after (enroll_wallet flags reg c)

  -- mock wallet mode: the certificates must already exist
  abbrev pub without_wallet : Flags → Act (Machine W) Enrolled
  without_wallet flags m =
      let (exist, m') = certs_exist os (cert_paths os flags) m in
      if exist
      then (
        ok (record { paths = cert_paths os flags; node_id = flags.node_id; wallet_address = "" }),
        m',
      )
      else (
        err (
            text (
              "Certificates not found at " <> flags.cert_dir
              <> ". Either provide -private-key for auto-bootstrap or manually place certificates.")),
        m',
      )

  abbrev pub enroll_with : Flags → Registration → String → Act (Machine W) Enrolled
  enroll_with flags reg key m =
      if key == ""
      then without_wallet flags m
      else with_client flags reg
          (new_siwe_client_with_domain libs m (hub_http_url flags.hub_http flags.hub_addr) key
            flags.siwe_domain)
          m

  unfoldable pub enroll : Flags → Registration → Act (Machine W) Enrolled
  enroll flags reg = do key ← private_key_of os flags; enroll_with flags reg key
