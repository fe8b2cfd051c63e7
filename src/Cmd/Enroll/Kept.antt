-- ===== src/Cmd/Enroll/Kept.antt =====
-- The node id in the enrolment of cmd/node/main.go: one that is given is kept.
use worldland_sdk.Base.{
  ◌≡◌, ◌≢◌, refl, String, ◌==◌, String-eq, text_iff, Bool-cases, inl, inr, arith,
}
use worldland_sdk.Go.Errors.{Result, ok, err, Result-cases}
use worldland_sdk.Go.Outcome.{IfOk}
use worldland_sdk.Go.Machine.{Machine}
use worldland_sdk.Auth.{Libraries, SiweClient, login}
use worldland_sdk.Gpu.Providers.{GpuProvider}
use worldland_sdk.Cmd.{Registration}
use worldland_sdk.Cmd.Os.{Os, certs_exist}
use worldland_sdk.Cmd.Flags.{Flags, cert_paths, private_key_of}
use worldland_sdk.Cmd.Enroll.{
  Enrolled, obtain_certificates, device_uuid, registered_id, enroll_wallet, machine_after,
  with_client, without_wallet, enroll, at_machine,
}

abbrev pub KeepsId : {S : Type 0} → Flags → Enrolled → S → Type 0
KeepsId flags e s = flags.node_id ≢ "" → e.node_id ≡ flags.node_id

registered_id-kept : (id : String) (r : Result String) → id ≢ "" → registered_id id r ≡ id
registered_id-kept id (err e) h = refl
registered_id-kept id (ok new) h = ground (arith, text_iff id "")

module _ {W K : Type 0} (os : Os W) (libs : Libraries W K) (provider : GpuProvider W) where
  enroll_wallet-KeepsId :
      (flags : Flags) (reg : Registration) (c : SiweClient W K)
      → IfOk (KeepsId flags) (enroll_wallet os libs provider flags reg c)
  unfolding enroll_wallet
  enroll_wallet-KeepsId flags reg c =
      let (r1, c1) = login libs c in
      elim (Result-cases r1) [
        | inr (x, bad) ↦ rw bad tt
        | inl (done, e1) ↦
            let (r2, c2) = obtain_certificates os libs provider flags c1 in
            rw e1 (elim (Result-cases r2) [
              | inr (x, bad) ↦ rw bad tt
              | inl (paths, e2) ↦
                  let (r3, c3) =
                    at_machine os libs provider (device_uuid os libs provider reg) c2 in
                  rw e2 (elim (Result-cases r3) [
                    | inr (x, bad) ↦ rw bad tt
                    | inl (uuid, e3) ↦ rw e3 (λ given. registered_id-kept flags.node_id _ given)
                  ])
            ])
      ]

  machine_after-KeepsId :
      (flags : Flags) (x : Result Enrolled × SiweClient W K)
      → IfOk (KeepsId flags) x
      → IfOk (KeepsId flags) (machine_after os libs provider x)
  machine_after-KeepsId flags (ok e, c) h = h
  machine_after-KeepsId flags (err e, c) h = tt

  with_client-KeepsId :
      (flags : Flags) (reg : Registration) (x : Result (SiweClient W K)) (m : Machine W)
      → IfOk (KeepsId flags) (with_client os libs provider flags reg x m)
  with_client-KeepsId flags reg (err e) m = tt
  with_client-KeepsId flags reg (ok c) m =
      machine_after-KeepsId flags (enroll_wallet os libs provider flags reg c)
        (enroll_wallet-KeepsId flags reg c)

  without_wallet-KeepsId :
      (flags : Flags) (m : Machine W)
      → IfOk (KeepsId flags) (without_wallet os libs provider flags m)
  without_wallet-KeepsId flags m = elim (Bool-cases (certs_exist os (cert_paths os flags) m).0) [
    | inl e ↦ rw e (λ given. refl)
    | inr e ↦ rw e tt
  ]

  -- A node id that is given is the one that the enrolment ends with.
  pub enroll-KeepsId :
      (flags : Flags) (reg : Registration) (m : Machine W)
      → IfOk (KeepsId flags) (enroll os libs provider flags reg m)
  unfolding enroll
  enroll-KeepsId flags reg m =
      let (r, m') = private_key_of os flags m in
      elim (Result-cases r) [
        | inr (x, bad) ↦ rw bad tt
        | inl (key, e) ↦ rw e (elim (Bool-cases (key == "")) [
          | inl f ↦ rw f (without_wallet-KeepsId flags m')
          | inr f ↦ rw f (with_client-KeepsId flags reg _ m')
        ])
      ]
