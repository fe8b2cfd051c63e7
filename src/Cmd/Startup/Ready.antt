-- ===== src/Cmd/Startup/Ready.antt =====
-- What `main` of cmd/node/main.go has made once it is connected to the hub.
use worldland_sdk.Base.{
  ◌≡◌, ◌≢◌, refl, sym, ap, subst, ◌∙◌, String, true, not, ◌&&◌, Option, none, some, is_some, ◌==◌,
  String-eq, text_iff, Bool-cases, inl, inr, arith, if◌then◌else◌,
}
use worldland_sdk.Go.Errors.{Result, ok, err, Result-cases}
use worldland_sdk.Go.Outcome.{IfOk, IfOk-weaken}
use worldland_sdk.Go.Machine.{Machine, perform}
use worldland_sdk.Container.{new_docker_service}
use worldland_sdk.Container.Client.{DockerClient}
use worldland_sdk.Port.{PortManager}
use worldland_sdk.Rental.Wiring.{port_pool, docker_service}
use worldland_sdk.Mining.{MiningDaemon}
use worldland_sdk.Gpu.Providers.{GpuProvider}
use worldland_sdk.Node.{NodeDaemon, new_node_daemon, with_rental_executor, with_mining_daemon}
use worldland_sdk.Node.Hub.{Linked, connect_to_hub, on_command}
use worldland_sdk.Mtls.{new_client}
use worldland_sdk.Mtls.Keeps.{Connected, connect-Connected}
use worldland_sdk.Cmd.{Registration, check_price}
use worldland_sdk.Cmd.Flags.{Flags, early_detection}
use worldland_sdk.Cmd.Enroll.{Enrolled, enroll}
use worldland_sdk.Cmd.Enroll.Kept.{enroll-KeepsId}
use worldland_sdk.Cmd.Startup.{
  Platform, Identity, Running, identify, named, node_id_of, choose_provider, cpu_provider,
  prepare_mining, wired, pooled, linked, launch, start_up,
}
use worldland_sdk.Cmd.Startup.Flagged.{
  AsFlagged, prepare_mining-flags, wired-AsFlagged, choose_provider-chosen,
}

module _ {W K C R F : Type 0} (on : Platform W K C R F) where
  -- What the node registers as.
  abbrev pub registration : Flags → Machine W → Registration
  registration flags m = (early_detection on.nvml flags m).0

  -- A running node that was started with the flags, on a machine that was `m` then.
  pub record Ready (flags : Flags) (m : Machine W) (r : Running W C R) : Type 0 where
    pub priced : check_price flags.price_per_sec ≡ ok tt
    pub node_named : r.identity.node_id ≢ ""
    pub kept_id : flags.node_id ≢ "" → r.identity.node_id ≡ flags.node_id
    pub provider : GpuProvider W
    pub wallet : String
    pub at : Machine W
    pub wiring :
        let (mining, at') = prepare_mining on flags (registration flags m) wallet at in
        r.link.app ≡ wired on flags r.identity.node_id provider mining at'
    pub as_flagged : AsFlagged on flags (registration flags m) r.identity.node_id r.link.app
    pub mines :
        is_some r.link.app.mining_daemon
        ≡ (flags.enable_mining && not (registration flags m).is_cpu_node)
    pub connected : is_some r.link.conn ≡ true
    pub still_open : r.link.stop_at ≡ none

  linked-IfOk :
      (Q : Running W C R → Type 0) (i : Identity C R) (docker : DockerClient W)
      (x : Result (Unit {0}) × Linked W PortManager)
      → IfOk (λ done c. Q (record { link = c; identity = i; docker = docker })) x
      → IfOk (λ r m. Q r) (linked on i docker x)
  linked-IfOk Q i docker (ok done, c) h = h
  linked-IfOk Q i docker (err e, c) h = tt

  checked-named :
      (id : String) (m : Machine W) (x : Result String)
      → IfOk (λ id m. id ≢ "") (x, m)
      → IfOk (λ id m. id ≢ "") (if id == "" then x else ok id, m)
  checked-named id m x h = elim (Bool-cases (id == "")) [
    | inl e ↦ rw e h
    | inr e ↦ rw e (λ empty. ground (arith, text_iff id ""))
  ]

  -- A name, which is the given one where one is given.
  abbrev Names : String → String → Type 0
  Names given id = (id ≢ "") × (given ≢ "" → id ≡ given)

  node_id_of-Names :
      (given : String) (certificate : C) (m : Machine W)
      → IfOk (λ id m'. Names given id) (node_id_of on given certificate, m)
  node_id_of-Names given certificate m = elim (Bool-cases (given == "")) [
    | inl e ↦ rw e (
        IfOk-weaken (λ id m'. id ≢ "") _ (named on (on.tls.common_name certificate), m)
          (λ id m' h. (h, λ g. absurd (g ((text_iff given "").0 e))))
          (go (on.tls.common_name certificate)))
    | inr e ↦ rw e ((λ empty. ground (arith, text_iff given "")), λ g. refl)
  ]
    where
      go : (r : Result String) → IfOk (λ id m'. id ≢ "") (named on r, m)
      go (err e) = tt
      go (ok cn) = checked-named cn m _ tt

  identify-Names :
      (e : Enrolled) (m : Machine W) → IfOk (λ i m'. Names e.node_id i.node_id) (identify on e m)
  unfolding identify
  identify-Names e m =
      elim (Result-cases (perform (on.tls.load_key_pair e.paths.cert e.paths.key) m).0) [
        | inr (x, bad) ↦ rw bad tt
        | inl (certificate, e1) ↦
            let n = (perform (on.tls.load_key_pair e.paths.cert e.paths.key) m).1 in
            rw e1 (elim (Result-cases (perform (on.os.read_file e.paths.ca) n).0) [
              | inr (x, bad) ↦ rw bad tt
              | inl (bytes, e2) ↦
                  rw e2 (elim (Result-cases (pooled on (on.tls.append_certs bytes))) [
                    | inr (x, bad) ↦ rw bad tt
                    | inl (roots, e3) ↦
                        rw e3 (elim (Result-cases (node_id_of on e.node_id certificate)) [
                          | inr (x, bad) ↦ rw bad tt
                          | inl (id, e4) ↦
                              rw e4 (rw e4 at (node_id_of-Names e.node_id certificate n))
                        ])
                  ])
            ])
      ]

  prepare_mining-some :
      (flags : Flags) (reg : Registration) (wallet_address : String) (m : Machine W)
      → is_some (prepare_mining on flags reg wallet_address m).0
        ≡ (flags.enable_mining && not reg.is_cpu_node)
  unfolding prepare_mining
  prepare_mining-some flags reg wallet_address m = ground arith

  wired-mining :
      (flags : Flags) (node_id : String) (provider : GpuProvider W)
      (mining : Option (MiningDaemon W)) (m : Machine W)
      → is_some (wired on flags node_id provider mining m).mining_daemon ≡ is_some mining
  unfolding wired new_node_daemon with_rental_executor with_mining_daemon
  wired-mining flags node_id provider none m = refl
  wired-mining flags node_id provider (some mining) m = refl

  launch-Ready :
      (flags : Flags) (m0 : Machine W) (e : Enrolled) (i : Identity C R) (provider : GpuProvider W)
      (cli : DockerClient W) (m : Machine W)
      → check_price flags.price_per_sec ≡ ok tt
      → Names flags.node_id i.node_id
      → provider
        ≡ (if (early_detection on.nvml flags m0).0.is_cpu_node then cpu_provider else on.nvml)
      → IfOk
          (λ r m'. Ready flags m0 r)
          (launch on flags (early_detection on.nvml flags m0).0 e i provider cli m)
  unfolding connect_to_hub new_client
  launch-Ready flags m0 e i provider cli m price name chosen =
      let reg = (early_detection on.nvml flags m0).0 in
      let (mining, m') = prepare_mining on flags reg e.wallet_address m in
      let d = wired on flags i.node_id provider mining m' in
      let docker = docker_service cli on.backoff in
      linked-IfOk (Ready flags m0) i cli _ (
        IfOk-weaken _ _ _
          (λ done c (h : Connected _ _ (new_client d.machine d) done c). record {
            priced = price;
            node_named = name.0;
            kept_id = name.1;
            provider = provider;
            wallet = e.wallet_address;
            at = m;
            wiring = h.same_app;
            as_flagged = subst (AsFlagged on flags reg i.node_id) (sym h.same_app) (
                wired-AsFlagged on flags reg i.node_id provider mining m' chosen
                  (prepare_mining-flags on flags reg e.wallet_address m));
            mines =
                ap (λ (d' : NodeDaemon W PortManager). is_some d'.mining_daemon) h.same_app
                ∙ wired-mining flags i.node_id provider mining m'
                ∙ prepare_mining-some flags reg e.wallet_address m;
            connected = h.connected;
            still_open = h.same_stop;
          })
          (connect-Connected (on.network flags.hub_addr i.certificate i.roots)
            (on_command docker port_pool on.float on.dial) (new_client d.machine d)))

  Names-kept :
      (flags : Flags) (e : Enrolled) (id : String)
      → (flags.node_id ≢ "" → e.node_id ≡ flags.node_id)
      → Names e.node_id id
      → Names flags.node_id id
  Names-kept flags e id kept n = (n.0, λ g. n.1 (λ empty. g (sym (kept g) ∙ empty)) ∙ kept g)

  -- A node that starts has a price that was accepted, a name, which is that of the flags where they
  -- give one, a new executor with the ports from 30000 to 32000 and grace periods of half an hour, the
  -- host of its flags or localhost, the provider of the build or, without a GPU, that of a CPU node,
  -- an open connection to the hub, and mining exactly where the flags enable it and a GPU was found,
  -- with the image and the directory of the flags and no container yet.
  pub start_up-Ready :
      (flags : Flags) (m : Machine W) → IfOk (λ r m'. Ready flags m r) (start_up on flags m)
  unfolding start_up
  start_up-Ready flags m =
      let (reg, m1) = early_detection on.nvml flags m in
      elim (Result-cases (check_price flags.price_per_sec)) [
        | inr (x, bad) ↦ rw bad tt
        | inl (t, price) ↦
            let (r1, m2) = enroll on.os on.libs on.nvml flags reg m1 in
            rw price (elim (Result-cases r1) [
              | inr (x, bad) ↦ rw bad tt
              | inl (e, e1) ↦
                  let (r2, m3) = identify on e m2 in
                  rw e1 (elim (Result-cases r2) [
                    | inr (x, bad) ↦ rw bad tt
                    | inl (i, e2) ↦
                        let (r3, m4) = choose_provider on reg m3 in
                        rw e2 (elim (Result-cases r3) [
                          | inr (x, bad) ↦ rw bad tt
                          | inl (provider, e3) ↦
                              let (r4, m5) = new_docker_service on.docker m4 in
                              rw e3 (elim (Result-cases r4) [
                                | inr (x, bad) ↦ rw bad tt
                                | inl (docker, e4) ↦ rw e4 (
                                    launch-Ready flags m e i provider docker m5 price
                                      (Names-kept flags e i.node_id
                                        (rw e1 at
                                          (enroll-KeepsId on.os on.libs on.nvml flags reg m1))
                                        (rw e2 at (identify-Names e m2)))
                                      (rw e3 at (choose_provider-chosen on reg m3)))
                              ])
                        ])
                  ])
            ])
      ]
