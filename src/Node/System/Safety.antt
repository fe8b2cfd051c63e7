-- ===== src/Node/System/Safety.antt =====
-- What every state of the running node has: the invariants of the executor and of the mining daemon.
use worldland_sdk.Base.{◌≡◌, refl, sym, subst, String, Option, none, some, List, IfAny}
use worldland_sdk.Go.Errors.{Result, ok, err}
use worldland_sdk.Go.Context.{background}
use worldland_sdk.Go.Machine.{Outside}
use worldland_sdk.Go.Json.{Float64}
use worldland_sdk.Gpu.{GpuMetrics}
use worldland_sdk.Rental.{RentalExecutor}
use worldland_sdk.Rental.Interfaces.{DockerService, PortPool}
use worldland_sdk.Rental.History.{IsConsistent, wake-IsConsistent}
use worldland_sdk.Mining.{MiningDaemon, restart, monitor}
use worldland_sdk.Mining.History.{Inv, Inv-machine, start-Inv, restart-Inv, monitor-Inv}
use worldland_sdk.Api.Keeps.{handle_start-IsConsistent, handle_stop-IsConsistent}
use worldland_sdk.Node.Heartbeat.{Encoding}
use worldland_sdk.Node.Hub.{Linked, hub_round, report_tick, on_command, collected}
use worldland_sdk.Node.Keeps.{Healthy, handle_command-Healthy, at_machine-Healthy}
use worldland_sdk.Node.System.{
  State, Step, Reach, listens, reports, cleans, serves_start, serves_stop, starts_mining, watches,
  restarts, passes, here, later, with_rentals, with_mines, ReadsFirstStop, cleanup_of, serve_start,
  serve_stop, start_mining,
}
use worldland_sdk.Mtls.{Network}
use worldland_sdk.Mtls.Keeps.{round-keeps, send-app}

module _ {W P F : Type 0} (docker : DockerService W) (pool : PortPool P) (float : Float64 F)
    (dial : Outside W String) where
  abbrev Sound : Linked W P → Type 0
  Sound c = Healthy docker pool float dial c.app

  rentals-Healthy :
      (f : RentalExecutor W P → RentalExecutor W P) (o : Option (RentalExecutor W P))
      (c : Linked W P)
      → IfAny
          (λ (re : RentalExecutor W P).
            IsConsistent docker pool (f (record re { machine = c.machine })))
          o
      → Sound c
      → Sound (with_rentals f o c)
  rentals-Healthy f none c h v = v
  rentals-Healthy f (some re) c h v = record { rentals = h; mines = v.mines }

  mines-Healthy :
      (f : MiningDaemon W → MiningDaemon W) (o : Option (MiningDaemon W)) (c : Linked W P)
      → ((m : MiningDaemon W) → Inv m → Inv (f m))
      → IfAny Inv o
      → Sound c
      → Sound (with_mines f o c)
  mines-Healthy f none c h mines v = v
  mines-Healthy f (some m) c h mines v = record {
    rentals = v.rentals;
    mines = h _ (Inv-machine c.machine m mines);
  }

  map_any :
      {A : Type 0} {P Q : A → Type 0} (o : Option A) → ((a : A) → P a → Q a) → IfAny P o → IfAny Q o
  map_any none h p = tt
  map_any (some a) h p = h a p

  map_both :
      {A : Type 0} {P P' Q : A → Type 0} (o : Option A)
      → ((a : A) → P a → P' a → Q a)
      → IfAny P o
      → IfAny P' o
      → IfAny Q o
  map_both none h p p' = tt
  map_both (some a) h p p' = h a p p'

  module _ (net : Network W F) (encoding : Encoding) where
    collected-app :
        (r : Result (List GpuMetrics)) (c : Linked W P)
        → (collected docker pool float dial net encoding r c).app ≡ c.app
    collected-app (err e) c = refl
    collected-app (ok metrics) c = send-app net _ _ c

    report-app : (c : Linked W P) → (report_tick docker pool float dial net encoding c).app ≡ c.app
    unfolding report_tick
    report-app c =
        let (r, m) = c.app.gpu_provider.get_metrics c.machine in
        collected-app r (record c { machine = m })

    listen-Healthy :
        (l : State docker pool float dial net encoding)
        → ReadsFirstStop docker pool float dial net encoding l
        → Sound l.1
        → Sound (hub_round docker pool float dial net l).1
    unfolding hub_round on_command
    listen-Healthy l first v =
        round-keeps net _ (Healthy docker pool float dial) l
          (λ conn bytes m cmd at said read.
            handle_command-Healthy docker pool float dial cmd (record l.1.app { machine = m })
              (first conn bytes m cmd at said read)
              (at_machine-Healthy docker pool float dial m l.1.app v))
          v

    Step-Healthy :
        {l l' : State docker pool float dial net encoding}
        → Step docker pool float dial net encoding l l'
        → Sound l.1
        → Sound l'.1
    Step-Healthy {l} (listens first) v = listen-Healthy l first v
    Step-Healthy {l} reports v = subst (Healthy docker pool float dial) (sym (report-app l.1)) v
    Step-Healthy {l} (cleans i) v =
        rentals-Healthy (cleanup_of docker pool i) l.1.app.rental_executor l.1
          (map_any l.1.app.rental_executor
            (λ re h. wake-IsConsistent docker pool i (record re { machine = l.1.machine }) h)
            v.rentals)
          v
    Step-Healthy {l} (serves_start r) v =
        rentals-Healthy (serve_start docker pool l.1.app.host_addr r) l.1.app.rental_executor l.1
          (map_any l.1.app.rental_executor
            (λ re h.
              handle_start-IsConsistent docker pool l.1.app.host_addr r
                (record re { machine = l.1.machine }) h)
            v.rentals)
          v
    Step-Healthy {l} (serves_stop r first) v =
        rentals-Healthy (serve_stop docker pool r) l.1.app.rental_executor l.1
          (map_both l.1.app.rental_executor
            (λ re f h.
              handle_stop-IsConsistent docker pool r (record re { machine = l.1.machine }) f h)
            first v.rentals)
          v
    Step-Healthy {l} starts_mining v =
        mines-Healthy (start_mining docker pool) l.1.app.mining_daemon l.1
          (λ m h. start-Inv docker background m h) v.mines v
    Step-Healthy {l} watches v =
        mines-Healthy (monitor docker background) l.1.app.mining_daemon l.1
          (λ m h. monitor-Inv docker background m h) v.mines v
    Step-Healthy {l} restarts v =
        mines-Healthy (restart docker) l.1.app.mining_daemon l.1 (λ m h. restart-Inv docker m h)
          v.mines v
    Step-Healthy {l} (passes d world) v = v

    -- In every state that the node reaches, by commands, heartbeats, HTTP requests, cleanups, ticks of
    -- mining and the passing of time in any order, the rentals are consistent and the fields of the
    -- mining daemon agree with its state, if both held at the start and no session was stopped again
    -- while its cleanup was under way.
    pub Reach-Healthy :
        {l l' : State docker pool float dial net encoding}
        → Reach docker pool float dial net encoding l l'
        → Healthy docker pool float dial l.1.app
        → Healthy docker pool float dial l'.1.app
    Reach-Healthy here v = v
    Reach-Healthy (later r s) v = Step-Healthy s (Reach-Healthy r v)
