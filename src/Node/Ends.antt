-- ===== src/Node/Ends.antt =====
-- `NodeDaemon.Stop` of internal/services/node_daemon.go: the loops that it ends.
use worldland_sdk.Base.{ℕ, suc, ◌≡◌, refl, ap, ◌∙◌, String, true, Option, none, some, arith}
use worldland_sdk.Go.Errors.{GoError, err}
use worldland_sdk.Go.Machine.{Reply, Outside, moved, perform}
use worldland_sdk.Go.Json.{Float64}
use worldland_sdk.Rental.Interfaces.{DockerService, PortPool}
use worldland_sdk.Node.{NodeDaemon}
use worldland_sdk.Node.Hub.{Linked, on_command, stop}
use worldland_sdk.Mtls.{
  Network, Conn, Phase, waiting, ended, rounds, close, close_conn, timed, is_stopped,
}
use worldland_sdk.Mtls.Rounds.{rounds-stopped, hang_up-stopped, Fails}

-- net.Conn.Close: "Any blocked Read or Write operations will be unblocked and return errors."
abbrev pub Unblocks : {W F : Type 0} → Network W F → Type 0
Unblocks {W} net =
    (conn : Conn) (w : W)
    → (e : GoError) × (reply : Reply String W) × (net.read conn (net.close conn w).world
        ≡ some reply)
      × (reply.result ≡ err e)

module _ {W P F : Type 0} (docker : DockerService W) (pool : PortPool P) (float : Float64 F)
    (dial : Outside W String) (net : Network W F) where
  -- A read that waits is one of the client's connection.
  abbrev pub OnOwnConn : Phase → Linked W P → Type 0
  OnOwnConn phase c = (conn : Conn) → phase ≡ waiting conn → c.conn ≡ some conn

  closed-stopped :
      (o : Option Conn) (c : Linked W P)
      → is_stopped c ≡ true
      → is_stopped (close_conn net (some (on_command docker pool float dial)) none o c) ≡ true
  closed-stopped none c h = h
  closed-stopped (some conn) c h =
      hang_up-stopped net (some (on_command docker pool float dial)) none conn c h

  closed-app :
      (o : Option Conn) (c : Linked W P)
      → (close_conn net (some (on_command docker pool float dial)) none o c).app ≡ c.app
  closed-app none c = refl
  closed-app (some conn) c = refl

  closed-Fails :
      (phase : Phase) (c c' : Linked W P)
      → Unblocks net
      → OnOwnConn phase c
      → Fails net
          (some (on_command docker pool float dial))
          none
          phase
          (close_conn net (some (on_command docker pool float dial)) none c.conn c')
  closed-Fails phase c c' unblocks own conn at =
      let (e, reply, said, bad) = unblocks conn c'.machine.world in
      let m = (perform (net.close conn) c'.machine).1 in
      rw (own conn at) (
        e,
        (moved m reply).1,
        omega arith,
        ap (timed m) said ∙ ap (λ r. some (r, (moved m reply).1)) bad,
      )

  -- Over a network on which a closed connection unblocks its read with an error, the loop of the
  -- heartbeats is told to end by `Stop`, and the connection has ended after two rounds, wherever it
  -- stood, also in a read of the client's connection in which nothing would ever arrive.
  pub stop-Ended :
      (phase : Phase) (c : Linked W P) (n : ℕ)
      → Unblocks net
      → OnOwnConn phase c
      → ((stop docker pool float dial net c).app.is_closed ≡ true)
        × ((rounds net
              (some (on_command docker pool float dial))
              none
              (suc (suc n))
              (phase, stop docker pool float dial net c)).0
            ≡ ended)
  unfolding stop close
  stop-Ended phase c n unblocks own =
      let told = record c {
        app = record c.app { is_closed = true };
        stop_at = some c.machine.clock;
      } in
      (
        ap (λ (d : NodeDaemon W P). d.is_closed) (closed-app c.conn told),
        rounds-stopped net (some (on_command docker pool float dial)) none phase _ n
            (closed-stopped c.conn told (ground arith)) (closed-Fails phase c told unblocks own),
      )
