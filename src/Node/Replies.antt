-- ===== src/Node/Replies.antt =====
-- A command of the hub from its bytes to the bytes of its answer: internal/adapters/mtls/client.go
-- with `NodeDaemon` of internal/services/node_daemon.go behind it.
use worldland_sdk.Base.{◌≡◌, refl, String, some}
use worldland_sdk.Go.Errors.{ok, ignoring}
use worldland_sdk.Go.Machine.{Machine, Outside, perform}
use worldland_sdk.Go.Json.{Float64}
use worldland_sdk.Rental.Interfaces.{DockerService, PortPool}
use worldland_sdk.Node.{NodeDaemon, Command, CommandAck, handle_command}
use worldland_sdk.Node.Acks.{Answers, handle_command-Answers}
use worldland_sdk.Node.Hub.{Linked, hub_round, on_command}
use worldland_sdk.Mtls.{Network, Conn, Phase, reading, waiting, read_at, round}

module _ {W P F : Type 0} (docker : DockerService W) (pool : PortPool P) (float : Float64 F)
    (dial : Outside W String) (net : Network W F) where
  -- The round has carried the command out at `m` and written the acknowledgement.
  pub record Replied (conn : Conn) (cmd : Command F) (m : Machine W) (c : Linked W P)
      (l : Phase × Linked W P) : Type 0 where
    pub ack : CommandAck F
    pub after : NodeDaemon W P
    pub carried_out :
        handle_command docker pool float dial cmd (record c.app { machine = m }) ≡ (ack, after)
    pub answers : Answers cmd ack
    pub reads_on : l.0 ≡ reading conn
    pub daemon : l.1.app ≡ after
    pub written : l.1.machine ≡ ignoring (perform (net.write conn (net.marshal ack)) after.machine)

  -- A client that waits in a read and gets the bytes of a command has the daemon carry the command
  -- out, writes the acknowledgement on the same connection before it reads on, and the acknowledgement
  -- answers the command.
  pub hub_round-Replied :
      (conn : Conn) (c : Linked W P) (bytes : String) (m : Machine W) (cmd : Command F)
      → read_at net conn c.machine ≡ some (ok bytes, m)
      → net.unmarshal bytes ≡ some cmd
      → Replied conn cmd m c (hub_round docker pool float dial net (waiting conn, c))
  unfolding hub_round on_command round
  hub_round-Replied conn c bytes m cmd said read =
      let d = record c.app { machine = m } in
      rw (said, read)
        (record {
          ack = (handle_command docker pool float dial cmd d).0;
          after = (handle_command docker pool float dial cmd d).1;
          carried_out = refl;
          answers = handle_command-Answers docker pool float dial cmd d;
          reads_on = refl;
          daemon = refl;
          written = refl;
        })
