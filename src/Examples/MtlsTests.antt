-- ===== src/Examples/MtlsTests.antt =====
-- internal/adapters/mtls/client.go with a hub that cannot be dialled and a connection that always
-- yields the same text.
use worldland_sdk.Base.{ℕ, ◌≡◌, refl, some, none, [], arith}
use worldland_sdk.Go.Errors.{GoError, text, err}
use worldland_sdk.Go.Machine.{Outside}
use worldland_sdk.Node.{Command}
use worldland_sdk.Mtls.{Conn, Network, Client, waiting, ended, rounds}
use worldland_sdk.Mtls.Rounds.{rounds-stopped}
use worldland_sdk.Examples.World.{machine, says}

abbrev refused : Outside ℕ Conn
refused w = record { result = err (text "connection refused"); took = 1; world = w }

abbrev pub ping : Command ℕ
ping = record { id = "c1"; kind = "ping"; payload = [] }

abbrev net : Network ℕ ℕ
net = record {
  dial = refused;
  handshake = λ conn. says tt;
  read = λ conn w. some (says "ping" w);
  write = λ conn bytes. says tt;
  close = λ conn. says tt;
  unmarshal = λ bytes. some ping;
  marshal = λ ack. ack.command_id;
}

abbrev closed_error : GoError
closed_error = text "use of closed network connection"

-- The reads of a closed connection.
abbrev closed_net : Network ℕ ℕ
closed_net = record net {
  read = λ conn w. some (record { result = err closed_error; took = 0; world = w });
}

abbrev client : Client ℕ (Unit {0})
client = record { machine = machine; conn = none; stop_at = none; app = tt }

abbrev conn : Conn
conn = record { handle = 7 }

abbrev stopped_client : Client ℕ (Unit {0})
stopped_client = record client { conn = some conn; stop_at = some 1000 }

rounds-stopped_example :
    (rounds {S = Unit {0}} closed_net none none 3 (waiting conn, stopped_client)).0 ≡ ended
rounds-stopped_example =
    rounds-stopped closed_net none none (waiting conn) stopped_client 1 refl
      (λ c at. (closed_error, record { clock = 1000; world = 0 }, omega arith, refl))
