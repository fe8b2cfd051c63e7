-- ===== src/Lib.antt =====
-- The provider node of Worldland: it rents out the GPUs of a machine as Docker containers that a
-- client reaches by SSH, and mines on the GPUs that nobody rents.
--
-- The parts and how they interact:
-- - Port (internal/port/manager.go): `PortManager`, the SSH ports and who has them. `Allocate` is
--   `allocate`, `Release` is `release`, `IsAvailable` is `is_available`, `AvailableCount` is
--   `available_count`. A method is a function on the record; its `time.Now()` is an argument.
-- - Container (internal/container/docker.go): `DockerService`, each method under its own name
--   (`CreateContainer` is `create_container`). Container/Client.antt has what the file calls: the
--   Docker client and the backoff package.
-- - Rental (internal/rental/executor.go): `RentalExecutor`, with `StartRental` as `start_rental`,
--   `waitForHealth` as `wait_for_health`, `StopRental` as `stop_rental`, `scheduleCleanup` as
--   `clean_up`, over the two interfaces of Rental/Interfaces.antt (`waitForHealth` stands in
--   Rental/Wait.antt). Rental/Wiring.antt fills the interfaces with the methods of Container and Port,
--   as cmd/node/main.go does.
-- - Mining (internal/mining/daemon.go and config.go): `MiningDaemon`, with `Start`, `Stop`,
--   `PauseForRental`, `ResumeAfterRental`, `Close` and the rounds of `MonitorLoop`.
-- - Node (internal/services/node_daemon.go): `NodeDaemon.handleCommand` and its two handlers, which
--   call the executor and the mining daemon. The messages are those of
--   internal/adapters/mtls/client.go. Node/Heartbeat.antt has `buildHeartbeat` as a JSON value,
--   Node/Hub.antt the daemon behind the client of the hub (`ConnectToHub`, `Start`, `reportMetrics`,
--   `Stop`), and Node/System.antt the running node: the goroutines of `main` and of the daemon, whose
--   rounds come in any order.
-- - Mtls (internal/adapters/mtls/client.go): `Client`, the connection to the hub: `Connect`, `Listen`
--   with `listenOnce` as rounds of a state machine, in which a read may wait, `Send` and `Close`.
-- - Auth (internal/auth/siwe.go): `SIWEClient`: the login with a wallet, the registration and the request
--   for a certificate, each method under its own name.
-- - Cmd (cmd/node/main.go): the check of the price, the detection of the GPU, the address of the hub and
--   the configuration of mining; Cmd/Os.antt has the files, ids and certificates, Cmd/Flags.antt the
--   flags, Cmd/Enroll.antt the login, the first certificates and the registration, Cmd/Startup.antt
--   `main` up to the connection to the hub, Cmd/Routes.antt the server and Cmd/Shutdown.antt the end.
-- - Gpu (internal/adapters/nvml, internal/domain): `GPUProvider` with its three implementations,
--   `NVMLProvider` over the calls of NVML, its stub and the mock.
-- - Api (internal/api/handler.go): the three HTTP handlers over the executor.
-- - Go: what the program uses of its language: errors, contexts, maps, the clock, strconv, and the
--   JSON values that it looks into. Base: shared names, Booleans and equality.
-- - Examples: a small concrete node, on which the theorems are tried.
--
-- State and time. A method that changes state is an action `Act S A`, from a state to a result and a
-- state: what was written before an error stays written. The clock, in nanoseconds, and the world
-- outside the program stand in a `Machine`; every call to the outside takes time and may change the
-- world. A call runs from its start to its end; goroutines are separate steps: the sleeping cleanups
-- of `StopRental` are the list `pending` of the executor, the restarts of `PauseForRental` are
-- counted in `restarts`, and the histories of Rental/History.antt, Mining/History.antt and
-- Port/History.antt take calls, wake-ups and the passing of time in any order, as the steps of
-- Node/System.antt do for the node as a whole. Calls that overlap are modelled for the executor:
-- Rental/Threads.antt cuts `StartRental`, `StopRental` and `scheduleCleanup` into the sections between
-- their accesses to the ports and the rentals (lines 89, 97, 124, 131, 137, 150, 218, 231, 246 and
-- 253), which follow one another in any order; Rental/Claims.antt says which call has a claim to
-- which port meanwhile, and Rental/Race.antt has two starts of one session that both passed the check
-- for a duplicate. The shutdown of `main` in Cmd/Shutdown.antt is four calls, between which the
-- goroutines of the node run on. Interleavings inside a call of mining or of the hub's client are not
-- modelled.
--
-- Parameters. The Docker client, the backoff package, float64, the network, HTTP, TLS, the
-- operating system with its files, keys and hashes, NVML and the JSON texts are no code of the
-- repository. Assumed of them: backoff.Retry calls its operation until it succeeds or gives up
-- (`retry-Attempts`). Of its two interfaces the executor assumes that the clock does not run
-- backwards while a container is inspected (`inspect_later`) and the two laws of `PortPool`, which
-- Rental/Wiring.antt proves of Container and Port. The theorem on saved certificates assumes of the
-- operating system that files hold what was last written to them, as long as nobody else writes
-- (`Filing`), and that the three paths differ (`Differ`); that on the end of the loops assumes of a
-- connection that its read fails once it is closed (`Unblocks`).
--
-- Bounds. Ports, durations and instants are natural numbers; an int64 is its bit pattern, and its
-- products are taken modulo 2 ^ 64. The scan of `allocate` has as many rounds as the range has
-- ports. The loop of `wait_for_health` has fuel timeout / interval + 2: each round but the last ends
-- with a pause of one interval, so that the deadline has passed before the fuel is used up. `itoa`
-- has one round for each unit of the number and one more, and a number has no more digits than that.
--
-- Not modelled: log lines; flag.Parse and the signals of cmd/node/main.go, and what net/http does
-- between a connection and a handler.
pub mod Base
pub mod Go
pub mod Port
pub mod Container
pub mod Rental
pub mod Mining
pub mod Node
pub mod Mtls
pub mod Auth
pub mod Gpu
pub mod Api
pub mod Cmd
pub mod Examples
