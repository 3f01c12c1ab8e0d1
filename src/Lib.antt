-- ===== src/Lib.antt =====
-- A model of the manager of vpn-pack (Go, under manager/), which runs Tailscale and site-to-site
-- WireGuard tunnels on a gateway, and theorems about it.
--
-- Parts and files
-- - Common: names of the libraries, lists, equality, maps, integers, and `Common/Errors`, the
--   actions that change a state and may fail. A call is a function from a state to an answer and
--   a state; an error is a value, and what was done before it stays done.
-- - Ops: manager/ops/op.go. `Op`, `run` (`Run`), `rollback`; the context is what its successive
--   `Err()` calls answer. `Ops/Saga`, `Ops/Background`, `Ops/First`,
--   `Ops/Keeping`: what a run does.
-- - Atomic: manager/state/atomic.go. `write_file` (`WriteFile`, `WriteFileWith`).
-- - Net: the values of Go's net package that the code computes with.
-- - Domain: manager/domain/types.go.
-- - State/LogBuffer: manager/state/logbuffer.go.
-- - State/Manifest: manager/state/manifest.go. `Edit` has the setters, `Read` the getters, `Load`
--   the loading and the migrations; `Edits`, `Zones`, `Migration`, `Recovery`, `RoundTrip` proofs.
-- - Health: manager/health.go.
-- - Service/ExitNode: manager/service/exitnode.go. `Rules` has the wanted and the current rules,
--   `Commands` the commands and the cleanup, `Apply` the saga and the reconciliation.
-- - Service/Errors: manager/service/errors.go. Service/RemoteExit: manager/service/remote_exit.go,
--   with `Status`, `Enable`, `Disable` and the proofs in `Keeping`, `Confirm`, `Rollback`, `Sync`.
-- - Service/SubnetValidator: manager/service/subnet_validator.go. `Collect` has the collecting of
--   the host's networks; `Overlap`, `Blocked` proofs.
-- - Firewall: manager/firewall.go. `Text` reads the outputs of iptables-save and ipset, `Order`
--   repairs the order of a chain, `Probes` asks for rules, `Tunnels` sets up the rules of a tunnel,
--   `Ports` opens ports and forwards names; `Chains`, `Placed`, `Shadow`, `Tokens`, `Idempotent` are
--   proofs.
-- - Wgs2s: manager/internal/wgs2s. `RouteRefs` is route_refs.go; `Config` the types of
--   manager/domain/wgs2s_types.go and constants; `Names` nextInterfaceName; `Keys` keygen.go;
--   `Device` wireguard.go and netlink.go; `Routes` routes.go with claimRoutes and releaseRoutes;
--   `Tunnel` bringUp, tearDown, recreateTunnel and hotUpdate; `Manager` with `Create`, `Toggle`,
--   `Update` and `Restore` the methods of TunnelManager; `Requests` any sequence of them.
-- - Tests: the theorems at concrete inputs.
--
-- How they interact. A method of the tunnel manager is an action on `State`: the tunnels of the
-- configuration, the route counter and the world. It calls the route counter, the atomic
-- replacement of files, and the saga runner, as the code does. The mutexes of the source make
-- each method one action, so that concurrent requests are sequences of actions.
--
-- Parameters. What the code calls and the repository does not hold, or is not modelled, is a field
-- of a record: `Env` (rtnetlink, wgctrl, net, os, JSON, time, chance), `Fs` (os and filepath),
-- `ExitEnv` (commands, netip, strings), `NetText` (the parsing of prefixes), `ManifestEnv` (os,
-- JSON, time), `RemoteEnv` (Tailscale), `FirewallEnv` (commands, the gateway's clients, strings),
-- `Host` (net, rtnetlink).
-- What is assumed of them is said by `IsLawful` in `Atomic/Replace` (which calls change the content
-- of which file), `KeepsUnwritten` in `State/Manifest/Recovery` and `ReadsBack` in
-- `State/Manifest/RoundTrip` (what JSON leaves alone and reads back), and `IsKernel` in
-- `Firewall/Shadow` (what iptables does to a chain, where `-D` removes a rule that is just the
-- jump); `Service/SubnetValidator/Blocked` takes that parsing masks an address.
--
-- Bounds and fuel. Numbers are natural, Go's int is `ℤ` without an upper bound, and a conversion
-- to 32 bits is written out. `next_interface_name` runs for one round more than there are
-- tunnels, and `decimal_from` for one round more than the number. Every other loop runs over a
-- list. Error texts are format strings up to their first argument; log lines are left out.
--
-- Not modelled: the gateway's firewall calls (manager/service/firewall.go, manager/udapi), the
-- background retries of firewall.go, the watchers, the other services, the HTTP server and its
-- middleware, the clients of the gateway's and Tailscale's APIs, start and clean-up of the process,
-- reading of the configuration at start, the statuses of tunnels, the web interface, the patches
-- and the scripts.
pub mod Common
pub mod Domain
pub mod Ops
pub mod Net
pub mod Atomic
pub mod Wgs2s
pub mod State
pub mod Health
pub mod Service
pub mod Firewall
pub mod Tests
