-- ===== src/Lib.antt =====
-- A verification library for the Varmlen CLI for Linux: the privileged daemon `varmlend`, its
-- network helper, and the command line client.
--
-- The program's parts. A client (cli/src, over core/src) sends requests on a unix socket to the
-- daemon (daemon/src), which serves one desktop user. The daemon's controller drives a lifecycle
-- manager, which brings Xray, the routes, the DNS guard, the per-application split and the hold
-- block (the kill switch) up and down; at start the recovery manager clears what an earlier run
-- left in the kernel.
--
--   Common       the shared names, Boolean tests, lists, text, results and `&mut self` methods.
--   Protocol     daemon/src/protocol.rs: the messages and their bounds (Protocol/Validate), and one
--                message as a frame (Protocol/Frames), with `serde_json` and `Url::parse` as
--                parameters.
--   Server       daemon/src/server.rs: authorization, framing and the loop over one connection, over
--                an interface `Link` in which each step may time out.
--   Lifecycle    daemon/src/lifecycle.rs: `LifecycleManager` over the interface `Backend`. `connect`
--                is cut into its stages (`begin`, `hold`, `stop_old`, `bring_up`, `abandon`,
--                `release`, `commit`), which it calls in the source's order.
--   Recovery     daemon/src/recovery.rs: `RecoveryManager` over `CleanupBackend`; Recovery/System is
--                the system's own backend (`inspect`, and in Recovery/System/Removal `remove`), over
--                an interface `Kernel` of files, commands and signals on a state of its own.
--   Split        daemon/src/split/mod.rs: `SplitManager` over `SplitBackend`; Split/Process is
--                split/process.rs and the decision of split/watcher.rs, with the comparison of
--                paths by their components; Split/Routing is the
--                default route and the commands of split/routing.rs.
--   Dns          daemon/src/dns.rs: the guard over the system's DNS, over an interface `DnsBackend`,
--                and the query of its probe; Dns/Direct is daemon/src/direct_dns.rs, the resolver for
--                the applications outside the tunnel.
--   Document     daemon/src/system.rs, the checks on the Xray configurations that a client sends: the
--                one of a connection, and in Document/Ping the one of a measurement, with
--                `serde_json` as a parameter.
--   Log          daemon/src/log_store.rs: Xray's log and its older files, over an interface `Disk`
--                whose calls may fail.
--   State        daemon/src/state.rs: the state file, over an interface `StateDisk`.
--   Controller   daemon/src/controller.rs: the handler of commands over the lifecycle manager, the
--                state file and the log.
--   Helper       helper/src/main.rs: the routes that the network helper lays and takes away
--                (Helper/Up), over an interface `Host` of `ip` and the files.
--   Config       cli/src/config.rs: the store of locations and subscriptions; Config/Active is the
--                chosen location, Config/Update what changes the locations and the migration of old
--                files, Config/Find what a number or a name means. The Unicode tables (`Unicode`)
--                and the host of a URL (`host_of`) are parameters.
--
-- Bounds. A number of N bits is parsed against 2 ^ N. The one loop with a limit is the wait of
-- `terminate_process`, whose 20 rounds are those of the source; `decimal` gives at most 20 digits,
-- which a number of 64 bits does not exceed.
--
-- A method that mutates `self` is a function from the object to its result and the object after
-- it (Common/Action). Text is a list of Unicode code points, measured in UTF-8 bytes.
--
-- Not modelled: the rule sets of nft (daemon/src/nft.rs), the loops of the resolver and its side
-- over TCP, the threads of the process watcher and the system calls of the split, the system backend of the daemon, the
-- Xray configuration and the parsing of subscriptions (core/src), the rule sets, the watcher and
-- the pings of the network helper, and the commands of the client. Sockets, files and processes
-- themselves, the log output, the messages of errors where they only quote the operating system,
-- and the rendering of terminal output are input and output.
pub mod Common
pub mod Protocol
pub mod Helper
pub mod Lifecycle
pub mod Log
pub mod Recovery
pub mod Server
pub mod State
pub mod Split
pub mod Config
pub mod Controller
pub mod Dns
pub mod Document
