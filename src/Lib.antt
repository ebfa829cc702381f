-- ===== src/Lib.antt =====
-- unet is a daemon that builds tunnels to one's own servers, with a remote API. This library models
-- the parts of the daemon in which its own logic is densest, and proves what makes them correct.
--
-- The program's parts and their files:
--
-- * Logstream models src/internal/logstream. Logstream/Ring is ring.go, a bounded buffer of log
--   records (`Write`, `Snapshot`, `Since`, `Len`); Logstream/Hub is hub.go, the subscribers with
--   bounded channels and the fan-out to them (`Subscribe`, `Notify`, `Run`, `fanout`, `Replay`,
--   `Stop`). The hub reads the ring by `Since`.
-- * Auth models src/internal/auth. Auth/Scope and Auth/Token are scope.go and token.go; Auth/Store is
--   store.go, the tokens in a JSON file that is replaced by rename; Auth/Cache is cache.go, validated
--   tokens by prefix, together with `RevokeToken` of src/internal/api/v1/mutations.go, which uses both;
--   Auth/Jwt is jwt.go, signed session tokens.
-- * Api models what a request passes before its handler: Api/Dispatch is middleware/auth.go and
--   middleware/scope.go of src/internal/api and the chain of remote/routes.go, Api/RateLimit is
--   middleware/ratelimit.go, Api/Tokens is `CreateToken` and `CreateSession` of
--   v1/mutations.go, and Api/Context the context and the error codes. The dispatcher calls
--   the cache and the issuer of Auth, and reads the token file by `List`.
-- * Ssh models src/internal/ssh/pool.go, the pool of sessions of one host.
-- * Invite models src/internal/invite: Invite/Store and Invite/Reopen are store.go, Invite/Attempts `checkRateLimit` and
--   Invite/Handler the handlers of the landing page and of the download, with hmac.go and the
--   decryption of crypto.go; Invite/Create is `HandleCreate`.
-- * Wizard models src/internal/wizard, the set-up of a server. Wizard itself and Wizard/Reducer are
--   wizard.go, the table of moves between steps and `Reducer`; Wizard/Files is state.go, the session in
--   a JSON file; Wizard/Handlers and Wizard/Requests are handlers.go, and Wizard/Commit bootstrap.go.
--   Wizard/Service puts them together as events on the disk.
-- * Lifecycle models src/internal/lifecycle/health: Lifecycle/Prober is prober.go and
--   Lifecycle/Reconnect reconnect.go.
-- * Tunnel models src/internal/tunnel. Tunnel/Address is `AllocateNextIP` of peer.go; Tunnel/Shell the
--   commands of peer.go and server_config.go with their quoting; Tunnel/Peers `AddPeer` and
--   `RemovePeer`; Tunnel/ServerConfig the parsing of server_config.go and Tunnel/Fetch its `FetchAll`;
--   Tunnel/Manager `Connect`, `Disconnect` and `CheckDrift` of manager.go, which use all of these.
-- * Proxy models src/internal/proxy: Proxy/Caddy is caddy.go, the routes of Caddy by its admin API
--   (`AddRoute`, `RemoveRoute`, `ListRoutes`), and Proxy/Dns is dns.go, the records of a Cloudflare zone
--   (`CreateRecord`, `DeleteRecord`).
-- * Daemon/Ports is src/internal/daemon/api_ports.go, which uses both, the configuration by `Update` and
--   the local proxies of Tunnel/LocalProxy, src/internal/tunnel/local_proxy.go. A request takes an
--   argument `meanwhile`, what other requests do between its calls outside and its update.
-- * Tray/State is src/internal/traylogic/state.go, the polls behind the icon in the tray.
-- * Config models src/internal/config: the data and `mask` in Config itself, and in Config/Manager
--   `NewManager`, `Update`, `saveLocked` and `GetMasked`. Routes/Expose is src/internal/routes/expose.go, whose
--   requests change the configuration by `Update`.
-- * Base holds what these share: Boolean tests, lists, byte strings, 64-bit words, integers and maps.
--   Samples, Config/Sample, Wizard/Sample, Proxy/Sample and Tunnel/Sample hold toy libraries for the examples; the examples are in the
--   modules named Tests.
--
-- How state and operations correspond: a struct is a record; a method that runs under its lock is
-- one function of the state and returns the new one, and an execution is a sequence of them. A
-- method that gives up its lock is several functions: `Validate` of the cache is `check`, `scan`
-- and `remember`. Maps are association lists, and a byte string is the list of its bytes. Times are
-- nanoseconds, and the clock, random ids, files that fail and the network are arguments. Counters
-- of Go's int64 and uint64 wrap around in Logstream,
-- and the delays of Lifecycle/Reconnect do. The float64 numbers of the rate limiter and of
-- the jitter are patterns with the operations of Base/Float, which rounds as IEEE 754 does. A
-- request to the wizard or for a route is one step from its reading of the state to its answer, and
-- the end of a commit one more, so requests that overlap are not covered.
--
-- Loops are recursion on the list they run over, or on the number of turns: 253 for the addresses
-- of a network, and for `itoa2` the number itself, which is enough. `turns` makes the number of
-- turns of `Run` that it is given.
--
-- What the code takes from libraries is a parameter with the laws it relies on: JSON and base64 read
-- back what they wrote, base64url has no dot, JSON no line break; bcrypt, SHA-256, HMAC and AES-GCM are
-- any functions, but that a digest in hexadecimal is not empty, that of SHA-256 at least 16 bytes; decimal and hexadecimal text read back.
-- An address that is printed is not empty.
--
-- The server of the tunnel is a parameter that runs commands, with laws for what they do to its
-- files. Caddy's admin API and Cloudflare's are parameters too, with the law that an answer without an error
-- means that the request was carried out.
--
-- Not modelled: the remaining packages of src/internal (most of daemon and lifecycle, dns,
-- logger, metrics, provisioner, state and others), the watchdog of the tunnel and its local file, mutual TLS with Caddy, the menu and the reconnection of
-- traylogic, the checks of the wizard's dnscheck and preflight, which are parameters, the garbage
-- collection of the file of invitations, the audit log, TLS and the HTTP servers. The handlers
-- behind the middleware are modelled only where they change the tokens.
pub mod Base
pub mod Logstream
pub mod Auth
pub mod Api
pub mod Ssh
pub mod Invite
pub mod Wizard
pub mod Lifecycle
pub mod Tunnel
pub mod Config
pub mod Routes
pub mod Tray
pub mod Proxy
pub mod Daemon
pub mod Samples
