-- ===== src/Lib.antt =====
-- NatForge: self-hosted tunnels. A control plane (natforge-backend) hands out subdomains and public
-- ports and signs them into a tunnel token; an agent (natforge-agent) presents the token to a
-- data-plane node (natforge-node); the node registers the token's routes and carries public
-- connections to the agent as streams, each opened by a preamble (natforge-proto).
--
-- Proto       natforge-proto/src/lib.rs. Route: RouteMode. Claims: RouteClaim, TunnelClaims and
--             validate_shape. Stream: the reader and the writer under all codecs, which end in order
--             or with a fault. Preamble, Datagram and Frame: the three codecs, their loops over
--             datagrams included (udp_flow of natforge-node/src/tunnel/mod.rs).
-- Node        natforge-node. State: the registries of state.rs. Agent: handle_agent of tunnel/mod.rs
--             by the numbered parts of the source; Agent.Release: teardown. Flows:
--             udp_listener_loop, as a step relation between its turns and those of its tasks. Sni and
--             Http: the parsers of tunnel/shared.rs; Serve: serve_http, splice_to_route and
--             bridge_public_connection; Tls: serve_https; Driver: run_client_driver of
--             tunnel/mux.rs. Checked: indexing that may be out of range. Text: what the parsers use
--             of Rust's strings, on UTF-8 bytes.
-- Control     natforge-backend. Policy, Names and Expand: the checks on a request and the expansion of
--             stored rows into claims (src/handlers/tunnels.rs, src/db/queries.rs, src/jwt.rs).
--             Ports, Reserve and Tunnels: the port pool, the transactions that move ports, the
--             reservation, the sweeps and the statements on tunnels; Failover: the moves off silent
--             nodes; Register: a node's heartbeats (src/db/queries.rs). Site: the rest of what the
--             handlers read, and a handler's outcome. Handlers: the handlers that write a tunnel
--             (src/handlers/tunnels.rs), with the edit in Handlers.Edit and the request and a
--             device's configuration in Handlers.Request. Devices: device codes and rate limits
--             (src/db/connection.rs), enrollment and the polls (src/handlers/devices.rs,
--             src/handlers/auth.rs), which Devices.Polls runs at the same time.
-- Host        natforge-agent/src/service_host.rs: the tasks of a device, the hello, the streams.
-- Prelude     shared names, Boolean tests, list functions, byte strings, maps, results.
-- Examples    the theorems at concrete inputs.
--
-- How the parts meet: Control.Handlers.Request reserves and has Control.Expand make the claims that
-- Proto.Claims validates and Node.Agent registers, for the hello that Host builds from the same answer;
-- Control.Names accepts the labels that Node.Text routes by; Node writes the preamble and the datagrams
-- that Host reads back through Proto.
--
-- State is passed explicitly: CoreState for a node (its hash maps are association lists), Db for the
-- backend's tables, where a transaction that fails carries no state, within Site for its handlers, and
-- Enrollment for devices and codes. A handle's channel is a session number, so that two sessions
-- of one tunnel differ. Identifiers are plain numbers; `as u16` and the length prefixes keep their
-- wrap-around.
--
-- Fuel: the loop over SNI extensions has one step more than the bytes of the hello, and each turn
-- moves at least four bytes on; skipping white space has one step per byte; printing a number has one
-- step more than the number; the loop that receives datagrams takes its fuel as an argument.
--
-- Parameters: the JWT codec, the outcome of binding a port, the node's settings, what yamux and the
-- request channel answer, the country and the text of an address, the certificates and what a TLS
-- handshake gives, the local ports that take connections, the Unicode case mappings, the clock, and the
-- ids, names, codes and nonces that are drawn. Not modelled: TLS, the copying of bytes once a connection
-- is relayed, the loops that accept connections and spawn a task, ACME, DNS, GeoIP, the
-- reporter and its Redis (outside services and plain I/O), a failing database, an answer's JSON, users,
-- lists, logs and statistics (single statements), and the agent's login, back-off and settings file.
pub mod Prelude
pub mod Proto
pub mod Node
pub mod Control
pub mod Host
pub mod Examples
