-- ===== src/Lib.antt =====
-- A model of mini-tor, a small onion router in Rust, and its correctness.
--
-- The program. A client builds circuits over an entry, middle and exit relays that it gets from a
-- discovery service, and sends the data of SOCKS5 streams over them in cells of 514 bytes. Every
-- relay shares a session key with the client (ntor handshake) and adds or strips one layer of
-- AES-CTR; the client and the exit keep a running digest over the cells of each direction.
--
-- The files, and the code that they model:
--   Protocol        services/common/src/protocol.rs. Cells has the constructors of `Message`, Codec
--                   `to_bytes` and `from_bytes`, Wire the functions on streams. Layout, RoundTrip and
--                   Decode prove what the codec does. The field `data` is `payload` here.
--   Crypto          services/common/src/crypto.rs: Keys, Cipher, Digest, Aes, Ntor (with
--                   services/relay-node/src/core/keypair.rs). Laws names what the crates provide.
--   Types           services/common/src/types.rs; Policy has the exit policies, Hex the texts of keys
--                   and node types.
--   Net             tokio, TLS, simple_socks5 and std's text parsers, as parameters.
--   Relay           services/relay-node/src/circuit: Context and Registry (handler.rs), Entry (entry.rs),
--                   Middle (middle.rs), Exit (exit.rs) with Handlers for its messages and Task for the
--                   stream task, Extend for the EXTEND payload that entry.rs and middle.rs read, Reader
--                   for `spawn_nexthop_reader`; Connection is `handle_connection`, Accept
--                   `accept_connections`, and Heartbeat the calls of the discovery service, of
--                   services/relay-node/src/main.rs. Config is core/config.rs, Events
--                   core/metrics.rs, Dashboard tui/mod.rs, Wizard wizard/mod.rs.
--   Client          services/tor-client/src/core: Engine (crypto_engine.rs), Circuit, Builder, Pool and
--                   Monitor (circuit.rs), Stream (stream.rs); Proxy is `handle_connection` of
--                   services/tor-client/src/client/socks_proxy.rs, Directory is client/mod.rs beside it;
--                   Config is core/config.rs, Wizard wizard/mod.rs.
--   Proto           services/proto/src/lib.rs, over the messages of services/proto/definitions.
--   Discovery       services/discovery/src/core/registry.rs: Nodes for the entries, Paths for the choice
--                   of a path, Stats for the statistics; Api is services/discovery/src/api/grpc.rs,
--                   Service the same with the counters, Dashboard api/rest.rs beside it, Events
--                   core/metrics.rs.
--   Tls             services/common/src/tls.rs and services/tor-client/src/core/transport.rs.
--   Metrics         services/common/src/metrics.rs: the ring buffer of events, and Format for numbers as texts.
--   Onion           theorems about the client, the relays and the exit together.
--   Tests modules   a concrete cipher, a concrete network, and the theorems at concrete inputs.
--
-- How it is modelled. Bytes and integers are natural numbers, and wrap-around is written out. State is
-- passed explicitly; a handler returns its state also beside an error, since what it changed before an
-- early return stays changed. Errors are values of a data type. Random draws, instants and what the
-- network answers are arguments. Loops over what arrives are functions of the list of arrivals, one
-- round at a time; loops that share state are steps on it, taken in any order. A round is not
-- interrupted: a reader's round takes the registry's lock and then the writer's, which is one step here.
-- The crates' ciphers, hashes and X25519 are the fields of `Crypto.Primitives`, and a theorem that needs
-- a law of theirs takes it as a hypothesis: a stream cipher undoes itself and moves on by the length of
-- the data, X25519 agrees, and SHA-256 takes its data in pieces and gives 32 bytes.
--
-- Fuel. `chunks` takes the length of its data as fuel, which is enough since a chunk has at least one
-- byte. The other loops are recursion on lists, on the number of hops or on the size of the pool.
--
-- Not modelled: log lines, the counters and events of the client, the dashboards of the client and of
-- the discovery service in the terminal, the layout of the relay's, the web page, how forms are drawn,
-- clap's reading of options, the start of the tasks in each main, the routers of the services, the
-- SOCKS5 handshake and the proxy's accepting loop.
pub mod Prelude
pub mod Protocol
pub mod Crypto
pub mod Types
pub mod Net
pub mod Relay
pub mod Client
pub mod Onion
pub mod Proto
pub mod Discovery
pub mod Metrics
pub mod Tls
