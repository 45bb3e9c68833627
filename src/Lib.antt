-- ===== src/Lib.antt =====
-- IRN is a node of a relay network. Its nodes gossip messages on topics over libp2p; the protocol,
-- Episub, keeps for each topic a membership (HyParView) and a broadcast tree (PlumTree). Clients send
-- JSON-RPC requests over websockets; the main loop hands them to the network and to a bus of
-- subscribers. This library models the protocol, in src/network/episub, and the node around it.
--
-- Parts, and the files that model them:
-- Rpc: the messages of rpc.proto, with the events and actions that the behaviour hands to libp2p.
-- Config: config.rs. A logarithm is exact; durations are milliseconds.
-- View: view.rs. View/State has the record HyParView and the operations on one view; View has one
--   function per handler (inject_join for HyParView::inject_join, and so on), and its poll.
-- Cache: cache.rs. The record ExpiringCache has the map and the queue of the source.
-- Tree: tree.rs. PlumTree with one function per input, the periodic repair, and its poll.
-- Topic: topic.rs. TopicMesh owns a view and a tree; a poll hands the view's membership events to
--   the tree, and inject_rpc_call routes each wire message to one of them.
-- Episub: behaviour.rs. Episub/State has the record and the calls of the application. Episub owns
--   the meshes of all topics, bans peers that break the protocol, and asks peers to join topics. The
--   swarm calls it; a poll hands out its own events, then the meshes'.
-- Handler: handler.rs. EpisubHandler drives the two substreams of a connection; the framed substream
--   is a parameter (Framed) that answers each poll. inject_event queues what the behaviour sends.
-- Codec: codec.rs and connection.rs, the frames of a connection.
-- Network: src/network/mod.rs. A Network is the two channels and the background task, which owns the
--   Episub. The swarm is the sequence of Wakes: it calls the behaviour, polls it, or a command waits.
--   execute is one command, dispatch one event; Network/Waking has the histories.
-- JsonRpc: src/rpc/protocol.rs. JsonRpc/Service: service.rs and mod.rs of src/rpc, with the
--   websockets and the poll behind Arc::get_mut, which succeeds if nothing else holds the state.
-- Bus: src/bus.rs, MessageBus. Primitives: src/primitives, with the keys in Primitives/Keys.
-- OptionNext: src/optstream.rs. Cli: src/cli.rs.
-- Node: src/main.rs and the handle macros of the three modules that it waits for. turn is one round of
--   select!; Node/Happening has everything that happens to a node, in any order.
-- Crates outside the repository are records of functions: Hasher, Crypto, Formats, Bincode, Sockets and
--   Wire; Samples/Crates has concrete ones that behave as documented.
-- Host: the third-party code that these call: random choices, the conversions of libp2p, zstd, and
--   the binary search of the standard library. Theorems that rely on its documented behaviour take
--   IsLawful; Samples has a concrete host that satisfies it.
-- Base: names, tests, lists and keyed sets.
--
-- How the state corresponds. A set or a map is a list without duplicate keys (Base/Keyed), so an order
-- of iteration is a choice of the list. A handler that changes its object takes the old record and
-- returns the new one. The clock is an argument: one call reads it once. Random choices are read from
-- the host at successive draws, which the state counts. A panic is the absence of a result. Numbers
-- are unbounded, except the hop count of a message, which wraps at 32 bits as in a release build; the
-- lengths and times that occur stay far below the widths of the source. Instants count from an origin
-- that lies before them by more than any configured window, so a subtraction of a window never reaches
-- it. Identities are numbers.
--
-- Loops are structural, except the halving in Config.log2, whose fuel is the number itself (each step
-- halves it), and the trimming in View.drain_excess, whose fuel is one more than the length (each round
-- empties the set), and the two loops of Handler.poll: an inbound poll takes two rounds at most, and an
-- outbound one three for each queued message and three more.
--
-- Not modelled: the transport, the noise keys and the listeners of the swarm; the HTTP server and
-- /info; the parsing of arguments, the data directory and the storage (src/storage.rs, an empty
-- constructor); the generation of keys and their conversions to types of other crates; logging; wakers,
-- since a poll is a call.
pub mod Base
pub mod Rpc
pub mod Host
pub mod Samples
pub mod Config
pub mod View
pub mod Cache
pub mod Tree
pub mod Topic
pub mod Episub
pub mod Handler
pub mod Primitives
pub mod JsonRpc
pub mod Bus
pub mod Network
pub mod Node
pub mod Codec
pub mod OptionNext
pub mod Cli
