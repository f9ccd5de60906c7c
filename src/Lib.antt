-- ===== src/Lib.antt =====
-- rust_pinecone, an overlay router in Rust: a model of the program and theorems about it.
--
-- The program. A node has a router, which exchanges frames with its peers. Routers build a spanning
-- tree by passing on signed announcements of a root (the strongest key), which also give each node
-- coordinates; on top of it they keep paths to the next node in the order of keys (the snek). Frames
-- are routed over the tree by coordinates, or over the paths by keys. A client runs a router, and gives
-- the frames that are for it to sessions, which are byte streams to other nodes.
--
-- The files, with the code that they model:
--   Prelude, Prelude/*     shared names; replies with errors and panics; hash maps
--   Bytes, Bytes/Words     the buffers of the `bytes` crate, as a record of operations and its laws
--   Tree, Tree/*           src/tree.rs: roots and their order; keys as numbers
--   Coordinates, …/Metric  src/coordinates.rs: coordinates and their distance
--   Frames, Frames/*       src/frames.rs: the frames; signing and checking announcements
--   Wire, Wire/*           src/wire_frame.rs: `encode`, `decode`; Layout spells out the bytes
--   Snek                   src/snek.rs: path entries and their expiry
--   WaitTimer              src/wait_timer.rs
--   Router/State           src/router.rs: `struct Router`, `send`, the counters
--   Router/Ports           `get_new_port`, `port`, `peers`, `get_peer_on_port`
--   Router/Announce        the announcement that a router holds, and sending it
--   Router/HandleAnnouncement, Router/ParentSelection  `handle_tree_announcement`, `parent_selection`
--   Router/TreeHop, Router/SnekHop                     `next_tree_hop`, `next_snek_hop`
--   Router/Bootstrap, Router/Setup, Router/Teardown    the handlers of path frames
--   Router/Maintenance     `maintain_snek`, `disconnect_peer`, `stop` and the spawned tasks
--   Router/HandleFrame     `handle_frame`, `connect`, `add_peer`, `poll_peer`
--   Router/Keeps, …/*      what the methods of the protocol leave alone
--   Router/Tracks, …/*     which paths each method leaves in the router
--   Router/Schedule, …/*   the loops of `start` and `spawn_peer`, and the states that a router reaches
--   Channel                the channels of tokio, as a record of operations and its laws
--   Connection, …/*        src/connection.rs: frames over a stream of bytes, whole and cut
--   Session, …/Transfer    src/session.rs: sessions, and runs of their reads and writes
--   Client                 src/client.rs: `Client::new` with its download loop, `dial`, …
--   Client/*               which channels a frame touches; what was written is what is read; a session
--                          that was dropped
--   Network, Network/*     routers that pass a tree packet on among themselves
--   Examples, Examples/*   concrete values on which the theorems are applied
-- A function has the name of the Rust function; a part of one has a name of its own.
--
-- How the code is modelled:
--   * A method of `Router` is a function of the whole state, which it returns with `ok`, an error, or
--     a panic (an `unwrap` of nothing, an arithmetic overflow as in a build with overflow checks, a
--     read past a buffer). What was written before stays written. A method runs at one go: locks,
--     deadlocks and the interleaving of tokio tasks within a method are not modelled.
--   * Futures given to `tokio::spawn` are queued in `spawned`, and `run_task` runs one, up to its
--     sleep or from there on. Loops that await a frame are listed in `awaited`. Frames sent are
--     listed in `sent` and `delivered`; `World` says what a peer's sink answers, and gives the clock
--     in nanoseconds, the random path id, and the crates.
--   * The crates `bytes` and `ed25519_consensus` are records of operations (`BytesMut`, `Ed25519`);
--     `IsBigEndian` and `IsCorrect` say what their documentation promises. `BytesMut` is only
--     written to and read from, and its capacity does not matter.
--   * `FramedRead` and `FramedWrite` of tokio_util are the record `Framing`, with the laws `IsFraming`:
--     the decoder runs on what has been read so far, and again after each further read (`Reader`).
--   * A key, an array of 32 bytes, is the number that it spells in big-endian order; a signature is
--     that of its 64 bytes. Tree/Keys is about the order of arrays.
--   * A `HashMap` is a list of entries, whose order is arbitrary, as the map's iteration order is.
--   * Loops over collections are recursions on lists. The one unbounded loop, in `get_new_port`, has
--     as fuel one round more than the port table has entries, which is always enough. A packet that
--     travels a network has as fuel the nodes it may visit; its distance is enough.
--   * A channel of tokio is a queue with a capacity (`Channel`); its operations are the record `Mpsc`,
--     and `IsFifo` says what their documentation promises. A `send` that has to wait ends the round
--     of the loop with what it waits for. Wakers are not modelled.
--   * Numbers are natural numbers; `u16` arithmetic of the codec and the `u64` counters have their
--     bounds written out.
--
-- Not modelled: src/main.rs (the terminal program), src/lib.rs (declarations), logging and `Display`,
-- all of them input and output. The loops of `start` and `spawn_peer` are modelled one round at a
-- time (Router/Schedule), in two steps where the loop awaits a frame: when a step runs, how long a
-- ticker waits, and how long `reparent` sleeps, is the scheduler's choice.
pub mod Prelude
pub mod Bytes
pub mod Tree
pub mod Coordinates
pub mod Frames
pub mod Wire
pub mod Snek
pub mod WaitTimer
pub mod Channel
pub mod Session
pub mod Connection
pub mod Client
pub mod Network
pub mod Router
pub mod Examples
