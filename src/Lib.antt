-- ===== src/Lib.antt =====
-- MOOR, a post-quantum onion router in C: a model of the parts that carry its protocol logic,
-- and the theorems that make them correct.
--
-- The parts. A client and each relay exchange cells of 514 bytes (src/cell.c, Cell): the fields
-- of a cell, the relay payload inside it, and the running digest by which a hop recognises its
-- cells. A payload that does not fit a cell travels as fragments (src/fragment.c, Fragment),
-- which call a `send_cb` of the circuit for every cell and are put together in one of eight
-- slots. A relay limits what an address may ask of it and what it carries (src/ratelimit.c,
-- RateLimit and Bandwidth), and asks for proof of work (src/pow.c, Pow). A stream may be spread
-- over several circuits, whose cells are brought back into order (src/conflux.c, Conflux). What
-- a circuit sends is held back by the windows of its flow control, which SENDME cells open
-- again (src/circuit.c, Flow): Flow has the sender, Flow.Sendme a SENDME that comes in,
-- Flow.Deliver one that goes out. How a cell is encrypted and put into the queue is Flow's
-- parameter Link.
--
-- A relay may hold each cell back for a random time (src/mix.c, Mix), without changing the
-- order of the cells of a circuit. Mix.Scans are the scans of the pool, Mix.Queue the queue of
-- a circuit in it, Mix.Put, Mix.Enqueue, Mix.Drain, Mix.Flush and Mix.Purge the operations,
-- Mix.Run runs of them, and Mix.Handed which cells are handed to `moor_connection_send_cell`.
-- The state `Net` of the connections is passed on, since a send that fails gives its connection
-- up; an argument `stays` says which sends do not.
--
-- A connection sends a frame at once as far as the socket takes it (src/connection.c), and
-- queues the rest (src/scheduler.c): Queue, where a call of `send` is an `Outcome` that a
-- parameter chooses, the call of a transport a parameter, and the bytes that were taken are the
-- field `wire`.
--
-- Paths are chosen with a table of address ranges and their countries (src/geoip.c): Geoip,
-- where `parse_ip_str` is a parameter.
--
-- How well an exit carries streams (src/exit_sla.c) is a score that Sla computes from the
-- streams of the last hour; Sla.Tally has what a run of streams comes to, counted without the
-- table.
--
-- Relays keep the descriptors of hidden services in a hash table (src/dht.c, Dht): Dht.Ring
-- finds the relays that are responsible for an address, Dht.Store is what a relay keeps,
-- Dht.Dpf are the keys by which a client asks two relays for a slot of their stores without
-- saying which, and Dht.Pir is the query from end to end; the two relays of `dht_fetch_dpf` are
-- functions there.
--
-- Correspondence. A function `moor_f` of the C is `f` here, with the arguments of the C in its
-- order; a struct is a record with the C's field names, where these are no keywords; the
-- globals of a file are one record, passed on explicitly. A pointer that the C refuses to be
-- null is never null here. A call of `time`, of `moor_time_ms` or of the random source is an
-- argument. Unsigned arithmetic that can wrap is written with its modulus (u16, u32, u64,
-- sub_u64); an array is a list, and `memcpy` is write_at. What the program takes from libsodium
-- is the record Sodium (file Sodium), a parameter, and the two calls of the keys of Dht the
-- record Streams.
--
-- Base has the shared types, lists with native indices, the arrays of C, bit operations and
-- words. X.Tests holds runs and instances of the theorems on X.
--
-- Fuel. `send_loop` of Fragment runs on fuel; `fragment_send` gives it one more than the length
-- of the payload, and Fragment.Send proves that it never runs out; `data_loop` of Flow runs on
-- the number of bytes, which Flow.Progress shows to be enough. The rounds of the solvers of Pow
-- are the rounds of the C, a power of two that depends on the difficulty. `expire_loop` of
-- Dht.Store gets one more than the number of entries, and Dht.Store.Expiry proves that no old
-- entry is left; `send_loop` of Mix gets one more than the places of the pool, and Mix.Drain
-- proves that no cell that is due is left; `search_loop` of Geoip gets one more than the
-- entries, which Geoip.Search shows to be enough, and `send_rest` of Queue the length of the
-- frame, which Queue.Frame shows to be enough.
--
-- Not modelled: that a SENDME resumes the reading from SOCKS5 clients; sockets, threads,
-- logging and the event loop; the cryptographic primitives and the vendored code (src/pqclean,
-- src/cJSON.c); the directory, the hidden services and the transports.
pub mod Base
pub mod Sodium
pub mod Cell
pub mod Fragment
pub mod RateLimit
pub mod Bandwidth
pub mod Conflux
pub mod Pow
pub mod Flow
pub mod Dht
pub mod Mix
pub mod Queue
pub mod Geoip
pub mod Sla
