-- ===== src/Lib.antt =====
-- Recall, a multithreaded in-memory cache server, modelled and verified.
--
-- The program's parts. A request is decoded from bytes and a reply is encoded into bytes
-- (crates/recall-protocol/src/lib.rs); a command is parsed from the arguments of a request
-- (crates/recall-core/src/command.rs); a shard holds a part of the keyspace, prepares a command
-- into a reply and effects, and applies the effects (crates/recall-core/src/store.rs); an index of
-- deadlines finds the entries of a shard that are overdue (crates/recall-core/src/expiry.rs). The
-- engine gives each shard to an owner, sends a command to the owner of its keys, and coordinates one on
-- several owners (crates/recall-server/src/engine.rs); a session stands between a connection and the
-- engine (crates/recall-server/src/session.rs), and the server runs the connections
-- (crates/recall-server/src/lib.rs) under a configuration (crates/recall-server/src/config.rs).
--
-- Prelude, Map, Run and Decimal are shared: lists and signed integers over the native numbers, hash
-- maps as association lists with distinct keys, the ways in which a call ends (a value, an error
-- with its message, a panic, or fuel that ran out), and decimal numerals. A byte is a number, an
-- i64 is a signed integer with a range check where the source checks it, and a usize or u64 is a
-- number with the source's checks at 2 ^ 64.
--
-- Expiry models expiry.rs: ExpiryIndex with its methods, of which `set` and `remove` are named
-- set_timer and remove_timer. An index out of bounds panics. The loops of `up` and `down` run on
-- fuel: the start place plus one, and the length of the heap plus one, which Expiry.Sift proves to
-- be enough. Expiry.Order and Expiry.Positions hold the invariants, Expiry.Update and
-- Expiry.Removal the effect of the methods on the deadlines by key.
--
-- Protocol models the replies of recall-protocol/src/lib.rs: Reply, encoded_len and encode, with
-- the output buffer passed in and out. Protocol.Limits holds the limits of a decoder, Protocol.Decoder
-- the decoder itself, in which a round of the loop of `decode` has three parts: the number of
-- arguments, the length of the next one, and the argument. Both of its loops run on the length of the
-- input plus one as fuel: a round of `header_end` moves the scan on by a byte, and a round of `decode`
-- that goes on has read an argument. Decoder.Header, Decoder.Parts and Decoder.Safe follow the parts,
-- and Decoder.Total treats `decode`.
--
-- Command models command.rs: the operations with their keys and payload, and canonical integers;
-- Command.Specs the table of commands and the discovery replies, whose names are an enumeration with
-- the text of each; Command.Options the loops over the options of SET and HELLO, on the length of the
-- request as fuel, since each round moves the index on; Command.Parse the parser. An index into the
-- arguments that is out of bounds panics.
--
-- Store models store.rs: Store.Prepare the preparation of each operation and the preflight budget,
-- Store.Apply the application, `execute` and `expire_due`. A method takes the shard and returns the
-- new one. Whether the allocator grants a reservation is a parameter. Store.Valid states the
-- invariant of a shard, Store.View what a client can see of it at a time, and Store.Spec what each
-- operation promises on that view, with conditions, deadlines, ranges and the time left defined anew;
-- Store.Agrees relates those definitions to the code's, Store.Respond, Store.Loops, Store.Promise,
-- Store.Install and Store.Execute prove that the code keeps the promises, Store.Cleanup treats
-- expiration. Only the reading and writing of a counter's decimal is shared with the code, which
-- Command.Integer treats.
--
-- Config models crates/recall-server/src/config.rs: Config, its validation, and the limits of each
-- owner's shard; Config.Budget relates them to the creation of shards.
--
-- Engine models the routing of crates/recall-server/src/engine.rs: route and split, with the hash as a
-- parameter and the ordered map as a list of owners and their items. Where the source aborts the
-- process, the model panics; `route` by no owner at all, where the source panics, has a value, and a
-- configuration excludes it. Engine.Groups treats the grouping by owner, Engine.Shares the part of each
-- owner, Engine.Routed the whole split. Engine.Owner models an owner, the loop that holds a shard: the locals of
-- `owner_loop` are a record, each branch on a message, a tick or a request is a function, and
-- Engine.Owner.Steps makes the rounds of the loop a relation, in which messages come in any order.
-- Engine.Coordinate models `coordinate` and `combine` on a list of owners: the coordinator waits for
-- the answer to each message before it sends the next one, so that a message is a step of one owner.
-- Rounds of the owners between these messages are left out of it; Engine.Owner treats them.
-- Coordinate.Phases, Combine, Parts, Messages, Voting and Decide follow its phases, and
-- Coordinate.Atomic puts them together. Engine.Admission models EngineHandle::execute: its guards, its
-- charge and its choice of a queue, and what a command does when its turn comes.
--
-- Session models crates/recall-server/src/session.rs: a session with `execute` and what it calls. The
-- engine behind it is a parameter: a state, and what the state becomes and answers on an operation.
-- Session.Gate treats a session that is not authenticated, Session.Stays one that is.
--
-- Server models a connection of crates/recall-server/src/lib.rs: what happens on its socket is a list
-- of events, of which a read takes as many bytes as fit, and `connection` goes from the bytes to the
-- written replies. Its loops run on the number of bytes and events to come, plus one. Server.Reading
-- treats next_request, Server.Served the whole.
--
-- Settings models `from_sources` of crates/recall-server/src/settings.rs, with the reading of an address
-- and the default configuration as parameters: Settings.Read treats the numbers, Settings.Merged the
-- sources over each other, Settings.Meaning says what the value of each setting stands for,
-- Settings.Applied treats one setting, Settings.Loaded the whole. The ordered map of the source
-- is an association list, whose order decides only which of several errors is reported.
--
-- Hash maps are walked in the order of their association lists; the source leaves the order open.
-- Vector lengths stay far below 2 ^ 64, so index arithmetic and the counters of removed or found
-- keys do not overflow, nor does their sum over owners in `combine`, an exact integer here. Of the
-- socket address of a configuration only the IP address is kept, which is what its validation looks at. The 128-bit sums of `preflight` are exact integers.
--
-- Not modelled: the engine's channels, credits, deadlines and threads, the listener and the tasks of
-- connections, and the texts of the settings (options, lines of a file, the environment). Sockets, threads and process start are input and output only. The counters
-- that INFO shows are those of one connection, and the time of a comparison of passwords is left out.
pub mod Prelude
pub mod Map
pub mod Run
pub mod Expiry
pub mod Decimal
pub mod Protocol
pub mod Command
pub mod Store
pub mod Config
pub mod Engine
pub mod Session
pub mod Server
pub mod Settings
