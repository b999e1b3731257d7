-- ===== src/Lib.antt =====
-- Verification of the IEC-104 bridge: a program that takes process values as JSON messages from NATS or
-- a Unix socket, keeps the latest of each address in a cache, and sends them to IEC-104 masters, at
-- once and in reply to General Interrogations.
--
-- The parts and how they work together. A source (src/source.rs) yields messages that passed the
-- checks of src/validation.rs. The message loop (src/main.rs, run_message_loop) hands each to
-- handle_incoming_message, which caches it, shapes it by the output policy, dispatches it
-- (src/bridge.rs) to the server and then acknowledges it. The interrogation handler replays the cache
-- on one connection, in order with its confirmation and its termination; src/asdu.rs builds the timed
-- objects and everything for a connection. The supervisor restarts a source that ended.
--
--   Base and its children: the names that all modules share, tests on numbers, lists, integers, results.
--   Number: Rust's finite f64, exactly, with the operations that the bridge uses; Number/Laws.
--   Message (src/message.rs, the types), and Decode, with Decode/Described (the specification),
--   Decode/Reading, Decode/Lookup, Decode/Messages, Decode/Encoding (a writer for producers),
--   Decode/Written, Decode/RoundTrip (src/message.rs, the derives).
--   Validation, with Validation/Rules (src/validation.rs).
--   Platform: the types of lib60870 and f32 as parameters. Sys: the calls of lib60870 as a recorded
--   history, with the library's answers as a parameter.
--   Environment, with Environment/Numeral (src/config.rs, the readers of variables), and Config, with
--   Config/Described (the specification), Config/Reading, Config/Loading, Config/Serving,
--   Config/Securing, Config/Whole (src/config.rs).
--   Policy, with Policy/Staleness (src/bridge.rs, prepare_for_output).
--   Bridge, with Bridge/Mapping, Bridge/Values, Bridge/Dispatch (src/bridge.rs, dispatch).
--   Asdu, with Asdu/Ownership, Asdu/Delivery, Asdu/Encoding, and Pinned, with
--   Pinned/Stable (src/asdu.rs), Pinned/Requests and Pinned/Carried (src/main.rs,
--   install_interrogation_handler, with the request that it confirms).
--   Sinks, with Sinks/Wire (src/bridge.rs, LiveSink and ConnectionSink), Sinks/Capturing and
--   Sinks/Capturing/Faithful (src/bridge.rs, test_support).
--   Store, with Store/Laws and Store/Counting (src/main.rs, DataStore).
--   Server, with Server/Incoming, Server/Replay, Server/Interrogation (src/main.rs, the handlers).
--   Concurrent, with Concurrent/Current (src/main.rs, the handlers between their locks).
--   Loop, with Loop/Cache, Loop/Ledger, Loop/Counted (src/main.rs, run_message_loop).
--   Supervisor, with Supervisor/Backoff, and Supervisor/Supervise, the same with the sources that
--   it runs, with Supervisor/Supervise/Recovery and Supervisor/Supervise/Shutdown (src/main.rs,
--   supervise_message_source).
--   Unix, with Unix/Protocol, Unix/Access, Unix/Replies (src/source.rs, the clients of the socket).
--   Socket, with Socket/Prepared, Socket/Modes (src/source.rs, UnixSocketSource::bind and its helpers).
--   Listener, with Listener/Credentials, Listener/Traced, Listener/Permitted (src/source.rs,
--   UnixSocketSource and UnixSocketRuntime).
--   Nats, with Nats/Filter (src/source.rs, NatsSource::into_messages), and Nats/Connect, with
--   Nats/Connect/Urls and Nats/Connect/Steps (src/source.rs, NatsSource::from_config).
--   Tls, with Tls/Acceptor, Tls/Clients, Tls/Polls (src/tls.rs).
--   Startup, with Startup/Runs, Startup/Steps, Startup/Sequence, Startup/Confined (src/main.rs, main).
--   Accept, with Accept/Scripts, Accept/Clients, Accept/Order, Accept/Drain (src/source.rs, the accept
--   loop of the socket and the channel of its clients).
--   Pipeline, with Pipeline/Served, Pipeline/Latest, Pipeline/Payload (src/main.rs,
--   build_message_source): from the input to the wire.
--   Endpoint, with Endpoint/Decimal, Endpoint/Scrape, Endpoint/Framing, Endpoint/Observed
--   (src/main.rs, serve_metrics_connection).
--   Harness, with Harness/Production (src/e2e_tests.rs, run, and src/source.rs, IterSource).
--   Suite: the repository's unit tests as propositions about the model. Suite/EndToEnd with Kinds,
--   Carried, Schema (src/e2e_tests.rs); Suite/Messages with Members, Marks, Edges (src/message.rs);
--   Suite/Dispatching with Maps, Points, Measured, Carried, Output (src/bridge.rs); Suite/Settings with
--   Defaults, Overrides, Refusals, Securing (src/config.rs); Suite/Rules (src/validation.rs);
--   Suite/Handlers (src/main.rs, src/source.rs).
--   Examples: the theorems at concrete inputs.
--
-- Conventions. Each Rust function is a definition of the same name. Times are Unix nanoseconds (the
-- supervisor's are milliseconds); the clock is an argument. Machine integers keep their range as
-- written in the code: casts and counters wrap, casts from f64 saturate. Histories have the latest call
-- first. The loops recur on the list of what happens.
-- Two definitions have fuel: the decimal print, with the twenty digits of 64 bits, and, in the proofs,
-- the reader of the response, with a hundred header lines; both are shown to be enough.
--
-- Not modelled: logging; the text of JSON and the buffers of serde, which are parameters of Decode;
-- what lib60870 does with a frame that it took, such as dropping it from a queue that is too small.
-- The payloads of the sources go through a parser that is a parameter. Values of f64 that JSON cannot
-- carry (NaN, infinities) do not occur. Left out too: the tests that open real sockets, files or a
-- server of lib60870.
mod Base
pub mod Number
pub mod Message
pub mod Validation
pub mod Platform
pub mod Policy
pub mod Bridge
pub mod Sys
pub mod Asdu
pub mod Pinned
pub mod Sinks
pub mod Store
pub mod Environment
pub mod Config
pub mod Decode
pub mod Unix
pub mod Socket
pub mod Server
pub mod Listener
pub mod Harness
pub mod Suite
pub mod Loop
pub mod Nats
pub mod Supervisor
pub mod Tls
pub mod Endpoint
pub mod Accept
pub mod Pipeline
pub mod Concurrent
pub mod Startup
mod Examples
