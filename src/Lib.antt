-- ===== src/Lib.antt =====
-- mmids: a media server that runs workflows of media steps. This library models the core of it and
-- proves what makes the core correct. Source paths begin at the repository's root.
--
-- The parts and how they interact
-- * A workflow (mmids-core/src/workflows/runner/mod.rs) is an actor that owns the steps of one
--   definition and passes media notifications from one to the next. Workflows/Runner has its state
--   (State), what it caches (Caches), the execution of steps (Execute), the swap from pending to
--   active steps (Swap), `apply_new_definition` and `execute_steps` (Apply), and the requests and the
--   loop of `run` (Loop). The children Frame and Invariant have the lemmas on each method; History,
--   Updates, Replay and Heard what holds over the life of a workflow, Flow what becomes of the media
--   that it receives.
-- * Its vocabulary is in Workflows/Media (mmids-core/src/workflows/mod.rs), Workflows/Definitions
--   (definitions.rs beside it), Workflows/Steps (steps/mod.rs and steps/factory.rs) and
--   Workflows/Requests (the messages between the actors).
-- * The workflow manager (mmids-core/src/workflows/manager.rs), Workflows/Manager, starts and stops
--   workflows by name and publishes that to the event hub.
-- * The event hub (mmids-core/src/event_hub.rs), EventHub, keeps the active workflows and sends their
--   starts and ends to its subscribers.
-- * A reactor (mmids-core/src/reactors/reactor.rs), Reactors/Reactor, asks an executor for the
--   workflows of a stream and has the workflow manager run them while the stream has clients;
--   Reactors/Manager (reactors/manager.rs) creates reactors with the factory of Reactors/Executors
--   (reactors/executors/mod.rs).
-- * The forwarder step (mmids-core/src/workflows/steps/workflow_forwarder/mod.rs),
--   Workflows/Forwarder, is a step that passes media on to other workflows, fixed ones or those that a
--   reactor names.
-- * The RTMP server endpoint (mmids-rtmp/src/rtmp_server), RtmpServer, lets RTMP connections publish to
--   and watch the stream keys for which workflow steps have registered. State and Types have its data,
--   Registration and Removal the registrants, Publishing and Watching what connections ask for,
--   Endpoint the loop of `run` and the rest of the handlers; Linked and its children follow the
--   agreement of stream keys and connections through every handler, but for connections that may be
--   left out of account, Reach through every run, whatever the endpoint is told, and Registrants and
--   its children who is registered for which stream keys. Handler is the handler of a
--   single connection (connection_handler.rs): Flv has the tags around media, Events what it does with
--   the events of the RTMP session, Loop the rest and `run_async`; Raised has what the RTMP library
--   raises in a run; Ready, Answers and Panics follow what its calls of `unwrap` rely on through all of
--   them; Turns, InStep and InTurn follow in the same way what it has asked the endpoint for.
-- * RtmpSteps has the workflow steps around it (mmids-rtmp/src/workflow_steps): Receive takes in
--   publishers (rtmp_receive), Watch offers media to watchers (rtmp_watch), Reader has streams for
--   external programs (external_stream_reader.rs), and Conversion turns media of workflows into media
--   of RTMP. Parameters and the Generator of Receive and Watch make the first two from a definition;
--   Startup and Guarded follow their parameters to the step and to the endpoint.
-- * Net (mmids-core/src/net/mod.rs) reads lists of IP addresses.
-- * Metadata has the typed metadata of media payloads (mmids-core/src/workflows/metadata), Timestamp
--   the video timestamps of mmids-core/src/lib.rs.
--
-- How state and operations correspond
-- * An actor is a record with the fields of the struct, under their names; what it has only to reach
--   its surroundings (channels, its own name) is left out. A method returns the new actor. What it
--   does outside, such as sending an event, is a list of effects in the order of the source. One turn
--   of the loop of `run` is the function `handle`, which returns whether the loop goes on; runs are
--   sequences of rounds, so every order in which messages may arrive is covered. The end of a
--   function by `return` in a loop is a constructor of its own (Scan, Creation).
-- * A HashMap is an association list with one entry for a key, a HashSet a list without repetition;
--   where the source iterates over a map, the model does so in the order of the list. A sender of a
--   channel is a number. A Duration is its number of nanoseconds.
-- * Machine arithmetic wraps where the source's does, with the width written out. A panic is `none`
--   or a constructor of the result.
-- * Parameters of the model of workflows, all in the record Env: the standard library's hasher, behind
--   step ids; the generators of the step factory; and what the call of a step's `execute` leaves, of
--   which nothing is assumed. Step objects are of a type I, the results of their futures of a type N.
--   The RTMP endpoint has the stream metadata of the RTMP library as a type M, CIDR ranges as a type C
--   and the test of a range as a parameter, as is the CIDR library's from_str; of neither is anything
--   assumed. The channels and stream ids that a handler makes are its argument Fresh. The two
--   translations of stream metadata from and to key/value pairs are a parameter, MetadataFormat: the
--   fields are the RTMP library's. Its handshake and session are the parameter RtmpLibrary of the
--   handler of a connection, of which nothing is assumed; a theorem that needs it has a condition on
--   what is raised in the run; the numbers of 24 bits of byteorder are Int24, with what it
--   documents of them as IsExact. Loop.run_async runs on the list of what arrives; the end of a
--   channel is one of its inputs.
--   An executor of a reactor is outside the model: a call of it is an effect, its answer an event.
--
-- Bounds and fuel
-- * The search for a free subscriber id of the event hub runs on as many rounds as there are ids in
--   use and one more; that is enough, since the candidates are all different while there are fewer
--   than 2 ^ 64. Reading a key-length-value store runs on as many rounds as it has bytes and one more,
--   and each item takes four bytes at least. All other loops are over lists.
--
-- Not modelled: logging, the text of formatted messages, the async runtime and its channels, which
-- deliver each message once and in order; the HTTP executor of reactors, the HTTP API and the TCP
-- listener, which are I/O around the actors; the ffmpeg and GStreamer endpoints with their steps, which
-- drive other programs and libraries; the configuration parser, whose grammar is a parser generator's.
pub mod Common
pub mod Metadata
pub mod Timestamp
pub mod Workflows
pub mod Net
pub mod EventHub
pub mod Reactors
pub mod RtmpServer
pub mod RtmpSteps
mod Tests
