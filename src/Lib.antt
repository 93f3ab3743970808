-- ===== src/Lib.antt =====
-- LongshipX: a server for multiplayer games in rooms. A client connects over TCP, binds its connection
-- to a player by a session token, and plays in a room; a room is one task that takes commands from
-- a queue and sends events to its members' queues.
--
-- The parts of the program, and the modules that model them:
--   * crates/domain (Domain): the aggregates. Domain.Room is Room with its members and its life cycle,
--     Domain.Player the levels, Domain.Account and Domain.Session the records and their changes,
--     Domain.Value the validators, Domain.Error the errors. A method that changes an aggregate
--     returns the new one beside its result.
--   * crates/net-kit (Net): frames on a byte stream. Net.Codec has read_frame, write_frame and the
--     connection's write_task, Net.Backpressure the OutboundSender in front of that task,
--     Net.Stream what tokio documents of AsyncRead and AsyncWrite, Net.Error NetError.
--   * crates/application (App): App.Actor is RoomActor: `handle` takes a state and a command to
--     a state, the messages sent in their order, and whether the task ends; `run` is the task over
--     the commands that arrive. App.Sink is RoomEventSink, App.Error AppError and its conversions.
--     App.Ports has the ports and the repository traits as records of calls on a world; App.Login,
--     App.Register and App.Progression are the use cases over them, each a sequence of fallible calls.
--     App.Rooms is RoomService: a call is a program counter (`Call`) that App.Rooms.Calls advances by
--     one wait at a time over the shared maps; App.Rooms.Tasks has a room's task as RoomHandle sees
--     it; App.Rooms.Schedule runs calls, cancelled calls and tasks in any order that a list of
--     choices gives. A reply channel is a number from a counter, so that none is used twice, and
--     the answers stand in a map until their callers read them.
--   * crates/protocol (Protocol): Protocol.Messages has the typed messages and both codecs over
--     Protocol.Generated, the records of game.proto; Protocol.Router is Router.
--   * crates/infrastructure (Infra): Infra.TokenStore is InMemoryTokenStore, Infra.MemoryRepos the
--     repositories in memory; both fill ports of App.Ports, and Infra.MemoryRepos.FirstLogin runs
--     the use cases on them. Infra.Sea has the repositories on a database, whose queries and
--     transactions are the record Database, and Infra.Converters the rows and their conversions.
--     Infra.Config reads and validates the configuration: the look-up of a variable, the printing
--     of a text for debugging and the largest number of permits of a semaphore are arguments,
--     `usize` has 64 bits, and the parsing of a number, which is the standard library's, is written
--     out in Infra.Config.Env.
--   * crates/gateway (Gateway): Gateway.AuthGate is AuthGate with the permits that connections
--     hold, Gateway.Context the state of a connection, Gateway.Handlers the handlers of the
--     messages and their table, Gateway.Admission `admit_frame`, Gateway.Convert the room events as
--     messages. The services are the records GatewayDeps and Rooms. Gateway.ReadLoop is
--     `run_read_loop` by the polls of its `select!`, Gateway.Translator `room_event_translator`,
--     Gateway.Lifecycle the end of a connection with its guard, also when its task is aborted;
--     Gateway.Connections is ConnectionRegistry, whose senders stand in a map of their own,
--     Gateway.RateLimit TokenBucket over floating-point operations as parameters, and Gateway.Http
--     the handlers of the HTTP entry.
-- Prelude has the shared helpers. Channel is the interface of tokio's mpsc and watch channels, which
-- Net.Backpressure and App.Sink take as parameters and Channel.Memory implements by a list.
--
-- Numbers are natural numbers; a machine integer has its saturation or its wrap-around written out.
-- A UUID, an address and a time stand as numbers, a string as the list of its code points, a hash map
-- as an association list. What the source draws at random or reads from a clock is an argument. The
-- loop of gain_exp runs on fuel, the largest level, which is enough since each turn raises the level;
-- the loop that prints a number runs on its successor.
--
-- Not modelled: sockets, TLS, the accept loop, axum's routing and the start-up code, which call
-- libraries; Redis and argon2; the event bus and the audit log, which pass values on; room_repo.rs,
-- which no code uses; the formatting of log messages; the fakes of the tests. What prost, uuid,
-- chrono, SeaORM, the floating-point unit and the password hasher do is a parameter.
pub mod Prelude
pub mod Channel
pub mod Domain
pub mod Net
pub mod App
pub mod Protocol
pub mod Infra
pub mod Gateway
