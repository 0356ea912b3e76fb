-- ===== src/Lib.antt =====
-- navlink: VDA5050 protocol access over MQTT.
--
-- A client (client.go, config.go) keeps one transport. Inbound, it subscribes topic filters that
-- topic/resolver.go builds, for a whole interface or, with a fleet session
-- (internal/session/fleet.go), for each tracked vehicle. Outbound, a handle of one vehicle (agv.go,
-- instant.go) checks a message (outbound_validate.go), fills in its header
-- (internal/outbound/builder.go), encodes it and hands it to the transport: MQTT
-- (internal/mqtt, mqtt_adapter.go) or the in-process broker of testkit/fake_broker.go. The outcome
-- of a publish (publish.go) says whether the caller may use its protocol IDs again.
--
-- Files, and the code they model:
--   Base             strings as lists of code points (strings.Split, TrimSpace, Itoa), maps as
--                    association lists, results, Boolean tests; no code of the repository
--   Topic            topic/resolver.go: Build, Wildcard, Parse, ValidChannel
--   Errors           internal/gerrors/code.go, and the error chain of errors.Is and errors.As
--   Publish          publish.go: ClassifyPublish, MarkPublishAttempted, the IsPublish tests
--   Mqtt.Wait        internal/mqtt/wait.go: waitToken
--   Mqtt.Outbound    internal/mqtt/transport.go Publish, attempted.go, mqtt_adapter.go Publish
--   Config           config.go: validate and the defaults; fleetSessionOptions of client.go
--   Agv.Validation   outbound_validate.go
--   Agv.Builder      internal/outbound/builder.go
--   Agv.Handle       agv.go: PublishOrder and PublishInstantActions, one function of a record that
--                    holds what the two do differently
--   Agv.Instant      instant.go
--   Session          internal/session/fleet.go: a function on the session's state for each method;
--                    Session.History runs any sequence of calls
--   Testkit          testkit/fake_broker.go
--   Facts            facts/facts.go: Apply
--   Bus              internal/bus/memory.go
--   Client           client.go: Start, Stop, Track, Untrack and handleReconnect, over any transport
--   Client.Setup     client.go: New, with the mqtt.Config that it makes
--   Client.Callbacks client.go: the callbacks of Start and of a reconnect, RestoreFleet, Connected
--   Client.EventBus  eventbus_client.go, events.go and client.go: OnState and the other three,
--                    UseEventBus, Emit, Subscribe, and what a message runs of the registrations
--   Client.AutoTrack fleet_autotrack.go
--   Client.Reconnect client.go handleReconnect, with Session.Listens and Session.Restored; over the
--                    in-process broker it is Testkit.Reconnect
--   Client.Whole     client.go: Start and Stop with the worker of fleet_autotrack.go and the handles
--                    on the event bus, and the runs of such a client
--   Mqtt.Paho        internal/mqtt/transport.go: Config, its checks, and the paho client
--   Mqtt.Lifecycle   internal/mqtt/transport.go: New, Start, Stop, onConnect, onConnectionLost;
--                    Mqtt.Lifecycle.Machine is the machine of three phases that they refine
--   Mqtt.Subscribe   internal/mqtt/transport.go: Subscribe and its Unsubscribe
--   Mqtt.Lanes       internal/mqtt/classify.go
--   Mqtt.Coalesce    internal/mqtt/dispatch.go: the connection lane, as steps of callbacks and worker
--   Mqtt.Queue       internal/mqtt/dispatch.go: one bounded channel and its worker
--   Mqtt.Dispatch    internal/mqtt/dispatch.go: enqueue and the queues of the vehicles
--   Inbound.Policy   inbound_policy.go: HeaderSequencePolicy
--   Inbound.Registry extend/registry.go
--   Inbound.Pipeline inbound.go: onRawMessage, first the fate of a message and then what is done
--   Inbound.Topics   inbound.go: dispatchTopic and reportDecode
--   Inbound.Timing   inbound_timing.go, inbound_drop.go, and QueueWait of envelope.go
--   Session.Race     internal/session/fleet.go: calls of track and untrack that overlap
--   Testkit.Callbacks testkit/fake_broker.go: the callbacks of the client
--   Testkit.Recording testkit/recording.go
--
-- Parameters: glitch/gerr (Errors.Gerr), the paho client and its tokens (Mqtt), encoding/json and
-- the rest of the message structs (Agv), the constants of vda5050-types-go (Agv.Instant), and the
-- transport of a session (Session.Broker.Net, whose contract Keeps says that a handle stands for
-- one subscription; Testkit.Contract shows that the in-process broker keeps it). The MQTT transport
-- unsubscribes by filter, so it keeps that contract only while no filter is subscribed twice. For a
-- reconnect, Session.Listens says that a transport that is up accepts every subscription;
-- Testkit.Reconnect shows that the in-process broker does while it runs.
--
-- Time is not a clock but what a call sees: the time left of a context, and which of the cases of a
-- select came first. Loops run over the lists of the source, so none needs fuel; Mqtt.Coalesce.drain
-- runs its loop a given number of times, which Mqtt.Coalesce.Drain bounds. A Go string is a
-- list of code points; a `range` over a map takes it in the order of the list.
--
-- Not modelled: the generated registration of the errors and their unused constructors, the
-- examples and the tests. The methods of a session and of a client run one after the other, except
-- in Session.Race, where the calls of track and untrack overlap, and in Client.Whole and
-- Client.AutoTrack, where rounds of the worker come between them. The bound on the queue of the
-- worker is that of the code (64 jobs).
pub mod Base
pub mod Topic
pub mod Errors
pub mod Publish
pub mod Mqtt
pub mod Agv
pub mod Config
pub mod Session
pub mod Inbound
pub mod Facts
pub mod Bus
pub mod Client
pub mod Testkit
