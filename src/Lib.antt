-- ===== src/Lib.antt =====
-- The logistics platform: an order service, a tracking service and a notification service that
-- exchange events over RabbitMQ, and the libraries they share. Each service writes its own database
-- and, in the same transaction, the events it announces, to an outbox table; a relay publishes them;
-- consumers process each event once per consumer, by a table of the events on record.
--
-- Which module models which code (paths from the repository's root):
--   Text, Number, Json, Runtime: what the code uses of JavaScript's strings, numbers (doubles, with
--     their rounding above 2 ^ 53, and Infinity from 2 ^ 1024), JSON values, `Date` and of the
--     validator Zod.
--   Result, Act: a call that returns or throws, and such a call on a state. What was written before
--     a throw stays written, unless a transaction undoes it.
--   Contracts: libs/contracts/src/events. A schema is a function from JSON to an optional value.
--   Observability.Correlation: libs/observability/src/correlation. Observability.Tracing is tracing/otel.ts
--     with the listeners of the process, and Tracking.Main what main.ts of the tracking service adds.
--     Observability.Logging is logger.
--   Messaging.EnvelopeBuilder, Outbox, RabbitMqClient, Relay, Consumer, ProcessedStore:
--     libs/messaging/src. RabbitMqClient.Connection has the fields of the client and its methods.
--     The work of `tick` is `tick_work`, its flags and its timer are in
--     Relay.Control, whose step relation has a constructor for each call and for the timeout.
--   Orders: apps/order-service/src: domain (Item, Order), application (Commands, Handlers), and
--     infrastructure (Repository, PrismaOutboxStore, Publisher, CircuitBreakers); ShipmentQuery is
--     application/queries, with opossum's laws in Firing. Http is interfaces/http, from the request's
--     body to the handlers.
--   Tracking: apps/tracking-service/src: services and repositories.
--     Service is shipments.service.ts with the repositories it calls, OutboxRepository the store of
--     its relay, OrderCreatedConsumer its consumer, Http its controllers, Config its
--     configuration.
--   Notifications: apps/notification-service/src: the store of processed messages, Providers and
--     their resolver, Dispatch with the repository of deliveries, Consumers, Deliveries for the path
--     of a message through all of them, Readiness.
--   Flow: the path of an event from the command that announces it, by outbox and relay, to what its
--     consumers make of it; Correlated follows the ids of a request.
--   Redrive: tools/dlq-redrive/src/index.ts. Redrive itself is the command `redrive` on the
--     queues of a broker, Peek and Listing are the other two, Counts and Limits read their option.
--   Tests: the witnesses, with small databases.
--
-- Parameters: the generated Prisma clients (OrderClient, TrackingClient, OutboxTable, the inserts of
-- processed messages, the statements on deliveries) and Prisma's transactions are records and
-- functions with their documented behaviour as named laws; every call may fail. The publisher is any
-- function. The broker, with the channels and connections that amqp-connection-manager hands out,
-- what class-transformer and class-validator make of a body, and the circuit breakers of opossum are
-- records of functions; `fetch` and the SDK of OpenTelemetry are functions. Whether the channel of a
-- delivery is open is a function of the state, and acknowledging or rejecting on a closed channel
-- throws. The ids of `randomUUID()`, the time, the environment and the context of a request are
-- arguments.
--
-- Every loop is structural recursion on the list it runs through, but for the loop of `redrive`, which
-- need not end in the source: it runs on fuel, one unit for each round, and the results below say when
-- fuel is enough. `ℕ` has no bound; counts and prices are doubles, as in the source.
--
-- Not modelled: the generated Prisma code, the modules of NestJS and the rest of the entry points, the
-- loggers themselves, the helpers of the tests. The texts of Zod's errors are one constant.
mod Prelude
pub mod Text
pub mod Number
pub mod Result
pub mod Act
pub mod Runtime
pub mod Json
pub mod Contracts
pub mod Observability
pub mod Messaging
pub mod Orders
pub mod Notifications
pub mod Tracking
pub mod Flow
pub mod Redrive
mod Tests
