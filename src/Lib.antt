-- ===== src/Lib.antt =====
-- Verification library of the realtime order and inventory system: an order service, an inventory
-- service, a websocket service and an authentication service, in Go, over PostgreSQL, Redis and Kafka.
--
-- The order service stores an order, its items and an event of it in one transaction; a publisher
-- claims events of this outbox and writes them to Kafka. The inventory service consumes them and
-- reserves stock; it keeps what is on hand and what is reserved of a product in a warehouse, with a
-- version for optimistic locking. Both services read through Redis. The websocket service sends
-- events on to the clients that subscribed to a channel. The authentication service is asked by the
-- proxy whether a request may pass. Each service wraps its handlers to count and trace requests.
--
-- Files and code:
--   Errors                 internal/inventory/domain/errors.go, internal/order/domain/errors.go
--   Exec                   what the code runs on: calls that may fail, transactions, Kafka's writer
--   Redis                  pkg/cache/cache.go
--   Kafka/Consumer         pkg/kafka/consumer.go (Start, handleWithRetry, sendToDLQ)
--   Kafka/TraceHeaders     pkg/kafka/trace_headers.go
--   Inventory/Domain       internal/inventory/domain, and the rows of the repositories
--   Inventory/Postgres, Reservations, Movements
--                          internal/inventory/adapter/postgres/inventory_repo.go
--   Inventory/Cache        internal/inventory/adapter/cache/inventory_repo.go
--   Inventory/UseCase      internal/inventory/usecase
--   Inventory/EventHandler internal/inventory/adapter/kafka/order_event_handler.go, and the adapter of
--                          cmd/inventory-service/main.go
--   Order/Domain           internal/order/domain
--   Order/Postgres, Items, Outbox
--                          internal/order/adapter/postgres/order_repo.go
--   Order/Cache            internal/order/adapter/cache/order_repo.go
--   Order/UseCase          internal/order/usecase
--   Order/Publisher        internal/order/adapter/kafka/outbox_publisher.go
--   Order/EventHandler     internal/order/adapter/kafka/inventory_event_handler.go
--   Http                   pkg/response, internal/order/adapter/httpd, internal/inventory/adapter/httpd
--   Websocket/Hub, Client  pkg/websocket/hub.go, pkg/websocket/client.go
--   Websocket/Subscriber, Listening
--                          internal/websocket/subscriber.go
--   Websocket/Handler      internal/websocket/handler.go, and GetStats of pkg/websocket/hub.go
--   Config                 pkg/config/config.go
--   Kafka/Producer         pkg/kafka/producer.go
--   Serving/Writer         net/http as the handlers use it: a ResponseWriter, and the connection
--   Serving/Middleware     pkg/metrics/middleware.go, pkg/tracing/middleware.go
--   Auth/Verify, Header    cmd/auth-service/main.go
--   Database/Traced        pkg/tracing/db.go
--   Events/Json            encoding/json: the tree of a text, and json.Unmarshal into a struct
--   Events/Inventory, Order, Socket
--                          the structs of internal/inventory/adapter/kafka/order_event_handler.go,
--                          internal/order/adapter/kafka/inventory_event_handler.go and
--                          internal/websocket/subscriber.go
--   Services/Process       what a main function does, with defer and os.Exit
--   Services/Parts         InitLogger of pkg/logger/logger.go, InitTracer of pkg/tracing/tracing.go,
--                          pkg/database/postgres.go, pkg/cache/redis.go
--   Services/Mains         main of cmd/order-service, inventory-service, websocket-service, auth-service
-- Inventory/Repository and Order/Repository are the interfaces of the domain packages; the caches
-- implement them over any repository, the use cases are sections over any.
--
-- The other files are proofs. The rules of Exec/Keeps and Exec/Yields carry an invariant through a whole
-- use case, those of Exec/Atomic the unchanged database, and Exec/Runs runs a use case call by call.
--   Inventory/Safety, NoOversell, Consuming
--                                  the invariant of the stock, from the statements to the consumer
--   Inventory/Reserving, Releasing, Locking, Balance, Handling, RoundTrips
--                                  runs of the use cases, the versions, the sums, the event handler, the rows
--   Order/Invariants, Keys         invariants of the tables through the use cases, and the unique keys
--   Order/Atomic, Lifecycle        all or nothing, and the effect of each use case
--   Order/Moves, Following, History  the states of an order over any sequence of calls
--   Order/Sorting                  ORDER BY of orders without ties, however the rows are met
--   Order/Race                     a confirmation and a cancellation at the same time
--   Order/Storing, Committing, Placing, Placed
--                                  a new order: its rows, its transaction, the whole effect, the message
--   Order/Claiming, Publishing, Marking, Announcing, Staleness, RoundTrips
--                                  the outbox, the publisher, what it marks and sends, the cache, the rows
--   Kafka/Retrying, Carrier        the consumer's attempts, the headers as a map
--   Websocket/Safety, Dropped      the hub's invariant, and the clients that it drops
--   Http/Pages, Listing            pages and limits, and a whole listing by its pages
--   Redis/Laws, Reading            Redis as a map, and what a call that succeeds does
--   Inventory/Coherence            the repository over Redis against what the tables promise (Tables):
--                                  the keys, the rows of a write, right entries, each call, and any
--                                  sequence of calls
--   Kafka/Bounded, Producing       the retries end, and what a producer has written
--   Kafka/Keeping, Looping         what the retries keep, the end and the commits of the loop
--   Events/Reading, Envelopes, Flat
--                                  the events of one service as the other reads them
--   Services/Monitor, Stopping     what the events of a process must satisfy, and how the services end
--   Websocket/Delivery, Upgrading  an event on its way to the clients, and who becomes a client
--   Config/Numerals                numbers in the environment
--   Serving/Transparency, Responses
--                                  what the wrappers leave as it is, and what they report
--   Auth/Decisions, Authorization  who may pass
--   Database/Sessions              calls through TracedDB, and without it
-- Each Examples file runs a component on concrete data, that of Fixtures where there is one.
--
-- The model. A Go method that returns an error is a function of the world that returns a result and
-- the new world. The world has the committed tables, the writes of the open transaction, Redis, what
-- was written to Kafka and the number of calls made. An environment, Env, says for each call whether it
-- fails and with what text, what other connections commit before it, what others do to Redis, which
-- identifier is fresh and what time it is. Exec.Envs.quiet is the one where the service is alone and no
-- call fails. An SQL statement is a function on the tables with the constraints of migrations/: a
-- statement that a constraint refuses fails, and aborts its transaction. A statement of a transaction
-- sees the committed data under the transaction's own writes; a call that fails, a commit included, has
-- written nothing.
-- Whether order_item_id may be NULL is a field of the inventory tables, since the two schemas in
-- migrations/inventory differ.
--
-- Numbers. Quantities are integers without a bound: the columns are of 32 bits, and PostgreSQL refuses a
-- value outside them, as any failing call. Amounts are of a type with the operations of Host, which
-- stand for float64; Host also has encoding/json and the format of times, and of PostgreSQL what a
-- DECIMAL(18,2) column keeps of an amount, the text that a JSONB column gives back, and the order in which
-- the rows of a query are met. The theorems assume of these only what they name. Versions and times are
-- natural numbers.
--
-- Loops. The loops over lists are recursive on the list. handleWithRetry is recursive on the number of
-- attempts, MaxRetries + 1. The publisher's Start is run for a number of ticks, and the consumer's Start
-- one message at a time, since both end with their context only.
--
-- Kafka. Of kafka-go the model has what it documents: ReadMessage of a reader with a GroupID commits the
-- offset of what it returns, and WriteMessages wants the topic from the writer or the message, not from
-- both and not from neither. The writer that main gives the inventory service for its failure events has
-- a topic, as has each such event, so that it is refused. The theorems on a handler say what it does with
-- a message, not that messages arrive.
--
-- The hub. A step of the hub is atomic: Run is one goroutine, and its map and the clients' channels are
-- changed under a mutex. A client that BroadcastToChannel wants to drop is unregistered in the same step,
-- where the code sends it to Run.
--
-- HTTP. A handler of a request is what it does with its ResponseWriter, in order; a wrapper is a
-- ResponseWriter over another one. golang-jwt is a parameter, Jwt, with what it documents of a token that
-- it accepts as a hypothesis where a theorem needs it, and gorilla's upgrader is another, Upgrader.
-- sqlx is a parameter of TracedDB, Sqlx: any function for each of the methods that it calls.
--
-- Events. A message's value is the text of a tree; printing and parsing are a parameter, Codec, and a
-- theorem that needs it says which tree is read back. Numbers are their literals.
--
-- Services. A main function is what it opens, starts, defers and closes, in order; which calls of other
-- libraries succeed is a parameter, Outside. A goroutine is its start; a server that cannot listen ends the
-- process while main waits for its signal.
--
-- Not modelled: the options, addresses and log lines of the mains, the fields that pkg/logger adds to a
-- line, the counters of pkg/metrics/metrics.go, sockets and deadlines of the clients' pumps, the text of
-- JSON, and the delay between retries.
pub mod Prelude
pub mod Errors
pub mod Exec
pub mod Redis
pub mod Kafka
pub mod Inventory
pub mod Order
pub mod Http
pub mod Websocket
pub mod Serving
pub mod Auth
pub mod Config
pub mod Database
pub mod Events
pub mod Services
