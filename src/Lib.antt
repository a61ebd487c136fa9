-- ===== src/Lib.antt =====
-- Enterprise workflow platform: the services under services/api, in Go.
--
-- A tenant defines workflows, each with a list of states, and creates records in them. A record is
-- changed by updates that name the version they read; every creation and update is written to an
-- audit log and to an outbox, in the same critical section. A relay reads the outbox, publishes its
-- events and marks them.
--
--   Common          names, lists, maps, decimal texts and int64 arithmetic that the parts share.
--   Domain          services/api/internal/domain: the documents.
--   Store           services/api/internal/store/store.go: errors and topic. `Store.Memory` is
--                   `MemoryStore` with one function for each method (`create_record` for
--                   `CreateRecord`, and so on), `Store.Memory.Queries` its listings and
--                   `Store.Memory.Outbox` its outbox. `Store.Memory.Trace` has the calls that change
--                   it; the mutex makes each call atomic, so an execution is a list of calls.
--                   `Store.Spec` is what both implementations of `Store` promise, as steps between
--                   views of the state by identifiers.
--   Mongo           services/api/internal/store/mongo_store.go and notification.go: `MongoStore` over a
--                   parameter for the MongoDB driver, `Mongo.Driver`; what is relied on of the driver
--                   and the server is in `Mongo.Laws`. `Mongo.Create` is `CreateRecord`, `Mongo.Update`
--                   `UpdateRecord`, `Mongo.Records` the other methods of `Store`, `Mongo.Outbox` those
--                   of `OutboxStore` and the notifications.
--   Relay           services/api/cmd/outbox-relay/main.go: `drainOutbox` and `publishSequential`, over
--                   any store and publisher; `Relay.Memory` puts the in-memory store there,
--                   `Relay.Mongo` `MongoStore` and batches; `Relay.Poll` is the loop of main.
--   Auth            services/api/internal/auth/token.go: roles, `Issue`, `Parse` and `Bearer`.
--   Http            services/api/internal/httpapi/server.go: the routes, `authorize` and a function for
--                   each handler (`handle_create_record` for `createRecord`, and so on), over any
--                   store; `Http.Memory` puts the in-memory store there.
--
--   Events          services/api/internal/events: `KafkaConsumer` with its retries and dead letters, and
--                   the messages of `KafkaPublisher`, over any reader, writer, handler and clock;
--                   `Events.Commits` gives it a reader of a finite topic, `Events.Projection` puts
--                   `MongoStore` behind `NotificationHandler`, `Events.Setup` is the constructors.
--
--   Loadtest        services/api/cmd/loadtest/main.go: the milestones of the pipeline and the test that it
--                   is complete, `Loadtest.Probe` and `Loadtest.Lag` the snapshots and the Kafka lag,
--                   over parameters for the clients, `Loadtest.Setup` the set-up of the probe, and
--                   `Loadtest.Wait` the polling loop.
--   Processes       services/api/cmd/server/main.go and token/main.go: the choice of the store and the
--                   token command.
--
-- SHA-256, `encoding/json` and `encoding/base64` are parameters, in `Codec` and `Json`; a theorem that
-- relies on them names what it relies on. A request has its path as segments, and a response the value
-- that is encoded in place of the text. `strings` and `strconv` are in Common.Texts and Common.Int64.
--
-- A `time.Time` is a number of nanoseconds, and a method takes as an argument the clock whose readings
-- it uses. An `int64` is its bit pattern: a number below 2 ^ 64, of which those from 2 ^ 63 on are
-- negative. A Go map is an association list, and a loop over one takes the order of its visits as an
-- argument. A value of type `any` is a JSON tree, and a nil map is `none`. Go's panic on an index out
-- of range is an error of its own.
--
-- The loop of `drainOutbox` recurses on fuel, one unit for each round. Over the in-memory store a
-- round without an error publishes the events that it listed, and a round that lists none is the last,
-- so fuel above the number of pending events is enough; over MongoStore every batch that is sent and
-- marked lowers that number. The loop of `Run` has one unit for each message
-- and one for the end. The polling loop of the load test has one unit for each tick and one for the end;
-- the loop of main of the relay does not end by itself.
--
-- The store's identifiers are formatted from its counter. Several theorems ask for room in the
-- counter: a call takes at most three identifiers, and the counter must stay below 2 ^ 63.
--
-- A BSON date keeps milliseconds: `Mongo.Bson` has what is read back of each document after an insertion
-- (`stored_record` and the like), and the times that an update writes are cut the same way.
--
-- A call of the driver takes and returns the state of the world, and may fail at any point, as by a
-- timeout; a theorem on `MongoStore` says what holds when the call returned what it did. The function of
-- a transaction also writes a variable of its caller; a committed transaction has the effect of one run
-- of it, after any number of others.
--
-- Not modelled: the Kafka and MongoDB clients, closing, signals and servers; the requests, the
-- percentiles and the report of the load test; the web and mobile clients and the infrastructure.
pub mod Auth
pub mod Common
pub mod Domain
pub mod Events
pub mod Http
pub mod Loadtest
pub mod Mongo
pub mod Processes
pub mod Relay
pub mod Store
