-- ===== src/Lib.antt =====
-- Allezon (src/): a service that takes user tags (views and purchases of products), keeps the newest
-- tags of each cookie, and counts tags and their prices by minute, action, origin, brand and
-- category.
--
-- The parts, and the files that model them:
-- - Types, Types/: src/pkg/types/userTag.go, the domain types and their protobuf form
--   (`MarshalUserTag` is `marshal_user_tag`).
-- - Dto, Dto/: src/pkg/dto/dto.go, the transfer objects of the API.
-- - Db: the interfaces of src/pkg/db/db.go. Db/Aggregates* is aggregates.go: `Codec` has the
--   encodings, `Client` the methods. Db/Profiles* is user_profiles.go; `Stored`, `Storing`, `Reading`
--   and `History` relate its methods to an abstract store, a list of tags for each cookie and
--   action. Db/Null is null.go. Both clients run over `Database` of Db/Aerospike, the operations of
--   the database that they use.
-- - IdGetter, IdGetter/: src/cmd/id_getter, which numbers the strings of a collection. `Elements` is
--   db/db.go, `Server` and `Handler` are server/server.go; `Concurrent` is the step relation of
--   requests at several replicas with one database. `ElementsLaws` and `GrowthLaws` are what the
--   server relies on; `Listed` shows that the client of db.go has them by `ListsLaws` of the
--   database, and `Shown` says of both together what ids are given.
-- - IdClient, IdClient/: src/pkg/idGetter, the client of that service, with its cache.
-- - Api, Api/: src/cmd/api/server. `UserTags` stores a tag and sends it to Kafka, `Profiles` and
--   `Aggregates` answer the two queries; `Requested` and `TimeRange` check a query. `Routing` has the
--   routes of server.go and the middleware before the handlers.
-- - Middleware, Middleware/: src/cmd/api/middleware/expect.go, which compares an answer with one that
--   the request carries; `expectation_validator` is the middleware, `check_expectation` the check.
-- - Messaging, Messaging/: src/pkg/messaging, the producer and the consumer of the tags; `Consuming`
--   is the loop over sessions, `Topic` is topic.go.
-- - Worker, Worker/: src/cmd/worker/worker, which gets the ids of a tag and adds the tag to the
--   aggregates. `Pipeline` is the step relation of the claims, the channel and the processors that
--   `Run` starts.
-- - Config, Config/: the config.go of the three programs in src/cmd, over a registry of settings.
-- - Programs, Programs/: the main.go of the three programs, and the constructors that they call
--   (src/pkg/logutils, `NewClientFromAddresses`, `NewProducer`, `NewConsumer`).
-- - Flow, Flow/: the parts together. The worker and the API service on one database of aggregates
--   and one service of ids, with `Clock` and `Shown` by the minutes of the clock (Db/Aggregates/Minutes
--   has them); tags, cleanups and queries of the API service on one store of profiles.
-- - Container, Container/: src/pkg/container, the Docker environments of the integration tests;
--   `Running` and `Closing` are Run and Close of container.go, `Waiting` and `Services` are
--   containerutils.
-- - Base and Base/ have the shared lists, numbers, outcomes and decimal texts; Time is what is used
--   of package time, Http what a handler leaves behind; Tests/ has concrete stores and clients, and
--   each theorem at a concrete input.
--
-- How the code is modelled. Code that changes a store and may fail is a function from a state to a
-- `Result` (a value, an error or a panic) and the state that it leaves (Base/Exec); what was written
-- before an error stays written. The state is a parameter `S`: that of the database, the broker or
-- the service behind a client. A Go integer of w bits is a number below 2 ^ w, with its wrap-around
-- written out; signed values are read from their patterns where the code compares them. A pointer
-- that may be nil is an `Option`, a dereference of nil is a panic, and so is a fatal log entry.
-- An error keeps its sentinel, its database code, and the chain that `%w` builds; its text is left
-- out. Logging is left out.
--
-- Libraries are parameters: `Database` (Aerospike), `Protobuf`, `TimeText` (the layouts of
-- package time), `Transport` (HTTP and JSON), `Codecs` (JSON and cmp), `ResponseWriter` and `Gin`
-- (gin: the writer, the binding of requests and the writing of answers; a request is given with the
-- route that it takes), `ClusterAdmin` (Kafka), `Viper` (settings), `Outside` (what the entry points
-- open), `Docker` and `Tools` (dockertest and what the tests wait for), `retry` (backoff), and the
-- events that a Kafka claim delivers. What is assumed of them is named: `AggregatesLaws`,
-- `RecordsLaws`, `QueryLaws`, `IndexLaws`, `TrimLaws`, `ProfileLaws`, `ListsLaws`,
-- `ProtobufLaws`, `TimeTextLaws`, `DiffLaws`, `WriterLaws`, `AdminLaws`,
-- `ViperLaws`, `OwnedLaws`; each is shown to hold of a concrete one in Tests/. `NumbersLaws` says
-- what Flow asks of the service of ids; Flow/Numbered shows it of one server of src/cmd/id_getter that
-- is asked directly, and is not started anew, since then ids change.
--
-- Bounds: the loop over minutes runs on `minutes from to` passes, and no more are made. The loop
-- of `Consume` runs on a number of sessions, and has no result if they are used up; `consume_iff`
-- says when there are enough. All other loops are over lists. An instant is a number of
-- nanoseconds since the year 0.
--
-- Not modelled: logging, and interleavings finer than one call of a client; the two goroutines of the
-- worker's main function end one after the other, in either order, and a processor handles one tag,
-- with all calls and retries, in one step. A panic in a goroutine of `userTagsHandler`, which ends
-- the program, is the outcome panic. A nil slice is not told from an empty one, though JSON writes
-- them as null and []: an answer to a cookie that is not known has null there. Which route a request takes is
-- gin's. Of the containers of the tests, `pathToConfDir` is left out, which writes an embedded
-- file. Generated messages are no logic of the program.
pub mod Api
pub mod Base
pub mod Config
pub mod Container
pub mod Db
pub mod Dto
pub mod Flow
pub mod Http
pub mod IdClient
pub mod IdGetter
pub mod Messaging
pub mod Middleware
pub mod Programs
pub mod Tests
pub mod Time
pub mod Types
pub mod Worker
