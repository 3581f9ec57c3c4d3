-- ===== src/Lib.antt =====
-- request-generator builds HTTP modules (list, view, add, update, delete) over PostgreSQL from
-- declarations. This library models the parts that keep state or decide what a request may see, and
-- proves what makes them correct.
--
-- The parts and how they interact. A generated List or View asks the database layer, package db. Its
-- executor keeps prepared statements for unpaginated reads (db/prepared_views.go) and may serve List
-- statements from a cache of results (db/select_cache.go). Below database/sql stands package
-- db/sqlcache: a logical connection (db/sqlcache/pool.go) runs each statement either through the
-- result cache (db/sqlcache/cache.go, expiry.go), on a statement that all connections share
-- (db/sqlcache/pool.go), or on a physical connection of its own; the scan of the statement
-- (db/sqlcache/sql.go) decides which, and its text and arguments make the key of the result
-- (db/sqlcache/argument_key.go). Package actions says which declaration applies to a role
-- (actions/role_context.go), which status an error is answered with (actions/status_error.go) and
-- what values atomic operations take and return (actions/atomic_add.go); atomic_input.go makes their
-- input of the fields of a request. Before that, the add handler (generator.go, helpers.go,
-- relation_scope.go) makes the values of a record of the body, of defaults and of the scope. What an
-- atomic operation returns may be published (atomic_realtime.go): realtime.go checks the event,
-- stores it in a broker and hands it to the event streams of the clients that listen on its topics.
-- translations.go keeps the words of the languages and the responses made of them.
--
-- The files, each with its code:
--   Db/PreparedReads      db/prepared_views.go: preparedReads, begin, prepare, acquire, release, Close
--   Db/SelectCache        db/select_cache.go: queryCachedList as the two critical sections `look` and
--                         `complete` and the wait between them `await`
--   Db/SelectCache/Rows   db/select_cache.go: captureListSQL, bufferedSelectRows, prefixedSelectRows
--   Db/ListJoin           db/list_join.go: decodeListJoin behind the decoding of the JSON
--   Db/AtomicStatements   db/atomic_executor.go: the statements of Insert and Upsert, and
--                         atomicUpdateAssignment (Assignments)
--   SqlCache/Results      db/sqlcache/cache.go and expiry.go: Cache, its lookups under the read lock
--                         (`fast`) and the write lock (`locked`), completion, SetTTL, the expiry queue
--   SqlCache/ArgumentKey  db/sqlcache/argument_key.go: the encoding of arguments and the key
--   SqlCache/Scanner      db/sqlcache/sql.go: scanSQLTokens, tokenFlags, readOnly; trackSession of
--                         db/sqlcache/connector.go
--   SqlCache/Plans        db/sqlcache/pool.go: poolConnector, its prepare, release and Close
--   SqlCache/Connection   db/sqlcache/pool.go: poolConn, its query, ExecContext, BeginTx, release
--   Actions/Roles         actions/role_context.go: the five ResolveRole functions
--   Actions/Status        actions/status_error.go, and AtomicCommittedRejection of
--                         actions/atomic_add.go
--   Actions/Atomic        actions/atomic_add.go: AtomicValue, AtomicInput, AtomicRecord; atomicDBValue
--                         of db/atomic_executor.go
--   Actions/AtomicInput   atomic_input.go, and MarshalJSONArray and MarshalJSONObject of
--                         fields/module_field.go
--   Requests/AddInput     generator.go: actionAdd from the body to the values; mapRequestInput of
--                         helpers.go; rejectScopedSourceField and injectRelationScopeInput of
--                         relation_scope.go
--   Requests/Scopes       relation_scope.go: resolveRelationScope, and actionAdd within a scope
--   Translations          translations.go: LoadTranslationsFile, SetTranslationOverrides,
--                         translationResponse as a read without the lock and a critical section,
--                         Translate; the step relation publishes words and invalidates their
--                         response in two steps, as readers take no lock
--   Realtime/Values       TypedValue of renderer/renderer.go and RealtimeCorrelation of realtime.go
--   Realtime/Topics       realtime.go: the topics of a connection, readLoop with handleSubscribe and
--                         handleUnsubscribe
--   Realtime/Broker       realtime.go: MemoryBroker, its Publish and Replay
--   Realtime/Hub          realtime.go: realtimeHub.publish, and handleRealtimeSSE from the replay to
--                         the loop; Hub/Delivery has publishers and streams as a step relation
--   Realtime/Publish      realtime.go: publishRealtimeEvent, DeliverRealtime and their checks
--   Realtime/AtomicEvents atomic_realtime.go: the checks of declarations and results, and the events
--                         made of a result
--   Common                names of the standard libraries, tests on numbers, lists, and association
--                         lists for Go's maps
--
-- How the code is modelled. State is a record, and each critical section is a function from a state
-- to the next; where goroutines interleave, a step relation has one step for each critical section
-- and `Reach` is any sequence of steps. Objects that Go shares by pointer (flights, prepared
-- statements) stand in a heap under the number of their allocation, so that aliasing is visible. A
-- nil dereference is `none` for the whole step. Errors are values. Texts that are only compared
-- (statements as keys, names, roles, messages) are numbers; statements that are scanned and
-- arguments that are encoded are lists of bytes. Times are numbers of nanoseconds, settings that
-- are not positive are 0, and counters do not wrap. A queue that the source orders with
-- container/heap is a list in that order.
--
-- Fuel. The scan of a statement has one unit for each byte, as each round consumes at least one, and
-- the reader of an oversized result has at least one for each row. All other loops are structural.
--
-- Parameters. SHA-256, encoding/json, strconv, strings.ToUpper beyond ASCII, http.StatusText, the
-- conversion of floats and the text of a time are arguments of the definitions that use them, and so
-- are the callbacks of declarations; what the driver and the backend answer is an argument of the
-- step that asks them.
--
-- Not modelled. The generated handlers and the SQL text they build (generator.go, db/postgres_db.go,
-- and what db/atomic_executor.go reads) are mostly calls of gin, go-jet and database/sql. The
-- configuration endpoint, the OpenAPI document and the renderer's schema types are serialization.
-- Request validation and filters (helpers.go), the conditions that scopes add to reads, the
-- WebSocket transport of realtime.go with the replay that it sends through the channel, locales and
-- plural forms, the driver wrapper of db/sqlcache/connector.go but for trackSession, and the capture
-- of driver rows in db/sqlcache/rows.go are not covered yet.
mod Common
pub mod Actions
pub mod Db
pub mod SqlCache
pub mod Realtime
pub mod Translations
pub mod Requests
