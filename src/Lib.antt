-- ===== src/Lib.antt =====
-- The RBAC server of LLMariner and the package that its client services use.
--
-- The program. A goroutine of the server (`Sync` of server/internal/cache/cache.go) lists API keys,
-- clusters, organizations, projects and users from two other services, once at the start and then at
-- each tick, and replaces the cache's maps by what the lists say. The handler `Authorize`
-- (server/internal/server/authorization.go) gets a token, a resource and a capability. It looks the
-- token up as the secret of a cached API key, or else has it introspected
-- (server/internal/token/validator.go), finds the project that the request is about and the roles of
-- the user there, and compares the scopes that are configured for these roles with the one that is
-- asked for. `AuthorizeWorker` (server/internal/server/authorization_worker.go) does the same for
-- the registration key of a cluster. Services call the two handlers through the interceptors of
-- pkg/auth. `run` of server/cmd/run.go starts the parts and stops them; a goroutine of
-- server/internal/monitoring/monitoring.go reports how old the cache is.
--
-- The files.
--   * Prelude, Prelude/*: library names and helper lemmas. Outcome: how a call of Go ends, with a
--     value, an error or a panic. GoMap: maps with string keys, as association lists, newest first.
--   * UserManager: the messages of user-manager and cluster-manager, by their documented fields.
--     Rbac: the messages of api/v1/rbac_manager_service.pb.go.
--   * Cache: the types of cache.go, `Store` and its getters. Cache/Update: `updateCache`, a loop
--     each as a fold, `build_tables` up to the lock and `publish` under it. Cache/Sync: `Sync` and
--     `WaitForSync`. Cache/Consistency: an invariant of the maps.
--   * Server: the interface `cacheGetter` and the server's state. Server/Reads: the monad of a
--     handler. Server/Roles, Server/Envs, Server/Projects, Server/Authorize: authorization.go.
--     Server/Projects/Moments and Server/Authorize/Moments follow a handler read by read.
--     Server/Worker: authorization_worker.go. Server/Serving: `New`, `Run` and `GracefulStop` of
--     server.go.
--   * Config: server/internal/config/config.go. Monitoring: monitoring.go. Boot: server/cmd/run.go, its
--     process as a relation of steps. DatabaseCreator: database-creator/cmd/run.go and
--     database-creator/cmd/config.go.
--   * Token: token.go; Token/Validator: validator.go.
--   * Auth: userinfo.go and clusterinfo.go of pkg/auth; Auth/Text: the functions on headers and
--     method names of interceptor.go.
--     Auth/Interceptor: interceptor.go; its Keyed, Listed and Validated follow a call through the
--     server, the validator and the cache. Auth/Worker: worker_interceptor.go and worker_client.go.
--     Auth/Metadata: metadata.go and header_matcher.go. Auth/Transport is the interface of what gRPC
--     does with metadata between two services; Auth/Metadata/Forwarded, Auth/Interceptor/Http/Agreed
--     and Auth/Worker/Listed follow a call over it.
--   * Tests: runs at a small installation, and the theorems applied at it.
--
-- State and concurrency. A getter of the store takes the read lock on its own, so that an update may
-- fall between two reads of one handler. A handler is therefore a function of a history, which
-- gives the cache that each read sees by the number of the reads before it; it answers with an
-- outcome and the number of reads. `steady g` is the history without an update. The goroutine of
-- `Sync` is the only writer; its runs are given by a list of events, a tick with the answers of the
-- listings or the end of the context.
-- A `Process` of Boot has the stage of `run`, the store, the state of each
-- goroutine, the registered metric and whether a signal waits; any enabled step may come next.
--
-- Bounds. Every loop is a recursion on a list, but for the loop of `validate` over the indices of a
-- key set, which recurs on the number of the indices that are left; no fuel is needed. The program
-- computes with machine integers only there, where they are below the length of a slice, and in
-- `time.Since`, which stops at the longest duration, 2^63 - 1 nanoseconds. A time is a natural
-- number, and the integers of a configuration have no bound: they are only compared with zero.
--
-- Parameters. `normalize` is `userid.Normalize` of user-manager, of which nothing is assumed. The
-- server's introspector is a function from a token to an outcome. The stubs of gRPC are functions
-- from a request to the response or the text of an error, and `new_client` makes them from an
-- address. For the validator, `parse` is the parser of the JWT library and `fetch` the fetch of the
-- key set. `read_file` and `unmarshal` read and decode a configuration file, `listen` opens a port
-- and `serve` serves it. The registry of the metrics library is the interface of Monitoring with its
-- documented laws, `Transport` is the delivery of gRPC metadata with its documented laws (keys are
-- compared in lower case, the values of one key arrive in order), and `seconds` turns a duration
-- into a floating-point number. For the database creator, the checks and the opening of a database
-- are parameters.
--
-- Not modelled. The gRPC and HTTP servers behind `serve`, logging, generated code, the registration
-- of commands (main.go and root.go of both programs) and the delay before the server stops, of which
-- only its place among the steps is kept. The texts of those errors that every caller drops are
-- constructors.
mod Prelude
pub mod Outcome
pub mod GoMap
pub mod UserManager
pub mod Config
pub mod Cache
pub mod Rbac
pub mod Monitoring
pub mod Token
pub mod Server
pub mod Auth
pub mod Boot
pub mod DatabaseCreator
mod Tests
