-- ===== src/Lib.antt =====
-- Verification library of ocean.chat, a chat back end of NestJS services over Redis, MongoDB and NATS.
--
-- The program. Clients reach the API gateway (apps/oceanchat-api-gateway) over HTTP and the WebSocket
-- gateway over the binary Monkey protocol (libs/monkey). The auth service (apps/oceanchat-auth) keeps
-- the sessions of the users in Redis, issues pairs of tokens, and tells the gateways over NATS
-- JetStream which access tokens are revoked; every gateway pod keeps a blacklist in its memory. Numbers
-- for messages come from the sequence generator (libs/id-generator), which many pods share. Who may do
-- what is decided by libs/authorization from roles that are cached in memory and in Redis.
--
-- The files. Each file names at its top the code that it models.
--   * Prelude: names of the standard library, Boolean tests and lists over the native numbers, integers,
--     and results of calls that may throw. Exceptions: libs/common-exceptions/src, the error codes and
--     the kinds of exceptions.
--   * Store: the interface to Redis strings and to cache-manager, expiring maps whose documented
--     behaviour is a set of laws; RedisService.setnx on top of it; Store/Table shows that the laws hold
--     of a table with expiry times.
--   * Monkey: libs/monkey/src. Header, Framer, Flags and Processor follow codec/header.ts,
--     codec/framer.ts, enums/flags.ts and codec/processor.ts; Buffer is the part of the Node.js buffer
--     that they use. Their children hold the proofs.
--   * IdGenerator: libs/id-generator/src and libs/models/src/repositories/sequence.repository.ts. Script
--     is the two Lua scripts, Service is generateSyncSeqId with one state per awaited call, Steps and
--     Interleaving the runs of any number of calls, with locks that expire early, replies that are lost
--     and pods that crash; Decimal is the comparison of decimal texts in the scripts.
--   * Queue: Async is AsyncQueue of libs/cores/src/utils/async-queue.ts, Publisher is publishSafe of
--     libs/nats-jetstream-provisioner/src/nats-jetstream-publisher.ts, each with a step relation of
--     calls and completions in any order.
--   * Redis: libs/redis/src/redis.service.ts. CacheAside and SingleFlight are getOrSet, Service is the
--     commands on strings; Service/Table shows that the laws hold of a table with expiry times.
--   * Authorization: libs/authorization/src. Lru and RoleCache follow services/role-cache.service.ts,
--     Permissions follows logic/permission-checker.service.ts and guards/permission.guard.ts, Rooms
--     follows logic/validators, Catalogue is the tables in constants.
--   * Gateway: apps/oceanchat-api-gateway/src. Revocation follows token-blacklist.service.ts and
--     nats-events.service.ts, Guard follows jwt-auth.guard.ts. AuthController and UsersController follow
--     modules/auth/auth.controller.ts and modules/users/users.controller.ts, Cookies is the reading of
--     the Cookie header in the former.
--   * Auth: apps/oceanchat-auth/src. Sessions is oceanchat-auth.service.ts, with generateTokens, login,
--     logout and refreshToken, Interleaving is refreshToken with one state per awaited call; Login is the
--     way to it, of oceanchat-auth.controller.ts, common/guards/local-auth.guard.ts,
--     strategies/local.strategy.ts and users/users.service.ts.
--   * Users: apps/oceanchat-user/src/oceanchat-user.service.ts. Rules is validateCreateUserDto, Accounts is
--     create, validatePassword and addDevice over the collection of users with its index on names, Queries
--     is the queries for roles.
--   * Settings: libs/settings/src/settings.service.ts. Reading is getSettingValue, Writing is onModuleInit
--     and setSettingValue with libs/models/src/repositories/setting.repository.ts, Defaults is
--     default-settings.ts.
--   * Models: Changes is libs/models/src/mongo, the watcher of the change stream.
--   * Nats: libs/nats-jetstream-provisioner/src. Subscriber and Decoding are base-nats-subscriber.ts,
--     Provisioner is nats-jetstream-provisioner.service.ts; LoginEvents is
--     apps/oceanchat-user/src/modules/nats-events/nats-events.service.ts.
--   * Rpc: calls between services. Client is the handling of errors that the callers in apps share, with
--     isErrorResponseDto and handleRpcException of libs/common-exceptions/src; Breaker is
--     libs/cores/src/modules/circuit-breaker/circuit-breaker.service.ts.
--   * Http: Idempotency follows libs/cores/src/interceptors/idempotency.interceptor.ts, Filter follows
--     libs/common-exceptions/src/filters.
--   * Flows: what the auth service and the gateways do together, and the gateways and the user service:
--     RoleQueries is rpc-role.data-source.ts of the gateway under the role cache, RemoteRoles the checks
--     on top of it.
--
-- How state is modelled. A service is a record of what it keeps; a handler is a function from that
-- record and its input to a new record and a result, with the exceptions of the code as values. Where
-- calls interleave (the sequence generator, the queues, the requests with one idempotency key, the
-- refreshes of one device) a step relation gives the possible orders and the theorems hold on all runs;
-- elsewhere a handler runs in one step. A call that can fail does so where an argument says it. Records
-- of the model that the code does not keep, such as the list of all issued numbers, are named where they
-- are declared.
--
-- Bounds and fuel. Numbers of the code that may be negative are integers; text is a list of character
-- codes; names and ids are natural numbers, times are milliseconds. Redis counts up signed 64-bit
-- decimals, and an increment that would leave them fails. The check of access to a room recurses over
-- parent rooms on fuel, one unit for each parent on the way up. Every other recursion is structural.
--
-- Parameters. HINCRBY, the cipher of the protocol, the signing and reading of tokens, the generated
-- encoder of acknowledgements, the answers of role sources and room providers, the stores, the commands
-- of Redis, the JetStream server, the breakers of opossum, the strategy of passport, the reading of JSON,
-- the encoding of cookie values by express, the answers of other services, and fresh unique ids are
-- arguments, with what the code relies on as hypotheses.
--
-- Not modelled: modules and start-up code, the controllers of the user service, database schemas,
-- generated messages, translations, tracing and metrics, because they hold no state of the program or
-- only pass calls on.
pub mod Prelude
pub mod Exceptions
pub mod Store
pub mod Monkey
pub mod IdGenerator
pub mod Queue
pub mod Redis
pub mod Authorization
pub mod Gateway
pub mod Auth
pub mod Users
pub mod Settings
pub mod Models
pub mod Nats
pub mod Http
pub mod Rpc
pub mod Flows
