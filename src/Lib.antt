-- ===== src/Lib.antt =====
-- Shardman: the control plane of a sharded database, and what is proved of it.
--
-- The program assigns shards to buckets of keys. internal/bucket maps a shard key to a bucket id and
-- decides where it goes; internal/store keeps the table of the shards in PostgreSQL and moves them
-- through the states of internal/fsm; internal/resolve answers a key with a shard, and promotes a
-- standby or replaces a silent shard on the way; three supervisors (internal/seal,
-- internal/retention, internal/health) drain full shards, clean the shards of old buckets, and
-- replace silent ones. internal/grpcapi offers all this to clients, administrators and agents, and
-- internal/topology wakes the streams by which clients follow the shards. pkg/client resolves keys
-- from the topology that it holds, and asks the server where that does not suffice; internal/agent
-- runs beside a shard, reports its size, and drains or empties it when the server says so.
--
-- Fsm             internal/fsm/fsm.go: the states, the roles and the transition table.
-- Bucket          internal/bucket/bucket.go and routing.go. Spec: ParseSpec. Key: parseTimeKey,
--                 parseNumericKey, stringifyKey, hashKey. Id: ID, CurrentID, Index, IDFromIndex.
--                 Routing: ClassifyWrite, BucketsOutsideRetention, ValidateBootstrap, with a theorem
--                 in Routing.Accepted. Decimal and Calendar hold what is used of strconv, fmt
--                 and time. Platform is what comes from outside: floats, RFC 3339, JSON, letter
--                 case, xxhash, and what a JSONB column gives back of a text. Window, Eviction,
--                 Partition and Width hold theorems.
-- Store           internal/store/store.go and its migrations. Shard, Db: the tables, their
--                 constraints, and transactions, which run alone and are rolled back on an error.
--                 Queries: the reads. Register, Rotate: the transactions. Promote:
--                 AutoPromoteIfNoActive. Config: ClusterConfig, Bootstrap, GetConfig and the cache.
--                 Machine: the transactions as one type of operations, and histories. Moves to
--                 Conformance: what an operation may do to a row. Lifecycle, Topology, Constraints,
--                 Outcome, Rotation, Promotion, Quiet, Readback, Described, Cache, Reload and History
--                 hold theorems.
-- Resolve         internal/resolve/resolve.go: Active (ensureActive, failoverStaleActive), Service
--                 (ResolveWrite, ResolveRead), and theorems in Serving, Success, Answers and
--                 Histories.
-- Supervisors     the rounds of internal/seal/seal.go, internal/retention/retention.go and
--                 internal/health/health.go, and theorems in Histories, Cleaning, Sparing, Fresh, Still
--                 and Settled.
-- Broadcast       internal/topology/broadcast.go: the subscribers and their channels of one number.
-- Server          internal/grpcapi/server.go. Topology: buildTopology, shardToProto. Access: the
--                 cluster key. Requests, Replies, Handlers: every method but Watch, with `serve`
--                 for all of them. Watch: notifyTopology and the loop of one stream among the
--                 steps of the other goroutines. Theorems on streams in Delivery, Streams and
--                 Wakeups, on calls in Guard, Rollbacks, Failures, Consistency, Reaches, Outcomes,
--                 Announcements, Notices and Configured.
-- Client          pkg/client/local.go: Local (tryResolveWriteLocal, tryResolveReadLocal), and theorems
--                 in Messages, Agreement and Reads. pkg/client/client.go: Remote, the client's calls
--                 on the server's handlers, and theorems in Fallback and Refresh.
-- Config          internal/config/config.go: LoadServer, LoadAgent, and a theorem in Ready.
-- Agent           internal/agent/agent.go: Tick, which calls the server's handlers; the SQL on the
--                 shard's own database is a parameter (Postgres). Theorems in Reports and Recycling.
-- Tests           a concrete platform and cluster, and the theorems at them.
--
-- A Text is a list of bytes. An integer of Go is an integer with `wrap64` at every operation that
-- may overflow. A time is a number of seconds since 1970 in Bucket and of nanoseconds in Store.
-- NOW(), the ids that other transactions lock (FOR UPDATE SKIP LOCKED) and new uuids are arguments.
-- The column bucket_spec is a JSONB, which rewrites a text (spaces, the order of keys, keys given
-- twice): a row holds what Platform.jsonb gives back of the request's text, or the insert fails, while
-- the cache of the process that ran Bootstrap keeps the request's text. Where a theorem needs that both
-- texts mean the same, it has the hypothesis IsPlain. Env.timeout is what Store.HeartbeatTimeout()
-- returns, for the queries that take it. The rows of a table stand in the order of their ids. The only fuel is that of the loops that
-- divide by ten (Decimal.digits, Id.digit_width), whose value is fuel enough, as each round makes it
-- smaller.
--
-- Not modelled: the pool, contexts, and failures of the database other than its constraints;
-- metrics (RefreshMetrics of the server too, which also announces the version) and logs; the tickers
-- that start a supervisor's round or an agent's tick; the client's connection and the failures of the
-- transport; and the commands. The calls of one resolution follow one another with no other
-- transaction between them; so do the two reads of buildTopology, and the read and the announcement
-- of notifyTopology, and the subscription of Watch and its first topology. The sequence of the shard
-- ids is rolled back with its transaction, where PostgreSQL leaves a gap. A stream's client asks for
-- every topology (no since_version), as pkg/client/client.go does.
pub mod Prelude
pub mod Fsm
pub mod Store
pub mod Resolve
pub mod Supervisors
pub mod Bucket
pub mod Broadcast
pub mod Server
pub mod Client
pub mod Config
pub mod Agent
pub mod Tests
