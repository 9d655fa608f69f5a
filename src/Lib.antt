-- ===== src/Lib.antt =====
-- GlassOps: a monitoring server and its agents.
--
-- An agent on every host collects metrics and connection events and sends them to the backend. The
-- backend stores them in SQLite, keeps summaries of them, and serves them over an API that is
-- guarded by rate limits. The modules below model the parts that carry the program's own logic.
--
-- RateLimit (backend/app/middleware/rate_limit.py): the four stores of time stamps are the fields
--   of `State`; each function of the file is a definition of its name on this state, and `handle`
--   is `RateLimitMiddleware.__call__`. RateLimit/History relates a pruned list to a full history,
--   RateLimit/Lockout and RateLimit/Release are about the lockouts, RateLimit/Throttle is about
--   the limit on requests.
-- NetAudit (agent/agent/collectors/net_audit.py): `NetAuditCollector`. NetAudit/Types has rows,
--   keys and events, NetAudit/Rollup is `_maybe_rollup`, NetAudit/Collector is `collect`. A `Tick`
--   is what one call reads: the clock, the snapshot and the interface counters. NetAudit/Proc
--   parses the tables of /proc/net, NetAudit/Source is `HostNetnsProcSource` with the scan for the
--   processes of sockets, NetAudit/Attribution is about a snapshot and its cache.
-- Metrics (backend/app/database.py): raw metrics and what is derived from them. Metrics/Tables has
--   the tables of `init_db` and `store_metric`, Metrics/Advance is `_mark_pending` and
--   `_advance_bucket`, Metrics/Downsample is `downsample_metrics`, Metrics/Cleanup is
--   `cleanup_old_metrics` with its SQL conditions.
--   Metrics/Order, Metrics/Cursor, Metrics/Generation, Metrics/Publication and Metrics/Exact are
--   about generations of a bucket; Metrics/Ids, Metrics/Retention, Metrics/Sealing and
--   Metrics/Sealed are about retention; Metrics/Minimum, Metrics/Progress, Metrics/Scan and
--   Metrics/Floor are about the floor of the scan. How SQLite orders agent ids is an argument.
-- Users (backend/app/routers/users.py, with the user functions of backend/app/database.py and
--   `require_admin` of backend/app/dependencies.py): Users has the table and its functions,
--   Users/Router the requests, each from its gate to its answer as one function, where in the
--   source other requests may come between a check and the write after it. Users/Admins is about
--   the last active admin, Users/Revocation about the tokens of a changed account. The password
--   policy and bcrypt are arguments.
-- Net (backend/app/net.py): the trusted proxies with their cache, `resolve_client_ip`, whose result
--   is the address that RateLimit counts for, and `request_is_secure`; Net/Spoofing is about the
--   cache and the headers. Python's `ipaddress` is the record `Addresses`, an argument.
-- Auth (backend/app/services/auth_service.py): tokens, the blacklist, both changes of a password,
--   each call as one function. Auth/Origin is backend/app/websocket/ws_auth.py, Auth/Gate is
--   `JWTAuthMiddleware` of backend/app/middleware/auth.py, whose `call` ends in a `Verdict`; it
--   reads the accounts of Users and the tokens of Auth. Auth/Logout, Auth/Floor, Auth/Admission
--   and Auth/CrossSite hold the proofs. PyJWT, SHA-256 and bcrypt are the record `Library`, what is
--   relied on of PyJWT are the records `Documented` and `EncodesBack`; `urlparse` is an argument.
-- Rpc (backend/app/services/agent_rpc.py, and `call_remote` of agent_dispatch.py): `_pending`,
--   `_streams` and `_send_locks`, with the runs of `call` and the states of streams that tasks hold
--   on to. A definition is what runs between two awaits; Rpc/Events has them as events in any order,
--   and the tickets of single calls. Rpc/Tracking, Rpc/Tickets and Rpc/FirstAnswer hold the proofs.
-- Ingest (backend/app/services/net_audit_ingest.py): the cleaning of what an agent reports, in
--   Ingest/Events, Ingest/Rollups and Ingest/Extract, which raise as `none` and as `raised`, and the
--   time stamp of `ingest_metric` of backend/app/websocket/agent_ws.py. Json has the decoded
--   messages; a float is a number of millionths. Ingest/Bounds, Ingest/Untrusted and
--   Ingest/Wellformed hold the proofs. `ipaddress` and `str` are arguments.
-- AuditLog (backend/app/database.py): the tables that Ingest fills, `store_net_audit`,
--   `cleanup_net_audit`, `get_net_conn_events` and `get_net_flow_rollup`. AuditLog/Paging and
--   AuditLog/Ids are about a client that reads page after page.
-- Alerts (backend/app/services/alert_service.py): the dictionaries of the throttle, the settings
--   and their cache. Alerts/Config reads and saves the settings, Alerts/Sending is
--   `send_alert_email` in the parts between its awaits, Alerts/Target is
--   backend/app/services/smtp_validate.py. Alerts/Throttle, Alerts/Settings, Alerts/Jobs and
--   Alerts/Outside hold the proofs. Fernet, the test of an address, the resolver and the network
--   are arguments.
-- Fence (backend/app/wal_fence.py, and `read_apply_record` of backend/app/wal_recovery.py): the
--   records beside a manifest are `Files`, each absent, torn or sealed. Fence/Authority checks the
--   lease and the signed acknowledgement, Fence/Inventory the containers of the host, Fence/Claims
--   and Fence/Finish are `ManifestFence` with `SourceApplyCapability`, Fence/Quiesce is `fence`
--   with its preflight from the inventory on, Fence/Release and Fence/Release/Start are `release`.
--   Fence/Steps has these operations in any order, each as one step, a release when it ends, with
--   the files that its tests found at any time before, since it takes no lock; where a write or a
--   command of a dying process does not come to its end is an argument. Fence/Sound, Fence/Once,
--   Fence/Spent, Fence/Final, Fence/Quiet, Fence/Policies, Fence/Attempts and Fence/Restored hold
--   the proofs. Docker is the record `Docker`, and what is relied on of it `IsDocker`; digests and
--   the file system are the record `Outside`.
-- Transfer (backend/app/account_state_transfer.py): Transfer has `export_bundle` and the tests of a
--   bundle, Transfer/Restore is `restore_bundle` with its transaction; what a failed ROLLBACK leaves
--   is an argument. Transfer/Exported, Transfer/Restored and Transfer/Retry hold the proofs. SHA-256,
--   the digest of a table, ORDER BY, the INSERTs and the foreign key check are the record `Outside`.
-- Prelude: lists measured by native numbers, dictionaries in insertion order, decided equality, the
--   sort of rows that a number tells apart (Prelude/Sorting), and functions that may raise, with the
--   exceptions as values (Prelude/Raises).
--
-- Times are whole microseconds, and each reading of a clock is an argument of its own, so a clock
-- may go back between two of them where a theorem does not say otherwise. `round(x, 3)` rounds
-- to milliseconds, half to even. A table with a primary key is a dictionary of it; a transaction
-- is one function on the tables, since the backend serialises its writers. `ORDER BY` is a sort by
-- insertion, and a `LIMIT` without an order takes the rows in the order of the table. What
-- `_agg_new`, `_agg_add` and `_agg_finalize` do with a decoded sample is the record `Fold`, an
-- argument of the aggregation, with the errors that `_agg_add` lets through and what JSON makes of an
-- accumulator; a transaction in which a sample raises is undone.
--
-- The loop over chunks of 400 ids runs on as much fuel as there are ids: every round takes one or
-- more away, and the theorems on `cleanup_old_metrics` are about the whole of it.
--
-- Not modelled: the text of answers and log lines, SQLite itself, its crash recovery, the recovery
-- of a write-ahead log and the probe for open descriptors, the modes and fsyncs of files, the
-- contents of the report and the command line of a transfer, WebSocket transports, TOTP and the
-- login routes, the thresholds of alerts, and the frontend: they are input and output, calls of
-- libraries, or apart from what is above.
pub mod Prelude
pub mod RateLimit
pub mod NetAudit
pub mod Metrics
pub mod Users
pub mod Net
pub mod Alerts
pub mod Auth
pub mod Rpc
pub mod Json
pub mod Ingest
pub mod AuditLog
pub mod Fence
pub mod Transfer
