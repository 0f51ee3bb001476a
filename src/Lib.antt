-- ===== src/Lib.antt =====
-- DrainCtl watches remote desktop hosts. A service on each host reports to a dashboard, which stores
-- what it hears in SQLite and passes commands back with its answers. This library is about the parts
-- of it that keep state: session actions from the dashboard's request to the agent's report, commands
-- that update agents, the offline and recovery transitions of the hosts, the snapshots of sessions that
-- hosts send with their workload statistics, and on each host the updater, the counters of performance
-- thresholds and the detector of event spikes.
--
-- Prelude: names that the other modules share. Int: the integers, with the tests of the source. Rows:
--   a table as a list of rows, and SELECT, UPDATE, DELETE and ORDER BY on it. Distinct: keys that are
--   unique. Batch, Find, Sorted: lemmas on loops of updates, on queries by key and on LIMIT queries.
-- Action: a session action on the dashboard (internal/telemetry/session_action_store.go, with the types
--   of internal/sessiondata/model.go and the schema in internal/telemetry/migrate_sessions.go). Store:
--   the tables and transitionMatchingActive. Outbox: Enqueue; Outbox/Target: validateActionTarget.
--   Lifecycle: Deliver, Complete, Expire, CancelForPrivacy, PurgeSnapshotsForPrivacy, Retain. Valid:
--   the constraints of the schema. History: sequences of transactions. Effects, Final, Idempotent and
--   Delivery carry the lemmas and the theorems on them.
-- Agent: the same action on its host. Ledger: internal/telemetry/session_action_ledger.go. Executor:
--   Execute of sessions_actions_windows.go. Runtime: the queue of completions in
--   internal/svc/check.go. Effects, Once, Replay and Queue are about them.
-- Freshness: internal/telemetry/freshness.go, over the tables servers and host_freshness.
-- ForceUpdate: internal/dashboard/forceupdate.go; Outbox: internal/telemetry/force_update_outbox.go;
--   Accepted: what an acceptance promises.
-- Threshold: internal/perfmon/threshold.go; Streak: its counters over a list of evaluations.
-- Spike: internal/evtspike/detector.go; Confirm: its window of three flags; Flood: its cap.
-- Host: canonical host names (internal/sessiondata/validation.go).
-- Uuid: the version 7 identifiers of internal/sessiondata/model.go; Roundtrip, Accepts and Order are
--   about their text and their order; Bytes and Sixteen carry the lemmas.
-- Generation: internal/telemetry/session_generation.go; Next and Reserve are about it.
-- Session: the records of a snapshot (internal/sessiondata/model.go). Project: ProjectSnapshot. Compact:
--   CompactSnapshotForWire. Aggregate: CalculateAggregates. Keeps, Cut, Exact and Bounds are about them.
-- Workload: internal/sessiondata/workload.go. Codec: its encodings, and those of
--   internal/telemetry/session_workload.go. Store: the rows of that file. Sums, Counts,
--   Percentile, Roundtrip and Scan are about them. Varint: the variable-length integers of encoding/binary.
-- Snapshots: internal/telemetry/session_store.go, over the tables of internal/telemetry/
--   migrate_sessions.go. Validate: validateSnapshotForStore. Rows: the rows that it writes. Apply: Apply
--   and the purges. Recorded, Newest and Replay are about sequences of them.
-- Updater: one poll of internal/updater/updater_windows.go, with version_windows.go and
--   backoff_windows.go. Trigger: TriggerCheckNow and its ledger. Manifest: manifest.go. Checked, Order,
--   Retry, Ledger and Signed are about them.
-- Tests, in each of these: a small state, and the theorems at it.
--
-- Correspondence. A function of the source is the definition of the same name in snake case. A
-- transaction is a function from the tables to the tables and its result; one that fails is rolled
-- back, so it returns the tables that it got, or an error alone. Event ids, the clock, the session
-- lookup, the WTS calls and failures of the agent's database are arguments. Times are the integers of
-- milliseconds that the source stores, and a NULL column is `none`. A failed statement has no effect.
-- The WTS calls of the agent are kept in a log together with the action they were made for; the source
-- keeps no such log. The float64 of the thresholds and of the detector is an argument with its
-- comparisons and its arithmetic; so is that of the workload statistics, with the rounding, the floor,
-- the logarithm and the power of the package math. The text functions of Go, net.ParseIP, the source of
-- random bytes and the JSON of the processes of a session are arguments too; so are strconv.Atoi,
-- Ed25519, the hash of a file, and the calls that the updater makes to fetch, verify and start an
-- installer, with a log of its starts. A map of bins is a list of bins, each once. A text is a list of
-- bytes; an identifier is a list of 16 of them. Host names are compared through two functions: the one
-- that Go applies to a name, and the text that SQLite compares under NOCASE.
--
-- Bounds: most loops run over a list. The two loops of the detector run over the iterations left, as in
-- the source at most 10000000; the loops of the decoders run over the number of entries that the source
-- bounds, so no other fuel is used. 20 is the number of actions in a report, 1024 the capacity of the
-- outbox of force updates, 10000 the number of bins and 500 the number of sessions of a snapshot.
--
-- Not modelled: the failure of a statement inside a transaction on session actions, which rolls it
-- back; the HTTP layer, the frontend, the installer and the Windows calls; and the parts that the manifest lists
-- as not modelled (checks and notifications, configuration, metrics, the JSON of snapshots).
pub mod Prelude
pub mod Action
pub mod Agent
pub mod Freshness
pub mod ForceUpdate
pub mod Threshold
pub mod Spike
pub mod Host
pub mod Varint
pub mod Uuid
pub mod Generation
pub mod Session
pub mod Workload
pub mod Snapshots
pub mod Updater
