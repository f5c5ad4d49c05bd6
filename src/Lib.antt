-- ===== src/Lib.antt =====
-- LiteChecker: agents probe VPN targets and report to a collector, which stores the reports,
-- watches for silent agents and delivers messages through an outbox. A native agent updates itself
-- from a signed channel.
--
-- How the parts interact. An agent takes a number from `SequenceStore`, probes its targets with
-- `probe_all`, lets `confirm_failures` look again at what failed, and keeps the report in
-- `PendingReportStore` until the collector has it. `CollectorDB.accept_report` stores the event and
-- queues its messages; `offline_transitions` queues alerts; a dispatcher claims the messages chunk
-- by chunk under a lease, and acknowledges them or records a failure. The native reporter has no
-- collector: it queues its messages in `DirectOutbox` and sends them itself.
--
-- Which file is about which part (paths from the repository's root):
--   Models.antt, Security.antt: src/litechecker/models.py (the probe's models and the validator of
--     `ProbeResult`) and `is_forbidden_ip` of src/litechecker/security.py.
--   Probe.antt and Probe/: src/litechecker/probe.py: `probe_target`, `_probe_sni`, `_bound_target`,
--     `_map_error_code`, `probe_all`. A loop over the addresses is a recursion whose round either
--     stops with a result or goes on with the variables of the loop.
--   Recheck.antt and Recheck/: src/litechecker/recheck.py, the whole of it.
--   State.antt and State/: src/litechecker/state.py: the lock, the atomic write, `SequenceStore`,
--     `PendingReportStore`, `SnapshotStore` with the difference of two snapshots, and
--     `CollectorAckStore` (Acks). A call gets a `Host`, which says whether the lock, the write and
--     the release succeed.
--   Collector.antt and Collector/: src/litechecker/collector/db.py: `accept_report` (Reports),
--     `_sync_registry` (Registry), `offline_transitions` (Offline), the outbox (Outbox,
--     DeadLetters, Queue), `_prune_history` (History), `chunk_message` of
--     src/litechecker/collector/reporting.py (Chunks), `NotificationDispatcher` and
--     `TelegramClient` of src/litechecker/collector/telegram.py (Dispatch, Telegram), the queries
--     that only read (Reading), and sequences of all that write (Run). The database is the record
--     `Db` of its tables; a transaction either returns the new one or raises and leaves the old
--     one.
--   Direct.antt and Direct/: src/litechecker/direct_outbox.py, the queue of the native reporter.
--   Update.antt and Update/: src/litechecker/update_manifest.py (Version, Manifest), the install
--     state and the release directories of src/litechecker/update_store.py (Install, Store), and
--     `check_for_update` of src/litechecker/updater.py (Recovery, Switch, Check). A call of the
--     host or the network takes its answer from an `Environment` at the next tick; the `Machine`
--     lists every state of the install file and of the running release that a crash could leave.
--   Measure.antt and Measure/: src/litechecker/measurement.py: the fetch of the subscription
--     (Fetch), `query_xray_version` (Xray) and `measure_cycle` (Probes, Run, Report, Cycle), which
--     joins `SnapshotStore.consider`, the probes, the confirmation pass and `SequenceStore.next`.
--   Agent.antt and Agent/: src/litechecker/agent.py: `deliver_report`, which sends the report that
--     was pending and then its own while other processes may write the same file; and `run_cycle`
--     and `run_agent` with `once` (Cycle), which join `measure_cycle`, the delivery and
--     `CollectorAckStore.record`.
--   Json.antt: JSON values with dictionaries as lists of their items.
--   Prelude.antt and Prelude/: equality tests, lists, calls that raise, and the text of a number.
--   Tests.antt and Tests/: the theorems at concrete inputs.
--
-- Numbers. Times are microseconds since the epoch, in an update seconds, and, like sequences and
-- counts, natural numbers; a subtraction that could be negative is written as an addition on the
-- other side. Python's and SQLite's integers do not wrap around in the ranges used. Loops are
-- structural recursions, so that no fuel is needed; four loops have a fuel that is proved to be
-- enough: the text of a number has at most as many steps as the number says, the parts of a text
-- are at most as many as its characters, the search for their number ends before the limit of a
-- chunk, since each round has wider marks, and a dispatcher makes at most one claim more than
-- there are waiting chunks.
--
-- Arguments that stand for other code: the resolver, the TCP, TLS and tunnel diagnostics
-- (`Network`), the tables of `ipaddress` (`IpTables`), the clock, the sleep and the second probe of
-- the confirmation pass (`Pass`), which tasks of a batch finish before the deadline, the chunks of
-- the messages that src/litechecker/collector/reporting.py writes, the category of a code point,
-- the digest of a report, the id that `uuid4` gives, which texts `datetime.fromisoformat` reads,
-- the JSON, URL, base64, time and signature libraries of the metadata (`Formats`), and, of an
-- update, the adapter, the fetcher, the locks, the validation and the staging of an archive and the
-- removal of a directory (`Environment`), and, of a measuring cycle, the transport, the parser, the
-- prober, the version check and the readings of its budget (`Cycle`), of a delivery, the sender,
-- the other processes and the locks (`Surroundings`), of a cycle, the other fields of a report's
-- dump and the text of a time (`Setup`), and, of the dispatcher, its clock, the calls of others
-- (`Dispatcher`) and the responses (`Exchange`).
--
-- Not modelled: the schema, its migrations and `storage_stats` of db.py; the Xray process; the
-- file of the attempts of a cycle, the waits between the cycles of `run_agent` and the polling of
-- the delivery lock of state.py; the cancellation of a delivery or of a dispatcher; the HTTP
-- server and the requests and the transport of the Telegram client; the archive of an update and
-- the services around the updater; the cancellation of an update: its `CancelledError` is raised
-- again, after at most the removal of a staged release, so that it leaves one of the moments that
-- a run goes through; addresses with an IPv6 scope id; installation and the platform backends,
-- which are calls of the operating system.
pub mod Prelude
pub mod Json
pub mod Models
pub mod Security
pub mod Probe
pub mod Recheck
pub mod State
pub mod Direct
pub mod Collector
pub mod Measure
pub mod Agent
pub mod Update
pub mod Tests
