-- ===== src/Lib.antt =====
-- Verification of node-monitor, the collector, probe and database of node metrics under
-- node_monitor/.
--
-- A probe runs on each node and sends its readings as lines; a session for each node reads them,
-- reconnects, and passes the messages to the node's pipeline, which makes storage records of them.
-- The record queue takes the records of all nodes to the writer thread, which gives them to the
-- buffered writer and runs the upkeep. The buffered writer writes to the database, or to a spool on
-- disk while the database is away, and replays the spool when it is back.
--
--   Common                  lists, slices, dictionaries and tests; no code of the repository
--   Records, Values         node_monitor/pipeline/records.py and timestamps.py, and what a row holds
--   Probe.Chunks            node_monitor/probe/probe.py: _encoded_chunks
--   Probe.Schedule          probe.py: _next_due
--   Probe.Gpu               probe.py: _Census._query_gpus and _suspend_gpu
--   Probe.Lock              probe.py: ProbeLock._acquire with _signal_probe and _wait_for_lock
--   Probe.Tracker           probe.py: ProcessTracker
--   Probe.Stat              probe.py: parse_stat, _parent_kind, _status_fields
--   Probe.Process           probe.py: _read_process, _resolve_uid
--   Probe.Scan              probe.py: scan_processes, _enrich_parents
--   Pipeline.Rules          node_monitor/pipeline/rules.py: the tables
--   Pipeline.Classify       node_monitor/pipeline/classify.py
--   Pipeline.Minutes        node_monitor/pipeline/node_metrics.py: MinuteAggregator (Pairs: its deltas)
--   Pipeline.Usage          node_monitor/pipeline/usage.py: tallies (Tallies), rows and the
--                           aggregator (Rows)
--   Pipeline.Enrich         node_monitor/pipeline/enrich.py
--   Pipeline.Node           node_monitor/pipeline/node_pipeline.py: NodePipeline
--   Collector.Stderr        node_monitor/collector/session.py: _StderrLog
--   Collector.Link          session.py: _pump, _handle_line, _note_boot_id
--   Collector.Session       session.py: run, and the outcome of a session
--   Collector.Queue         node_monitor/collector/record_queue.py
--   Collector.WriterThread  node_monitor/collector/writer_thread.py
--   Collector.Upkeep        node_monitor/collector/upkeep.py
--   Collector.Daemon        node_monitor/collector/daemon.py: callbacks, startup and shutdown
--   Database.Storage        what the buffered writer needs of the spool, the writer and the clock
--   Database.Buffered       node_monitor/database/buffered.py; Journal gives any storage a journal of
--                           the calls made on it
--   Database.Spool          node_monitor/database/spool.py
--   Database.Codec          node_monitor/database/codec.py: the records in the spool
--   Database.Migrate        node_monitor/database/migrate.py
--   Database.Maintenance    node_monitor/database/maintenance.py: partitions
--   Database.Writer         node_monitor/database/writer.py: the plan of a batch; the upserts
--                           (Apply), and write and ping (Attempt)
--
-- Each module has a record for the state of its part and one function for each operation; a branch on
-- a computed value is a helper by clauses. The children of a module prove what it does, and the
-- modules Tests hold examples. What other threads, the event loop, processes, the clock, the operating
-- system and the database do is given to a function as an argument: as a schedule of wake-ups (Queue),
-- a list of sessions or reads (Session, Link), of polls (Lock), of turns (WriterThread), or as an
-- interface (Storage, Node). Regular expressions, json.loads, UTF-8 decoding and the text of datetimes
-- are parameters. Times are natural numbers in place of floats and datetimes, so the rounding of
-- floats is not modelled; the delay of a reconnection is exact, in parts of 2 ** -54. Loops run over
-- lists; the loop that bounds the waiting censuses runs on the number of censuses, one of which each
-- turn removes.
--
-- In Usage and Enrich the floats are an opaque type with the arithmetic the code uses. In Maintenance
-- the calendar is a parameter, and errors other than the wait for a lock are left out; in Stat a text
-- is the list of its characters' codes.
--
-- Not modelled: the text of SQL, queries.py and bootstrap.py, the inserts of summaries and events, the
-- command line, the configuration, the reading of /sys and of the other files of /proc, spawning and
-- signalling of processes, asyncio, the files of instance.py, logging. The patterns of redaction, the
-- fleet, replays of recordings and the soak test are still to come, and so are the averages that a
-- closed minute is given.
pub mod Common
pub mod Records
pub mod Values
pub mod Probe
pub mod Pipeline
pub mod Collector
pub mod Database
