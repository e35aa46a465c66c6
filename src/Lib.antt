-- ===== src/Lib.antt =====
-- swale: a verification library for the orchestrator in swale/src.
--
-- A graph definition is parsed into a `GraphSpec`, which `Graph::build` checks and turns into a
-- `Graph` (swale/src/graph.rs). A graph run of one partition submits a task instance for every
-- node that the readiness rule (swale/src/readiness.rs) makes ready; a task instance that
-- terminates leaves a node record (swale/src/records.rs), and the run is settled once no node is
-- ready or waiting.
--
-- The files:
--   Base and its children: texts as lists of bytes, maps in key order, decimal numbers, and the
--     lemmas that the components share.
--   Data: the values of the crates `toml` and `serde_json`.
--   Duration: swale/src/duration.rs, `parse`. A `u64` is a number with its bound written out.
--   Definition: swale/src/definition.rs, from a definition file to a checked graph, over the TOML
--     parser, with the paths of swale/src/store.rs and the names of swale/src/pools.rs.
--   Partition: swale/src/partition.rs. `DateTime::from_timestamp_millis` is a parameter.
--   Graph: swale/src/graph.rs. Graph holds the types and accessors, Graph/Problems the faults,
--     Graph/Checks the checks of names, assets and upstreams, Graph/Params the checks of
--     parameters and templates, Graph/Cycle the search for a cycle, Graph/Build `Graph::build`.
--     Graph/Ordered states the conditions on the nodes of a checked graph. A parsed cron
--     expression is a type parameter, and its parser and the parameter checks of the operators
--     are parameters.
--   Records: swale/src/records.rs, the records and `GraphRunRecord::is_current`.
--     Records/Keys holds the keys of the records and their parsers, over keys as bytes.
--   Readiness: swale/src/readiness.rs. Its children treat the loop of `node_states`, its result at
--     every node, and a graph run as a sequence of records.
--   Request: swale/src/request.rs, the request and its id.
--   Task: swale/src/task.rs, the identity of a task instance, its run id and its headers. The
--     runtime's `RunId::new` is a parameter, and a run id is its text.
--   Input: swale/src/input.rs, `TaskInput::new`. Input/Params is `TaskInput::member` and the
--     rendering of parameters and of the items of a mapped node. The JSON text of a value, the JSON
--     form of a TOML table and the JSON parser are parameters.
--   Scheduler: swale/src/scheduler.rs. Scheduler holds its errors and the records that it writes,
--     Scheduler/Services the operations of the queue, the stores, the runtimes and the clock as a
--     record of steps on a state of the world, with the reads over them, Scheduler/Steps the
--     start, the rerun and the cancel of a graph run, Scheduler/Steps/Advance the submits that
--     follow a record and the settle, and Scheduler/Steps/Reconcile the triggers and the
--     reconciler. Scheduler/Requests is `handle_request` of swale/src/request.rs. Every step
--     returns a value, a failure or a panic, and the state that it leaves. A rerun count is a
--     `u32` whose increment wraps, as in a release build.
--     Scheduler/Steps/Advance/Final is about a run after its settle.
--     Scheduler/Workers is what a job of the queues of triggers, events and requests does.
--   Template: swale/src/template.rs, the parser of templates. Template/Render is the rendering.
--   Operator: swale/src/operator/mod.rs, the operators with their set, the lease and the deadline.
--     Operator/Program is swale/src/operator/subprocess.rs and shell.rs over the processes of the
--     system, Operator/Http is http.rs over the client, and Operator/ObjectExists is
--     object_exists.rs over the object stores.
--   Hook: swale/src/hook.rs, the record of a terminated task instance and the effects it stages.
--   Dispatch: swale/src/dispatch.rs, the step runner of a pool. Dispatch/Members is the outputs of
--     the members of a mapped node, Dispatch/Mapped the phases of such a node over the groups of
--     the runtime, and Dispatch/Steps the step of a task instance. A count of reads is a `u32`
--     whose increment wraps, as in a release build.
--   Daemon: swale/src/daemon.rs, the pass `Daemon::sync` that adopts published definitions.
--   Retention: swale/src/retention.rs, the outcome of every entry of a pass over the expiry index,
--     with `forget_groups` of the scheduler.
--   Records/Listing: the listings of records.rs over the entries of a view in key order.
--   Status: swale/src/status.rs, the reports of graphs, and Status/Reads the reads of graph runs
--     and of requests, over a reader.
--
-- How the parts call each other: the daemon adopts definitions (Daemon), and a trigger starts runs
-- (Scheduler/Steps), whose task instances a step runner runs (Dispatch) with rendered input (Input)
-- and an operator (Operator). The hook
-- (Hook) stages the record and the event that a worker (Scheduler/Workers) hands to
-- `handle_event`, which submits the nodes that have become ready and settles the run. The settled
-- run has an entry of the expiry index, which a pass (Retention) reads. Calls of the world are
-- steps on an abstract state (Base/Calls) that return a value, fail or panic.
--
-- Bounds: the loop of `node_states` runs on fuel, the number of nodes, which is enough because
-- every round resolves a node. The search for a cycle runs on fuel for the depth of its calls, one
-- more than the number of nodes, which is enough because each call marks another node. The loop of
-- `Template::parse` runs on the length of the text, since a reference takes four bytes of it. A
-- panic of the source, such as an index that is out of range, is the result `stuck` or
-- `panicked`, or `none`.
--
-- A duration is a number of nanoseconds with the saturation of the source written out, and the
-- polls of a sensor and of a mapped node are counted by the state that a step passes on, so a step
-- is one call and has no fuel.
--
-- Not modelled: the built-in set of operators and the pools with their runtimes, which are start-up
-- code; the definition store and the hash of a definition; the command line,
-- the daemon's start-up and loop, network and storage; and the parsers of TOML, JSON, URLs and cron
-- expressions, which are third-party code.
pub mod Base
pub mod Daemon
pub mod Data
pub mod Definition
pub mod Dispatch
pub mod Duration
pub mod Graph
pub mod Hook
pub mod Input
pub mod Operator
pub mod Partition
pub mod Readiness
pub mod Records
pub mod Request
pub mod Retention
pub mod Scheduler
pub mod Status
pub mod Task
pub mod Template
