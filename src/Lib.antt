-- ===== src/Lib.antt =====
-- ATSuite replays recorded traces of tool-using agents on cloud providers and accounts for time
-- and cost.
--
-- A trace is a graph of nodes: model calls, tool calls and logic. `run_node` finds the nodes
-- reachable from the start, counts their incoming edges, and submits each node to a thread pool
-- when its last predecessor has completed. In a replay on a FaaS provider a client-side lock
-- table keeps tool calls that share state from running together. The analysis then lays the
-- recorded intervals out on a timeline.
--
-- Files:
-- - Base and its children: Python's dict, set and str operations, JSON values, Boolean tests;
--   Result: exceptions as values.
-- - Scheduler: atsuite/scheduler.py, the lock table; Scheduler/Refinement relates it to the
--   list of running accesses.
-- - Trace: the data of atsuite_sdk/workflow.py, read from JSON in Trace/Read, and the index by
--   node id that run_trace builds.
-- - Pipeline: resolve_benchmark of atsuite/pipeline.py, which turns a configuration into
--   targets and routes. Data holds its data classes, Configs the runtime and build
--   configurations, Providers the table of providers, Files what it asks of the file system,
--   Nodes the node entries, Tools the entries made from tools, Faas and Session the two kinds
--   of deployment, Resolve the whole. Routing says what the result promises, and run_node takes
--   it from there.
-- - Replay: run_node of atsuite/invoker.py. Search is get_reachable_nodes, Setup the in-degrees
--   and accesses, Loop the submission of nodes and the main loop, Run the whole of run_node,
--   Benchmark its call by run_trace. Under Loop, Invariant says what the counters mean,
--   Submission, Delivery and Completion that the steps keep it, Termination that the loop ends;
--   under Run, Complete is about whole runs and Safety about all interleavings of submissions
--   and completions.
-- - Analysis/Model: the records of atsuite/analysis/model.py and their JSON. Analysis/Lanes:
--   `_allocate_lanes` of atsuite/analysis/timeline.py. Analysis/Timeline: the rest of its
--   TimelineBuilder; Times holds the conversions of units, Event one event, Client the run, the
--   model calls and the sessions, Phases one invocation, Metadata the names of processes and
--   threads, Build the whole.
-- - Replay/Worker: `execute_node` of atsuite/invoker.py, what a worker does for one node;
--   Replay/Calls holds what it looks up, sends and observes. Under Worker, Observed says what
--   the recorder holds of a node, Finished follows a node to its end, Sessions is about the
--   sessions that the workers share.
-- - Runtime: atsuite/runtime.py, with `_runtime_targets` of atsuite/invoker.py. Adapter holds
--   the three adapters; Endpoints compares the two readings of an endpoint map. Arguments:
--   `parse_arguments` of atsuite/utils.py.
-- - Analysis/Recorder: atsuite/analysis/observer.py, which `execute_node` calls and whose file
--   the analysis reads. Analysis/Pricing: atsuite/analysis/pricing.py, over the floats of
--   Analysis/Number; Analysis/Costs holds its items.
-- - State: the StateRuntime of atsuite_sdk/state.py, on the side of the deployed tools. Values
--   is what a snapshot keeps of an object, Saved one save and one load, Steps what happens
--   between them, Sessions a save and the next load of one session in a process of several. The
--   dicts and lists that an object shares with a snapshot in memory, or a caller with one that
--   it primed, are not copied by the code: the field lent, which the code does not have, names
--   the sessions whose stored snapshot others hold, and a step of a tool may change these in
--   place.
-- - Viewer: atsuite/cli/trace_viewer_metadata.py. Schedule simulates the run (its children are
--   about the heap, the in-degrees, the steps of one turn and whole runs), Display groups the
--   tools and draws the edges, Levels counts tools along them (Edges is about the in-degrees,
--   Settled and Raised about the walk, Longest and Metrics about its end), Config and
--   Candidates find the configuration of a trace, Enrich puts all together.
-- - Uid: atsuite/uid_strategy.py. Snapshot: atsuite/state_snapshot.py.
-- - Tests: runs on small inputs.
--
-- How the model reads the source. Times and other floats are integers of a fixed unit:
-- millionths of a millisecond in a trace, microseconds in the analysis, millionths in JSON.
-- Python exceptions are constructors of `Error`, with the text of the message where it is a
-- text. Paths are texts, and the file system with pathlib is a record of functions,
-- `FileSystem`. Sets are lists without repetition. The thread pool is two parameters of
-- `run_node`: whether a worker's node succeeds, and which pending nodes each round of `wait`
-- reports as done; what is asked of `wait` is that a node it reports is pending and that it
-- reports at least one while there is one. The shared state of the threads is the state of the
-- main thread, since workers write neither the lock table nor the counters. Logging and
-- sleeping have no effect in the model. In `execute_node` an exception stands beside the state
-- that it leaves, and the readings of the clock are an argument.
--
-- Parameters of the model: the clients that speak to functions and MCP servers (`Clients`), the
-- storage, the JSON text and the files of a session (`Backend`), `json.loads` of a trace
-- argument, the floats of the pricing (`Number`), and the paths that the viewer resolves
-- (`Tree`). Display times of the viewer are fifths of a millionth of a millisecond, so that its
-- division is exact. Where the viewer meets an id or a time below zero, the model returns an
-- error; an edge with no id leads to no node and is left out. White space and letters are those
-- of ASCII.
--
-- Fuel. `search` has one round for each edge and one for the start; `schedule_passes` one for
-- each ready node and one more; `main_loop` one for each reachable node and one more.
-- `simulate` and `walk` of the viewer have one for each node and one more, `coerce_trace_value`
-- one for each character of the longest text and one more. These are enough: a round of
-- `search` follows an edge, a pass starts a node, and a turn of the loop completes one; a turn
-- of the simulation takes a node from the heap that is never submitted again, a round of the
-- walk visits nodes whose last edge has been counted, and what is read from a text has shorter
-- texts.
--
-- Not modelled: the clients of the cloud providers, deployment, the command line, log
-- collection and the web viewer, which are calls of services and file I/O; the aggregation and
-- the report of the analysis; the HTTP and MCP servers of the node SDK; the sync timings of
-- StateRuntime.
pub mod Base
pub mod Result
pub mod Scheduler
pub mod Trace
pub mod Pipeline
pub mod Replay
pub mod Analysis
pub mod Runtime
pub mod Arguments
pub mod State
pub mod Uid
pub mod Viewer
pub mod Snapshot
pub mod Tests
