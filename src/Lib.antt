-- ===== src/Lib.antt =====
-- rlink, a stream processing framework: how event time, windows, checkpoints and ends of streams
-- go through the tasks of a job, and how elements go over the wire.
--
-- A job is a graph of operators, each run by parallel tasks. A task is a chain of runnables that
-- hand elements on: records, watermarks, stream statuses and barriers. The chain of a task starts
-- with a source, which aligns what its parent tasks send. A watermark assigner stamps the records
-- and drops the late ones; a reducer merges records into the tables of their windows and gives up
-- the windows that a watermark has passed. At a barrier the tasks send a checkpoint to the
-- coordinator, which aligns those of all tasks. Between processes elements go as messages over a
-- socket.
--
-- The files, with the code each is about, in the directory rlink/src:
--   Prelude          numbers with wrap-around, lists, maps as lists of entries, stable sorting and
--                    how a Rust function ends; no code of its own.
--   Core             the elements: core/element.rs, core/runtime.rs, core/window.rs, core/watermark.rs.
--   Align            AlignManager, and Watermarks the WatermarkManager, of
--                    runtime/worker/runnable/source_runnable.rs. `apply` is the method of that name.
--   Source           SourceRunnable of the same file: `open_source` is the part of `open` that sets the
--                    state, `run` the loop of `run`, with `step` for one element. It calls Align
--                    and Watermarks.
--   Generator        functions/watermark: the three watermark generators, one data type for the three.
--   Assigner         runtime/worker/runnable/watermark_assigner_runnable.rs, which calls Generator.
--   Window           functions/window/mod.rs and TimeWindow of core/window.rs.
--   WindowAssigner   runtime/worker/runnable/window_assigner_runnable.rs, which calls Window.
--   WindowState      storage/keyed_state: mem_window_state.rs, mem_reducing_state.rs, mem_storage.rs.
--   WindowReduce     functions/system/window_base_reduce.rs, which calls WindowState.
--   Reduce           runtime/worker/runnable/reduce_runnable.rs, which calls WindowReduce.
--   Operators        filter_runnable.rs, flat_map_runnable.rs, key_by_runnable.rs and sink_runnable.rs of
--                    runtime/worker/runnable.
--   Checkpoints      runtime/coordinator/checkpoint_manager.rs and
--                    storage/checkpoint/memory_checkpoint_storage.rs; Checkpoints/Create makes the
--                    manager from the planner's jobs and has the loop of `run_align_task`.
--   Coordinator      the description of the cluster in core/runtime.rs and the items of a heartbeat of
--                    runtime/mod.rs. Coordinator/Storage is storage/metadata/mem_metadata_storage.rs,
--                    Coordinator/Monitor `waiting_worker_status_fine` of runtime/coordinator/mod.rs and
--                    heart_beat_manager.rs, Coordinator/Runs the handler of heartbeats of
--                    web_server.rs, Coordinator/Distribution task_distribution.rs, which calls
--                    Planner/Workers, and Coordinator/Restore `load` of checkpoint_manager.rs with the
--                    loop of `build_checkpoint_manager`. Reports, Status, Ends and Restores hold theorems.
--   Wire             the Serde implementations of core/element.rs and core/runtime.rs; Wire/Messages is
--                    pub_sub/network/mod.rs.
--   Planner          dag: Planner/Stream is RawStreamGraph of dag/stream_graph.rs, Planner/Operators
--                    the operators of core/operator.rs and their schemas, Planner/Job the builder of
--                    jobs of dag/job_graph.rs, Planner/Execution the edges between jobs and the tasks
--                    of dag/execution_graph.rs, Planner/Execution/Build the loops over all jobs of
--                    JobGraph and ExecutionGraph, and Planner/Workers `alloc_by_instance` of
--                    dag/physic_graph.rs. Planner/Dag is the interface of daggy, a third-party crate,
--                    with what its documentation says.
--   Percentile       functions/percentile/mod.rs: the bucket of a value, and in Percentile/Counters the
--                    bytes of the counters, `accumulate`, `merge` and `get_result`.
--   SchemaReduce     functions/reduce/schema_reduce.rs with functions/column_locate.rs and the types of
--                    core/data_types.rs; its percentiles call Percentile. SchemaReduce/Buffers is the
--                    interface of serbuffer, a third-party crate, with what its documentation says.
-- The modules below these hold the theorems and what they are stated with, named for what they are about, and in Tests runs on
-- concrete input. In a module, a function has the name of the Rust function it models; `new` is
-- the constructor, and a part of a long function has a name of its own, with a comment.
--
-- State is passed explicitly: an operation takes the state and gives the new one. What a runnable
-- hands on, submits or reports is a list of outputs in order, so the runnables are modelled apart.
-- A panic is `none`, or `panic` of Outcome where there are errors as well. 64-bit arithmetic wraps
-- where a value can reach the limit; counters of elements, and sums of which a theorem bounds the
-- terms, are not wrapped. A Duration is its number of milliseconds.
--
-- Fuel: the loop of `assign_windows` has one round more than the window's size; the start goes
-- down by at least 1 in each round from at most the timestamp, and the loop stops at the timestamp
-- less the size, so that is enough. The loop of `build_job_node` has as many rounds as the graph
-- has nodes, and an edge goes to a later node, so that is enough too. `get_parent_parallelism0`
-- and `build_parallelism` take their fuel as arguments, since the loop need not end; running out
-- of fuel is an outcome of its own, apart from the errors. `search` has a round more than the
-- scale has boundaries, and each round drops at least one. All other functions are by structural
-- recursion.
--
-- Arguments stand for what is not in the repository or is the user's: the buffer of a record (crate
-- `serbuffer`), the byte buffer BytesMut (crate `bytes`, an interface with its documented laws,
-- which Wire/Tests fills with a list), the timestamp assigner, the key selector, the reduce
-- function and the clock, and for the planner the functions of the operators and daggy::Dag, an
-- interface that Planner/ListDag fills with two lists. The rows of the schema reduce function are
-- an interface too, which SchemaReduce/Tests fills with lists of typed values; the arithmetic of
-- floats, the texts that `format!` makes and the rows that the checkpoint storage answers are
-- arguments. A HashMap is a list of its entries; where the code visits one, the list's order stands
-- for an order that Rust leaves open. JSON, by which a handle of a checkpoint is stored, is left
-- out: a handle is passed on as a value.
--
-- Not modelled: of the planner the merge of forward tasks into chains and the lookups of
-- dag/metadata.rs; the co-process runnable, the built-in functions but those above,
-- the building of the invoke chain of a worker, and what is I/O or a library's: threads, channels,
-- sockets, HTTP, metrics, MySQL, the connectors, deployment, the examples and the dashboard.
pub mod Coordinator
pub mod Planner
pub mod Percentile
pub mod SchemaReduce
pub mod Prelude
pub mod Core
pub mod Align
pub mod Watermarks
pub mod Window
pub mod Generator
pub mod Assigner
pub mod WindowState
pub mod WindowReduce
pub mod Reduce
pub mod Wire
pub mod Checkpoints
pub mod Source
pub mod WindowAssigner
pub mod Operators
