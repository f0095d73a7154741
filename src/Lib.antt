-- ===== src/Lib.antt =====
-- A model of the core of fx, a runtime for serverless WebAssembly functions, and the theorems that
-- make it correct. Sources are below fx-runtime/src where no other crate is named.
--
-- The parts and how they interact. Worker threads (tasks/worker) hold the deployed functions; each
-- has tables from functions to deployments and from HTTP hosts to functions, an HTTP server
-- (triggers/http.rs) that runs the function a request is addressed to, and a queue of messages. The
-- definitions monitor (definitions/monitor.rs) reads the functions directory, has each function
-- compiled, and sends deployments to the workers, schedules to the cron task (tasks/cron.rs) and
-- what there is to the management thread's listing (tasks/management/runtime_state.rs). A function
-- instance (function/instance.rs, function/deployment.rs, resources/future.rs) is called and polled
-- by its worker; it reaches the key-value task (tasks/kv.rs) through its bindings (effects/kv.rs)
-- and counts metrics (effects/metrics.rs), which are flushed to the registry.
--
-- Which file models which part:
--   Kv: tasks/kv.rs, the store of a namespace with its operations `set`, `get`, `delex`,
--     `subscribe` and `publish`, on a record of the source's two maps. Kv/Store and Kv/Channels
--     have its laws; Kv/Task is the loop `run_kv_task` with one store for each namespace,
--     Kv/Task/Isolation its runs; Kv/Handlers is effects/kv.rs, the requests that functions make.
--   Metrics: effects/metrics.rs, `FunctionMetricsState` with its ids and `flush_delta`; Series and
--     Flush have its laws; Registry is `MetricsRegistry`, and Registry/Runs follows counts from an
--     instance to the registry; Encode is the text of names and labels.
--   Worker: `worker_handle_message` of tasks/worker/task.rs on the record `WorkerWorld`; Routing
--     and Removal have its laws; Worker/Http is `HttpHandler::call` of triggers/http.rs.
--   Function: the errors of calls and their conversions, Polling the two futures of
--     resources/future.rs, Requests the `RequestHandleFuture` of function/deployment.rs.
--   Management: `RuntimeState`. Config: the types, builders and equality of definitions/config.rs.
--   Monitor: `apply_config` and `remove_function` of `DefinitionsMonitor`; Directory is its
--     `reconcile_definitions`; Growth, Reconcile, Total and Bindings have the laws,
--     and Delivery hands what is sent to a worker.
--   Cron: `run_tasks` of tasks/cron.rs, the future of one task, and `ScheduleAdd`.
--   Abi: the interface between a function and the host. Memory is function/abi/function_memory.rs,
--     Layout and Codes the structures and result codes of fx-types/src/abi.rs, State the tables of
--     resources/resource.rs and the state of an instance, Handlers every host function of
--     function/abi/mod.rs, with Handlers/Http for bodies and fetch results, Handlers/Services for
--     the environment, metrics, logs and random numbers, and Handlers/Fetch for `fx_fetch_handler`;
--     Sdk is the function's side, fx-sdk/src/sys/resource.rs and the clients of fx-sdk/src/api in
--     http.rs, env.rs and metrics.rs. Calls, Transfer, Stream and Fetched put the two sides
--     together, Fetch, Labels and Total have the laws of the host's side.
--   Blob: tasks/blob.rs, the index of objects, the files and the three messages of the task. Keys has
--     the hashed texts and the paths, Refines what the messages do to one another, and Requests is
--     effects/blob.rs, the requests that functions make.
--   Prelude: Boolean tests, lists, equality, and `Dict`, the standard library's `HashMap` as an
--     association list. Tests modules have the theorems at concrete inputs.
--
-- State is passed explicitly, and a shared `Rc<RefCell<..>>` is the one state that its handles
-- share. What the source awaits from libraries and other threads is an argument: the clock, open
-- receivers, which tasks and workers are gone, the wasm engine, the compiler, decoders, the file
-- system. A panic is `none`. Numbers are unbounded except for the counters of metrics and the addresses of a function's memory, whose
-- `u64` sums are kept modulo 2 ^ 64. Every
-- loop of the source that is modelled runs over a list, so there is no fuel.
--
-- In Abi the third-party crates are one record, `Host`: slot maps, Cap'n Proto, futures and streams,
-- the parsers of URIs and headers. The theorems that need them assume the documented laws of a slot
-- map (`SlotLaws`) and of appending to a header map below its limit (`AppendLaws`), and that a message
-- decodes to what was encoded. A step of a body may run a function, and panic.
--
-- In Blob the hash function is an argument, SQLite is two maps whose statements do what they say or
-- fail, and a failed write leaves a file of any content, or none.
--
-- Not modelled: SQL and the clients for it and for blobs, logging to the outside, introspection, the loops
-- of `MetricsRegistry::encode`, the sleeping of the cron task and the start of the server, which are
-- input and output or glue around what is modelled; the functions of the SDK that the host calls,
-- and the example applications. Two requests to one instance are not interleaved; its
-- background tasks are polled between requests.
pub mod Abi
pub mod Blob
pub mod Config
pub mod Cron
pub mod Function
pub mod Kv
pub mod Management
pub mod Metrics
pub mod Monitor
pub mod Prelude
pub mod Worker
