-- ===== src/Lib.antt =====
-- GPUInfra: a model of the cache of GPU data in src/DataCache, of the static data and the contexts
-- around it in src/StaticData and src/Context, of the graph with its tasks and parameters in demo, and
-- of the properties that make them correct.
--
-- A `GpuDataCache` owns a number of entries, each with an allocation on a GPU. A task asks for a
-- frame by its key. `getCacheData` answers with a `GpuDataAccess`, a lease: a hit (read an entry that
-- is valid), a fill (write an entry that is loading), a fallback (work in the caller's buffer) or an
-- invalid access; or it waits on a condition variable and tries again. The lease ends in
-- `freeCacheData`, or in its destructor, and the cache publishes, keeps, discards or resets the
-- entry. A `GpuResidencyTable`, an open-addressing hash table, says which entry holds a key. A
-- doubly linked list through the entries holds those that may be evicted, a second one, under the
-- FIFO policy, all that are filled, and a stack the empty ones.
--
-- A `DummyGraph` owns static data, tasks and frames. Its owner initializes and starts it, submits the
-- frames of a phase, waits for its end, may change the parameters between phases, and shuts it down;
-- its workers take frames and tasks, wait at the gate of the phase, run, and deliver the results. A
-- shared flag cancels all graphs. Parameters go from a `ParameterRegistry`, by snapshots with a
-- revision, to the tasks and on to their algorithms.
--
-- Files:
--   Types.antt      src/DataCache/GpuDataKey.h, src/Types/FrameMetadata.h, src/Types/AlgoRuntimeInfo.h
--   Residency.antt  src/DataCache/GpuResidencyTable.{h,cpp}; its children hold the invariant of the
--                   table (Valid), the ring of slots (Ring, Probed), and what each operation does
--   Entry.antt      src/DataCache/GpuDataCacheEntry.{h,cpp}
--   Access.antt     src/DataCache/GpuDataAccess.{h,cpp}, CachePolicy.h
--   Cache.antt      the members of src/DataCache/GpuDataCache.h, CacheStatistics.h and
--                   GpuCacheRequest.h. The operations of GpuDataCache.cpp: Cache/Lists (the lists and
--                   the choice of an entry), Cache/Lookup (getCacheData), Cache/Finish
--                   (completeAccess, abortAccess, and their callers in GpuDataAccess.cpp),
--                   Cache/Manage (initialize, resetCache, release). Cache/Chain is the abstract
--                   view of a linked list as a sequence, Cache/Evictable the refinement of it;
--                   Cache/Frame and Cache/Payload say what the lists leave alone; Cache/Counted,
--                   Grants, Fills, Settled, RoundTrip, Reset and Startup hold the properties.
--   StaticGpuData.antt  src/StaticData/StaticGpuData.{h,cpp}: the buffers that are uploaded once and then
--                   read; StaticGpuData/Operations has the operations, Steps the states that they reach
--   StaticData.antt src/StaticData/StaticData.{h,cpp}: a cache and static buffers together; its memory
--                   plan is in StaticData/Plan
--   Context.antt    src/Context/{GpuContextManager,GpuTopology}.cpp, GpuContext.h and
--                   src/Types/TaskGpuResources.h: tasks and the GPUs they are registered with
--   Graph.antt      demo/Grape/DummyGraph.{h,cpp}, GraphTypes.h: the scheduler of a graph. Graph/Frames
--                   has the phases and what their owner calls, Graph/Workers the loop of a worker,
--                   Graph/Steps the graph with all its workers and the orders in which they act;
--                   its other children but those named below hold the properties.
--   Params.antt     demo/ParameterRegistry.{h,cpp}: the parameters of a graph; Params/Schema has what
--                   a registry holds, Params/Laws what its readers may rely on
--   Algo.antt       demo/Algo: what the three algorithms Cel, Sdd and Mi have in common
--   Task.antt       demo/DummyTask.{h,cpp}: the life of a task; its parameters in Task/Parameters.
--                   The tasks of a graph together, and the change of its parameters, are in
--                   Graph/Cycle and Graph/Agreement, `initialize` of the graph and the end of its
--                   `shutdown` in Graph/Setup and Graph/FrameIds
--   Prelude.antt    Boolean tests, vectors and masks over the native numbers
--
-- The state. Names follow the source, in lower case with underscores. An operation returns the new
-- state beside its result. A pointer, a stream and a CUDA buffer are addresses, 0 for nullptr; the
-- pointers of `entries` are never null, as `initialize` makes them. `NO_ENTRY` and `NO_SLOT` are
-- `none`. `std::hash` is a parameter, any function. Sizes wrap at 2 ^ 64 where the table, the plans
-- and the uploads compute with them, as do the counters of the statistics, but not its times. The live
-- counts (readers of an entry, waiting requests, running fallbacks) do not wrap, and stop at 0 where
-- one is taken away. The index of a task in its context is not cut to an `int`, which makes a
-- difference from 2 ^ 31 tasks on. The answers of CUDA, of allocations and of the clock are arguments.
--
-- Concurrency. A method that runs under the mutex is one step. A wait cuts `getCacheData` in two:
-- the step up to the wait returns `asleep`, and `wake` is the step from there on, for a notification,
-- a timeout or a spurious wakeup alike. `initialize` and `release` lock twice, and are one step here.
-- In the graph a worker takes one step from each access to shared data to the next (a section under
-- the scheduler's lock, the wait at a gate, each read or write of the shared flag, each delivery), and
-- the other workers and the owner may act in between. The answer of a task is an argument of the step.
-- The notifications are left out: a step that waits can be taken once its condition holds.
--
-- Loops. The probing loops take one round for each slot, the doubling of `initialize` 65 rounds, which
-- is past every 64-bit size, and the FIFO search one round for each entry. A lookup and an insertion
-- take at most one round for each slot by their own test in the source. The loops of the graph go
-- through its lists; the loop of a worker is a relation of steps, without fuel.
--
-- Not modelled: the discovery of GPUs and NUMA nodes in src/Context, the execution of a task on a
-- frame (its answer is an argument of a worker's step), the result pipeline and the main program of the
-- demo, the start of threads on a node, logging and profiling ranges, and the kernels.
pub mod Prelude
pub mod Types
pub mod Residency
pub mod Entry
pub mod Access
pub mod Cache
pub mod StaticGpuData
pub mod Context
pub mod StaticData
pub mod Graph
pub mod Params
pub mod Algo
pub mod Task
