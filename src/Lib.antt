-- ===== src/Lib.antt =====
-- The scheduler and the serving protocol of glet, which shares GPUs among the inference models of an
-- application: a GPU is cut into gpu-lets, nodes with a percentage of its cores, and the scheduler
-- chooses gpu-lets and batch sizes so that every model keeps up with its request rate within its SLO.
--
-- Parts and files. Paths are from the root of the repository.
--   Common, Float. Names that all files share: Boolean tests, lists and tables over the native numbers,
--     and integers. `float` and `double` are one type behind the interface Float; Float.Milli is an
--     instance in thousandths, on which the examples run. Nothing that is proved depends on it.
--   Scheduler.State, Nodes. The structs of src/scheduler/scheduler_base.h. Tasks, nodes and GPUs are shared
--     pointers in the source; here a pointer is a number and a Store gives the object behind it, so lists
--     that hold one pointer share one object. Nodes makes, copies and clears nodes.
--   Scheduler.Latency, MaxBatch, Adjust, Devices. src/scheduler/scheduler_base.cpp: the latency of a batch on
--     a node, the search for the largest batch (getMaxBatch), the reaction to interference (adjustResNode,
--     adjustSatNode), and the set-up of the GPUs. DevPerfModel is the interface to the profiled models.
--   Scheduler.Memory. The memory that the scheduler believes to be in use, of scheduler_base.cpp and
--     src/scheduler/scheduler_incremental.cpp.
--   Scheduler.Estimate, BestFit, Allocate. scheduler_incremental.cpp: how many nodes a task needs
--     (estimateTrp), which free node fits an estimated one (findBestFit, checkFit), and placing it
--     (allocateFit), which calls the four files above.
--   Scheduler.Choose, TimeShare, Residue, Readjust, Incremental, Session. The rest of
--     scheduler_incremental.cpp: the choice of a type of GPU and of a node of it (getMinPartSum,
--     getEstimate, getNodewithPriorityType), time sharing (allocateTimeShare), merging what is not
--     saturated (mergeResidue), placing a rate on given nodes (readjust), their composition for one task
--     (addModeltoSchedule), and the loop over a session (incrementalScehduling, runScheduling).
--   Scheduler.Network, Profile, Utils, Output. src/scheduler/network_limit.cpp, latency_model.cpp and
--     src/common/scheduler_utils.cpp.
--   Service.Rates, Epoch. src/service/global_scheduler.cpp: the target rates of the models (setupTasks), and
--     the scheduling of an epoch (OracleScheduler), which runs the scheduler and falls back on a full
--     repartition, on another GPU, or on the last decision.
--   Service.Dispatch, Loading, Routing. The same file and global_scheduler_proxy.cpp: handing tasks to idle
--     proxies (staticMPSScheduler), what a proxy loads and unloads for a decision (loadModel_sync,
--     unloadModel_async), and which proxies the requests go to (applyRouting_sync).
--   Service.Dropping. src/service/drop_thread.cpp: the requests that are too late.
--   Service.Tuning. src/service/EWMA.cpp and src/common/self_tuning.cpp.
--   Service.Balancer. src/service/load_balancer.cpp: weighted round robin between the proxies that hold a
--     model, set up from a decision of the scheduler.
--   Service.App. src/service/app_spec.cpp, app_instance.cpp, request.cpp, batched_request.cpp: the graph of
--     models that an application runs, one run of it, and the batches that its requests are put in.
--   Service.Control. The channel on which the front end (backend_proxy_ctrl.cpp) commands the proxies of a
--     back end (backend_control.cpp, with sys_monitor.cpp and proxy_ctrl.cpp).
--   Examples. The theorems at concrete inputs.
--
-- Conventions. A definition has the name of the function it translates, in snake case. `none` is an
-- abort: a failed assert, an exit, an exception, an index out of range, or a loop that does not end.
-- Exit is EXIT_SUCCESS or EXIT_FAILURE, which the functions return as bool. CHECK_MEM, CHECK_NETBW and
-- ADD_RATE are defined, as in the build file; debugging output is left out. The two widths of floating
-- point are one type, so narrowing is the identity, and NaN is what an instance makes of it. Ids,
-- percentages, batches and memory are natural numbers; rates and SLOs are integers. A 32-bit overflow
-- is written out for the keys of the load balancer and of the latency table, the sizes of inputs and
-- the number of a batch.
--
-- Fuel. The search for a batch has fuel for 33 rounds, which get_max_batch-IsLast proves to be enough.
-- find_upper searches as far as the sum of the profiled batches, which find_batch_pair-IsPair proves to
-- be enough. The loop of incrementalScehduling has 2 rounds and that of allocateTimeShare one more than
-- there are candidates, which trial_round-ends and allocate_time_share-Ends prove to be enough. The loop of
-- getEstimateTrpST has one round for each unit of the rate, and the loop of AllocateMinMaxFair that cuts a
-- demand one for each percent of it, which allocate_min_max_fair-IsAllocation proves to be enough.
-- fit_one takes its fuel as an argument, and fit_one-ends says how much is enough. check_fit,
-- estimate_trp and readjust take theirs as an argument too, and no theorem here rests on it; the field
-- fuel of Surroundings gives it to them. The loop of OracleScheduler need not end, so scale_round is run on
-- any fuel. A loop gives an optional optional result: the outer none is the end of the fuel.
--
-- Parameters. std::sort is an argument (SortNodes, SortTasks), which may put ties in any order;
-- elasticPartitioning has no return at its end, and `fallen` is what its caller reads. The rate that
-- arrives, the proxies of a GPU and the memory that it reports are fields of Models and Site. What the
-- waits of startProxy read of a proxy's state, as other processes change it, is the field reads of Backend.
-- Of floating-point arithmetic theorems assume no more than the named laws IsWeakOrder and IsRounded of
-- Float, HasZero of Service.Rates.Idle and Holds of Service.Rates.History.
--
-- Not modelled: reading files, sockets, threads and locks, tensors and CUDA, the formulas of the
-- interference model, and of the global scheduler its set-up and the clock. The queues of
-- src/service/concurrentqueue.h are a copy of another project's library.
pub mod Common
pub mod Float
pub mod Scheduler
pub mod Service
mod Examples
