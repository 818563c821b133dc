-- ===== src/Lib.antt =====
-- Microcosm: the state machines by which its masters and executors track one another.
--
-- A server master keeps the executors that have registered (servermaster/executor_manager.go) with
-- their capacities (servermaster/resource/), places tasks on them (servermaster/scheduler/), and
-- tracks the jobs (servermaster/job_fsm.go). Each master, the server master's job manager and the
-- job masters, tracks its workers with heartbeats (lib/master/worker_manager.go). An executor takes
-- a task in two phases (executor/worker/task_committer.go) and runs it (task_runner.go). A worker
-- watches its master in turn, leaves when it has failed, and reports its status (lib/worker.go,
-- lib/statusutil/). The job master of data migration (jobmaster/dm/) runs a worker for each task of
-- its job. The parts meet here where the code makes them meet: the executor manager updates the
-- resource manager, which is the scheduler's capacity provider; the resource service
-- (pkg/externalresource/manager/service.go) is its placement constrainer; the job manager drives
-- the job machine; and a worker and its master exchange pings and pongs.
--
-- Files:
-- + Base and its modules: Boolean tests, Go's maps and ints, calls that may panic, and their lemmas.
-- + ServerMaster/JobFsm: job_fsm.go, the record JobFsm and a function for each of its methods; Phase
--   and Steps have the diagram of the phases, Queries the queries, Iter the two loops.
--   Keyed has the ids that the jobs stand under.
-- + ServerMaster/JobManager: jobmanager.go, a function for each handler; Calls has any sequence of them.
-- + ServerMaster/Resource: CapRescMgr of resource/capacity_impl.go and Remaining of scheduler/model.
-- + ServerMaster/Scheduler: scheduler.go (schedule_task, check_cost_allows, get_constraint) and
--   cost_scheduler.go (schedule_by_cost); Capacity, Cost, Constraint and Task have the laws.
-- + ServerMaster/ExecutorManager: executor_manager.go; Keys keeps it in step with the resource manager,
--   Leases has the check of the leases, Run any interleaving of what is done under one lock.
-- + Master/Entry: lib/master/worker_entry.go and lib/model/status.go; Laws has the diagram of the states.
-- + Master/Manager: worker_manager.go and events.go. Init has InitAfterRecover, Tick has Tick; Inv has
--   what holds between two steps, Handles has lib/master/worker_handle.go, and Heartbeat, Check,
--   Recover, Run and Lease have what the steps do.
-- + Master/Creation: CreateWorker of lib/master.go with client/task_dispatcher.go; Ends has how it ends.
-- + Executor/TaskCommitter: task_committer.go; Inv has the tie of its two maps, Dispatch the two phases,
--   Ttl the requests that run out of time.
-- + Executor/TaskRunner: task_runner.go and internal/runnables.go, a goroutine cut into its steps; Tasks
--   has the map of the tasks, Sound and Run what any sequence of steps keeps.
-- + Containers/SliceQueue: pkg/containers/slice_queue.go; Fifo has its producers and consumers.
-- + Planner/DagWalker: servermaster/planner/util/dag_walker.go; Visits has what a walk visits.
-- + Worker: Timeouts has lib/config; MasterClient the masterClient of lib/worker.go; Exit the exit
--   controller and Poll, Exit/Ends how they end; Status the status and statusutil/writer.go with a heap,
--   Status/Persisted what of it is in the metadata; Lease a worker, its master and the messages between
--   them as a step relation, with the handler of pings of lib/master.go, Lease/Inv its invariant, and
--   Lease/Safe what it is for; MessageRouter has lib/message_router.go, its Window what its buffer holds.
-- + ExternalResource: service.go, ParseResourcePath of resourcemeta/model/model.go and the resource
--   operations of pkg/orm/client.go; Rows has the table as a map, Placing the service with the scheduler.
-- + Dm: the job master of data migration, jobmaster/dm. Ticker, Runtime, Store, TaskManager,
--   WorkerManager, MessageAgent and JobMaster model the file or package of that name (Store is
--   metadata/state.go and job.go, Runtime also config's ToTaskConfigs); MessagePair is
--   pkg/dm/message_pair.go, cut at each access of its map and channels. In TaskManager, Operates has what a check asks for; in WorkerManager,
--   Units has the sequence of units, Turns and Loops what each loop does, Settles a whole check, and Keeps what
--   the loops keep; in JobMaster, Agrees, Agents and Init lead to Reach, the job masters that any
--   calls lead to, and Settles has a check with the message agent and the job store put together.
-- + Adapter: pkg/adapter/keyadapter.go; RoundTrip has encoding and decoding. Base/Paths has what is used
--   of the strings and path packages.
-- The Tests modules run the models on small inputs.
--
-- State is a record, and a method is a function of the state before to the state after with the
-- method's results; what holds a lock throughout is one step. Go's maps are association lists, and
-- a loop over a map goes through the list, so a statement for every list covers every order. Go's
-- int is 64 bits wide and its subtraction wraps; times are natural numbers. A call that may panic
-- has the type Outcome, and errors that Go returns are values. The pointers to a worker entry that
-- hooks keep are references into a heap. Loops are recursion on the lists that they go through; the
-- loop of Tick, which ends at five seconds, takes a number of rounds, and runs out of them as the
-- source runs out of time, with an error. The walk of a graph takes the depth that is left, 101 at
-- the root, and gives the error of the source when none is. What the library takes from elsewhere
-- is a parameter: the callbacks of a master, the function that dispatches a job, the runner of
-- tasks, the shuffle, the answers of the metadata client, the faults of the database.
-- In the lease the two sides read one clock, as on one scale of monotonic time, and a message that is
-- sent may be delivered at any later time, any number of times, or never.
--
-- Not modelled: logging, metrics, gRPC, the clients of etcd and MySQL, generated code, the command
-- lines and the sample jobs, which hold no state of their own or only pass it on; the units of data
-- migration with their checkpoints, which wrap another project's code; and the resource broker, the
-- setup and the goroutines of the base worker and master, and the retries of the status writer,
-- which are one answer.
pub mod Base
pub mod Adapter
pub mod Containers
pub mod Dm
pub mod Executor
pub mod ExternalResource
pub mod Master
pub mod Planner
pub mod ServerMaster
pub mod Worker
