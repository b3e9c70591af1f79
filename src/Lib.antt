-- ===== src/Lib.antt =====
-- A model of the Open vCenter agent for Hyper-V, with the theorems that make its core correct.
--
-- The agent is a Windows service. It takes requests from a RabbitMQ queue, stores each as a job in
-- SQLite, and runs the jobs in processes of their own, a few at once, under rules of exclusion;
-- each worker executes its task and answers the backend. The agent also schedules refreshes of
-- its inventories and replaces its own binary when it is asked to. How the parts meet:
--
--   request -> Agent (deduplicate, store, acknowledge) -> JobStore -> Queue (evaluate, spawn)
--     -> Worker (run one job) -> Tasks (route, respond) -> backend
--   end of a worker -> Queue.Monitor (settle the job) -> Queue.Dispatcher (evaluate again)
--
-- The files, and the code of the repository that each models:
--
--   Base, Base/*          shared names, Boolean tests, counting in lists, texts as code points
--   JobStore/Rows         internal/jobstore/record.go, store.go, sqlite.go: one row
--   JobStore/Query        internal/jobstore/sqlite.go: ListByStatus, HasConflict, DeleteOlderThan
--   JobStore/Recovery     internal/jobstore/queries.go: RecoverOrphanedJobs
--   JobStore/Swap, Listing, Orphans         theorems on the above
--   JobStore/Life, Life/Steps               the life of a job as an abstract machine, theorems
--   Queue/Classifier      internal/jobqueue/classifier.go: Classify
--   Queue/Monitor         internal/jobqueue/monitor.go: the registry, handleTermination, time-outs
--   Queue/Dispatcher      internal/jobqueue/dispatcher.go: EvaluateAndDispatch, dispatch
--   Queue/Scheduler       internal/jobqueue/scheduler.go: maybeCreateRefreshJob
--   Queue/Retention       internal/jobqueue/retention.go: purge, and its theorem
--   Queue/Drain           internal/jobqueue/dispatcher.go: EnterDrainMode, launchUpgrade, a theorem
--   Queue/System          the service over time, as steps on the dispatcher's state
--   Queue/Rules, Limits, Exclusion, Separation, Progress, Mixing, Refresh, Termination, Moves
--                         theorems
--   Tasks/Functions       internal/tasks/functions.go: ResolveFunction, wireFunction
--   Tasks/Params          internal/tasks/dispatcher.go: withAction and what the handlers decode
--   Tasks/Response        internal/tasks/dispatcher.go: TaskResponse, MarshalJSON;
--                         internal/protocol/protocol.go: NormalizeStatus
--   Tasks/Timeouts        internal/tasks/dispatcher.go: the deadlines of Dispatch
--   Tasks/Dispatch        internal/tasks/dispatcher.go: Dispatch
--   Tasks/Names, Status, Dispatch/Routing   theorems
--   Agent                 cmd/agent/main.go: the handling of one delivery in runAgent
--   Agent/Delivery, Duplicates              theorems
--   Worker                internal/worker/worker.go: RunJob; executor.go: executeArtifactDownload
--   Worker/Reports, Settles, Race, Moves    theorems
--   Lifecycle             the table of jobs over time, under every part that writes to it
--   Upgrade               internal/upgrade/upgrade.go: Run, Cleanup; cmd/agent/main.go: the upgrade
--                         command and the start of an agent after an upgrade
--   Upgrade/Rollback, Reports               theorems
--   StartupLog            internal/upgrade/upgrade.go: waitForStartupLog and what it reads
--   StartupLog/Confirms   theorems
--   Download              internal/download: downloader.go, placement.go, contentlength.go
--   Download/Progress, Placement            theorems
--   Staging               internal/tasks/agent_upgrade.go: handleAgentUpgrade, over Download
--   Staging/Outcomes      theorems
--   Rabbit                internal/rabbitmq/connection.go: the connection and its supervisor
--   Rabbit/Publisher      internal/rabbitmq/publisher.go: PublishConfirmed, PublishTo, a theorem
--   Rabbit/Consumer       internal/rabbitmq/consumer.go: Run, subscribe, pump, a theorem
--   Rabbit/Recovery, Ownership              theorems
--   Batch                 internal/tasks/vm_management.go: handleVMBatchAction, processVMBatchVM
--   Batch/Validation, Summary, Items        theorems
--   Management            internal/tasks/vm_management.go: handleVMManagement
--   Management/Actions    internal/tasks/vm_management.go: the power states and the snapshots
--   Management/Drives     internal/tasks/vm_management.go: the DVD drive and high availability, with
--                         theorems
--   Management/Settings   internal/tasks/vm_management.go, vm_shutdown.go: notes, start-up, metering,
--                         refresh_status, shutdown
--   Management/Routing, Outcomes            theorems
--   Folders               internal/tasks/vm_management.go: cleanupEmptyDir
--   Folders/Cleanup       theorems
--   Relocate              internal/tasks/vm_management.go: handleVMRename
--   Relocate/Destinations internal/tasks/vm_management.go: handleVMMove,
--                         resolveStandaloneMoveDestination
--   Relocate/Reports, Moves, Renames, Resolution       theorems
--   Migration             internal/tasks/vm_management.go: handleVMMigrate and its helpers
--   Migration/Guards      theorems
--   Deletion              internal/tasks/vm_management.go: handleVMDelete
--   Deletion/Files        theorems
--   Export                internal/tasks/vm_management.go: handleVMExportTemplate;
--                         template_inventory.go: the entry of a template, generateUUID
--   Export/Templates      theorems
--   Edit, Edit/Devices, Edit/Run            internal/tasks/vm_edit.go: handleVMEdit
--   Edit/Requests, Changes, Passing         what an edit asks for, theorems
--   Edit/Outcomes         theorems
--   Clone                 internal/tasks/vm_clone.go: handleVMClone
--   Clone/Retries         theorems
--   Conversion            internal/tasks/vm_clone.go: expandClonedDisksToFixed; vm_management.go:
--                         convertExportedTemplateDisksToDynamic
--   Conversion/Losses     theorems
--   PowerShell            internal/hyperv/powershell.go: the runners; internal/tasks/vm_management.go:
--                         extractPSErrorDetail
--   PowerShell/Details    theorems
--   HostActions           internal/tasks/host_management.go: handleHostManagement
--   HostActions/Guards    theorems
--   Scripts               internal/tasks/vm_create.go: escapePS; vm_management.go:
--                         escapePSSingleQuoted, psStringArray
--   Scripts/Quoting, Arrays                 the reading of such texts by PowerShell, theorems
--   Inventory             internal/tasks/vm_inventory.go: handleVMInventory
--   Inventory/Gathering, Assembly           theorems
--   Thumbnails            internal/tasks/vm_thumbnail.go: rgb565ToJPEG, collectVMThumbnails
--   Thumbnails/Pixels     theorems
--   Config                internal/config/config.go, storage.go: Load, LoadForMessaging
--   Config/Validity, Storage                theorems
--   Create                internal/tasks/vm_create.go: handleVMCreate up to its disks,
--                         vmCreateTimeout; vm_clone.go: vmCloneTimeout; disk_space_check.go:
--                         checkDiskSpace on a host without a cluster
--   Create/Limits         theorems
--   StateQueues           internal/tasks/state_payload.go, and the declarations of the state
--                         queues in cmd/agent/main.go and internal/worker/worker.go
--   StateQueues/Agreement a theorem
--   Service               internal/service/windows.go: Execute
--   Service/Runs          a theorem
--   Examples/*            concrete runs at which the theorems are applied
--
-- How state and operations correspond. The table of jobs is a list of rows; a statement of SQL is a
-- function on it, in a transaction, and a Boolean says whether the database refuses it. The
-- monitor's map is a list of entries. An operation takes the state and returns the new one; what
-- the code draws or asks of the world (a process id, a clock, the broker, the operating system) is
-- a field of a record that the operation takes (Env, Tick, WorkerEnv, Handlers) or a function
-- argument, with no assumption but the ones that a theorem names. Errors are values. Numbers are
-- unbounded and durations are seconds. Loops are recursions on the list that the source's loop
-- ranges over, but for the redialling of Rabbit, which has no bound in the source: it runs on fuel,
-- one round for each attempt, and a theorem says how many rounds are enough.
--
-- Interleaving. The monitor and the dispatcher of one service run one step at a time in
-- Queue/System, between which anybody may write to the store. Worker.run_job takes the store twice,
-- as it is when the job is read and when its status is set. The parts that write to the table of
-- jobs meet in Lifecycle, in any order, and the supervisor of the connection meets Close and the
-- broker in Rabbit/Ownership.
--
-- Not modelled: what PowerShell does with a script, and the handlers that only build scripts for it or
-- decode what it prints (the last steps of a creation, the inventory of the hardware, metrics);
-- the texts of the logs, the registration of the Windows service and the callbacks after a
-- reconnection. JSON is decoded by a parameter, up to the fields that the code reads; the INI file and
-- the paths of Windows answer through parameters too. What a cmdlet does to a host is
-- an answer of the host, and the machine of a task is the only one of its model.
pub mod Base
pub mod JobStore
pub mod Queue
pub mod Tasks
pub mod Agent
pub mod Worker
pub mod Lifecycle
pub mod Upgrade
pub mod Download
pub mod Staging
pub mod Rabbit
pub mod Batch
pub mod Management
pub mod Config
pub mod StateQueues
pub mod Service
pub mod Create
pub mod Folders
pub mod Relocate
pub mod Migration
pub mod Scripts
pub mod Deletion
pub mod Inventory
pub mod Thumbnails
pub mod Export
pub mod Edit
pub mod Conversion
pub mod HostActions
pub mod StartupLog
pub mod PowerShell
pub mod Clone
pub mod Examples
