-- ===== src/Lib.antt =====
-- The core of three services for beamlines: who may use a device, what is known of the devices, and
-- the queue of plans.
--
-- The configuration service (backend/configuration_service/src/configuration_service) keeps the
-- registry of devices and the locks on them. The queue server
-- (backend/queueserver_service/queueserver_service/manager) keeps the queue of plans, runs them one at
-- a time, and asks the configuration service for locks before a plan runs.
--
-- Registry models `DeviceRegistry` of models.py: the devices, their instantiation specifications, and
-- the index from PVs to owners. The functions have the names of the methods (`add_device`,
-- `_release_pv_ownership` as `release_pv_ownership`); the loops in them are functions of their own
-- (`index_pvs`, `rehome_all`). Registry.Owners states what each loop does to the index, Registry.Index
-- what it is for the index to agree with the devices, Registry.Upkeep that the operations keep it so,
-- and Registry.History puts the operations in sequences, guarded as the endpoints of main.py guard
-- them. Listing and searching are not modelled: they only read.
--
-- Locks models lock_manager.py. The state is the record `DeviceLockManager`; each coroutine holds one
-- `asyncio.Lock` from its first statement to its last, so it is one function. Time is a natural number,
-- and the clock is an argument: `acquire_locks` takes the readings in their order, `effective_lock` two,
-- the others one; a lease of 0 stands for disabled leases. The lock's uuid is an argument too. Logging is
-- left out. The children are Acquire, Renewal, Release and Policy for the operations, and History for any
-- sequence of calls.
--
-- RegistryStore models device_registry_store.py of the same service, the table of devices with its audit
-- log, over the tables of db.py. RegistryStore.Feed has `get_changes_since`, RegistryStore.Latest what one
-- more audit entry does to it, RegistryStore.Events the writes that the routes of main.py make, in any
-- order, and RegistryStore.Reload a restart. What pydantic writes as JSON is represented by the model
-- that it reads back to; the collation of `ORDER BY name` and the printing of the clock are arguments.
-- An id of the audit log is the successor of the last one, so a sequence with gaps is left out.
--
-- LockService has the routes of main.py for device locks, over Locks and RegistryStore.
--
-- Health models pv_health_manager.py with the record and the state of models.py: what is reported of a
-- PV, and a sequence of reports. Health.Counting has what the records count.
--
-- Queue models plan_queue_ops.py over the interface of queue_store.py. Queue.Json has the items,
-- Queue.Store the lists of the store as the comment at the head of queue_store.py states them, and
-- Queue.State the record `PlanQueue` with a monad for methods that raise: what was written before an
-- error stays written. The uuids are a sequence that is a field of the state, with the number drawn so
-- far; where a theorem needs a uuid to be new, it says so. Queue.Access, Queue.Insert, Queue.Edit,
-- Queue.Running, Queue.Finished and Queue.History have the operations: a private method and the public
-- one that calls it under the lock are one function. Python's `==` of two dictionaries is an argument
-- of `replace_item`. Queue.Consistent has the invariant, and its children what the operations do.
-- The invariant excludes items that were submitted for immediate execution: their uids are never
-- registered. An item whose uid is not a text is taken for one without a uid.
-- Queue.SqlStore has the rows of `SqlQueueStore`, over which its calls are compared with those on lists;
-- the arithmetic of positions and the choice of ids are arguments. The key/value table is left out.
--
-- Overlay models how the queue server follows the registry before each plan: `build_staleness_plan` and
-- `fetch_staleness_plan` of config_service.py, `check_staleness_before_plan` of
-- config_service_coordinator.py, and `_command_update_device_overlay_handler` of worker.py. The answers of
-- the service, the construction of a device and the refresh of the lists are arguments. Overlay.Plan and
-- Overlay.Specs are about the plan, Overlay.Worker and Overlay.Command about the worker, Overlay.Answer
-- about the feed, Overlay.Total about when the check raises no error, Overlay.Current, Overlay.Retried and
-- Overlay.Start about the whole.
--
-- Coordinator models the locking of config_service_coordinator.py over any client, and
-- Coordinator.Network the client of config_service.py that sends its requests to LockService over a
-- network: for every attempt the network decides whether the request and its response arrive. The
-- attempts that remain are the recursion of `request`. The names of the devices of a plan are an
-- argument. The lease heartbeat, which runs beside, is not modelled.
--
-- DeviceDiff models `compute_diff`, `_select_writes` and `apply_diff` of config_service.py, by which an
-- operator brings the registry in line with the devices of the worker, with specifications and metadata
-- as JSON objects. Python's `==` of two specifications and of two values are arguments. A payload that is
-- not a dictionary is taken for one that is missing. DeviceDiff.Service has `upsert_device` and
-- `delete_device` of the client, with the attempts of its requests, and the routes of main.py that create
-- (`create_device`), update (`put_device`) and delete (`drop_device`) a device, as far as the names and the
-- specifications go. Pydantic's validation, the allowlist of classes and the locks at the service are
-- arguments. The requests that run concurrently are made in their order here, each with its attempts, and
-- nothing else writes to the registry between the comparison and the last write.
-- DeviceDiff.Payload has what the worker reports, by `build_config_service_payload` of
-- device_introspection.py, over the texts that the introspection reads of a device; the other metadata of
-- a device is an argument. DeviceDiff.Compared has what the comparison finds, DeviceDiff.Effect what the lists of names keep,
-- DeviceDiff.Untouched and DeviceDiff.Written what the requests do, and DeviceDiff.Phantom and
-- DeviceDiff.Disabled are about the whole.
--
-- All functions are total: the loops are structural recursions over lists, so no fuel is needed.
-- Natural numbers stand for Python's unbounded integers, and `ℤ` of Prelude.Int for positions that may
-- be negative.
--
-- Dict models Python's dictionaries with text keys. Prelude has the names that all modules share.
--
-- Not modelled: the Redis backend of the queue's storage, the other HTTP routes of the
-- services, the exports of the registry, the worker process that runs the plans, the inspection of the
-- user's Python code, the direct control service, and the frontend. These are input and output, or call
-- libraries for what they do.
pub mod Prelude
pub mod Dict
pub mod Registry
pub mod RegistryStore
pub mod Health
pub mod Locks
pub mod LockService
pub mod Overlay
pub mod Coordinator
pub mod DeviceDiff
pub mod Queue
