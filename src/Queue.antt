-- ===== src/Queue.antt =====
-- The plan queue of queueserver_service: queueserver_service/manager/plan_queue_ops.py over the
-- storage interface of queueserver_service/manager/queue_store.py.
pub mod Json
pub mod Store
pub mod SqlStore
pub mod State
pub mod Access
pub mod Insert
pub mod Running
pub mod Finished
pub mod Edit
pub mod History
pub mod Uids
pub mod Consistent
mod Tests
