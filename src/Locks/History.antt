-- ===== src/Locks/History.antt =====
-- Histories of the lock manager (configuration_service/lock_manager.py): any sequence of calls, in
-- the order in which they hold its `asyncio.Lock`.
pub mod Table
pub mod Safety
use ophyd_service.Prelude.{
  ℕ, zero, suc, ◌+◌, ◌≤◌, String, ◌≡◌, refl, sym, ◌≢◌, Bool, true, false, ◌||◌, ◌&&◌, not, Option,
  none, some, List, [], ◌∷◌, arith, ◌==◌, eq_iff, if◌then◌else◌, is_some, member, leb, length, ◌⊎◌,
  inl, inr, Bool-cases, Option-cases,
}
use ophyd_service.Dict
use ophyd_service.Dict.{Dict, NodupKeys, insert-NodupKeys, remove-NodupKeys}
use ophyd_service.Registry.{DeviceRegistry}
use ophyd_service.Locks.{
  DeviceLockState, DeviceLockManager, LockRequest, LockResult, active_lock, live, is_expired, init,
  acquire_locks, hold_all, new_lock, grant, next_expiry,
}
use ophyd_service.Locks.Acquire.{Granted, acquire_locks_all_or_nothing}
use ophyd_service.Locks.Acquire.Exclusion.{AllAcquirable-active}
use ophyd_service.Locks.Renewal.{Standing, standing, own, touch, renew_loop, renew_locks, is_own}
use ophyd_service.Locks.Renewal.Sorting.{extend, renew_locks_sorts}
use ophyd_service.Locks.Release.{
  ForeignLock, find_foreign, is_held, drop_held, release_locks, dedup, unknown_names, force_drop,
  force_branch, force_unlock, clear_all,
}
use ophyd_service.Locks.Release.Ownership.{get-drop_held, find_foreign-none}
use ophyd_service.Locks.Release.Force.{get-force_drop, member-dedup}
use ophyd_service.Locks.Policy.{set_lock_all}

pub data Call : Type 0 where
  acquire : LockRequest → DeviceRegistry → (ℕ → ℕ) → String → Call
  renew : List String → String → ℕ → Call
  release : List String → String → ℕ → Call
  force : List String → DeviceRegistry → Call
  clear : Call
  policy : Bool → Call

unfoldable pub step : DeviceLockManager → Call → DeviceLockManager
step m (acquire q r clock lock_id) = (acquire_locks m q r clock lock_id).0
step m (renew names item now) = (renew_locks m names item now).0
step m (release names item now) = (release_locks m names item now).0
step m (force names r) = (force_unlock m names r).0
step m clear = (clear_all m).0
step m (policy enabled) = set_lock_all m enabled

unfoldable pub run : DeviceLockManager → List Call → DeviceLockManager
run m [] = m
run m (c ∷ cs) = run (step m c) cs

-- Each device has one entry in the table, held, and under its own name.
pub record IsTable (m : DeviceLockManager) : Type 0 where
  pub keys : NodupKeys m.locks
  pub held : (d : String) (s : DeviceLockState) → Dict.get m.locks d ≡ some s → s.locked ≡ true
  pub named : (d : String) (s : DeviceLockState) → Dict.get m.locks d ≡ some s → s.device_name ≡ d
