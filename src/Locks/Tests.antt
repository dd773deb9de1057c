-- ===== src/Locks/Tests.antt =====
-- Witnesses and tests for the lock manager.
use ophyd_service.Prelude.{
  ℕ, ◌≡◌, refl, ◌≢◌, true, false, none, some, [], ◌∷◌, String, arith, eq_iff, member, List, ◌⊎◌,
  ◌≤◌,
}
use ophyd_service.Dict
use ophyd_service.Dict.{NodupKeys}
use ophyd_service.Registry.{
  DeviceMetadata, DeviceInstantiationSpec, DeviceRegistry, get_device, get_instantiation_spec,
}
use ophyd_service.Locks.{
  DeviceLockManager, DeviceLockState, LockRequest, init, active_lock, live, is_expired,
  check_device, find_conflicts, cons_some, hold_all, new_lock, next_expiry, grant, acquire_locks,
}
use ophyd_service.Locks.Acquire.{acquire_locks_all_or_nothing, AllAcquirable, Granted}
use ophyd_service.Locks.Acquire.Exclusion.{acquire_locks_holds, acquire_locks_excludes, lapsed}
use ophyd_service.Locks.Renewal.{standing, own, renew_locks, renew_loop, touch, is_own}
use ophyd_service.Locks.Renewal.Sorting.{renew_locks_sorts, renew_locks_success}
use ophyd_service.Locks.Release.{release_locks, find_foreign, drop_held, force_unlock}
use ophyd_service.Locks.Release.Ownership.{release_locks_success, release_locks_failure}
use ophyd_service.Locks.Release.Force.{ForceOutcome, force_unlock_all_or_nothing}
use ophyd_service.Locks.Policy.{
  effective_lock, global_lock_holder, get_all_locks, live_entries, first_earliest, earliest,
}
use ophyd_service.Locks.Policy.Holder.{Governs, effective_lock_policy, global_lock_holder-earliest}
use ophyd_service.Locks.History.{Call, acquire, renew, release, run, step, IsTable}
use ophyd_service.Locks.History.Table.{run-IsTable}
use ophyd_service.Locks.History.Safety.{step-StillLocked, StillLocked}

abbrev motor : DeviceMetadata
motor = record {
  name = "m1";
  device_label = "motor";
  ophyd_class = "EpicsMotor";
  is_movable = true;
  is_flyable = false;
  is_readable = true;
  pvs = ("val", "X") ∷ [];
  labels = [];
}

abbrev spec : DeviceInstantiationSpec
spec = record { name = "m1"; device_class = "ophyd.EpicsMotor"; active = true }

abbrev beamline : DeviceRegistry
beamline = record {
  devices = ("m1", motor) ∷ [];
  pvs = [];
  instantiation_specs = ("m1", spec) ∷ [];
  standalone_pv_names = [];
}

abbrev idle : DeviceLockManager
idle = record { locks = []; version = 0; lock_all_enabled = false; lease_ttl = 30; epoch = "e" }

abbrev scan : LockRequest
scan = record {
  device_names = "m1" ∷ [];
  item_id = "i1";
  plan_name = "scan";
  locked_by_service = "qs";
}

abbrev ticks : ℕ → ℕ
ticks i = i

-- The manager after `scan` was granted; the lease ends at 31.
abbrev busy : DeviceLockManager
busy = (acquire_locks idle scan beamline ticks "k1").0

abbrev m1_lock : DeviceLockState
m1_lock = record {
  device_name = "m1";
  locked = true;
  locked_by_plan = "scan";
  locked_by_item = "i1";
  locked_by_service = "qs";
  locked_at = 2;
  lock_id = "k1";
  expires_at = some 31;
}

scan_granted : (acquire_locks idle scan beamline ticks "k1").1.success ≡ true
unfolding acquire_locks find_conflicts check_device active_lock cons_some grant Dict.get get_device
    get_instantiation_spec live
scan_granted = refl

m1_held : Dict.get busy.locks "m1" ≡ some m1_lock
unfolding acquire_locks find_conflicts check_device active_lock cons_some grant new_lock next_expiry
    Dict.get Dict.insert get_device get_instantiation_spec live
m1_held = refl

lease_end : (acquire_locks idle scan beamline ticks "k1").1.expires_at ≡ some 31
unfolding acquire_locks find_conflicts check_device active_lock cons_some grant next_expiry Dict.get
    get_device get_instantiation_spec live
lease_end = refl

lasts :
    (t : ℕ) → t ≤ 30 → lapsed (acquire_locks idle scan beamline ticks "k1").1.expires_at t ≡ false
lasts t h = rw lease_end (ground arith)

acquire_locks_all_or_nothing_example :
    AllAcquirable idle beamline ticks 0 scan.device_names
      × Granted idle scan "k1" (acquire_locks idle scan beamline ticks "k1")
    ⊎ (¬ AllAcquirable idle beamline ticks 0 scan.device_names)
      × ((acquire_locks idle scan beamline ticks "k1").1.success ≡ false)
      × ((acquire_locks idle scan beamline ticks "k1").1.conflicts ≢ [])
      × ((acquire_locks idle scan beamline ticks "k1").0 ≡ idle)
acquire_locks_all_or_nothing_example = acquire_locks_all_or_nothing idle scan beamline ticks "k1"

acquire_locks_excludes_example :
    ((acquire_locks busy scan beamline (λ i. 9) "k2").1.success ≡ false)
    × ((acquire_locks busy scan beamline (λ i. 9) "k2").0 ≡ busy)
acquire_locks_excludes_example =
    acquire_locks_excludes idle scan scan beamline beamline ticks (λ i. 9) "k1" "k2" "m1"
      scan_granted m1_named m1_named (λ i. lasts 9 (omega arith))
  where
    m1_named : member "m1" scan.device_names ≡ true
    m1_named = refl

other_item : ◌≢◌ {A = String} "i1" "i2"
other_item = ground (arith, eq_iff "i1" "i2")

renew_locks_sorts_example :
    member "m1" (renew_locks busy ("m1" ∷ []) "i1" 9).1.renewed
    ≡ is_own (standing "i1" 9 (Dict.get busy.locks "m1"))
renew_locks_sorts_example = (renew_locks_sorts busy ("m1" ∷ []) "i1" 9 "m1").0

renewed : (renew_locks busy ("m1" ∷ []) "i1" 9).1.success ≡ true
unfolding renew_locks renew_loop touch is_expired acquire_locks find_conflicts check_device
    active_lock cons_some grant hold_all new_lock next_expiry Dict.get Dict.insert get_device
    get_instantiation_spec live
renewed = refl

renewed_until : (renew_locks busy ("m1" ∷ []) "i1" 9).1.expires_at ≡ some 39
unfolding renew_locks next_expiry acquire_locks find_conflicts check_device active_lock cons_some
    grant Dict.get get_device get_instantiation_spec live
renewed_until = refl

renew_locks_success_example :
    (standing "i1" 9 (Dict.get busy.locks "m1") ≡ own)
    × (standing "i1" 38 (Dict.get (renew_locks busy ("m1" ∷ []) "i1" 9).0.locks "m1") ≡ own)
renew_locks_success_example =
    renew_locks_success busy ("m1" ∷ []) "i1" 9 "m1" 38 renewed refl (rw renewed_until refl)

own_release : (release_locks busy ("m1" ∷ []) "i1" 9).1.success ≡ true
unfolding release_locks find_foreign is_expired acquire_locks find_conflicts check_device
    active_lock cons_some grant hold_all new_lock next_expiry Dict.get Dict.insert get_device
    get_instantiation_spec live drop_held Dict.remove
own_release = refl

release_locks_success_example : active_lock (release_locks busy ("m1" ∷ []) "i1" 9).0 "m1" 10 ≡ none
release_locks_success_example =
    (release_locks_success busy ("m1" ∷ []) "i1" 9 own_release "m1").0 10

foreign_release : (release_locks busy ("m1" ∷ []) "i2" 9).1.success ≡ false
unfolding release_locks find_foreign is_expired acquire_locks find_conflicts check_device
    active_lock cons_some grant hold_all new_lock next_expiry Dict.get Dict.insert get_device
    get_instantiation_spec live drop_held Dict.remove
foreign_release = refl

release_locks_failure_example : (release_locks busy ("m1" ∷ []) "i2" 9).0 ≡ busy
release_locks_failure_example = (release_locks_failure busy ("m1" ∷ []) "i2" 9 foreign_release).0

force_unlock_all_or_nothing_example :
    ForceOutcome busy beamline ("m1" ∷ "m2" ∷ []) (force_unlock busy ("m1" ∷ "m2" ∷ []) beamline)
force_unlock_all_or_nothing_example = force_unlock_all_or_nothing busy ("m1" ∷ "m2" ∷ []) beamline

abbrev calls : List Call
calls =
    acquire scan beamline ticks "k1" ∷ renew ("m1" ∷ []) "i1" 9 ∷ release ("m1" ∷ []) "i1" 12 ∷ []

run-IsTable_example : IsTable (run (init false 30 "e") calls)
run-IsTable_example = run-IsTable false 30 "e" calls

busy-IsTable : IsTable (run (init false 30 "e") (acquire scan beamline ticks "k1" ∷ []))
busy-IsTable = run-IsTable false 30 "e" (acquire scan beamline ticks "k1" ∷ [])

busy_keys : NodupKeys busy.locks
busy_keys = unfold run step init in busy-IsTable.keys

-- Under the policy the second device is unavailable, and its own reading finds it free.
abbrev strict : DeviceLockManager
strict = record busy { lock_all_enabled = true }

effective_lock_policy_example : Governs strict "m2" 9 10 (effective_lock strict "m2" 9 10)
effective_lock_policy_example = effective_lock_policy strict "m2" 9 10 busy_keys

step-StillLocked_example : StillLocked (step busy (release ("m1" ∷ []) "i2" 9)) m1_lock "m1"
unfolding is_expired
step-StillLocked_example =
    step-StillLocked busy (release ("m1" ∷ []) "i2" 9) m1_lock "m1" m1_held refl (other_item, refl)

acquire_locks_holds_example :
    (s : DeviceLockState) × (active_lock busy "m1" 9 ≡ some s)
    × (s.locked_by_item ≡ "i1")
    × (s.lock_id ≡ "k1")
acquire_locks_holds_example =
    acquire_locks_holds idle scan beamline ticks "k1" "m1" 9 scan_granted refl
      (lasts 9 (omega arith))

m1_holds_all : global_lock_holder busy 9 ≡ some m1_lock
unfolding global_lock_holder get_all_locks live_entries first_earliest earliest is_expired
    acquire_locks find_conflicts check_device active_lock cons_some grant hold_all new_lock
    next_expiry Dict.get Dict.insert get_device get_instantiation_spec live Dict.values
m1_holds_all = refl

global_lock_holder-earliest_example :
    ((d : String) × (active_lock busy d 9 ≡ some m1_lock))
    × ((d : String) (s' : DeviceLockState)
        → active_lock busy d 9 ≡ some s'
        → m1_lock.locked_at ≤ s'.locked_at)
global_lock_holder-earliest_example =
    global_lock_holder-earliest busy 9 m1_lock busy_keys m1_holds_all
