-- ===== src/Locks/Acquire.antt =====
-- `acquire_locks` (configuration_service/lock_manager.py): all or nothing, and exclusive.
pub mod Exclusion
use ophyd_service.Prelude.{
  ℕ, zero, suc, ◌+◌, String, ◌≡◌, refl, ◌≢◌, Bool, true, false, ◌||◌, ◌&&◌, not, Option, none, some,
  List, [], ◌∷◌, ◌++◌, arith, ◌==◌, eq_iff, if◌then◌else◌, is_some, member, leb, ltb, length, ◌⊎◌,
  inl, inr, ◌↔◌, Bool-cases, Option-cases,
}
use ophyd_service.Dict
use ophyd_service.Dict.{Dict, get-insert}
use ophyd_service.Registry.{DeviceRegistry, DeviceMetadata, get_device, get_instantiation_spec}
use ophyd_service.Locks.{
  DeviceLockState, DeviceLockManager, LockConflict, LockRequest, LockResult, active_lock, live,
  is_expired, check_device, find_conflicts, cons_some, hold_all, new_lock, next_expiry, grant,
  acquire_locks, sorted_set, insert_sorted, collect_pvs, get_device_pvs,
}

abbrev pub has_active_spec : DeviceRegistry → String → Bool
has_active_spec r d = elim (get_instantiation_spec r d) [ none ↦ false | some spec ↦ spec.active ]

-- A device that can be locked: registered, enabled, and under no live lock.
abbrev pub Acquirable : DeviceLockManager → DeviceRegistry → ℕ → String → Type 0
Acquirable m r now d =
    (is_some (get_device r d) ≡ true) × (has_active_spec r d ≡ true) × (active_lock m d now ≡ none)

check_device_iff :
    (m : DeviceLockManager) (r : DeviceRegistry) (now : ℕ) (d : String)
    → (check_device m r now d ≡ none) ↔ Acquirable m r now d
unfolding check_device
check_device_iff m r now d = (λ h. ground arith, λ h. ground arith)

-- Each device of the list at the reading at which it is checked.
abbrev pub AllAcquirable : DeviceLockManager → DeviceRegistry → (ℕ → ℕ) → ℕ → List String → Type 0
AllAcquirable m r clock i [] = Unit
AllAcquirable m r clock i (d ∷ ds) = Acquirable m r (clock i) d × AllAcquirable m r clock (suc i) ds

pub find_conflicts_iff :
    (m : DeviceLockManager) (r : DeviceRegistry) (clock : ℕ → ℕ) (i : ℕ) (ds : List String)
    → (find_conflicts m r clock i ds ≡ []) ↔ AllAcquirable m r clock i ds
unfolding find_conflicts cons_some
find_conflicts_iff m r clock i [] = (λ h. tt, λ h. refl)
find_conflicts_iff m r clock i (d ∷ ds) =
    let one = check_device_iff m r (clock i) d in
    let rest = find_conflicts_iff m r clock (suc i) ds in
    (
      λ h. (one.0 (ground (arith, h)), rest.0 (ground (arith, h))),
      λ h. rw (one.1 h.0, cons_some) (rest.1 h.1),
    )

pub get-hold_all :
    (lock : String → ℕ → DeviceLockState) (clock : ℕ → ℕ) (i : ℕ) (locks : Dict DeviceLockState)
    (ds : List String) (d : String)
    → (t : ℕ) × (Dict.get (hold_all lock clock i locks ds) d
        ≡ (if member d ds then some (lock d t) else Dict.get locks d))
unfolding hold_all
get-hold_all lock clock i locks [] d = (0, refl)
get-hold_all lock clock i locks (x ∷ xs) d =
    let (t, e) = get-hold_all lock clock (suc i) (Dict.insert locks x (lock x (clock i))) xs d in
    elim (Bool-cases (member d xs)) [
      | inl k ↦ (t, ground (arith, e, k))
      | inr k ↦ (clock i, ground (arith, e, k, eq_iff x d, get-insert locks x (lock x (clock i)) d))
    ]

-- What a granted request leaves for a device: the new lock on the named ones, all else as it was.
abbrev pub Granted :
    DeviceLockManager → LockRequest → String → DeviceLockManager × LockResult → Type 0
Granted m q lock_id (m', res) =
    (res.success ≡ true)
    × (m'.version ≡ m.version + 1)
    × ((d : String)
        → (t : ℕ) × (Dict.get m'.locks d ≡ (
            if member d q.device_names
            then some
                (new_lock q.item_id q.plan_name q.locked_by_service lock_id res.expires_at d t)
            else Dict.get m.locks d)))

grant-Granted :
    (m : DeviceLockManager) (q : LockRequest) (r : DeviceRegistry) (clock : ℕ → ℕ)
    (lock_id : String)
    → Granted m q lock_id (grant m q r clock lock_id)
unfolding grant
grant-Granted m q r clock lock_id =
    let ds = q.device_names in
    let n = length ds in
    let lock =
      new_lock q.item_id q.plan_name q.locked_by_service lock_id (next_expiry m (clock n)) in
    (refl, refl, λ d. get-hold_all lock clock (suc n) m.locks ds d)

-- A request for locks does one of two things. If every device, when it is checked, is registered,
-- has an active specification and is under no live lock, then it succeeds: each named device gets a
-- lock of the request, every other device is as it was, and the version goes up by one. Otherwise
-- it fails, with at least one conflict, and the manager is unchanged.
pub acquire_locks_all_or_nothing :
    (m : DeviceLockManager) (q : LockRequest) (r : DeviceRegistry) (clock : ℕ → ℕ)
    (lock_id : String)
    → AllAcquirable m r clock 0 q.device_names
        × Granted m q lock_id (acquire_locks m q r clock lock_id)
      ⊎ (¬ AllAcquirable m r clock 0 q.device_names)
        × ((acquire_locks m q r clock lock_id).1.success ≡ false)
        × ((acquire_locks m q r clock lock_id).1.conflicts ≢ [])
        × ((acquire_locks m q r clock lock_id).0 ≡ m)
unfolding acquire_locks
acquire_locks_all_or_nothing m q r clock lock_id =
    go (find_conflicts m r clock 0 q.device_names) refl
  where
    iff :
        (find_conflicts m r clock 0 q.device_names ≡ []) ↔ AllAcquirable m r clock 0 q.device_names
    iff = find_conflicts_iff m r clock 0 q.device_names

    go :
        (cs : List LockConflict)
        → find_conflicts m r clock 0 q.device_names ≡ cs
        → AllAcquirable m r clock 0 q.device_names
            × Granted m q lock_id (acquire_locks m q r clock lock_id)
          ⊎ (¬ AllAcquirable m r clock 0 q.device_names)
            × ((acquire_locks m q r clock lock_id).1.success ≡ false)
            × ((acquire_locks m q r clock lock_id).1.conflicts ≢ [])
            × ((acquire_locks m q r clock lock_id).0 ≡ m)
    go [] e = inl (iff.0 e, rw (e, acquire_locks) (grant-Granted m q r clock lock_id))
    go (c ∷ cs) e = inr (
      λ a. ground (arith, e, iff.1 a),
      rw (e, acquire_locks) refl,
      rw (e, acquire_locks) (λ h. ground (arith, h)),
      rw (e, acquire_locks) refl,
    )
