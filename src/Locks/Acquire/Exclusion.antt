-- ===== src/Locks/Acquire/Exclusion.antt =====
-- Mutual exclusion by `acquire_locks` (configuration_service/lock_manager.py), and its PV list.
use ophyd_service.Prelude.{
  ℕ, suc, String, ◌≡◌, refl, Bool, true, false, ◌||◌, Option, none, some, List, [], ◌∷◌, ◌++◌,
  arith, ◌==◌, eq_iff, member, leb, inl, inr, Bool-cases, Option-cases,
}
use ophyd_service.Dict
use ophyd_service.Dict.{Dict, get-insert}
use ophyd_service.Registry.{DeviceRegistry, get_device}
use ophyd_service.Registry.Owners.{claims, lists}
use ophyd_service.Locks.{
  DeviceLockState, DeviceLockManager, LockRequest, active_lock, live, is_expired, new_lock, grant,
  acquire_locks, sorted_set, insert_sorted, collect_pvs, get_device_pvs,
}
use ophyd_service.Locks.Acquire.{AllAcquirable, acquire_locks_all_or_nothing}

-- The lease has run out at the instant; a lock without a lease never lapses.
abbrev pub lapsed : Option ℕ → ℕ → Bool
lapsed none now = false
lapsed (some t) now = leb t now

live-new_lock :
    (item plan service lock_id : String) (expires : Option ℕ) (d : String) (at t : ℕ)
    → lapsed expires t ≡ false
    → live t (some (new_lock item plan service lock_id expires d at))
      ≡ some (new_lock item plan service lock_id expires d at)
unfolding live is_expired new_lock
live-new_lock item plan service lock_id none d at t l = refl
live-new_lock item plan service lock_id (some e) d at t l = rw l

-- After a success, a named device is under a live lock of the item, with the lock id that was
-- given, until the lease runs out.
pub acquire_locks_holds :
    (m : DeviceLockManager) (q : LockRequest) (r : DeviceRegistry) (clock : ℕ → ℕ)
    (lock_id d : String) (t : ℕ)
    → (acquire_locks m q r clock lock_id).1.success ≡ true
    → member d q.device_names ≡ true
    → lapsed (acquire_locks m q r clock lock_id).1.expires_at t ≡ false
    → (s : DeviceLockState) × (active_lock (acquire_locks m q r clock lock_id).0 d t ≡ some s)
      × (s.locked_by_item ≡ q.item_id)
      × (s.lock_id ≡ lock_id)
unfolding active_lock new_lock
acquire_locks_holds m q r clock lock_id d t ok k l =
    elim (acquire_locks_all_or_nothing m q r clock lock_id) [
      | inr (_, f, _, _) ↦ absurd (ground (arith, f, ok))
      | inl (_, g) ↦
          let (at, e) = g.2 d in
          (
            new_lock q.item_id q.plan_name q.locked_by_service lock_id
                (acquire_locks m q r clock lock_id).1.expires_at d at,
            rw (e, k) (live-new_lock q.item_id q.plan_name q.locked_by_service lock_id _ d at t l),
            refl,
            refl,
          )
    ]

pub AllAcquirable-active :
    (m : DeviceLockManager) (r : DeviceRegistry) (clock : ℕ → ℕ) (i : ℕ) (ds : List String)
    (d : String)
    → AllAcquirable m r clock i ds
    → member d ds ≡ true
    → (j : ℕ) × (active_lock m d (clock j) ≡ none)
AllAcquirable-active m r clock i [] d h k = absurd (ground arith)
AllAcquirable-active m r clock i (x ∷ xs) d h k = elim (Bool-cases (x == d)) [
  | inl e ↦ (i, rw ((eq_iff x d).0 e) at h.0.2)
  | inr e ↦ AllAcquirable-active m r clock (suc i) xs d h.1 (ground arith)
]

-- While the leases of a granted request last, every request that names one of its devices is
-- refused, whoever makes it, the same item included, and changes nothing.
pub acquire_locks_excludes :
    (m : DeviceLockManager) (q q' : LockRequest) (r r' : DeviceRegistry) (clock clock' : ℕ → ℕ)
    (lock_id lock_id' d : String)
    → (acquire_locks m q r clock lock_id).1.success ≡ true
    → member d q.device_names ≡ true
    → member d q'.device_names ≡ true
    → ((i : ℕ) → lapsed (acquire_locks m q r clock lock_id).1.expires_at (clock' i) ≡ false)
    → let m' = (acquire_locks m q r clock lock_id).0 in
      ((acquire_locks m' q' r' clock' lock_id').1.success ≡ false)
      × ((acquire_locks m' q' r' clock' lock_id').0 ≡ m')
acquire_locks_excludes m q q' r r' clock clock' lock_id lock_id' d ok k k' l =
    let m' = (acquire_locks m q r clock lock_id).0 in
    elim (acquire_locks_all_or_nothing m' q' r' clock' lock_id') [
      | inr (_, f, _, u) ↦ (f, u)
      | inl (a, _) ↦
          let (j, free) = AllAcquirable-active m' r' clock' 0 q'.device_names d a k' in
          let (s, held, _, _) = acquire_locks_holds m q r clock lock_id d (clock' j) ok k (l j) in
          absurd (ground (arith, free, held))
    ]

member-insert_sorted :
    (x : String) (xs : List String) (p : String)
    → member p (insert_sorted x xs) ≡ (x == p || member p xs)
unfolding insert_sorted
member-insert_sorted x [] p = refl
member-insert_sorted x (y ∷ ys) p =
    ground (arith, eq_iff x y, eq_iff x p, eq_iff y p, member-insert_sorted x ys p)

pub member-sorted_set : (xs : List String) (p : String) → member p (sorted_set xs) ≡ member p xs
unfolding sorted_set
member-sorted_set [] p = refl
member-sorted_set (x ∷ xs) p =
    ground (arith, member-insert_sorted x (sorted_set xs) p, member-sorted_set xs p)

member-append :
    (xs ys : List String) (p : String) → member p (xs ++ ys) ≡ (member p xs || member p ys)
member-append [] ys p = refl
member-append (x ∷ xs) ys p = ground (arith, member-append xs ys p)

member-values : (d : Dict String) (p : String) → member p (Dict.values d) ≡ lists d p
unfolding Dict.values lists
member-values [] p = refl
member-values ((k, v) ∷ d) p = ground (arith, member-values d p)

-- Some device of the list is registered and lists the PV.
abbrev pub any_claims : DeviceRegistry → List String → String → Bool
any_claims r [] p = false
any_claims r (d ∷ ds) p = claims r.devices d p || any_claims r ds p

member-collect_pvs :
    (r : DeviceRegistry) (ds : List String) (p : String)
    → member p (collect_pvs r ds) ≡ any_claims r ds p
unfolding collect_pvs claims get_device
member-collect_pvs r [] p = refl
member-collect_pvs r (d ∷ ds) p = elim (Option-cases (Dict.get r.devices d)) [
  | inl e ↦ rw (e, collect_pvs) (ground (arith, e, member-collect_pvs r ds p))
  | inr (dev, e) ↦
      rw (e, collect_pvs)
        (ground (
          arith,
          e,
          member-append (Dict.values dev.pvs) (collect_pvs r ds) p,
          member-values dev.pvs p,
          member-collect_pvs r ds p,
        ))
]

-- The PVs that a success reports as locked are exactly those that a named device lists.
pub acquire_locks_pvs :
    (m : DeviceLockManager) (q : LockRequest) (r : DeviceRegistry) (clock : ℕ → ℕ)
    (lock_id p : String)
    → (acquire_locks m q r clock lock_id).1.success ≡ true
    → member p (acquire_locks m q r clock lock_id).1.locked_pvs ≡ any_claims r q.device_names p
unfolding acquire_locks grant get_device_pvs
acquire_locks_pvs m q r clock lock_id p ok = ground (
  arith,
  member-sorted_set (collect_pvs r q.device_names) p,
  member-collect_pvs r q.device_names p,
)
