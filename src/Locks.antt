-- ===== src/Locks.antt =====
-- `DeviceLockManager` of configuration_service/lock_manager.py: the device locks that the
-- experiment-execution service takes and the direct-control service respects.
-- Each method body runs under one `asyncio.Lock`, so a method is one step from state to state.
-- Instants and lease lengths are microseconds. `clock i` is the reading of `datetime.now(UTC)` at
-- the i-th place where an operation reads it; a new uuid is an argument.
pub mod Acquire
pub mod Renewal
pub mod Release
pub mod Policy
pub mod History
mod Tests
use Prim.Native.Nat.{Ordering}
use Prim.Native.String.{compare}
use ophyd_service.Prelude.{
  ℕ, zero, suc, ◌+◌, String, ◌≡◌, refl, Bool, true, false, ◌||◌, ◌&&◌, not, Option, none, some,
  List, [], ◌∷◌, ◌++◌, arith, ◌==◌, if◌then◌else◌, is_some, member, leb, ltb, eqb, length,
}
use ophyd_service.Dict
use ophyd_service.Dict.{Dict}
use ophyd_service.Registry.{DeviceRegistry, get_device, get_instantiation_spec}

pub record DeviceLockState : Type 0 where
  pub device_name : String
  pub locked : Bool
  pub locked_by_plan : String
  pub locked_by_item : String
  pub locked_by_service : String
  pub locked_at : ℕ
  pub lock_id : String
  pub expires_at : Option ℕ

unfoldable pub is_expired : DeviceLockState → ℕ → Bool
is_expired s now = elim s.expires_at [ none ↦ false | some t ↦ leb t now ]

pub data LockConflictReason : Type 0 where
  not_found spec_missing disabled already_locked : LockConflictReason

pub record LockConflict : Type 0 where
  pub device_name : String
  pub reason : LockConflictReason
  pub locked_by_plan : Option String
  pub locked_at : Option ℕ

pub record LockResult : Type 0 where
  pub success : Bool
  pub lock_id : Option String
  pub locked_devices : List String
  pub locked_pvs : List String
  pub conflicts : List LockConflict
  pub error_code : ℕ
  pub expires_at : Option ℕ

pub record RenewResult : Type 0 where
  pub success : Bool
  pub renewed : List String
  pub lost : List String
  pub conflicts : List String
  pub expires_at : Option ℕ

pub record DeviceLockManager : Type 0 where
  pub locks : Dict DeviceLockState
  pub version : ℕ
  pub lock_all_enabled : Bool
  pub lease_ttl : ℕ  -- 0: leases are disabled
  pub epoch : String

unfoldable pub init : Bool → ℕ → String → DeviceLockManager
init lock_all lease_ttl epoch = record {
  locks = [];
  version = 0;
  lock_all_enabled = lock_all;
  lease_ttl = lease_ttl;
  epoch = epoch;
}

unfoldable pub next_expiry : DeviceLockManager → ℕ → Option ℕ
next_expiry m now = if leb m.lease_ttl 0 then none else some (now + m.lease_ttl)

-- The branches of `_active_lock` on the entry of the table.
unfoldable pub live : ℕ → Option DeviceLockState → Option DeviceLockState
live now none = none
live now (some s) = if not s.locked then none else if is_expired s now then none else some s

unfoldable pub active_lock : DeviceLockManager → String → ℕ → Option DeviceLockState
active_lock m name now = live now (Dict.get m.locks name)

conflict : String → LockConflictReason → LockConflict
conflict name reason = record {
  device_name = name;
  reason = reason;
  locked_by_plan = none;
  locked_at = none;
}

-- One round of the validation loop of `acquire_locks`.
unfoldable pub check_device : DeviceLockManager → DeviceRegistry → ℕ → String → Option LockConflict
unfolding conflict
check_device m registry now name = elim (get_device registry name) [
  | none ↦ some (conflict name not_found)
  | some device ↦ elim (get_instantiation_spec registry name) [
    | none ↦ some (conflict name spec_missing)
    | some spec ↦
        if not spec.active then some (conflict name disabled) else elim (active_lock m name now) [
          | none ↦ none
          | some existing ↦ some (record {
            device_name = name;
            reason = already_locked;
            locked_by_plan = some existing.locked_by_plan;
            locked_at = some existing.locked_at;
          })
        ]
  ]
]

unfoldable pub cons_some {ℓ} : {A : Type ℓ} → Option A → List A → List A
cons_some none xs = xs
cons_some (some x) xs = x ∷ xs

-- The validation loop; the i-th device is checked at the reading `clock i`.
unfoldable pub find_conflicts :
    DeviceLockManager → DeviceRegistry → (ℕ → ℕ) → ℕ → List String → List LockConflict
find_conflicts m registry clock i [] = []
find_conflicts m registry clock i (name ∷ names) =
    cons_some (check_device m registry (clock i) name)
      (find_conflicts m registry clock (suc i) names)

abbrev is_reason : LockConflictReason → LockConflictReason → Bool
is_reason not_found not_found = true
is_reason spec_missing spec_missing = true
is_reason disabled disabled = true
is_reason already_locked already_locked = true
is_reason _ _ = false

unfoldable pub has_reason : LockConflictReason → List LockConflict → Bool
has_reason reason [] = false
has_reason reason (c ∷ cs) = is_reason reason c.reason || has_reason reason cs

unfoldable pub error_code_of : List LockConflict → ℕ
error_code_of conflicts =
    if has_reason spec_missing conflicts
    then 500
    else if has_reason not_found conflicts
    then 404
    else if has_reason disabled conflicts
    then 422
    else 409

-- What the loop stores for each device is the same but for its name and its `locked_at`.
unfoldable pub new_lock :
    String → String → String → String → Option ℕ → String → ℕ → DeviceLockState
new_lock item_id plan_name service lock_id expires_at name at = record {
  device_name = name;
  locked = true;
  locked_by_plan = plan_name;
  locked_by_item = item_id;
  locked_by_service = service;
  locked_at = at;
  lock_id = lock_id;
  expires_at = expires_at;
}

unfoldable pub hold_all :
    (String → ℕ → DeviceLockState)
    → (ℕ → ℕ)
    → ℕ
    → Dict DeviceLockState
    → List String
    → Dict DeviceLockState
hold_all lock clock i locks [] = locks
hold_all lock clock i locks (name ∷ names) =
    hold_all lock clock (suc i) (Dict.insert locks name (lock name (clock i))) names

-- `sorted(set(...))`, by insertion.
unfoldable pub insert_sorted : String → List String → List String
insert_sorted x [] = x ∷ []
insert_sorted x (y ∷ ys) = elim (compare x y) [
  | Ordering.lt ↦ x ∷ y ∷ ys
  | Ordering.eq ↦ y ∷ ys
  | Ordering.gt ↦ y ∷ insert_sorted x ys
]

unfoldable pub sorted_set : List String → List String
sorted_set [] = []
sorted_set (x ∷ xs) = insert_sorted x (sorted_set xs)

unfoldable pub collect_pvs : DeviceRegistry → List String → List String
collect_pvs registry [] = []
collect_pvs registry (name ∷ names) = elim (get_device registry name) [
  | none ↦ collect_pvs registry names
  | some device ↦ Dict.values device.pvs ++ collect_pvs registry names
]

unfoldable pub get_device_pvs : DeviceRegistry → List String → List String
get_device_pvs registry names = sorted_set (collect_pvs registry names)

-- Who asks, and for what.
pub record LockRequest : Type 0 where
  pub device_names : List String
  pub item_id : String
  pub plan_name : String
  pub locked_by_service : String

-- The part of `acquire_locks` after the validation.
unfoldable pub grant :
    DeviceLockManager
    → LockRequest
    → DeviceRegistry
    → (ℕ → ℕ)
    → String
    → DeviceLockManager × LockResult
unfolding hold_all
grant m q registry clock lock_id =
    let n = length q.device_names in
    let expires_at = next_expiry m (clock n) in
    (
      record m {
        locks =
            hold_all (new_lock q.item_id q.plan_name q.locked_by_service lock_id expires_at) clock
              (suc n) m.locks q.device_names;
        version = m.version + 1;
      },
      record {
        success = true;
        lock_id = some lock_id;
        locked_devices = q.device_names;
        locked_pvs = get_device_pvs registry q.device_names;
        conflicts = [];
        error_code = 200;
        expires_at = expires_at;
      },
    )

refuse : DeviceLockManager → List LockConflict → DeviceLockManager × LockResult
refuse m conflicts = (
  m,
  record {
    success = false;
    lock_id = none;
    locked_devices = [];
    locked_pvs = [];
    conflicts = conflicts;
    error_code = error_code_of conflicts;
    expires_at = none;
  },
)

unfoldable pub acquire_locks :
    DeviceLockManager
    → LockRequest
    → DeviceRegistry
    → (ℕ → ℕ)
    → String
    → DeviceLockManager × LockResult
unfolding refuse
acquire_locks m q registry clock lock_id = elim (find_conflicts m registry clock 0 q.device_names) [
  | [] ↦ grant m q registry clock lock_id
  | c ∷ cs ↦ refuse m (c ∷ cs)
]
