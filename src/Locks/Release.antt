-- ===== src/Locks/Release.antt =====
-- `release_locks`, `force_unlock` and `clear_all` of configuration_service/lock_manager.py.
pub mod Ownership
pub mod Force
use ophyd_service.Prelude.{
  ℕ, ◌+◌, String, ◌≡◌, refl, ◌≢◌, Bool, true, false, ◌||◌, ◌&&◌, not, Option, none, some, List, [],
  ◌∷◌, arith, ◌==◌, eq_iff, if◌then◌else◌, is_some, member, leb, ◌⊎◌, inl, inr, Bool-cases,
  Option-cases,
}
use ophyd_service.Dict
use ophyd_service.Dict.{Dict, get-remove}
use ophyd_service.Registry.{DeviceRegistry, get_device}
use ophyd_service.Locks.{DeviceLockState, DeviceLockManager, active_lock, live, is_expired}

-- The text of the refusal, by its parts: the device, the item that holds it and the one that asks.
pub record ForeignLock : Type 0 where
  pub device_name : String
  pub locked_by_item : String
  pub item_id : String

-- The ownership loop: the first device that a live lock of another item holds.
unfoldable pub find_foreign : DeviceLockManager → String → ℕ → List String → Option ForeignLock
find_foreign m item_id now [] = none
find_foreign m item_id now (name ∷ names) =
    let rest = find_foreign m item_id now names in
    elim (active_lock m name now) [
      | none ↦ rest
      | some active ↦
          if active.locked_by_item == item_id
          then rest
          else some (record {
            device_name = name;
            locked_by_item = active.locked_by_item;
            item_id = item_id;
          })
    ]

-- name in self._locks and self._locks[name].locked
abbrev pub is_held : Dict DeviceLockState → String → Bool
is_held locks name = elim (Dict.get locks name) [ none ↦ false | some s ↦ s.locked ]

-- The release loop: the table that is left, and the names that were unlocked.
unfoldable pub drop_held : Dict DeviceLockState → List String → Dict DeviceLockState × List String
drop_held locks [] = (locks, [])
drop_held locks (name ∷ names) =
    let held = is_held locks name in
    let (left, unlocked) = drop_held (if held then Dict.remove locks name else locks) names in
    (left, if held then name ∷ unlocked else unlocked)

abbrev pub bump : List String → ℕ → ℕ
bump [] version = version
bump (x ∷ xs) version = version + 1

pub record ReleaseResult : Type 0 where
  pub success : Bool
  pub unlocked : List String
  pub error : Option ForeignLock

unfoldable pub release_locks :
    DeviceLockManager → List String → String → ℕ → DeviceLockManager × ReleaseResult
release_locks m device_names item_id now = elim (find_foreign m item_id now device_names) [
  | some foreign ↦ (m, record { success = false; unlocked = []; error = some foreign })
  | none ↦
      let (left, unlocked) = drop_held m.locks device_names in
      (
        record m { locks = left; version = bump unlocked m.version },
        record { success = true; unlocked = unlocked; error = none },
      )
]

-- list(dict.fromkeys(names)): the first of each name, in order.
unfoldable pub dedup : List String → List String → List String
dedup seen [] = []
dedup seen (x ∷ xs) =
    let rest = dedup (if member x seen then seen else x ∷ seen) xs in
    if member x seen then rest else x ∷ rest

unfoldable pub unknown_names : DeviceLockManager → DeviceRegistry → List String → List String
unknown_names m registry [] = []
unknown_names m registry (name ∷ names) =
    let rest = unknown_names m registry names in
    if is_some (get_device registry name) || Dict.contains m.locks name then rest else name ∷ rest

-- The loop of `force_unlock`, which reports every name, held or not.
unfoldable pub force_drop : Dict DeviceLockState → List String → Dict DeviceLockState
force_drop locks [] = locks
force_drop locks (name ∷ names) =
    force_drop (if is_held locks name then Dict.remove locks name else locks) names

-- The two ways on, by the names that were not found.
unfoldable pub force_branch :
    DeviceLockManager → List String → List String → DeviceLockManager × List String × List String
force_branch m names (n ∷ ns) = (m, [], n ∷ ns)
force_branch m names [] =
    (record m { locks = force_drop m.locks names; version = bump names m.version }, names, [])

unfoldable pub force_unlock :
    DeviceLockManager → List String → DeviceRegistry → DeviceLockManager × List String × List String
force_unlock m device_names registry =
    let names = dedup [] device_names in force_branch m names (unknown_names m registry names)

pub held_names : Dict DeviceLockState → List String
held_names [] = []
held_names ((name, state) ∷ locks) =
    let rest = held_names locks in if state.locked then name ∷ rest else rest

unfoldable pub clear_all : DeviceLockManager → DeviceLockManager × List String
clear_all m =
    let cleared = held_names m.locks in
    (record m { locks = []; version = bump cleared m.version }, cleared)
