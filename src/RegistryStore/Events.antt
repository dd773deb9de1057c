-- ===== src/RegistryStore/Events.antt =====
-- What befalls the tables of configuration_service/device_registry_store.py after a client has read
-- them: the writes that the endpoints of configuration_service/main.py make, in any order.
pub mod Upkeep
use ophyd_service.Prelude.{
  ℕ, suc, ◌≤◌, ◌<◌, String, ◌≡◌, refl, ◌∙◌, Bool, true, false, ◌&&◌, ◌||◌, not, Option, none, some,
  List, [], ◌∷◌, arith, ◌==◌, eq_iff, if◌then◌else◌, ltb, leb, eqb, member, is_some, All, inl, inr,
  Bool-cases, Option-cases,
}
use ophyd_service.Dict
use ophyd_service.Dict.{Dict, get-insert_other, get-remove_other, get-remove}
use ophyd_service.Registry.{DeviceMetadata, DeviceInstantiationSpec, DeviceRegistry}
use ophyd_service.RegistryStore.{
  DeviceRow, DeviceAuditEntry, DeviceRegistryStore, append_audit, seed_devices, seed_from_registry,
  save_device, delete_device, clear, log_lock_event, upsert_row,
}
use ophyd_service.RegistryStore.Feed.{
  change_feed_ops, max, max_id, in_feed, latest_id, is_latest, reset_since,
}
use ophyd_service.RegistryStore.Latest.{
  Bounded, Bounded-le, max_id-le, Bounded-max_id, Settled, append-Settled, skip-Settled,
  empty-Settled, current-Settled, latest_id-zero, latest_id-other,
}

pub data WriteOp : Type 0 where
  add : WriteOp
  update : WriteOp
  enable : WriteOp
  disable : WriteOp

unfoldable pub write_name : WriteOp → String
write_name add = "add"
write_name update = "update"
write_name enable = "enable"
write_name disable = "disable"

pub data LockOp : Type 0 where
  lock : LockOp
  unlock : LockOp
  force_unlock : LockOp

unfoldable pub lock_name : LockOp → String
lock_name lock = "lock"
lock_name unlock = "unlock"
lock_name force_unlock = "force_unlock"

-- `wipe` and `seed` are the two transactions of a reset; a `seed` may also stand alone, at a start.
pub data Event : Type 0 where
  write :
      WriteOp → String → DeviceMetadata → Option DeviceInstantiationSpec → Option String → ℕ → Event
  delete : String → Option String → ℕ → Event
  lock_event : LockOp → List String → Option String → ℕ → Event
  wipe : ℕ → Event
  seed : (ℕ → String) → DeviceRegistry → ℕ → Event

unfoldable pub apply : Event → DeviceRegistryStore → DeviceRegistryStore
unfolding write_name lock_name
apply (write op name metadata spec details now) s =
    save_device name metadata spec (write_name op) details now s
apply (delete name details now) s = (delete_device name details now s).0
apply (lock_event op names details now) s = log_lock_event names (lock_name op) details now s
apply (wipe now) s = clear now s
apply (seed str registry now) s = (seed_from_registry str registry now s).0

unfoldable pub run : List Event → DeviceRegistryStore → DeviceRegistryStore
unfolding apply
run [] s = s
run (event ∷ events) s = run events (apply event s)

-- `s` comes from a table `base` at version `since`: what has no later entry in the feed is as it was,
-- unless there was a reset.
pub record Follows (since : ℕ) (base : Dict DeviceRow) (s : DeviceRegistryStore) : Type 0 where
  pub bounded : Bounded s.last_id s.device_audit_log
  pub newer : since ≤ s.last_id
  pub settled : Settled s.device_registry since s.device_audit_log s.device_audit_log
  pub kept :
      (k : String)
      → k == "*" ≡ false
      → reset_since since s.device_audit_log ≡ false
      → latest_id since k s.device_audit_log ≡ 0
      → Dict.get s.device_registry k ≡ Dict.get base k

pub current-Follows :
    (s : DeviceRegistryStore)
    → Bounded s.last_id s.device_audit_log
    → Follows (max_id s.device_audit_log) s.device_registry s
current-Follows s b = record {
  bounded = b;
  newer = max_id-le s.last_id s.device_audit_log b;
  settled =
      current-Settled s.device_registry (max_id s.device_audit_log) s.device_audit_log
        s.device_audit_log (Bounded-max_id s.device_audit_log);
  kept = λ k h r l. refl;
}
