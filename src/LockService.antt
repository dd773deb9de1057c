-- ===== src/LockService.antt =====
-- The routes for device locks of configuration_service/main.py, over the lock manager, the registry in
-- memory and the audit log.
use ophyd_service.Prelude.{ℕ, String, Bool, Option, none, some, List, [], ◌∷◌, if◌then◌else◌}
use ophyd_service.Dict.{Dict}
use ophyd_service.Registry.{DeviceRegistry, DeviceInstantiationSpec, list_instantiation_specs}
use ophyd_service.RegistryStore.{DeviceRegistryStore, log_lock_event}
use ophyd_service.Locks.{DeviceLockManager, LockRequest, acquire_locks}
use ophyd_service.Locks.Release.{release_locks, force_unlock}
use ophyd_service.Locks.Renewal.{renew_locks}

pub record Service : Type 0 where
  pub registry : DeviceRegistry
  pub lock_manager : DeviceLockManager
  pub registry_store : DeviceRegistryStore

-- What the handling of one request reads: the clock, a new uuid, and the text of the audit entry.
pub record Moment : Type 0 where
  pub clock : ℕ → ℕ
  pub now : ℕ
  pub uuid : String
  pub details : Option String

-- A response without a JSON body that is read has the body `none`.
pub record Response (A : Type 0) : Type 0 where
  pub status_code : ℕ
  pub body : Option A

pub record DeviceLockResponse : Type 0 where
  pub lock_epoch : String
  pub lease_ttl_seconds : ℕ

pub record DeviceLockRenewResponse : Type 0 where
  pub lost_devices : List String
  pub conflict_devices : List String
  pub lock_epoch : String

unfoldable pub lock_devices : LockRequest → Moment → Service → Service × Response DeviceLockResponse
lock_devices request at s =
    let (m, result) = acquire_locks s.lock_manager request s.registry at.clock at.uuid in
    if result.success
    then (
      record s {
        lock_manager = m;
        registry_store =
            log_lock_event result.locked_devices "lock" at.details at.now s.registry_store;
      },
      record {
        status_code = 200;
        body = some (record { lock_epoch = m.epoch; lease_ttl_seconds = m.lease_ttl });
      },
    )
    else (record s { lock_manager = m }, record { status_code = result.error_code; body = none })

-- An audit entry for every name; without names there is none.
unfoldable pub unlock_devices :
    List String → String → Moment → Service → Service × Response (Unit {0})
unlock_devices device_names item_id at s =
    let (m, result) = release_locks s.lock_manager device_names item_id at.now in
    if result.success
    then (
      record s {
        lock_manager = m;
        registry_store = log_lock_event result.unlocked "unlock" at.details at.now s.registry_store;
      },
      record { status_code = 200; body = some tt },
    )
    else (record s { lock_manager = m }, record { status_code = 403; body = none })

unfoldable pub renew_device_locks :
    List String → String → Moment → Service → Service × Response DeviceLockRenewResponse
renew_device_locks device_names item_id at s =
    let (m, result) = renew_locks s.lock_manager device_names item_id at.now in
    (
      record s { lock_manager = m },
      record {
        status_code = 200;
        body = some (record {
          lost_devices = result.lost;
          conflict_devices = result.conflicts;
          lock_epoch = m.epoch;
        });
      },
    )

unfoldable pub force_response :
    Moment → Service → DeviceLockManager × List String × List String → Service × Response (Unit {0})
force_response at s (m, unlocked, not_found) = elim not_found [
  | n ∷ ns ↦ (record s { lock_manager = m }, record { status_code = 404; body = none })
  | [] ↦ (
    record s {
      lock_manager = m;
      registry_store = log_lock_event unlocked "force_unlock" at.details at.now s.registry_store;
    },
    record { status_code = 200; body = some tt },
  )
]

unfoldable pub force_unlock_devices : List String → Moment → Service → Service × Response (Unit {0})
unfolding force_response
force_unlock_devices device_names at s =
    force_response at s (force_unlock s.lock_manager device_names s.registry)

unfoldable pub get_instantiation_specs :
    Bool → Service → Service × Response (Dict DeviceInstantiationSpec)
get_instantiation_specs active_only s =
    (s, record { status_code = 200; body = some (list_instantiation_specs active_only s.registry) })
