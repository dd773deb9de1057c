-- ===== src/Coordinator.antt =====
-- How the queue server takes and gives back the locks on devices:
-- queueserver_service/manager/config_service_coordinator.py, over the requests of config_service.py.
-- A coordinator works with any client; Coordinator.Network has the client that talks to the routes of
-- LockService over a network that may fail.
pub mod Network
mod Requests
mod Held
pub mod Unlock
pub mod Plan
pub mod Retry
mod Tests
use ophyd_service.Prelude.{
  ℕ, ◌*◌, ◌≤◌, String, Bool, true, false, ◌&&◌, ◌||◌, not, Option, none, some, List, [], ◌∷◌, ◌==◌,
  if◌then◌else◌, leb, ltb,
}
use ophyd_service.Dict
use ophyd_service.Dict.{Dict}
use ophyd_service.Registry.{DeviceInstantiationSpec}
use ophyd_service.LockService.{DeviceLockResponse, DeviceLockRenewResponse}

-- The exceptions of config_service.py.
pub data ConfigServiceError : Type 0 where
  conflict not_found unreachable protocol_error lookup_failed : ConfigServiceError
  http_error : ℕ → ConfigServiceError

pub data Answer (A : Type 0) : Type 0 where
  ok : A → Answer A
  err : ConfigServiceError → Answer A

-- The methods of `ConfigServiceClient` that the coordinator calls. `S` is the state of all that lies
-- behind them.
pub record ConfigServiceClient (S : Type 0) : Type 0 where
  pub lock_devices : List String → String → String → S → S × Answer DeviceLockResponse
  pub unlock_devices : List String → String → S → S × Answer (Unit {0})
  pub force_unlock_devices : List String → S → S × Answer (Unit {0})
  pub renew_locks : List String → String → S → S × Answer DeviceLockRenewResponse
  pub get_instantiation_specs : Bool → S → S × Answer (Dict DeviceInstantiationSpec)

pub record Coordinator : Type 0 where
  pub enabled : Bool
  pub lock_scope : String
  pub lock_item_id : String
  pub locked_devices : List String
  pub locked_item_id : String
  pub locked_plan_name : String
  pub lock_epoch : String
  pub lease_ttl_seconds : ℕ
  pub heartbeat_running : Bool

unfoldable pub is_empty : List String → Bool
is_empty [] = true
is_empty (x ∷ xs) = false

-- An empty epoch of the response is no epoch.
unfoldable pub record_lock_epoch_and_lease : DeviceLockResponse → Coordinator → Coordinator
record_lock_epoch_and_lease resp c = record c {
  lock_epoch = if resp.lock_epoch == "" then c.lock_epoch else resp.lock_epoch;
  lease_ttl_seconds = resp.lease_ttl_seconds;
}

unfoldable pub ensure_heartbeat : Coordinator → Coordinator
ensure_heartbeat c = record c {
  heartbeat_running = ltb 0 c.lease_ttl_seconds || c.heartbeat_running;
}

-- The assignments after a successful lock.
unfoldable pub book : List String → String → String → DeviceLockResponse → Coordinator → Coordinator
unfolding record_lock_epoch_and_lease ensure_heartbeat
book device_names item_id plan_name resp c = ensure_heartbeat (
    record_lock_epoch_and_lease resp (record c {
      locked_devices = device_names;
      locked_item_id = item_id;
      locked_plan_name = plan_name;
    }))

unfoldable pub clear_books : Coordinator → Coordinator
clear_books c = record c { locked_devices = []; locked_item_id = ""; locked_plan_name = "" }

-- The loops that filter: the names of `device_names` that the registry has active.
unfoldable pub registered_active : List String → Dict DeviceInstantiationSpec → List String
registered_active [] specs = []
registered_active (name ∷ names) specs =
    let rest = registered_active names specs in
    if Dict.contains specs name then name ∷ rest else rest

module _ {S : Type 0} (client : ConfigServiceClient S) where
  -- What follows the request of `unlock_devices`.
  unfoldable pub settle :
      Bool → Coordinator → S × Answer (Unit {0}) → Coordinator × S × Answer (Unit {0})
  unfolding clear_books
  settle suppress_errors c (s, ok done) = (clear_books c, s, ok tt)
  settle suppress_errors c (s, err e) = (c, s, if suppress_errors then ok tt else err e)

  unfoldable pub unlock_devices : Bool → Coordinator → S → Coordinator × S × Answer (Unit {0})
  unfolding settle is_empty
  unlock_devices suppress_errors c s =
      if not c.enabled || is_empty c.locked_devices
      then (c, s, ok tt)
      else settle suppress_errors c (client.unlock_devices c.locked_devices c.locked_item_id s)

  -- `true` on success, and when there is nothing to do.
  unfoldable pub release_outcome :
      Bool → Coordinator × S × Answer (Unit {0}) → Coordinator × S × Bool
  release_outcome suppress_errors (c, s, ok done) = (c, s, true)
  release_outcome suppress_errors (c, s, err e) = (c, s, suppress_errors)

  unfoldable pub release_plan_scope_lock : Bool → Coordinator → S → Coordinator × S × Bool
  unfolding unlock_devices release_outcome
  release_plan_scope_lock suppress_errors c s =
      if not c.enabled || not (c.lock_scope == "plan")
      then (c, s, true)
      else release_outcome suppress_errors (unlock_devices false c s)

  unfoldable pub booked :
      List String
      → String
      → String
      → Coordinator
      → S × Answer DeviceLockResponse
      → Coordinator × S × Answer (Unit {0})
  unfolding book
  booked device_names item_id plan_name c (s, ok resp) =
      (book device_names item_id plan_name resp c, s, ok tt)
  booked device_names item_id plan_name c (s, err e) = (c, s, err e)

  -- From the answer of the registry on.
  unfoldable pub lock_registered :
      List String
      → String
      → String
      → Coordinator
      → S × Answer (Dict DeviceInstantiationSpec)
      → Coordinator × S × Answer (Unit {0})
  unfolding registered_active booked is_empty
  lock_registered device_names item_uid name c (s, err e) = (c, s, err lookup_failed)
  lock_registered device_names item_uid name c (s, ok registry_specs) =
      let registered = registered_active device_names registry_specs in
      if is_empty registered
      then (c, s, ok tt)
      else booked registered item_uid name c (client.lock_devices registered item_uid name s)

  -- From the settled debt on. `device_names` is what `extract_device_names_from_plan` finds.
  unfoldable pub lock_settled :
      List String
      → String
      → String
      → Coordinator × S × Answer (Unit {0})
      → Coordinator × S × Answer (Unit {0})
  unfolding lock_registered is_empty
  lock_settled device_names item_uid name (c, s, err e) = (c, s, err e)
  lock_settled device_names item_uid name (c, s, ok done) =
      if is_empty device_names
      then (c, s, ok tt)
      else lock_registered device_names item_uid name c (client.get_instantiation_specs true s)

  -- The lock that is still on the books goes first.
  unfoldable pub settle_debt : Coordinator → S → Coordinator × S × Answer (Unit {0})
  unfolding unlock_devices
  settle_debt c s = if c.locked_item_id == "" then (c, s, ok tt) else unlock_devices false c s

  unfoldable pub lock_devices_for_plan :
      List String → String → String → Coordinator → S → Coordinator × S × Answer (Unit {0})
  unfolding lock_settled settle_debt
  lock_devices_for_plan device_names item_uid name c s =
      lock_settled device_names item_uid name (settle_debt c s)

  unfoldable pub lock_again :
      List String → String → String → S × Answer (Unit {0}) → S × Answer DeviceLockResponse
  lock_again device_names item_id plan_name (s, err e) = (s, err e)
  lock_again device_names item_id plan_name (s, ok done) =
      client.lock_devices device_names item_id plan_name s

  unfoldable pub recover :
      List String → String → String → S × Answer DeviceLockResponse → S × Answer DeviceLockResponse
  unfolding lock_again
  recover device_names item_id plan_name (s, ok resp) = (s, ok resp)
  recover device_names item_id plan_name (s, err conflict) =
      lock_again device_names item_id plan_name (client.force_unlock_devices device_names s)
  recover device_names item_id plan_name (s, err e) = (s, err e)

  unfoldable pub lock_with_restart_recovery :
      List String → String → String → S → S × Answer DeviceLockResponse
  unfolding recover
  lock_with_restart_recovery device_names item_id plan_name s =
      recover device_names item_id plan_name (client.lock_devices device_names item_id plan_name s)

  -- The locking in `sync_on_env_open`, after the debt has been settled.
  unfoldable pub lock_environment :
      List String → Coordinator × S × Answer (Unit {0}) → Coordinator × S × Answer (Unit {0})
  unfolding lock_with_restart_recovery booked is_empty
  lock_environment device_names (c, s, err e) = (c, s, err e)
  lock_environment device_names (c, s, ok done) =
      if is_empty device_names
      then (c, s, ok tt)
      else booked device_names c.lock_item_id "__environment__" c
          (lock_with_restart_recovery device_names c.lock_item_id "__environment__" s)

  unfoldable pub lock_on_env_open :
      List String → Coordinator → S → Coordinator × S × Answer (Unit {0})
  unfolding lock_environment settle_debt
  lock_on_env_open device_names c s =
      if not (c.lock_scope == "environment") || c.locked_item_id == c.lock_item_id
      then (c, s, ok tt)
      else lock_environment device_names (settle_debt c s)
