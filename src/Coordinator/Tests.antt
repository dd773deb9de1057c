-- ===== src/Coordinator/Tests.antt =====
-- Witnesses and tests for the locks that the queue server takes over the network.
use ophyd_service.Prelude.{
  ℕ, ◌+◌, String, ◌≡◌, refl, true, false, none, some, [], ◌∷◌, eqb, ◌&&◌, if◌then◌else◌, member,
  ◌⊎◌,
}
use ophyd_service.Dict
use ophyd_service.Registry.{
  DeviceMetadata, DeviceRegistry, empty, get_device, get_instantiation_spec,
  list_instantiation_specs,
}
use ophyd_service.Locks.{
  init, DeviceLockState, acquire_locks, active_lock, live, find_conflicts, check_device, cons_some,
  grant,
}
use ophyd_service.LockService
use ophyd_service.LockService.{Service, Moment}
use ophyd_service.Coordinator.{
  Coordinator, ok, err, conflict, lock_devices_for_plan, unlock_devices,
}
use ophyd_service.Coordinator.Network.{
  World, Network, Delivery, delivered, unanswered, service_client,
}
use ophyd_service.Coordinator.Unlock.{SettlesAs, unlock_devices_settles}
use ophyd_service.Coordinator.Plan.{IsLockedFor, lock_devices_for_plan-locks}
use ophyd_service.Coordinator.Retry.{lock_devices_for_plan-lost_response}

abbrev device : String → DeviceMetadata
device name = record {
  name = name;
  device_label = "motor";
  ophyd_class = "EpicsMotor";
  is_movable = true;
  is_flyable = false;
  is_readable = true;
  pvs = [];
  labels = [];
}

-- The second motor is disabled.
abbrev registry : DeviceRegistry
registry = record empty {
  devices = ("m1", device "m1") ∷ ("m2", device "m2") ∷ [];
  instantiation_specs =
      ("m1", record { name = "m1"; device_class = "ophyd.EpicsMotor"; active = true })
      ∷ ("m2", record { name = "m2"; device_class = "ophyd.EpicsMotor"; active = false })
      ∷ [];
}

abbrev world : World
world = record {
  service = record {
    registry = registry;
    lock_manager = init false 0 "epoch";
    registry_store = record {
      device_registry = [];
      device_audit_log = [];
      last_id = 0;
      registry_metadata = [];
    };
  };
  calls = 0;
}

abbrev coordinator : Coordinator
coordinator = record {
  enabled = true;
  lock_scope = "plan";
  lock_item_id = "env:1";
  locked_devices = [];
  locked_item_id = "";
  locked_plan_name = "";
  lock_epoch = "";
  lease_ttl_seconds = 0;
  heartbeat_running = false;
}

abbrev network : (ℕ → ℕ → Delivery) → Network
network deliver = record {
  service_name = "queueserver";
  max_attempts = 3;
  deliver = deliver;
  moment = λ call i. record { clock = λ j. 10 + j; now = 10; uuid = "u"; details = none };
}

abbrev reliable : Network
reliable = network (λ call i. delivered)

-- The response to the first attempt of the second call is lost.
abbrev lossy : Network
lossy = network (λ call i. if eqb call 1 && eqb i 0 then unanswered else delivered)

lock_devices_for_plan-locks_example : IsLockedFor "uid" "m1" (
    lock_devices_for_plan
      (service_client reliable)
      ("m1" ∷ "m2" ∷ [])
      "uid"
      "scan"
      coordinator
      world)
unfolding lock_devices_for_plan service_client LockService.lock_devices
    LockService.get_instantiation_specs list_instantiation_specs get_instantiation_spec
    acquire_locks find_conflicts check_device cons_some active_lock live get_device init grant
    Dict.get
lock_devices_for_plan-locks_example =
    lock_devices_for_plan-locks reliable ("m1" ∷ "m2" ∷ []) "uid" "scan" coordinator world "m1" refl
      refl refl

abbrev holding : Coordinator
holding = record coordinator { locked_devices = "m1" ∷ []; locked_item_id = "uid" }

unlock_devices_settles_example :
    SettlesAs false holding (unlock_devices (service_client lossy) false holding world)
    ⊎ ((false ≡ true)
        × (unlock_devices (service_client lossy) false holding world ≡ (holding, world, ok tt)))
unfolding unlock_devices
unlock_devices_settles_example = unlock_devices_settles lossy false holding world

lock_devices_for_plan-lost_response_example :
    let r =
      lock_devices_for_plan (service_client lossy) ("m1" ∷ []) "uid" "scan" coordinator world in
    (r.0 ≡ coordinator)
    × (r.2 ≡ err conflict)
    × ((e : String) (t : ℕ)
        → member e ("m1" ∷ []) ≡ true
        → (l : DeviceLockState) × (active_lock r.1.service.lock_manager e t ≡ some l)
          × (l.locked_by_item ≡ "uid"))
unfolding get_device get_instantiation_spec active_lock live init Dict.get
lock_devices_for_plan-lost_response_example =
    lock_devices_for_plan-lost_response lossy 1 "uid" "scan" coordinator world "m1" [] refl refl
      refl ((refl, refl, refl), tt) refl refl refl
