-- ===== src/RegistryStore/Tests.antt =====
-- Witnesses and tests for the store of the device registry.
use ophyd_service.Prelude.{ℕ, String, ◌≡◌, refl, true, false, none, [], ◌∷◌, if◌then◌else◌}
use ophyd_service.Dict
use ophyd_service.Dict.{Dict}
use ophyd_service.Registry.{DeviceMetadata, DeviceInstantiationSpec, DeviceRegistry, empty}
use ophyd_service.Registry.Index.{IsIndexed}
use ophyd_service.RegistryStore.{
  DeviceRegistryStore, seed_from_registry, load_all_devices, is_seeded, clear_and_reseed,
}
use ophyd_service.RegistryStore.Reload.{IsOrdering, load_all_devices-seed_from_registry}

abbrev device : String → DeviceMetadata
device name = record {
  name = name;
  device_label = "motor";
  ophyd_class = "EpicsMotor";
  is_movable = true;
  is_flyable = false;
  is_readable = true;
  pvs = ("val", "X") ∷ [];
  labels = [];
}

abbrev spec : String → DeviceInstantiationSpec
spec name = record { name = name; device_class = "ophyd.EpicsMotor"; active = true }

-- Two motors that share a PV; the second has no specification.
abbrev profile_registry : DeviceRegistry
profile_registry = record empty {
  devices = ("m1", device "m1") ∷ ("m2", device "m2") ∷ [];
  instantiation_specs = ("m1", spec "m1") ∷ [];
}

abbrev fresh : DeviceRegistryStore
fresh = record { device_registry = []; device_audit_log = []; last_id = 0; registry_metadata = [] }

abbrev str : ℕ → String
str n = "1.0"

unordered-IsOrdering : IsOrdering (λ rows. rows)
unordered-IsOrdering = record { same = λ rows k. refl; once = λ rows n. n }

load_all_devices-seed_from_registry_example :
    let t = (seed_from_registry str profile_registry 1 fresh).0 in
    let loaded = load_all_devices (λ rows. rows) t in
    ((seed_from_registry str profile_registry 1 fresh).1 ≡ true)
    × (is_seeded t ≡ true)
    × IsIndexed loaded
    × ((k : String) → Dict.get loaded.devices k ≡ Dict.get profile_registry.devices k)
    × ((k : String)
        → Dict.get loaded.instantiation_specs k ≡ (
            if Dict.contains profile_registry.devices k
            then Dict.get profile_registry.instantiation_specs k
            else none))
unfolding Dict.get
load_all_devices-seed_from_registry_example =
    load_all_devices-seed_from_registry (λ rows. rows) str profile_registry 1 fresh
      unordered-IsOrdering (refl, (refl, tt)) (refl, (refl, tt)) refl

-- Clearing the registry seeds it with nothing, so a restart does not seed it from the profile.
cleared_is_seeded : is_seeded (clear_and_reseed str empty 2 3 fresh).0 ≡ true
unfolding clear_and_reseed is_seeded Dict.insert Dict.get Dict.remove
cleared_is_seeded = refl
