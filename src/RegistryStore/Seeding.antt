-- ===== src/RegistryStore/Seeding.antt =====
-- The rows that `seed_from_registry` of configuration_service/device_registry_store.py inserts.
use ophyd_service.Prelude.{ℕ, String, ◌≡◌, refl, false, Option, none, some, [], ◌∷◌, arith, eq_iff}
use ophyd_service.Dict
use ophyd_service.Dict.{Dict, NodupKeys, get-insert, get-insert_self, insert-NodupKeys}
use ophyd_service.Registry.{DeviceMetadata, DeviceInstantiationSpec}
use ophyd_service.RegistryStore.{DeviceRow, DeviceRegistryStore, append_audit, seed_devices}

-- Every device stands under its own name.
abbrev pub AreNamed : Dict DeviceMetadata → Type 0
AreNamed [] = Unit
AreNamed ((name, device) ∷ devices) = (device.name ≡ name) × AreNamed devices

abbrev pub row_of : ℕ → Dict DeviceInstantiationSpec → String → DeviceMetadata → DeviceRow
row_of now specs name device = record {
  device_metadata = device;
  instantiation_spec = Dict.get specs name;
  created_at = now;
  updated_at = now;
}

abbrev pub seeded_row :
    ℕ
    → Dict DeviceInstantiationSpec
    → Option DeviceMetadata
    → String
    → Option DeviceRow
    → Option DeviceRow
seeded_row now specs none k old = old
seeded_row now specs (some device) k old = some (row_of now specs k device)

-- No device of the registry has a row.
abbrev pub AreNew : Dict DeviceRow → Dict DeviceMetadata → Type 0
AreNew rows [] = Unit
AreNew rows ((name, device) ∷ devices) = (Dict.contains rows name ≡ false) × AreNew rows devices

AreNew-insert :
    (rows : Dict DeviceRow) (name : String) (row : DeviceRow) (devices : Dict DeviceMetadata)
    → Dict.contains devices name ≡ false
    → AreNew rows devices
    → AreNew (Dict.insert rows name row) devices
unfolding Dict.get
AreNew-insert rows name row [] absent new = tt
AreNew-insert rows name row ((j, device) ∷ devices) absent new = (
  ground (arith, eq_iff name j, eq_iff j name, get-insert rows name row j),
  AreNew-insert rows name row devices (ground arith) new.1,
)

pub seed_devices-lem :
    (now : ℕ) (specs : Dict DeviceInstantiationSpec) (devices : Dict DeviceMetadata)
    (s : DeviceRegistryStore)
    → NodupKeys devices
    → AreNew s.device_registry devices
    → (t : DeviceRegistryStore) × (seed_devices now specs devices s ≡ some t)
      × ((k : String)
          → Dict.get t.device_registry k
            ≡ seeded_row now specs (Dict.get devices k) k (Dict.get s.device_registry k))
      × (NodupKeys s.device_registry → NodupKeys t.device_registry)
unfolding seed_devices append_audit Dict.get
seed_devices-lem now specs [] s n new = (s, refl, λ k. refl, λ m. m)
seed_devices-lem now specs ((name, device) ∷ devices) s n new =
    let s' = append_audit name "seed" now (some "{\"source\": \"profile\"}") (record s {
      device_registry = Dict.insert s.device_registry name (row_of now specs name device);
    }) in
    let (t, ok, rows, nodup) =
      seed_devices-lem now specs devices s' n.1
        (AreNew-insert s.device_registry name (row_of now specs name device) devices n.0 new.1) in
    (
      t,
      ground (arith, ok),
      λ k. ground (
        arith,
        rows k,
        eq_iff name k,
        get-insert s.device_registry name (row_of now specs name device) k,
      ),
      λ m. nodup (insert-NodupKeys s.device_registry name (row_of now specs name device) m),
    )
