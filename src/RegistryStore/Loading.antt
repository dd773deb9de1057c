-- ===== src/RegistryStore/Loading.antt =====
-- The registry that `load_all_devices` of configuration_service/device_registry_store.py builds.
use ophyd_service.Prelude.{
  String, ◌≡◌, refl, true, false, Option, none, some, [], ◌∷◌, arith, eq_iff,
}
use ophyd_service.Dict
use ophyd_service.Dict.{Dict, NodupKeys, get-insert, get-insert_self, insert-NodupKeys}
use ophyd_service.Registry.{DeviceMetadata, DeviceInstantiationSpec, DeviceRegistry, add_device}
use ophyd_service.Registry.Index.{IsIndexed}
use ophyd_service.Registry.Upkeep.{add_device-IsIndexed, specs-add_device}
use ophyd_service.RegistryStore.{DeviceRow, add_rows}

-- The registry's devices and specifications after the rows have been added.
abbrev pub device_of : Option DeviceRow → Option DeviceMetadata → Option DeviceMetadata
device_of none old = old
device_of (some row) old = some row.device_metadata

abbrev pub spec_of :
    Option DeviceRow → Option DeviceInstantiationSpec → Option DeviceInstantiationSpec
spec_of none old = old
spec_of (some row) old = elim row.instantiation_spec [ none ↦ old | some spec ↦ some spec ]

abbrev pub RowsAreNamed : Dict DeviceRow → Type 0
RowsAreNamed [] = Unit
RowsAreNamed ((name, row) ∷ rows) = (row.device_metadata.name ≡ name) × RowsAreNamed rows

pub get-add_rows :
    (rows : Dict DeviceRow) (r : DeviceRegistry) (k : String)
    → NodupKeys rows
    → RowsAreNamed rows
    → (Dict.get (add_rows rows r).devices k ≡ device_of (Dict.get rows k) (Dict.get r.devices k))
      × (Dict.get (add_rows rows r).instantiation_specs k
          ≡ spec_of (Dict.get rows k) (Dict.get r.instantiation_specs k))
unfolding add_rows Dict.get add_device
get-add_rows [] r k n named = (refl, refl)
get-add_rows ((name, row) ∷ rows) r k n named =
    let r' = add_device r row.device_metadata row.instantiation_spec in
    let (devices, specs) = get-add_rows rows r' k n.1 named.1 in
    (
      ground (
        arith,
        eq_iff name k,
        devices,
        get-insert r.devices row.device_metadata.name row.device_metadata k,
      ),
      ground (
        arith,
        eq_iff name k,
        specs,
        specs-add_device r row.device_metadata row.instantiation_spec k,
      ),
    )

pub add_rows-IsIndexed :
    (rows : Dict DeviceRow) (r : DeviceRegistry)
    → NodupKeys rows
    → RowsAreNamed rows
    → ((k : String) → Dict.contains rows k ≡ true → Dict.contains r.devices k ≡ false)
    → IsIndexed r
    → IsIndexed (add_rows rows r)
unfolding add_rows
add_rows-IsIndexed [] r n named new v = v
add_rows-IsIndexed ((name, row) ∷ rows) r n named new v =
    add_rows-IsIndexed rows (add_device r row.device_metadata row.instantiation_spec) n.1 named.1
      (λ k there.
        unfold Dict.get add_device in
        ground (
          arith,
          eq_iff name k,
          new k,
          get-insert r.devices row.device_metadata.name row.device_metadata k,
        ))
      (add_device-IsIndexed r row.device_metadata row.instantiation_spec v
        (rw named.0 (new name (unfold Dict.get in ground (arith, eq_iff name name)))))
