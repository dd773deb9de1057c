-- ===== src/RegistryStore.antt =====
-- configuration_service/device_registry_store.py: the table of devices, the audit log and the feed of
-- changes that clients poll. The tables are those of db.py. A JSON text that pydantic wrote is
-- represented by the model that it reads back to. Every method is one transaction, except
-- `clear_and_reseed`, which is two.
pub mod Feed
pub mod Latest
pub mod Events
mod Seeding
mod Loading
pub mod Reload
mod Tests
use ophyd_service.Prelude.{
  ℕ, suc, String, Bool, true, false, Option, none, some, List, [], ◌∷◌, ◌==◌, if◌then◌else◌, length,
  take,
}
use ophyd_service.Dict
use ophyd_service.Dict.{Dict}
use ophyd_service.Registry.{
  DeviceMetadata, DeviceInstantiationSpec, DeviceRegistry, empty, add_device,
}

-- A row of the table device_registry, without its key `name`.
pub record DeviceRow : Type 0 where
  pub device_metadata : DeviceMetadata
  pub instantiation_spec : Option DeviceInstantiationSpec
  pub created_at : ℕ
  pub updated_at : ℕ

pub record DeviceAuditEntry : Type 0 where
  pub id : ℕ
  pub device_name : String
  pub operation : String
  pub timestamp : ℕ
  pub details : Option String

-- The tables, and the last id that the database gave to an audit entry: it never gives one again.
-- The newest entry of the log stands first.
pub record DeviceRegistryStore : Type 0 where
  pub device_registry : Dict DeviceRow
  pub device_audit_log : List DeviceAuditEntry
  pub last_id : ℕ
  pub registry_metadata : Dict String

-- `conn.execute(device_audit_log.insert().values(…))`
unfoldable pub append_audit :
    String → String → ℕ → Option String → DeviceRegistryStore → DeviceRegistryStore
append_audit device_name operation now details s = record s {
  device_audit_log =
      record {
        id = suc s.last_id;
        device_name = device_name;
        operation = operation;
        timestamp = now;
        details = details;
      }
      ∷ s.device_audit_log;
  last_id = suc s.last_id;
}

unfoldable pub is_seeded : DeviceRegistryStore → Bool
is_seeded s = Dict.contains s.registry_metadata "seeded"

-- The loop of `seed_from_registry`. A name that has a row violates the primary key: `none`.
unfoldable pub seed_devices :
    ℕ
    → Dict DeviceInstantiationSpec
    → Dict DeviceMetadata
    → DeviceRegistryStore
    → Option DeviceRegistryStore
seed_devices now specs [] s = some s
seed_devices now specs ((name, metadata_model) ∷ devices) s =
    let row : DeviceRow = record {
      device_metadata = metadata_model;
      instantiation_spec = Dict.get specs name;
      created_at = now;
      updated_at = now;
    } in
    let rest = seed_devices now specs devices (
      append_audit name "seed" now (some "{\"source\": \"profile\"}")
        (record s { device_registry = Dict.insert s.device_registry name row })) in
    if Dict.contains s.device_registry name then none else rest

-- `str(now)` is the parameter `str`. An IntegrityError rolls the transaction back.
unfoldable pub seed_from_registry :
    (ℕ → String) → DeviceRegistry → ℕ → DeviceRegistryStore → DeviceRegistryStore × Bool
unfolding seed_devices
seed_from_registry str registry now s =
    elim (seed_devices now registry.instantiation_specs registry.devices s) [
      | none ↦ (s, false)
      | some seeded ↦ (
        record seeded {
          registry_metadata = Dict.insert seeded.registry_metadata "seeded" (str now);
        },
        true,
      )
    ]

unfoldable pub add_rows : Dict DeviceRow → DeviceRegistry → DeviceRegistry
add_rows [] registry = registry
add_rows ((name, row) ∷ rows) registry =
    add_rows rows (add_device registry row.device_metadata row.instantiation_spec)

-- `ORDER BY name` is the parameter `by_name`: the database collates.
unfoldable pub load_all_devices :
    (Dict DeviceRow → Dict DeviceRow) → DeviceRegistryStore → DeviceRegistry
unfolding add_rows
load_all_devices by_name s = add_rows (by_name s.device_registry) empty

-- `on_conflict_do_update`: an old row keeps `created_at`.
unfoldable pub upsert_row :
    Option DeviceRow → DeviceMetadata → Option DeviceInstantiationSpec → ℕ → DeviceRow
upsert_row none metadata spec now = record {
  device_metadata = metadata;
  instantiation_spec = spec;
  created_at = now;
  updated_at = now;
}
upsert_row (some old) metadata spec now = record old {
  device_metadata = metadata;
  instantiation_spec = spec;
  updated_at = now;
}

unfoldable pub save_device :
    String
    → DeviceMetadata
    → Option DeviceInstantiationSpec
    → String
    → Option String
    → ℕ
    → DeviceRegistryStore
    → DeviceRegistryStore
unfolding append_audit upsert_row
save_device name metadata spec operation details now s =
    append_audit name operation now details (record s {
      device_registry =
          Dict.insert s.device_registry name
            (upsert_row (Dict.get s.device_registry name) metadata spec now);
    })

unfoldable pub delete_device :
    String → Option String → ℕ → DeviceRegistryStore → DeviceRegistryStore × Bool
unfolding append_audit
delete_device name details now s =
    if Dict.contains s.device_registry name
    then (
      append_audit name "delete" now details
          (record s { device_registry = Dict.remove s.device_registry name }),
      true,
    )
    else (s, false)

unfoldable pub get_device : String → DeviceRegistryStore → Option DeviceRow
get_device name s = Dict.get s.device_registry name

entries_of : String → List DeviceAuditEntry → List DeviceAuditEntry
entries_of device_name [] = []
entries_of device_name (entry ∷ log) =
    let rest = entries_of device_name log in
    if entry.device_name == device_name then entry ∷ rest else rest

-- An empty name filters nothing, as none does.
unfoldable pub get_audit_log : Option String → ℕ → DeviceRegistryStore → List DeviceAuditEntry
unfolding entries_of
get_audit_log none limit s = take limit s.device_audit_log
get_audit_log (some device_name) limit s =
    if device_name == ""
    then take limit s.device_audit_log
    else take limit (entries_of device_name s.device_audit_log)

-- The first transaction of `clear_and_reseed`.
unfoldable pub clear : ℕ → DeviceRegistryStore → DeviceRegistryStore
unfolding append_audit
clear now s = record (append_audit "*" "reset" now (some "{\"reason\": \"manual_reset\"}") s) {
  device_registry = [];
  registry_metadata = Dict.remove s.registry_metadata "seeded";
}

-- The clock is read again for the second transaction.
unfoldable pub clear_and_reseed :
    (ℕ → String) → DeviceRegistry → ℕ → ℕ → DeviceRegistryStore → DeviceRegistryStore × Bool
unfolding clear seed_from_registry
clear_and_reseed str registry now later s = seed_from_registry str registry later (clear now s)

unfoldable pub log_lock_event :
    List String → String → Option String → ℕ → DeviceRegistryStore → DeviceRegistryStore
unfolding append_audit
log_lock_event [] operation details now s = s
log_lock_event (name ∷ names) operation details now s =
    log_lock_event names operation details now (append_audit name operation now details s)

unfoldable pub device_count : DeviceRegistryStore → ℕ
device_count s = length s.device_registry
