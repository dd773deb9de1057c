-- ===== src/RegistryStore/Feed.antt =====
-- `get_changes_since` of configuration_service/device_registry_store.py, and what a client does with
-- its answer.
use ophyd_service.Prelude.{
  ℕ, String, Bool, false, ◌&&◌, ◌||◌, not, Option, none, some, List, [], ◌∷◌, ◌++◌, ◌==◌,
  if◌then◌else◌, ltb, leb, eqb, member,
}
use ophyd_service.Dict
use ophyd_service.Dict.{Dict}
use ophyd_service.Registry.{DeviceMetadata, DeviceInstantiationSpec}
use ophyd_service.RegistryStore.{DeviceRow, DeviceAuditEntry, DeviceRegistryStore}

abbrev pub change_feed_ops : List String
change_feed_ops = "seed" ∷ "add" ∷ "update" ∷ "delete" ∷ "enable" ∷ "disable" ∷ []

unfoldable pub max : ℕ → ℕ → ℕ
max a b = if leb a b then b else a

-- coalesce(max(id), 0)
unfoldable pub max_id : List DeviceAuditEntry → ℕ
unfolding max
max_id [] = 0
max_id (entry ∷ log) = max entry.id (max_id log)

-- The `where` of `latest_ids`.
unfoldable pub in_feed : ℕ → DeviceAuditEntry → Bool
in_feed since entry =
    ltb since entry.id && (member entry.operation change_feed_ops && not (entry.device_name == "*"))

-- The maximum of the group of `device_name`, 0 where it is empty.
unfoldable pub latest_id : ℕ → String → List DeviceAuditEntry → ℕ
unfolding max in_feed
latest_id since device_name [] = 0
latest_id since device_name (entry ∷ log) =
    let rest = latest_id since device_name log in
    if in_feed since entry && entry.device_name == device_name then max entry.id rest else rest

-- `id IN (SELECT max(id) … GROUP BY device_name)`. An id is that of one entry only, so the maximum is
-- that of the entry's own group.
unfoldable pub is_latest : ℕ → List DeviceAuditEntry → DeviceAuditEntry → Bool
unfolding in_feed latest_id
is_latest since log entry =
    in_feed since entry && eqb entry.id (latest_id since entry.device_name log)

unfoldable pub reset_since : ℕ → List DeviceAuditEntry → Bool
reset_since since [] = false
reset_since since (entry ∷ log) =
    (ltb since entry.id && entry.operation == "reset") || reset_since since log

pub data ChangeOp : Type 0 where
  deleted : ChangeOp
  upserted : DeviceMetadata → Option DeviceInstantiationSpec → ChangeOp

pub record DeviceChange : Type 0 where
  pub device_name : String
  pub op : ChangeOp
  pub version : ℕ

-- One turn of the loop over the rows of the outer join.
unfoldable pub change_op : DeviceAuditEntry → Option DeviceRow → ChangeOp
change_op entry none = deleted
change_op entry (some row) =
    if entry.operation == "delete"
    then deleted
    else upserted row.device_metadata row.instantiation_spec

unfoldable pub change_of : Dict DeviceRow → DeviceAuditEntry → DeviceChange
unfolding change_op
change_of rows entry = record {
  device_name = entry.device_name;
  op = change_op entry (Dict.get rows entry.device_name);
  version = entry.id;
}

-- `order_by(id)`: the oldest first, so an entry goes behind the older ones.
unfoldable pub changes_in :
    Dict DeviceRow → ℕ → List DeviceAuditEntry → List DeviceAuditEntry → List DeviceChange
unfolding is_latest change_of
changes_in rows since log [] = []
changes_in rows since log (entry ∷ older) =
    let earlier = changes_in rows since log older in
    if is_latest since log entry then earlier ++ change_of rows entry ∷ [] else earlier

pub record ChangesSince : Type 0 where
  pub current_version : ℕ
  pub service_epoch : String
  pub reset_occurred : Bool
  pub changes : List DeviceChange

unfoldable pub epoch_of : Option String → String
epoch_of none = "unseeded"
epoch_of (some value) = value

unfoldable pub get_changes_since : ℕ → DeviceRegistryStore → ChangesSince
unfolding max_id reset_since changes_in epoch_of
get_changes_since since s =
    let log = s.device_audit_log in
    let service_epoch = epoch_of (Dict.get s.registry_metadata "seeded") in
    if leb (max_id log) since
    then record {
      current_version = max_id log;
      service_epoch = service_epoch;
      reset_occurred = false;
      changes = [];
    }
    else record {
      current_version = max_id log;
      service_epoch = service_epoch;
      reset_occurred = reset_since since log;
      changes = changes_in s.device_registry since log log;
    }
