-- ===== src/DeviceDiff.antt =====
-- How an operator brings the registry in line with the devices of the worker: `compute_diff`,
-- `_select_writes` and `apply_diff` of queueserver_service/manager/config_service.py. Specifications and
-- metadata are JSON objects, as the worker and the service give them.
pub mod Service
mod Effect
mod Compared
pub mod Untouched
pub mod Payload
pub mod Written
pub mod Disabled
pub mod Phantom
mod Tests
use ophyd_service.Prelude.{
  String, Bool, true, false, ◌&&◌, ◌||◌, not, Option, none, some, List, [], ◌∷◌, ◌++◌, ◌==◌,
  if◌then◌else◌, member, is_some,
}
use ophyd_service.Dict
use ophyd_service.Dict.{Dict}
use ophyd_service.Queue.Json.{Item, Value, null, bool}
use ophyd_service.Locks.{sorted_set}
use ophyd_service.DeviceDiff.Service.{
  RegistryView, Validation, Transfers, upsert_device, send_delete,
}

-- What the worker reports of a device. Without `metadata` it cannot be written.
pub record DevicePayload : Type 0 where
  pub metadata : Option Item
  pub spec : Option Item

pub record ModifiedDevice : Type 0 where
  pub name : String
  pub before : Item
  pub after : Item
  pub fields_changed : List String

pub record DeviceDiff : Type 0 where
  pub added : List String
  pub removed : List String
  pub modified : List ModifiedDevice
  pub disabled : List String

pub is_empty {ℓ} : {A : Type ℓ} → List A → Bool
is_empty [] = true
is_empty (x ∷ xs) = false

pub diff_is_empty : DeviceDiff → Bool
unfolding is_empty
diff_is_empty diff = is_empty diff.added && (is_empty diff.removed && is_empty diff.modified)

-- The set comprehensions.
pub names_where : (String → Bool) → List String → List String
names_where p [] = []
names_where p (name ∷ names) =
    let rest = names_where p names in if p name then name ∷ rest else rest

abbrev pub is_false : Option Value → Bool
is_false (some (bool false)) = true
is_false _ = false

-- spec.get("active", True) is False
pub is_disabled : Dict Item → String → Bool
is_disabled specs name = elim (Dict.get specs name) [
  | none ↦ false
  | some spec ↦ is_false (Dict.get spec "active")
]

pub payload_spec : Dict DevicePayload → String → Option Item
payload_spec device_data name = elim (Dict.get device_data name) [
  | none ↦ none
  | some payload ↦ payload.spec
]

-- spec.get(k), where a missing field is None
abbrev pub or_null : Option Value → Value
or_null none = null
or_null (some v) = v

-- `equal` is Python's `==` of two values.
pub changed_fields : (Value → Value → Bool) → Item → Item → List String
unfolding names_where
changed_fields equal before after = sorted_set (
    names_where (λ k. not (equal (or_null (Dict.get before k)) (or_null (Dict.get after k))))
      (Dict.keys before ++ Dict.keys after))

-- Python's `==` of two specifications and of two values.
module _ (same : Item → Item → Bool) (equal : Value → Value → Bool) where
  pub modified_of : Option Item → Option Item → String → List ModifiedDevice → List ModifiedDevice
  unfolding changed_fields
  modified_of none before name rest = rest
  modified_of (some after) none name rest = rest
  modified_of (some after) (some before) name rest =
      if same before after
      then rest
      else record {
        name = name;
        before = before;
        after = after;
        fields_changed = changed_fields equal before after;
      }
        ∷ rest

  pub modified_among : Dict DevicePayload → Dict Item → List String → List ModifiedDevice
  unfolding modified_of
  modified_among device_data registry_specs [] = []
  modified_among device_data registry_specs (name ∷ names) =
      modified_of (payload_spec device_data name) (Dict.get registry_specs name) name
        (modified_among device_data registry_specs names)

  pub compute_diff : Dict DevicePayload → Dict Item → DeviceDiff
  unfolding names_where is_disabled modified_among payload_spec
  compute_diff device_data registry_specs =
      let is_active = λ (name : String).
        Dict.contains registry_specs name && not (is_disabled registry_specs name) in
      record {
        added =
            sorted_set (
              names_where (λ name. not (Dict.contains registry_specs name))
                (Dict.keys device_data));
        removed = sorted_set (
            names_where (λ name. is_active name && not (Dict.contains device_data name))
              (Dict.keys registry_specs));
        modified =
            modified_among device_data registry_specs
              (sorted_set (names_where is_active (Dict.keys device_data)));
        disabled = sorted_set (names_where (is_disabled registry_specs) (Dict.keys registry_specs));
      }

pub modified_names : List ModifiedDevice → List String
modified_names [] = []
modified_names (m ∷ ms) = m.name ∷ modified_names ms

-- `none` is a ValueError. The names in the lists of a diff differ, so sorting them is sorting a set.
pub select_writes : DeviceDiff → String → Option (List String) → Option (List String × List String)
unfolding modified_names names_where
select_writes diff strategy selected =
    if strategy == "all"
    then some (sorted_set (diff.added ++ modified_names diff.modified), diff.removed)
    else if strategy == "additions_only"
    then some (diff.added, [])
    else if strategy == "selected"
    then elim selected [
      | none ↦ none
      | some chosen ↦ some (
        sorted_set
            (names_where (λ name. member name chosen) (diff.added ++ modified_names diff.modified)),
        sorted_set (names_where (λ name. member name chosen) diff.removed),
      )
    ]
    else none

-- The upsert of the payload under a name.
pub write_payload :
    Validation → Transfers → Dict DevicePayload → String → RegistryView → RegistryView × Bool
unfolding upsert_device
write_payload v network device_data name registry = elim (Dict.get device_data name) [
  | none ↦ (registry, false)
  | some payload ↦ elim payload.metadata [
    | none ↦ (registry, false)
    | some metadata ↦ upsert_device v network metadata payload.spec registry
  ]
]

-- `_gather_with_failures`: every write is tried. The names of those that succeed, and of those that
-- fail.
pub gather_with_failures :
    (String → RegistryView → RegistryView × Bool)
    → List String
    → RegistryView
    → RegistryView × List String × List String
gather_with_failures write [] registry = (registry, [], [])
gather_with_failures write (name ∷ names) registry =
    let (written, done) = write name registry in
    let (registry', successes, failures) = gather_with_failures write names written in
    (
      registry',
      if done then name ∷ successes else successes,
      if done then failures else name ∷ failures,
    )

pub data ApplyResult : Type 0 where
  applied : List String → List String → ApplyResult
  value_error : ApplyResult
  missing_metadata : ApplyResult
  write_errors : List String → ApplyResult

pub have_metadata : Dict DevicePayload → List String → Bool
have_metadata device_data [] = true
have_metadata device_data (name ∷ names) =
    elim (Dict.get device_data name) [ none ↦ false | some payload ↦ is_some payload.metadata ]
    && have_metadata device_data names

pub finish : List String → RegistryView × List String × List String → RegistryView × ApplyResult
finish upserted (registry, deleted, []) =
    (registry, applied (sorted_set upserted) (sorted_set deleted))
finish upserted (registry, deleted, f ∷ fs) = (registry, write_errors (sorted_set (f ∷ fs)))

-- The failures of both passes are raised together, after both.
pub delete_pass :
    Validation
    → Transfers
    → List String
    → RegistryView × List String × List String
    → RegistryView × ApplyResult
unfolding gather_with_failures send_delete finish
delete_pass v network delete_names (registry, upserted, upsert_failures) =
    let (registry', deleted, delete_failures) =
      gather_with_failures (send_delete v network) delete_names registry in
    finish upserted (registry', deleted, upsert_failures ++ delete_failures)

pub apply_writes :
    Validation
    → Transfers
    → Dict DevicePayload
    → RegistryView
    → Option (List String × List String)
    → RegistryView × ApplyResult
unfolding have_metadata gather_with_failures write_payload delete_pass
apply_writes v network device_data registry none = (registry, value_error)
apply_writes v network device_data registry (some (upsert_names, delete_names)) =
    if have_metadata device_data upsert_names
    then delete_pass v network delete_names
        (gather_with_failures (write_payload v network device_data) upsert_names registry)
    else (registry, missing_metadata)

pub apply_diff :
    Validation
    → Transfers
    → DeviceDiff
    → Dict DevicePayload
    → String
    → Option (List String)
    → RegistryView
    → RegistryView × ApplyResult
unfolding select_writes apply_writes
apply_diff v network diff device_data strategy selected registry =
    apply_writes v network device_data registry (select_writes diff strategy selected)
