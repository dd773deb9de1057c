-- ===== src/DeviceDiff/Tests.antt =====
-- Witnesses and tests for the comparison of the worker with the registry.
use mathlib.Core.Path.{subst}
use mathlib.Core.Option.{some-injective}
use ophyd_service.Prelude.{
  ◌≡◌, refl, ap, Bool, true, false, Option, none, some, String, [], ◌∷◌, ◌==◌, arith, member,
  if◌then◌else◌, ◌&&◌, not,
}
use ophyd_service.Dict
use ophyd_service.Dict.{Dict, get-insert}
use ophyd_service.Queue.Json.{
  Item, Value, null, bool, text, same_text, same_value, same_values, same_fields, same_text_iff,
}
use ophyd_service.Locks.{sorted_set, insert_sorted}
use ophyd_service.DeviceDiff.Service.{
  RegistryView, Validation, delivered, request_lost, response_lost, Transfers, create_named,
  create_device, put_device, drop_device, others, send, after_post, upsert_named, upsert_device,
  send_delete,
}
use ophyd_service.DeviceDiff.{
  DevicePayload, is_false, compute_diff, modified_names, apply_diff, is_disabled, payload_spec,
  modified_among, modified_of, names_where, or_null, changed_fields, select_writes, apply_writes,
  have_metadata, gather_with_failures, write_payload, delete_pass, finish,
}
use ophyd_service.DeviceDiff.Payload.{
  LiveDevice, device_to_metadata_dict, constructor_args, write_pv, device_to_instantiation_spec,
  build_config_service_payload,
}
use ophyd_service.DeviceDiff.Written.{FillsDefaults, reported}
use ophyd_service.DeviceDiff.Disabled.{apply_diff-disabled}
use ophyd_service.DeviceDiff.Phantom.{apply_diff-phantom}

abbrev motor : LiveDevice
motor = record {
  class_path = "ophyd.EpicsMotor";
  prefix = some "IOC:m";
  pvname = none;
  setpoint_pvname = none;
  traits = ("ophyd_class", text "EpicsMotor") ∷ [];
}

abbrev signal : LiveDevice
signal = record {
  class_path = "ophyd.EpicsSignal";
  prefix = none;
  pvname = some "IOC:read";
  setpoint_pvname = some "IOC:write";
  traits = [];
}

-- The worker has a new device, a changed one, one that is disabled in the registry, and one that
-- cannot be introspected.
abbrev namespace : Dict (Option LiveDevice)
namespace =
    ("new", some motor) ∷ ("changed", some signal) ∷ ("off", some motor) ∷ ("broken", none) ∷ []

abbrev worker_data : Dict DevicePayload
worker_data = build_config_service_payload namespace

abbrev stored : String → String → Bool → Item
stored name device_class active =
    ("name", text name)
    ∷ ("device_class", text device_class)
    ∷ ("active", bool active)
    ∷ ("framework", null)
    ∷ []

-- The registry has a device that the worker no longer has.
abbrev registry : RegistryView
registry = record {
  devices = "changed" ∷ "gone" ∷ "off" ∷ [];
  specs =
      ("changed", stored "changed" "ophyd.EpicsSignal" true)
      ∷ ("gone", stored "gone" "ophyd.EpicsMotor" true)
      ∷ ("off", stored "off" "ophyd.EpicsMotor" false)
      ∷ [];
}

abbrev framework_of : Option Item → Value
framework_of none = null
framework_of (some spec) = or_null (Dict.get spec "framework")

-- All fields but the framework are sent.
abbrev validation : Validation
validation = record {
  valid_metadata = λ metadata. true;
  valid_update = λ metadata. true;
  created = λ sent. some (Dict.insert sent "framework" null);
  merged = λ before sent. some (Dict.insert sent "framework" (framework_of before));
  allowed = λ sent. true;
  locked = λ name. false;
}

-- The first request about each new device is lost.
abbrev retried : Transfers
retried = record {
  post = λ name. request_lost ∷ delivered ∷ [];
  put = λ name. delivered ∷ [];
  delete = λ name. delivered ∷ [];
}

-- The answer about the new device is lost.
abbrev lossy : Transfers
lossy = record {
  post = λ name. if name == "new" then response_lost ∷ [] else delivered ∷ [];
  put = λ name. delivered ∷ [];
  delete = λ name. delivered ∷ [];
}

validation-FillsDefaults : FillsDefaults validation
unfolding FillsDefaults
validation-FillsDefaults = (
  λ sent spec active e.
      subst (λ s. (Dict.contains s "framework" && not (is_false (Dict.get s "active"))) ≡ true)
        (some-injective _ spec e)
        (ground (
          arith,
          get-insert sent "framework" null "framework",
          get-insert sent "framework" null "active",
        )),
  λ before sent spec active e.
      subst (λ s. (Dict.contains s "framework" && not (is_false (Dict.get s "active"))) ≡ true)
        (some-injective _ spec e)
        (ground (
          arith,
          get-insert sent "framework" (framework_of before) "framework",
          get-insert sent "framework" (framework_of before) "active",
        )),
)

same_text-keys :
    (a b : Item) (key : String) → same_text a b ≡ true → Dict.contains a key ≡ Dict.contains b key
same_text-keys a b key h = ap (λ d. Dict.contains d key) ((same_text_iff a b).0 h)

apply_diff-disabled_example :
    Dict.get
      (apply_diff validation lossy
        (compute_diff same_text same_value worker_data registry.specs)
        worker_data
        "selected"
        (some ("off" ∷ "new" ∷ "gone" ∷ []))
        registry).0.specs
      "off"
    ≡ Dict.get registry.specs "off"
unfolding is_disabled Dict.get
apply_diff-disabled_example =
    apply_diff-disabled same_text same_value validation lossy namespace registry "selected"
      (some ("off" ∷ "new" ∷ "gone" ∷ [])) "off" refl

applied_all :
    member "new" (
      reported
        (apply_diff validation retried
          (compute_diff same_text same_value worker_data registry.specs)
          worker_data
          "all"
          none
          registry).1)
    ≡ true
unfolding apply_diff compute_diff build_config_service_payload device_to_metadata_dict
    device_to_instantiation_spec constructor_args write_pv is_disabled payload_spec modified_among
    modified_of names_where sorted_set insert_sorted Dict.get Dict.keys Dict.insert Dict.remove
    same_text same_value select_writes apply_writes have_metadata gather_with_failures write_payload
    delete_pass finish create_named create_device put_device drop_device others send after_post
    upsert_named upsert_device send_delete changed_fields modified_names
applied_all = refl

apply_diff-phantom_example :
    member "new" (
      modified_names
        (compute_diff same_text same_value worker_data
          (apply_diff validation retried
            (compute_diff same_text same_value worker_data registry.specs)
            worker_data
            "all"
            none
            registry).0.specs).modified)
    ≡ true
unfolding Dict.get
apply_diff-phantom_example =
    apply_diff-phantom same_text same_value validation retried namespace registry "all" none "new"
      motor same_text-keys validation-FillsDefaults refl applied_all

found :
    let diff = compute_diff same_text same_value worker_data registry.specs in
    (diff.added ≡ "new" ∷ [])
    × (diff.removed ≡ "gone" ∷ [])
    × (modified_names diff.modified ≡ "changed" ∷ [])
    × (diff.disabled ≡ "off" ∷ [])
unfolding compute_diff build_config_service_payload device_to_metadata_dict
    device_to_instantiation_spec constructor_args write_pv is_disabled payload_spec modified_among
    modified_of modified_names names_where sorted_set insert_sorted Dict.get Dict.keys same_text
    same_value changed_fields
found = (refl, refl, refl, refl)

-- Such a device is reported without a changed field.
no_field_changed :
    changed_fields same_value
      (Dict.insert (device_to_instantiation_spec "new" motor) "framework" null)
      (device_to_instantiation_spec "new" motor)
    ≡ []
unfolding changed_fields names_where sorted_set insert_sorted Dict.get Dict.keys Dict.insert
    same_value same_values same_fields device_to_instantiation_spec constructor_args write_pv
no_field_changed = refl
