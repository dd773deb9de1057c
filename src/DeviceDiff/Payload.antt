-- ===== src/DeviceDiff/Payload.antt =====
-- What a worker reports of its devices: `build_config_service_payload` of
-- queueserver_service/manager/device_introspection.py.
use mathlib.Core.Path.{subst}
use mathlib.Core.Option.{some-injective}
use ophyd_service.Prelude.{
  String, ◌≡◌, refl, ap, ◌∙◌, true, Option, none, some, [], ◌∷◌, ◌==◌, if◌then◌else◌, arith, eq_iff,
  Bool-cases, inl, inr,
}
use ophyd_service.Dict
use ophyd_service.Dict.{Dict, get-insert}
use ophyd_service.Queue.Json.{Item, bool, text, arr, obj, Values, nil, cons, Fields, field, end}
use ophyd_service.DeviceDiff.Service.{text_in}
use ophyd_service.DeviceDiff.{DevicePayload}
use ophyd_service.DeviceDiff.Untouched.{AreNamed}

-- What the introspection reads of a device: the path of its class, its texts, which are `none` where
-- they are missing or empty, and the other fields of its metadata.
pub record LiveDevice : Type 0 where
  pub class_path : String
  pub prefix : Option String
  pub pvname : Option String
  pub setpoint_pvname : Option String
  pub traits : Item

unfoldable pub device_to_metadata_dict : String → LiveDevice → Item
device_to_metadata_dict name device = ("name", text name) ∷ device.traits

unfoldable pub constructor_args : LiveDevice → Option String → Option String → Values
constructor_args device (some prefix) pvname = cons (text prefix) nil
constructor_args device none (some pvname) = cons (text pvname) nil
constructor_args device none none = nil

-- The setpoint is passed on if it differs from the PV that stands for the missing prefix.
unfoldable pub write_pv : Option String → Option String → Option String → Fields
write_pv none (some pvname) (some setpoint) =
    if setpoint == pvname then end else field "write_pv" (text setpoint) end
write_pv _ _ _ = end

unfoldable pub device_to_instantiation_spec : String → LiveDevice → Item
unfolding constructor_args write_pv
device_to_instantiation_spec name device =
    ("name", text name)
    ∷ ("device_class", text device.class_path)
    ∷ ("args", arr (constructor_args device device.prefix device.pvname))
    ∷ (
      "kwargs",
      obj (field "name" (text name) (write_pv device.prefix device.pvname device.setpoint_pvname)),
    )
    ∷ ("active", bool true)
    ∷ []

abbrev pub payload_of : String → LiveDevice → DevicePayload
payload_of name device = record {
  metadata = some (device_to_metadata_dict name device);
  spec = some (device_to_instantiation_spec name device);
}

-- The devices of the namespace; one whose introspection raises is `none`, and is left out.
unfoldable pub build_config_service_payload : Dict (Option LiveDevice) → Dict DevicePayload
unfolding device_to_metadata_dict device_to_instantiation_spec
build_config_service_payload [] = []
build_config_service_payload ((name, none) ∷ devices) = build_config_service_payload devices
build_config_service_payload ((name, some device) ∷ devices) =
    (name, payload_of name device) ∷ build_config_service_payload devices

-- Every payload is that of some device, under the device's name.
get-build :
    (devices : Dict (Option LiveDevice)) (name : String) (payload : DevicePayload)
    → Dict.get (build_config_service_payload devices) name ≡ some payload
    → (device : LiveDevice) × (payload_of name device ≡ payload)
unfolding build_config_service_payload Dict.get
get-build [] name payload e = absurd (ground arith)
get-build ((n, none) ∷ devices) name payload e = get-build devices name payload e
get-build ((n, some device) ∷ devices) name payload e = elim (Bool-cases (n == name)) [
  | inl same ↦
      let p : n ≡ name = (eq_iff n name).0 same in
      (device, subst (λ m. payload_of m device ≡ payload) p (some-injective _ _ (ground arith)))
  | inr other ↦ get-build devices name payload (ground arith)
]

-- The metadata has the name that the payload is reported under.
pub build-AreNamed :
    (devices : Dict (Option LiveDevice)) → AreNamed (build_config_service_payload devices)
unfolding AreNamed device_to_metadata_dict Dict.get
build-AreNamed devices name payload metadata e e' =
    let (device, p) = get-build devices name payload e in
    subst (λ m. text_in (Dict.get m "name") ≡ some name)
      (some-injective (device_to_metadata_dict name device) metadata (ap (λ q. q.metadata) p ∙ e'))
      refl

pub build-get :
    (devices : Dict (Option LiveDevice)) (name : String) (device : LiveDevice)
    → Dict.get devices name ≡ some (some device)
    → Dict.get (build_config_service_payload devices) name ≡ some (payload_of name device)
unfolding build_config_service_payload Dict.get
build-get [] name device e = absurd (ground arith)
build-get ((n, none) ∷ devices) name device e = elim (Bool-cases (n == name)) [
  | inl same ↦ absurd (ground arith)
  | inr other ↦ build-get devices name device (ground arith)
]
build-get ((n, some d) ∷ devices) name device e = elim (Bool-cases (n == name)) [
  | inl same ↦
      let p : n ≡ name = (eq_iff n name).0 same in
      let q : some (some d) ≡ some (some device) = ground arith in
      let r : d ≡ device = some-injective _ _ (some-injective _ _ q) in
      rw (p, r) (ground (arith, eq_iff name name))
  | inr other ↦ ground (arith, build-get devices name device (ground arith))
]
