-- ===== src/DeviceDiff/Service.antt =====
-- The requests that write one device: `upsert_device` and `delete_device` of
-- queueserver_service/manager/config_service.py, and the routes of configuration_service/main.py that
-- answer them. Specifications and metadata are JSON objects.
use ophyd_service.Prelude.{
  String, Bool, true, false, ◌||◌, not, Option, none, some, List, [], ◌∷◌, ◌==◌, if◌then◌else◌,
  member,
}
use ophyd_service.Dict
use ophyd_service.Dict.{Dict}
use ophyd_service.Queue.Json.{Item, Value, text}

abbrev pub text_in : Option Value → Option String
text_in (some (text t)) = some t
text_in _ = none

-- What the registry of the service shows to the comparison: the names of the devices, and the
-- specifications.
pub record RegistryView : Type 0 where
  pub devices : List String
  pub specs : Dict Item

-- The validation of pydantic, with the allowlist of classes and the locks. `created` fills the defaults
-- in, and `merged` puts the fields that were sent over those of the existing specification.
pub record Validation : Type 0 where
  pub valid_metadata : Item → Bool
  pub valid_update : Item → Bool
  pub created : Item → Option Item
  pub merged : Option Item → Item → Option Item
  pub allowed : Item → Bool
  pub locked : String → Bool

pub data Reply : Type 0 where
  accepted conflict refused : Reply

unfoldable pub create_named :
    Validation → String → Item → Item → Item → Option String → RegistryView → RegistryView × Reply
create_named v name metadata sent spec none registry = (registry, refused)
create_named v name metadata sent spec (some spec_name) registry =
    if not (v.valid_metadata metadata) || (not (name == spec_name) || not (v.allowed sent))
    then (registry, refused)
    else if member name registry.devices
    then (registry, conflict)
    else (
      record { devices = name ∷ registry.devices; specs = Dict.insert registry.specs name spec },
      accepted,
    )

-- POST /api/v1/devices, with the name in the metadata. A request without a specification is invalid.
unfoldable pub create_device :
    Validation → String → Item → Option Item → RegistryView → RegistryView × Reply
unfolding create_named
create_device v name metadata none registry = (registry, refused)
create_device v name metadata (some sent) registry = elim (v.created sent) [
  | none ↦ (registry, refused)
  | some spec ↦ create_named v name metadata sent spec (text_in (Dict.get spec "name")) registry
]

-- The name in the specification, if it is sent, is the one in the path.
abbrev pub named_otherwise : Option String → String → Bool
named_otherwise none name = false
named_otherwise (some sent_name) name = not (sent_name == name)

-- PUT /api/v1/devices/{name}
unfoldable pub put_device :
    Validation → String → Item → Option Item → RegistryView → RegistryView × Reply
put_device v name metadata none registry =
    if not (v.valid_update metadata) || (not (member name registry.devices) || v.locked name)
    then (registry, refused)
    else (registry, accepted)
put_device v name metadata (some sent) registry =
    if not (v.valid_update metadata)
      || (named_otherwise (text_in (Dict.get sent "name")) name
          || (not (v.allowed sent) || (not (member name registry.devices) || v.locked name)))
    then (registry, refused)
    else elim (v.merged (Dict.get registry.specs name) sent) [
      | none ↦ (registry, refused)
      | some spec ↦ (record registry { specs = Dict.insert registry.specs name spec }, accepted)
    ]

unfoldable pub others : String → List String → List String
others name [] = []
others name (x ∷ xs) = let rest = others name xs in if x == name then rest else x ∷ rest

-- DELETE /api/v1/devices/{name}
unfoldable pub drop_device : Validation → String → RegistryView → RegistryView × Reply
unfolding others
drop_device v name registry =
    if not (member name registry.devices) || v.locked name then (registry, refused) else (
      record { devices = others name registry.devices; specs = Dict.remove registry.specs name },
      accepted,
    )

pub data Transfer : Type 0 where
  delivered request_lost response_lost : Transfer

-- A request over the network, with what becomes of each attempt. After a lost message there is another
-- one, as long as attempts are left.
unfoldable pub send :
    List Transfer → (RegistryView → RegistryView × Reply) → RegistryView → RegistryView × Reply
send [] route registry = (registry, refused)
send (delivered ∷ attempts) route registry = route registry
send (request_lost ∷ attempts) route registry = send attempts route registry
send (response_lost ∷ attempts) route registry = send attempts route (route registry).0

abbrev pub is_accepted : Reply → Bool
is_accepted accepted = true
is_accepted conflict = false
is_accepted refused = false

-- What becomes of the attempts of the requests about a device.
pub record Transfers : Type 0 where
  pub post : String → List Transfer
  pub put : String → List Transfer
  pub delete : String → List Transfer

-- The second request, if there was a conflict.
unfoldable pub after_post :
    (RegistryView → RegistryView × Reply) → RegistryView × Reply → RegistryView × Bool
after_post put_request (registry, conflict) =
    let (registry', answer) = put_request registry in (registry', is_accepted answer)
after_post put_request (registry, accepted) = (registry, true)
after_post put_request (registry, refused) = (registry, false)

unfoldable pub upsert_named :
    Validation → Transfers → Option String → Item → Option Item → RegistryView → RegistryView × Bool
unfolding create_device put_device send after_post
upsert_named v network none metadata spec registry = (registry, false)
upsert_named v network (some name) metadata spec registry =
    if name == ""
    then (registry, false)
    else after_post (send (network.put name) (put_device v name metadata spec))
        (send (network.post name) (create_device v name metadata spec) registry)

-- The name is the one in the metadata; without one there is a ValueError.
unfoldable pub upsert_device :
    Validation → Transfers → Item → Option Item → RegistryView → RegistryView × Bool
unfolding upsert_named
upsert_device v network metadata spec registry =
    upsert_named v network (text_in (Dict.get metadata "name")) metadata spec registry

unfoldable pub send_delete : Validation → Transfers → String → RegistryView → RegistryView × Bool
unfolding drop_device send
send_delete v network name registry =
    let (registry', answer) = send (network.delete name) (drop_device v name) registry in
    (registry', is_accepted answer)
