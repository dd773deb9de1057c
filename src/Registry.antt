-- ===== src/Registry.antt =====
-- `DeviceRegistry` of configuration_service/models.py: the index of devices, of their
-- instantiation specs and of PVs that a service process keeps in memory.
pub mod Owners
pub mod Index
pub mod Release
pub mod Upkeep
pub mod History
mod Tests
use ophyd_service.Prelude.{
  ℕ, String, ◌≡◌, refl, Bool, true, false, ◌||◌, ◌&&◌, not, Option, none, some, List, [], ◌∷◌, ◌++◌,
  arith, ◌==◌, if◌then◌else◌, is_some, member, map,
}
use ophyd_service.Dict
use ophyd_service.Dict.{Dict}

-- The fields that the registry reads. The others are carried along and never read here.
pub record DeviceMetadata : Type 0 where
  pub name : String
  pub device_label : String
  pub ophyd_class : String
  pub is_movable : Bool
  pub is_flyable : Bool
  pub is_readable : Bool
  pub pvs : Dict String  -- component name to PV
  pub labels : List String

pub record DeviceInstantiationSpec : Type 0 where
  pub name : String
  pub device_class : String
  pub active : Bool

pub record PvMetadata : Type 0 where
  pub pv : String
  pub device_name : Option String
  pub component_name : Option String

pub record DeviceRegistry : Type 0 where
  pub devices : Dict DeviceMetadata
  pub pvs : Dict PvMetadata
  pub instantiation_specs : Dict DeviceInstantiationSpec
  pub standalone_pv_names : List String  -- a set: only membership is read

abbrev pub empty : DeviceRegistry
empty = record { devices = []; pvs = []; instantiation_specs = []; standalone_pv_names = [] }

unfoldable pub get_device : DeviceRegistry → String → Option DeviceMetadata
get_device r name = Dict.get r.devices name

unfoldable pub get_instantiation_spec : DeviceRegistry → String → Option DeviceInstantiationSpec
get_instantiation_spec r name = Dict.get r.instantiation_specs name

-- With `active_only`, which is the default.
unfoldable pub active_specs : Dict DeviceInstantiationSpec → Dict DeviceInstantiationSpec
active_specs [] = []
active_specs ((name, spec) ∷ specs) =
    let rest = active_specs specs in if spec.active then (name, spec) ∷ rest else rest

unfoldable pub list_instantiation_specs : Bool → DeviceRegistry → Dict DeviceInstantiationSpec
unfolding active_specs
list_instantiation_specs active_only r =
    if active_only then active_specs r.instantiation_specs else r.instantiation_specs

unfoldable pub get_pv : DeviceRegistry → String → Option PvMetadata
get_pv r pv_name = Dict.get r.pvs pv_name

-- The body of the loop of `add_device` over `device.pvs.items()`.
pub index_pv : String → Dict PvMetadata → String → String → Dict PvMetadata
index_pv owner pvs component_name pv_name = elim (Dict.get pvs pv_name) [
  | none ↦
      Dict.insert pvs pv_name
        (record { pv = pv_name; device_name = some owner; component_name = some component_name })
  | some meta ↦
      Dict.insert pvs pv_name
        (record meta { device_name = some owner; component_name = some component_name })
]

pub index_pvs : String → Dict PvMetadata → Dict String → Dict PvMetadata
unfolding index_pv
index_pvs owner pvs [] = pvs
index_pvs owner pvs ((component_name, pv_name) ∷ rest) =
    index_pvs owner (index_pv owner pvs component_name pv_name) rest

add_spec :
    Dict DeviceInstantiationSpec
    → String
    → Option DeviceInstantiationSpec
    → Dict DeviceInstantiationSpec
add_spec specs name none = specs
add_spec specs name (some spec) = Dict.insert specs name spec

unfoldable pub add_device :
    DeviceRegistry → DeviceMetadata → Option DeviceInstantiationSpec → DeviceRegistry
unfolding add_spec
add_device r device spec = record r {
  devices = Dict.insert r.devices device.name device;
  instantiation_specs = add_spec r.instantiation_specs device.name spec;
  pvs = index_pvs device.name r.pvs device.pvs;
}

pub add_standalone_pv : DeviceRegistry → String → DeviceRegistry
add_standalone_pv r pv_name =
    let marked = record r { standalone_pv_names = pv_name ∷ r.standalone_pv_names } in
    if Dict.contains r.pvs pv_name then marked else record marked {
      pvs =
          Dict.insert r.pvs pv_name
            (record { pv = pv_name; device_name = none; component_name = none });
    }

-- `set.discard`
pub discard : String → List String → List String
discard x [] = []
discard x (y ∷ ys) = let rest = discard x ys in if y == x then rest else y ∷ rest

pub remove_standalone_pv : DeviceRegistry → String → DeviceRegistry
unfolding discard
remove_standalone_pv r pv_name =
    let unmarked = record r { standalone_pv_names = discard pv_name r.standalone_pv_names } in
    elim (Dict.get r.pvs pv_name) [
      | none ↦ unmarked
      | some meta ↦
          if is_some meta.device_name
          then unmarked
          else record unmarked { pvs = Dict.remove r.pvs pv_name }
    ]

-- The PVs that the index gives to `name`.
pub owned : String → Dict PvMetadata → List String
owned name [] = []
owned name ((pv_name, meta) ∷ rest) =
    let others = owned name rest in
    elim meta.device_name [
      | none ↦ others
      | some owner ↦ if owner == name then pv_name ∷ others else others
    ]

-- The inner loop: the first component of a device that lists the PV.
pub component_of : String → Dict String → Option String
component_of pv_name [] = none
component_of pv_name ((component_name, other_pv) ∷ rest) =
    if other_pv == pv_name then some component_name else component_of pv_name rest

-- The outer loop: the first other device that lists the PV.
pub find_owner : String → String → Dict DeviceMetadata → Option (String × String)
find_owner name pv_name [] = none
find_owner name pv_name ((other_name, other_device) ∷ rest) =
    let later = find_owner name pv_name rest in
    if other_name == name then later else elim (component_of pv_name other_device.pvs) [
      | none ↦ later
      | some component_name ↦ some (other_name, component_name)
    ]

-- The branches of the outer loop body, on the new owner that was found.
pub place :
    DeviceRegistry
    → Dict PvMetadata
    → String
    → PvMetadata
    → Option (String × String)
    → Dict PvMetadata
place r pvs pv_name meta (some (other_name, component_name)) =
    Dict.insert pvs pv_name
      (record meta { device_name = some other_name; component_name = some component_name })
place r pvs pv_name meta none =
    if member pv_name r.standalone_pv_names
    then Dict.insert pvs pv_name (record meta { device_name = none; component_name = none })
    else Dict.remove pvs pv_name

-- What becomes of one owned PV. `owned` lists present keys, so the absent case does not arise.
pub rehome : DeviceRegistry → String → Dict PvMetadata → String → Dict PvMetadata
rehome r name pvs pv_name = elim (Dict.get pvs pv_name) [
  | none ↦ pvs
  | some meta ↦ place r pvs pv_name meta (find_owner name pv_name r.devices)
]

pub rehome_all : DeviceRegistry → String → Dict PvMetadata → List String → Dict PvMetadata
rehome_all r name pvs [] = pvs
rehome_all r name pvs (pv_name ∷ rest) = rehome_all r name (rehome r name pvs pv_name) rest

pub release_pv_ownership : DeviceRegistry → String → DeviceRegistry
unfolding owned rehome_all
release_pv_ownership r name = record r { pvs = rehome_all r name r.pvs (owned name r.pvs) }

pub remove_device : DeviceRegistry → String → DeviceRegistry × Bool
remove_device r name =
    let released = release_pv_ownership r name in
    if Dict.contains r.devices name
    then (
      record released {
        instantiation_specs = Dict.remove r.instantiation_specs name;
        devices = Dict.remove r.devices name;
      },
      true,
    )
    else (r, false)

pub update_device :
    DeviceRegistry → DeviceMetadata → Option DeviceInstantiationSpec → DeviceRegistry × Bool
update_device r device spec =
    if Dict.contains r.devices device.name
    then (add_device (release_pv_ownership r device.name) device spec, true)
    else (r, false)
