-- ===== src/Registry/History.antt =====
-- Sequences of the changes that the endpoints of configuration_service/main.py make to the
-- `DeviceRegistry` (configuration_service/models.py), and what one update leaves.
use ophyd_service.Prelude.{
  String, ◌≡◌, refl, true, false, Option, some, List, [], ◌∷◌, arith, eq_iff, if◌then◌else◌, member,
  inl, inr, Bool-cases,
}
use ophyd_service.Dict
use ophyd_service.Dict.{NodupKeys, get-insert}
use ophyd_service.Registry.{
  DeviceMetadata, DeviceInstantiationSpec, DeviceRegistry, release_pv_ownership, add_device,
  add_standalone_pv, remove_standalone_pv, remove_device, update_device,
}
use ophyd_service.Registry.Owners.{
  owner_in, owned_by, lists, others_listing, first_of, heir-first_of, owner_in-index_pvs,
  owner_in-release,
}
use ophyd_service.Registry.Index.{IsIndexed, claims-insert}
use ophyd_service.Registry.Upkeep.{
  add_device-IsIndexed, update_device-IsIndexed, remove_device-IsIndexed,
  add_standalone_pv-IsIndexed, remove_standalone_pv-IsIndexed,
}

pub data Change : Type 0 where
  create : DeviceMetadata → Option DeviceInstantiationSpec → Change
  update : DeviceMetadata → Option DeviceInstantiationSpec → Change
  delete : String → Change
  mark : String → Change
  unmark : String → Change

-- The create endpoint refuses a name that is registered (409) before it calls `add_device`.
unfoldable pub apply : DeviceRegistry → Change → DeviceRegistry
apply r (create d spec) = if Dict.contains r.devices d.name then r else add_device r d spec
apply r (update d spec) = (update_device r d spec).0
apply r (delete name) = (remove_device r name).0
apply r (mark p) = add_standalone_pv r p
apply r (unmark p) = remove_standalone_pv r p

unfoldable pub apply_all : DeviceRegistry → List Change → DeviceRegistry
apply_all r [] = r
apply_all r (c ∷ cs) = apply_all (apply r c) cs

apply-IsIndexed : (r : DeviceRegistry) (c : Change) → IsIndexed r → IsIndexed (apply r c)
unfolding apply
apply-IsIndexed r (create d spec) v = elim (Bool-cases (Dict.contains r.devices d.name)) [
  | inl e ↦ rw e v
  | inr e ↦ rw e (add_device-IsIndexed r d spec v e)
]
apply-IsIndexed r (update d spec) v = update_device-IsIndexed r d spec v
apply-IsIndexed r (delete name) v = remove_device-IsIndexed r name v
apply-IsIndexed r (mark p) v = add_standalone_pv-IsIndexed r p v
apply-IsIndexed r (unmark p) v = remove_standalone_pv-IsIndexed r p v

-- From a registry whose PV index agrees with its devices, any sequence of creations, updates,
-- removals and standalone registrations leaves one where every owner in the index is a registered
-- device that lists the PV, every PV that a device lists has an owner, every standalone PV is
-- indexed, and every PV without an owner is standalone.
pub apply_all-IsIndexed :
    (r : DeviceRegistry) (cs : List Change) → IsIndexed r → IsIndexed (apply_all r cs)
unfolding apply_all
apply_all-IsIndexed r [] v = v
apply_all-IsIndexed r (c ∷ cs) v = apply_all-IsIndexed (apply r c) cs (apply-IsIndexed r c v)

-- After the update of a registered device, each PV belongs to the device if the new version lists
-- it; otherwise, if the device owned it, to the first other device that lists it, or to nobody if
-- it is standalone, or it is gone from the index; and otherwise to whom it belonged before.
pub owner_in-update_device :
    (r : DeviceRegistry) (d : DeviceMetadata) (spec : Option DeviceInstantiationSpec) (q : String)
    → NodupKeys r.pvs
    → Dict.contains r.devices d.name ≡ true
    → owner_in (update_device r d spec).0.pvs q ≡ (
        if lists d.pvs q
        then some (some d.name)
        else if owned_by d.name (owner_in r.pvs q)
        then first_of (others_listing d.name q r.devices) (member q r.standalone_pv_names)
        else owner_in r.pvs q)
unfolding update_device add_device
owner_in-update_device r d spec q n h =
    rw (h, owner_in-index_pvs d.name (release_pv_ownership r d.name).pvs d.pvs q)
      (rw (owner_in-release r d.name q n, heir-first_of r d.name q) refl)

-- Calling `add_device` itself on a name that is registered breaks the index whenever the device
-- owned a PV that its new version does not list: the entry keeps naming it.
pub add_device_stale :
    (r : DeviceRegistry) (d : DeviceMetadata) (spec : Option DeviceInstantiationSpec) (q : String)
    → owner_in r.pvs q ≡ some (some d.name)
    → lists d.pvs q ≡ false
    → ¬ IsIndexed (add_device r d spec)
unfolding add_device
add_device_stale r d spec q o l v = ground (
  arith,
  v.owners q d.name,
  owner_in-index_pvs d.name r.pvs d.pvs q,
  claims-insert r.devices d.name d d.name q,
  eq_iff d.name d.name,
)
