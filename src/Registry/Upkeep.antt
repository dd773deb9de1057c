-- ===== src/Registry/Upkeep.antt =====
-- Every operation of `DeviceRegistry` (configuration_service/models.py) keeps the index in step with
-- the devices.
use ophyd_service.Prelude.{
  String, ◌≡◌, ◌≢◌, true, false, ◌&&◌, is_some, Option, none, some, List, [], ◌∷◌, arith, ◌==◌,
  eq_iff, if◌then◌else◌, member, inl, inr, Bool-cases, Option-cases,
}
use ophyd_service.Dict
use ophyd_service.Dict.{Dict, NodupKeys, get-insert, get-remove, insert-NodupKeys, remove-NodupKeys}
use ophyd_service.Registry.{
  DeviceMetadata, DeviceInstantiationSpec, PvMetadata, DeviceRegistry, release_pv_ownership,
  discard, add_device, add_standalone_pv, remove_standalone_pv, remove_device, update_device,
}
use ophyd_service.Registry.Owners.{
  owner_in, claims, is_some-owner_in, owner_in-insert, owner_in-remove, owner_in-index_pvs,
}
use ophyd_service.Registry.Index.{IsIndexed, index_pvs-NodupKeys, claims-insert, claims-remove}
use ophyd_service.Registry.Release.{IsReleased, release-IsReleased}

-- Adding a device over an index in which the name owns nothing.
claim-IsIndexed :
    (r : DeviceRegistry) (pvs : Dict PvMetadata) (d : DeviceMetadata)
    (spec : Option DeviceInstantiationSpec)
    → NodupKeys r.devices
    → IsReleased r d.name pvs
    → IsIndexed (add_device (record r { pvs = pvs }) d spec)
unfolding add_device
claim-IsIndexed r pvs d spec n v = record {
  device_keys = insert-NodupKeys r.devices d.name d n;
  pv_keys = index_pvs-NodupKeys d.name pvs d.pvs v.pv_keys;
  owners = λ q k.
      rw (owner_in-index_pvs d.name pvs d.pvs q, claims-insert r.devices d.name d k q)
        (λ e. ground (arith, e, v.owners q k, eq_iff d.name k, eq_iff k d.name));
  covers = λ k q.
      rw (owner_in-index_pvs d.name pvs d.pvs q, claims-insert r.devices d.name d k q)
        (λ e. ground (arith, e, v.covers k q, eq_iff d.name k, eq_iff k d.name));
  standalone =
      λ q. rw (owner_in-index_pvs d.name pvs d.pvs q) (λ e. ground (arith, v.standalone q));
  unowned = λ q. rw (owner_in-index_pvs d.name pvs d.pvs q) (λ e. ground (arith, v.unowned q));
}

removed-IsIndexed :
    (r : DeviceRegistry) (name : String) (pvs : Dict PvMetadata)
    (specs : Dict DeviceInstantiationSpec)
    → NodupKeys r.devices
    → IsReleased r name pvs
    → IsIndexed
        (record r { pvs = pvs; instantiation_specs = specs; devices = Dict.remove r.devices name })
removed-IsIndexed r name pvs specs n v = record {
  device_keys = remove-NodupKeys r.devices name n;
  pv_keys = v.pv_keys;
  owners = λ q d.
      rw (claims-remove r.devices name d q)
        (λ e. ground (arith, e, v.owners q d, eq_iff name d, eq_iff d name));
  covers = λ d q.
      rw (claims-remove r.devices name d q)
        (λ c. ground (arith, c, v.covers d q, eq_iff name d, eq_iff d name));
  standalone = v.standalone;
  unowned = v.unowned;
}

claims-contains :
    (devices : Dict DeviceMetadata) (d q : String)
    → claims devices d q ≡ true
    → Dict.contains devices d ≡ true
unfolding claims
claims-contains devices d q h = ground arith

-- A name that is not registered owns nothing in the index.
fresh-IsReleased :
    (r : DeviceRegistry) (name : String)
    → IsIndexed r
    → Dict.contains r.devices name ≡ false
    → IsReleased r name r.pvs
fresh-IsReleased r name v h = record {
  pv_keys = v.pv_keys;
  owners = λ q d e. ground (arith, v.owners q d, absent name d q);
  covers = λ d q n. v.covers d q;
  standalone = v.standalone;
  unowned = v.unowned;
}
  where
    absent :
        (k d q : String)
        → claims r.devices d q ≡ true
        → Dict.contains r.devices k ≡ false
        → d == k ≡ false
    absent k d q c a = ground (arith, eq_iff d k, claims-contains r.devices d q)

-- Adding a device under a new name keeps the index in step with the devices.
pub add_device-IsIndexed :
    (r : DeviceRegistry) (d : DeviceMetadata) (spec : Option DeviceInstantiationSpec)
    → IsIndexed r
    → Dict.contains r.devices d.name ≡ false
    → IsIndexed (add_device r d spec)
add_device-IsIndexed r d spec v h =
    claim-IsIndexed r r.pvs d spec v.device_keys (fresh-IsReleased r d.name v h)

-- Updating a device, or asking to update one that is not registered, keeps the index in step.
pub update_device-IsIndexed :
    (r : DeviceRegistry) (d : DeviceMetadata) (spec : Option DeviceInstantiationSpec)
    → IsIndexed r
    → IsIndexed (update_device r d spec).0
unfolding update_device release_pv_ownership
update_device-IsIndexed r d spec v = elim (Bool-cases (Dict.contains r.devices d.name)) [
  | inl e ↦ rw e (
      claim-IsIndexed r (release_pv_ownership r d.name).pvs d spec v.device_keys
        (release-IsReleased r d.name v))
  | inr e ↦ rw e v
]

-- Removing a device, registered or not, keeps the index in step with the devices that remain.
pub remove_device-IsIndexed :
    (r : DeviceRegistry) (name : String) → IsIndexed r → IsIndexed (remove_device r name).0
unfolding remove_device release_pv_ownership
remove_device-IsIndexed r name v = elim (Bool-cases (Dict.contains r.devices name)) [
  | inl e ↦ rw e (
      removed-IsIndexed r name (release_pv_ownership r name).pvs _ v.device_keys
        (release-IsReleased r name v))
  | inr e ↦ rw e v
]

-- Registering a PV as standalone keeps the index in step.
pub add_standalone_pv-IsIndexed :
    (r : DeviceRegistry) (p : String) → IsIndexed r → IsIndexed (add_standalone_pv r p)
unfolding add_standalone_pv
add_standalone_pv-IsIndexed r p v = elim (Bool-cases (Dict.contains r.pvs p)) [
  | inl e ↦ rw e (record {
    device_keys = v.device_keys;
    pv_keys = v.pv_keys;
    owners = v.owners;
    covers = v.covers;
    standalone = λ q h. ground (arith, h, e, eq_iff p q, is_some-owner_in r.pvs q, v.standalone q);
    unowned = λ q h. ground (arith, h, v.unowned q);
  })
  | inr e ↦ rw e (record {
    device_keys = v.device_keys;
    pv_keys = insert-NodupKeys r.pvs p _ v.pv_keys;
    owners = λ q d. rw owner_in-insert (λ h. ground (arith, h, v.owners q d));
    covers = λ d q.
        rw owner_in-insert
          (λ h. ground (arith, h, e, eq_iff p q, is_some-owner_in r.pvs q, v.covers d q));
    standalone = λ q. rw owner_in-insert (λ h. ground (arith, h, v.standalone q));
    unowned = λ q. rw owner_in-insert (λ h. ground (arith, h, v.unowned q));
  })
]

member-discard :
    (p : String) (xs : List String) (q : String)
    → member q (discard p xs) ≡ (if p == q then false else member q xs)
unfolding discard
member-discard p [] q = ground arith
member-discard p (x ∷ xs) q =
    ground (arith, eq_iff x p, eq_iff p q, eq_iff x q, member-discard p xs q)

-- Unmarking a PV that the index gives to a device, or that it does not hold.
unmarked-IsIndexed :
    (r : DeviceRegistry) (p : String)
    → IsIndexed r
    → owner_in r.pvs p ≢ some none
    → IsIndexed (record r { standalone_pv_names = discard p r.standalone_pv_names })
unmarked-IsIndexed r p v n = record {
  device_keys = v.device_keys;
  pv_keys = v.pv_keys;
  owners = v.owners;
  covers = v.covers;
  standalone = λ q. rw member-discard (λ h. ground (arith, h, v.standalone q));
  unowned = λ q h.
      ground (arith, h, n, eq_iff p q, member-discard p r.standalone_pv_names q, v.unowned q);
}

dropped-IsIndexed :
    (r : DeviceRegistry) (p : String)
    → IsIndexed r
    → owner_in r.pvs p ≡ some none
    → IsIndexed (record r {
      pvs = Dict.remove r.pvs p;
      standalone_pv_names = discard p r.standalone_pv_names;
    })
dropped-IsIndexed r p v n = record {
  device_keys = v.device_keys;
  pv_keys = remove-NodupKeys r.pvs p v.pv_keys;
  owners = λ q d. rw owner_in-remove (λ h. ground (arith, h, v.owners q d));
  covers = λ d q. rw owner_in-remove (λ h. ground (arith, h, n, eq_iff p q, v.covers d q));
  standalone = λ q. rw (owner_in-remove, member-discard) (λ h. ground (arith, h, v.standalone q));
  unowned = λ q. rw (owner_in-remove, member-discard) (λ h. ground (arith, h, v.unowned q));
}

-- Unregistering a standalone PV keeps the index in step.
pub remove_standalone_pv-IsIndexed :
    (r : DeviceRegistry) (p : String) → IsIndexed r → IsIndexed (remove_standalone_pv r p)
unfolding remove_standalone_pv
remove_standalone_pv-IsIndexed r p v = elim (Option-cases (Dict.get r.pvs p)) [
  | inl e ↦
      rw (e, remove_standalone_pv)
        (unmarked-IsIndexed r p v (λ h. unfold owner_in in ground (arith, h, e)))
  | inr (m, e) ↦ elim (Option-cases m.device_name) [
    | inl f ↦
        rw (e, remove_standalone_pv, f)
          (dropped-IsIndexed r p v (unfold owner_in in ground (arith, f, e)))
    | inr (d, f) ↦
        rw (e, remove_standalone_pv, f)
          (unmarked-IsIndexed r p v (λ h. unfold owner_in in ground (arith, h, f, e)))
  ]
]

-- The specification that a device is added with replaces the old one, none leaves it.
pub specs-add_device :
    (r : DeviceRegistry) (d : DeviceMetadata) (spec : Option DeviceInstantiationSpec) (k : String)
    → Dict.get (add_device r d spec).instantiation_specs k
      ≡ (if d.name == k && is_some spec then spec else Dict.get r.instantiation_specs k)
unfolding add_device
specs-add_device r d none k = ground arith
specs-add_device r d (some spec) k = ground (arith, get-insert r.instantiation_specs d.name spec k)
