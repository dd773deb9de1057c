-- ===== src/Registry/Index.antt =====
-- The index of `DeviceRegistry` (configuration_service/models.py) stays in step with the devices.
use ophyd_service.Prelude.{
  String, ◌≡◌, refl, Bool, true, false, Option, none, some, List, [], ◌∷◌, arith, ◌==◌, eq_iff,
  if◌then◌else◌, is_some, member, inl, inr, Bool-cases, Option-cases,
}
use ophyd_service.Dict
use ophyd_service.Dict.{Dict, NodupKeys, get-insert, get-remove, insert-NodupKeys, remove-NodupKeys}
use ophyd_service.Registry.{
  DeviceMetadata, PvMetadata, DeviceRegistry, index_pv, index_pvs, find_owner, place, rehome,
  rehome_all,
}
use ophyd_service.Registry.Owners.{owner_in, lists, claims, is_some-component_of}

pub claims-insert :
    (devices : Dict DeviceMetadata) (n : String) (dev : DeviceMetadata) (d q : String)
    → claims (Dict.insert devices n dev) d q
      ≡ (if n == d then lists dev.pvs q else claims devices d q)
unfolding claims
claims-insert devices n dev d q = ground (arith, get-insert devices n dev d)

pub claims-remove :
    (devices : Dict DeviceMetadata) (n d q : String)
    → claims (Dict.remove devices n) d q ≡ (if n == d then false else claims devices d q)
unfolding claims
claims-remove devices n d q = ground (arith, get-remove devices n d)

-- The owner that the search finds is another registered device that lists the PV.
pub find_owner-claims :
    (name q : String) (devices : Dict DeviceMetadata) (o c : String)
    → NodupKeys devices
    → find_owner name q devices ≡ some (o, c)
    → (o == name ≡ false) × (claims devices o q ≡ true)
unfolding find_owner claims Dict.get
find_owner-claims name q [] o c n e = absurd (ground arith)
find_owner-claims name q ((k, dev) ∷ devices) o c n e =
    ground
      (arith, eq_iff k o, is_some-component_of q dev.pvs, find_owner-claims name q devices o c n.1)

-- Where it finds none, no other device lists the PV.
pub find_owner-none :
    (name q : String) (devices : Dict DeviceMetadata) (d : String)
    → find_owner name q devices ≡ none
    → d == name ≡ false
    → claims devices d q ≡ false
unfolding find_owner claims Dict.get
find_owner-none name q [] d e h = refl
find_owner-none name q ((k, dev) ∷ devices) d e h =
    ground (arith, eq_iff k d, is_some-component_of q dev.pvs, find_owner-none name q devices d)

abbrev pub has_device : Option (Option String) → Bool
has_device (some (some d)) = true
has_device _ = false

-- The index and the devices agree: an owner is a registered device that lists the PV; a PV that
-- some device lists has an owner; and the PVs without one are the standalone ones.
pub record IsIndexed (r : DeviceRegistry) : Type 0 where
  pub device_keys : NodupKeys r.devices
  pub pv_keys : NodupKeys r.pvs
  pub owners : (q d : String) → owner_in r.pvs q ≡ some (some d) → claims r.devices d q ≡ true
  pub covers : (d q : String) → claims r.devices d q ≡ true → has_device (owner_in r.pvs q) ≡ true
  pub standalone :
      (q : String) → member q r.standalone_pv_names ≡ true → is_some (owner_in r.pvs q) ≡ true
  pub unowned : (q : String) → owner_in r.pvs q ≡ some none → member q r.standalone_pv_names ≡ true

place-NodupKeys :
    (r : DeviceRegistry) (pvs : Dict PvMetadata) (p : String) (m : PvMetadata)
    (o : Option (String × String))
    → NodupKeys pvs
    → NodupKeys (place r pvs p m o)
unfolding place
place-NodupKeys r pvs p m (some (o, c)) n = insert-NodupKeys pvs p _ n
place-NodupKeys r pvs p m none n = elim (Bool-cases (member p r.standalone_pv_names)) [
  | inl e ↦ rw e (insert-NodupKeys pvs p _ n)
  | inr e ↦ rw e (remove-NodupKeys pvs p n)
]

rehome-NodupKeys :
    (r : DeviceRegistry) (name : String) (pvs : Dict PvMetadata) (p : String)
    → NodupKeys pvs
    → NodupKeys (rehome r name pvs p)
unfolding rehome
rehome-NodupKeys r name pvs p n = elim (Option-cases (Dict.get pvs p)) [
  | inl e ↦ rw (e, rehome) n
  | inr (m, e) ↦ rw (e, rehome) (place-NodupKeys r pvs p m _ n)
]

pub rehome_all-NodupKeys :
    (r : DeviceRegistry) (name : String) (pvs : Dict PvMetadata) (ps : List String)
    → NodupKeys pvs
    → NodupKeys (rehome_all r name pvs ps)
unfolding rehome_all
rehome_all-NodupKeys r name pvs [] n = n
rehome_all-NodupKeys r name pvs (p ∷ ps) n =
    rehome_all-NodupKeys r name (rehome r name pvs p) ps (rehome-NodupKeys r name pvs p n)

index_pv-NodupKeys :
    (name : String) (pvs : Dict PvMetadata) (c p : String)
    → NodupKeys pvs
    → NodupKeys (index_pv name pvs c p)
unfolding index_pv
index_pv-NodupKeys name pvs c p n = elim (Option-cases (Dict.get pvs p)) [
  | inl e ↦ rw (e, index_pv) (insert-NodupKeys pvs p _ n)
  | inr (m, e) ↦ rw (e, index_pv) (insert-NodupKeys pvs p _ n)
]

pub index_pvs-NodupKeys :
    (name : String) (pvs : Dict PvMetadata) (items : Dict String)
    → NodupKeys pvs
    → NodupKeys (index_pvs name pvs items)
unfolding index_pvs
index_pvs-NodupKeys name pvs [] n = n
index_pvs-NodupKeys name pvs ((c, p) ∷ items) n =
    index_pvs-NodupKeys name (index_pv name pvs c p) items (index_pv-NodupKeys name pvs c p n)
