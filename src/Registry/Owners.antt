-- ===== src/Registry/Owners.antt =====
-- Who owns a PV in the index: the loops of `DeviceRegistry` (configuration_service/models.py), each
-- against a description of the index entry that it leaves.
use ophyd_service.Prelude.{
  String, ◌≡◌, refl, Bool, true, false, not, ◌||◌, ◌&&◌, Option, none, some, List, [], ◌∷◌, arith,
  ◌==◌, eq_iff, if◌then◌else◌, is_some, member, inl, inr, Bool-cases, Option-cases,
}
use ophyd_service.Dict
use ophyd_service.Dict.{Dict, NodupKeys, get-insert, get-remove}
use ophyd_service.Registry.{
  DeviceMetadata, PvMetadata, DeviceRegistry, index_pv, index_pvs, owned, component_of, find_owner,
  place, rehome, rehome_all, release_pv_ownership,
}

-- The owner that the index gives a PV: `none` for a PV that is not indexed, `some none` for one
-- that no device owns.
unfoldable pub owner_in : Dict PvMetadata → String → Option (Option String)
owner_in pvs pv_name = elim (Dict.get pvs pv_name) [ none ↦ none | some m ↦ some m.device_name ]

abbrev pub owned_by : String → Option (Option String) → Bool
owned_by name (some (some owner)) = owner == name
owned_by name _ = false

-- The device lists the PV among its components.
unfoldable pub lists : Dict String → String → Bool
lists [] pv_name = false
lists ((c, other_pv) ∷ rest) pv_name = other_pv == pv_name || lists rest pv_name

-- A registered device of that name lists the PV.
unfoldable pub claims : Dict DeviceMetadata → String → String → Bool
claims devices name pv_name = elim (Dict.get devices name) [
  | none ↦ false
  | some d ↦ lists d.pvs pv_name
]

pub is_some-owner_in :
    (pvs : Dict PvMetadata) (q : String) → is_some (owner_in pvs q) ≡ Dict.contains pvs q
unfolding owner_in
is_some-owner_in pvs q = ground arith

pub owner_in-insert :
    (pvs : Dict PvMetadata) (p : String) (m : PvMetadata) (q : String)
    → owner_in (Dict.insert pvs p m) q ≡ (if p == q then some m.device_name else owner_in pvs q)
unfolding owner_in
owner_in-insert pvs p m q = ground (arith, get-insert pvs p m q)

pub owner_in-remove :
    (pvs : Dict PvMetadata) (p q : String)
    → owner_in (Dict.remove pvs p) q ≡ (if p == q then none else owner_in pvs q)
unfolding owner_in
owner_in-remove pvs p q = ground (arith, get-remove pvs p q)

ruleset owner_laws = (owner_in-insert, owner_in-remove)

pub owner_in-index_pv :
    (name : String) (pvs : Dict PvMetadata) (c p q : String)
    → owner_in (index_pv name pvs c p) q ≡ (if p == q then some (some name) else owner_in pvs q)
unfolding index_pv
owner_in-index_pv name pvs c p q = elim (Option-cases (Dict.get pvs p)) [
  | inl e ↦ rw (e, index_pv) (simp owner_laws)
  | inr (m, e) ↦ rw (e, index_pv) (simp owner_laws)
]

pub owner_in-index_pvs :
    (name : String) (pvs : Dict PvMetadata) (items : Dict String) (q : String)
    → owner_in (index_pvs name pvs items) q
      ≡ (if lists items q then some (some name) else owner_in pvs q)
unfolding index_pvs lists
owner_in-index_pvs name pvs [] q = refl
owner_in-index_pvs name pvs ((c, p) ∷ items) q = ground (
  arith,
  owner_in-index_pvs name (index_pv name pvs c p) items q,
  owner_in-index_pv name pvs c p q,
)

pub is_some-component_of :
    (q : String) (items : Dict String) → is_some (component_of q items) ≡ lists items q
unfolding component_of lists
is_some-component_of q [] = refl
is_some-component_of q ((c, p) ∷ items) = ground (arith, is_some-component_of q items)

-- The devices other than `name` that list the PV, in the order of the registry.
abbrev pub others_listing : String → String → Dict DeviceMetadata → List String
others_listing name pv_name [] = []
others_listing name pv_name ((other_name, d) ∷ devices) =
    let rest = others_listing name pv_name devices in
    if not (other_name == name) && lists d.pvs pv_name then other_name ∷ rest else rest

-- To whom a PV goes that `name` no longer owns: to the first of the others, and without any it is
-- standalone or gone.
abbrev pub first_of : List String → Bool → Option (Option String)
first_of (other_name ∷ others) standalone = some (some other_name)
first_of [] true = some none
first_of [] false = none

-- What `_release_pv_ownership` leaves for a PV that `name` owned.
abbrev pub heir_of : DeviceRegistry → String → Option (String × String) → Option (Option String)
heir_of r pv_name (some (o, c)) = some (some o)
heir_of r pv_name none = if member pv_name r.standalone_pv_names then some none else none

abbrev pub heir : DeviceRegistry → String → String → Option (Option String)
heir r name pv_name = heir_of r pv_name (find_owner name pv_name r.devices)

-- The search of the source finds the first of the others.
pub heir-first_of :
    (r : DeviceRegistry) (name q : String)
    → heir r name q ≡ first_of (others_listing name q r.devices) (member q r.standalone_pv_names)
unfolding find_owner
heir-first_of r name q = found r.devices
  where
    found :
        (devices : Dict DeviceMetadata)
        → heir_of r q (find_owner name q devices)
          ≡ first_of (others_listing name q devices) (member q r.standalone_pv_names)
    found [] = elim (Bool-cases (member q r.standalone_pv_names)) [
      | inl e ↦ rw e refl
      | inr e ↦ rw e refl
    ]
    found ((other_name, d) ∷ devices) = elim (Option-cases (component_of q d.pvs)) [
      | inl e ↦ ground (arith, e, is_some-component_of q d.pvs, found devices)
      | inr (c, e) ↦ ground (arith, e, is_some-component_of q d.pvs, found devices)
    ]

owner_in-place :
    (r : DeviceRegistry) (pvs : Dict PvMetadata) (p : String) (m : PvMetadata)
    (o : Option (String × String)) (q : String)
    → owner_in (place r pvs p m o) q ≡ (if p == q then heir_of r p o else owner_in pvs q)
unfolding place
owner_in-place r pvs p m (some (o, c)) q = simp owner_laws
owner_in-place r pvs p m none q = elim (Bool-cases (member p r.standalone_pv_names)) [
  | inl e ↦ rw e (simp owner_laws)
  | inr e ↦ rw e (simp owner_laws)
]

pub owner_in-rehome :
    (r : DeviceRegistry) (name : String) (pvs : Dict PvMetadata) (p q : String)
    → owner_in (rehome r name pvs p) q
      ≡ (if p == q && is_some (owner_in pvs q) then heir r name q else owner_in pvs q)
unfolding rehome
owner_in-rehome r name pvs p q = elim (Option-cases (Dict.get pvs p)) [
  | inl e ↦ rw (e, rehome) (ground (arith, eq_iff p q, is_some-owner_in pvs q))
  | inr (m, e) ↦
      rw (e, rehome)
        (ground (
          arith,
          eq_iff p q,
          is_some-owner_in pvs q,
          owner_in-place r pvs p m (find_owner name p r.devices) q,
        ))
]

-- Every PV of the list that is indexed gets its heir, and no other entry changes owner.
pub owner_in-rehome_all :
    (r : DeviceRegistry) (name : String) (pvs : Dict PvMetadata) (ps : List String) (q : String)
    → owner_in (rehome_all r name pvs ps) q
      ≡ (if member q ps && is_some (owner_in pvs q) then heir r name q else owner_in pvs q)
unfolding rehome_all
owner_in-rehome_all r name pvs [] q = refl
owner_in-rehome_all r name pvs (p ∷ ps) q =
    ground
      (arith, owner_in-rehome r name pvs p q, owner_in-rehome_all r name (rehome r name pvs p) ps q)

-- `owned` lists exactly the PVs that the index gives to the device.
pub member-owned :
    (name : String) (pvs : Dict PvMetadata) (q : String)
    → NodupKeys pvs
    → member q (owned name pvs) ≡ owned_by name (owner_in pvs q)
unfolding owned owner_in Dict.get
member-owned name [] q n = refl
member-owned name ((p, m) ∷ pvs) q n =
    ground (arith, eq_iff p q, eq_iff q p, member-owned name pvs q n.1)

-- Releasing `name` hands each PV that it owned to its heir, and leaves the owner of all others.
pub owner_in-release :
    (r : DeviceRegistry) (name q : String)
    → NodupKeys r.pvs
    → owner_in (release_pv_ownership r name).pvs q
      ≡ (if owned_by name (owner_in r.pvs q) then heir r name q else owner_in r.pvs q)
unfolding release_pv_ownership
owner_in-release r name q n =
    ground
      (arith, member-owned name r.pvs q n, owner_in-rehome_all r name r.pvs (owned name r.pvs) q)
