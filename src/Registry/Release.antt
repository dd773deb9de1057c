-- ===== src/Registry/Release.antt =====
-- `_release_pv_ownership` (configuration_service/models.py): what it leaves in the index.
use ophyd_service.Prelude.{
  String, ◌≡◌, refl, true, false, Option, none, some, arith, ◌==◌, is_some, member,
}
use ophyd_service.Dict.{Dict, NodupKeys}
use ophyd_service.Registry.{PvMetadata, DeviceRegistry, owned, find_owner, release_pv_ownership}
use ophyd_service.Registry.Owners.{owner_in, claims, heir_of, owner_in-release}
use ophyd_service.Registry.Index.{
  IsIndexed, has_device, rehome_all-NodupKeys, find_owner-claims, find_owner-none,
}

-- The index once `name` has given up its PVs: no entry names it any more, and every PV that
-- another device lists, or that is standalone, is still there.
pub record IsReleased (r : DeviceRegistry) (name : String) (pvs : Dict PvMetadata) : Type 0 where
  pub pv_keys : NodupKeys pvs
  pub owners :
      (q d : String)
      → owner_in pvs q ≡ some (some d)
      → (d == name ≡ false) × (claims r.devices d q ≡ true)
  pub covers :
      (d q : String)
      → d == name ≡ false
      → claims r.devices d q ≡ true
      → has_device (owner_in pvs q) ≡ true
  pub standalone :
      (q : String) → member q r.standalone_pv_names ≡ true → is_some (owner_in pvs q) ≡ true
  pub unowned : (q : String) → owner_in pvs q ≡ some none → member q r.standalone_pv_names ≡ true

heir-owners :
    (r : DeviceRegistry) (name q d : String) (f : Option (String × String))
    → NodupKeys r.devices
    → find_owner name q r.devices ≡ f
    → heir_of r q f ≡ some (some d)
    → (d == name ≡ false) × (claims r.devices d q ≡ true)
heir-owners r name q d none n e h = absurd (ground arith)
heir-owners r name q d (some (o, c)) n e h =
    ground (arith, find_owner-claims name q r.devices o c n)

heir-covers :
    (r : DeviceRegistry) (name q d : String) (f : Option (String × String))
    → find_owner name q r.devices ≡ f
    → d == name ≡ false
    → claims r.devices d q ≡ true
    → has_device (heir_of r q f) ≡ true
heir-covers r name q d none e n h = ground (arith, find_owner-none name q r.devices d)
heir-covers r name q d (some (o, c)) e n h = refl

release-NodupKeys :
    (r : DeviceRegistry) (name : String)
    → NodupKeys r.pvs
    → NodupKeys (release_pv_ownership r name).pvs
unfolding release_pv_ownership
release-NodupKeys r name n = rehome_all-NodupKeys r name r.pvs (owned name r.pvs) n

pub release-IsReleased :
    (r : DeviceRegistry) (name : String)
    → IsIndexed r
    → IsReleased r name (release_pv_ownership r name).pvs
release-IsReleased r name v = record {
  pv_keys = release-NodupKeys r name v.pv_keys;
  owners = λ q d. rw (owner_in-release r name q v.pv_keys) (λ e. ground (
    arith,
    e,
    v.owners q d,
    heir-owners r name q d (find_owner name q r.devices) v.device_keys refl,
  ));
  covers = λ d q. rw (owner_in-release r name q v.pv_keys) (λ n c.
      ground (arith, v.covers d q, heir-covers r name q d (find_owner name q r.devices) refl));
  standalone = λ q. rw (owner_in-release r name q v.pv_keys) (λ h. ground (arith, v.standalone q));
  unowned = λ q. rw (owner_in-release r name q v.pv_keys) (λ h. ground (arith, v.unowned q));
}
