-- ===== src/Registry/Tests.antt =====
-- Witnesses and tests for the registry.
use ophyd_service.Prelude.{
  member, ◌≡◌, refl, true, false, none, some, [], ◌∷◌, arith, if◌then◌else◌,
}
use ophyd_service.Dict
use ophyd_service.Registry.{
  DeviceMetadata, DeviceRegistry, empty, index_pvs, index_pv, owned, find_owner, component_of,
  place, rehome, rehome_all, release_pv_ownership, add_device, update_device,
}
use ophyd_service.Registry.Owners.{owner_in, owned_by, lists, claims, others_listing, first_of}
use ophyd_service.Registry.Index.{IsIndexed}
use ophyd_service.Registry.History.{
  create, delete, mark, apply, apply_all, apply_all-IsIndexed, owner_in-update_device,
  add_device_stale,
}

abbrev motor : DeviceMetadata
motor = record {
  name = "m1";
  device_label = "motor";
  ophyd_class = "EpicsMotor";
  is_movable = true;
  is_flyable = false;
  is_readable = true;
  pvs = ("rbv", "X.RBV") ∷ ("val", "X") ∷ [];
  labels = [];
}

-- Shares the PV "X" with `motor`.
abbrev stage : DeviceMetadata
stage = record motor { name = "stage"; pvs = ("x", "X") ∷ [] }

abbrev slim : DeviceMetadata
slim = record motor { pvs = ("rbv", "X.RBV") ∷ [] }

empty-IsIndexed : IsIndexed empty
unfolding owner_in claims Dict.get
empty-IsIndexed = record {
  device_keys = tt;
  pv_keys = tt;
  owners = λ q d h. ground arith;
  covers = λ d q h. ground arith;
  standalone = λ q h. ground arith;
  unowned = λ q h. ground arith;
}

abbrev both : DeviceRegistry
both = apply_all empty (create stage none ∷ create motor none ∷ [])

apply_all-IsIndexed_example :
    IsIndexed (apply_all empty (create stage none ∷ mark "X" ∷ delete "stage" ∷ []))
apply_all-IsIndexed_example =
    apply_all-IsIndexed empty (create stage none ∷ mark "X" ∷ delete "stage" ∷ []) empty-IsIndexed

-- The motor drops "X", which goes back to the stage.
update_device_rehomes : owner_in (update_device both slim none).0.pvs "X" ≡ some (some "stage")
unfolding apply_all apply update_device add_device release_pv_ownership owned rehome_all rehome
    place find_owner component_of index_pvs index_pv owner_in Dict.get Dict.insert Dict.remove
update_device_rehomes = refl

both_has_motor : Dict.contains both.devices "m1" ≡ true
unfolding apply_all apply add_device Dict.get Dict.insert
both_has_motor = refl

motor_owns_x : owner_in both.pvs "X" ≡ some (some "m1")
unfolding apply_all apply add_device index_pvs index_pv owner_in Dict.get Dict.insert
motor_owns_x = refl

slim_drops_x : lists slim.pvs "X" ≡ false
unfolding lists
slim_drops_x = refl

owner_in-update_device_example : owner_in (update_device both slim none).0.pvs "X" ≡ (
    if lists slim.pvs "X"
    then some (some "m1")
    else if owned_by "m1" (owner_in both.pvs "X")
    then first_of (others_listing "m1" "X" both.devices) (member "X" both.standalone_pv_names)
    else owner_in both.pvs "X")
owner_in-update_device_example =
    owner_in-update_device both slim none "X"
      (apply_all-IsIndexed empty (create stage none ∷ create motor none ∷ [])
        empty-IsIndexed).pv_keys
      both_has_motor

add_device_stale_example : ¬ IsIndexed (add_device both slim none)
add_device_stale_example = add_device_stale both slim none "X" motor_owns_x slim_drops_x
