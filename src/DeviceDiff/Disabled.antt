-- ===== src/DeviceDiff/Disabled.antt =====
-- What `apply_diff` (queueserver_service/manager/config_service.py) does with a device that is disabled
-- in the registry.
use ophyd_service.Prelude.{
  String, ◌≡◌, refl, ◌∙◌, Bool, true, false, ◌&&◌, not, Option, none, some, List, ◌++◌, member,
  arith,
}
use ophyd_service.Dict
use ophyd_service.Dict.{Dict, get-insert, get-remove}
use ophyd_service.Queue.Json.{Item, Value}
use ophyd_service.Locks.Acquire.Exclusion.{member-sorted_set}
use ophyd_service.DeviceDiff.Service.{RegistryView, Validation, Transfers}
use ophyd_service.DeviceDiff.{
  DevicePayload, DeviceDiff, names_where, is_disabled, compute_diff, modified_names, select_writes,
  write_payload, gather_with_failures, apply_writes, apply_diff,
}
use ophyd_service.DeviceDiff.Effect.{member-names_where, member-append}
use ophyd_service.DeviceDiff.Compared.{added-member, removed-member, modified-member}
use ophyd_service.DeviceDiff.Payload.{LiveDevice, build_config_service_payload, build-AreNamed}
use ophyd_service.DeviceDiff.Untouched.{
  AreNamed, Agree, write_payload-Agree, gather-Agree, delete_pass-Agree,
}

-- Neither list of a selection names `k`.
abbrev avoids : String → Option (List String × List String) → Bool
avoids k none = true
avoids k (some (upserts, deletes)) = not (member k upserts) && not (member k deletes)

select_writes-avoids :
    (diff : DeviceDiff) (strategy : String) (selected : Option (List String)) (k : String)
    → member k diff.added ≡ false
    → member k (modified_names diff.modified) ≡ false
    → member k diff.removed ≡ false
    → avoids k (select_writes diff strategy selected) ≡ true
unfolding select_writes
select_writes-avoids diff strategy none k a m r = ground (
  arith,
  member-sorted_set (diff.added ++ modified_names diff.modified) k,
  member-append k diff.added (modified_names diff.modified),
)
select_writes-avoids diff strategy (some chosen) k a m r =
    let p = λ (name : String). member name chosen in
    ground (
      arith,
      member-sorted_set (diff.added ++ modified_names diff.modified) k,
      member-append k diff.added (modified_names diff.modified),
      member-sorted_set (names_where p (diff.added ++ modified_names diff.modified)) k,
      member-names_where p k (diff.added ++ modified_names diff.modified),
      member-sorted_set (names_where p diff.removed) k,
      member-names_where p k diff.removed,
    )

apply_writes-Agree :
    (v : Validation) (network : Transfers) (device_data : Dict DevicePayload)
    (registry : RegistryView) (k : String) (writes : Option (List String × List String))
    → AreNamed device_data
    → avoids k writes ≡ true
    → Agree k (apply_writes v network device_data registry writes).0 registry
unfolding apply_writes
apply_writes-Agree v network device_data registry k none named h = refl
apply_writes-Agree v network device_data registry k (some (upserts, deletes)) named h =
    let upserted = gather_with_failures (write_payload v network device_data) upserts registry in
    ground (
      arith,
      delete_pass-Agree v network deletes k upserted (ground arith),
      gather-Agree (write_payload v network device_data) k
          (write_payload-Agree v network device_data k named) upserts registry (ground arith),
    )

-- `apply_diff` with the difference between the worker and the registry leaves the specification of a
-- device that the registry has disabled as it was. This holds for all devices in the namespace of the
-- worker, for every strategy and selection, also for "selected" with the device selected, and for any
-- validation and any lost messages.
pub apply_diff-disabled :
    (same : Item → Item → Bool) (equal : Value → Value → Bool) (v : Validation)
    (network : Transfers) (devices : Dict (Option LiveDevice)) (registry : RegistryView)
    (strategy : String) (selected : Option (List String)) (k : String)
    → is_disabled registry.specs k ≡ true
    → Dict.get
        (apply_diff v network
          (compute_diff same equal (build_config_service_payload devices) registry.specs)
          (build_config_service_payload devices)
          strategy
          selected
          registry).0.specs
        k
      ≡ Dict.get registry.specs k
unfolding apply_diff is_disabled
apply_diff-disabled same equal v network devices registry strategy selected k off =
    let device_data = build_config_service_payload devices in
    let diff = compute_diff same equal device_data registry.specs in
    apply_writes-Agree v network device_data registry k (select_writes diff strategy selected)
      (build-AreNamed devices)
      (select_writes-avoids diff strategy selected k
        (added-member same equal device_data registry.specs k ∙ ground arith)
        (modified-member same equal device_data registry.specs k ∙ ground arith)
        (removed-member same equal device_data registry.specs k ∙ ground arith))
