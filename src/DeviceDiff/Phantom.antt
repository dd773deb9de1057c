-- ===== src/DeviceDiff/Phantom.antt =====
-- Why the comparison of the worker with the registry does not become empty: `apply_diff` and
-- `compute_diff` of queueserver_service/manager/config_service.py, over the routes of
-- configuration_service/main.py. The specification that a worker sends has no field "framework"
-- (queueserver_service/manager/device_introspection.py); the one that the service gives back has.
use ophyd_service.Prelude.{
  String, ◌≡◌, refl, ◌∙◌, sym, Bool, true, false, ◌&&◌, not, Option, none, some, List, [], ◌∷◌,
  ◌==◌, member, arith, Bool-cases, Option-cases, inl, inr, eq_iff,
}
use ophyd_service.Dict
use ophyd_service.Dict.{Dict, get-insert, get-remove}
use ophyd_service.Queue.Json.{Item, Value, bool}
use ophyd_service.Locks.Acquire.Exclusion.{member-sorted_set}
use ophyd_service.DeviceDiff.Service.{RegistryView, Validation, Transfers, upsert_device}
use ophyd_service.DeviceDiff.{
  DevicePayload, DeviceDiff, is_disabled, payload_spec, compute_diff, modified_names, names_where,
  select_writes, write_payload, gather_with_failures, finish, delete_pass, apply_writes, apply_diff,
}
use ophyd_service.DeviceDiff.Effect.{member-names_where}
use ophyd_service.DeviceDiff.Compared.{is_active, differs, removed-member, modified-member}
use ophyd_service.DeviceDiff.Payload.{
  LiveDevice, device_to_metadata_dict, device_to_instantiation_spec, build_config_service_payload,
  build-AreNamed, build-get,
}
use ophyd_service.DeviceDiff.Untouched.{AreNamed, Agree, write_payload-Agree, delete_pass-Agree}
use ophyd_service.DeviceDiff.Written.{shown, FillsDefaults, reported, Writes, upsert_named-Writes}

write_payload-Writes :
    (v : Validation) (network : Transfers) (device_data : Dict DevicePayload) (k : String)
    (metadata : Option Item) (sent : Item)
    → FillsDefaults v
    → Dict.get sent "active" ≡ some (bool true)
    → AreNamed device_data
    → Dict.get device_data k ≡ some (record { metadata = metadata; spec = some sent })
    → (registry : RegistryView) → Writes k registry (write_payload v network device_data k registry)
unfolding write_payload upsert_device AreNamed
write_payload-Writes v network device_data k none sent fills active named e registry =
    (λ h. ground arith, λ h. ground arith)
write_payload-Writes v network device_data k (some metadata) sent fills active named e registry =
    let name = named k (record { metadata = some metadata; spec = some sent }) metadata e refl in
    let written = upsert_named-Writes v fills k sent active network metadata registry in
    (λ h. ground (arith, name, written.0 h), λ h. ground (arith, name, written.1))

-- A list of writes of which each one about `k` leaves it shown or as it was.
module _ (write : String → RegistryView → RegistryView × Bool) (k : String)
    (others_agree : (name : String) (registry : RegistryView)
      → (name == k) ≡ false
      → Agree k (write name registry).0 registry)
    (stays : (registry : RegistryView)
      → shown (Dict.get registry.specs k) ≡ true
      → shown (Dict.get (write k registry).0.specs k) ≡ true)
    (arrives : (registry : RegistryView)
      → (write k registry).1 ≡ true
      → shown (Dict.get (write k registry).0.specs k) ≡ true) where
  gather-stays :
      (names : List String) (registry : RegistryView)
      → shown (Dict.get registry.specs k) ≡ true
      → shown (Dict.get (gather_with_failures write names registry).0.specs k) ≡ true
  unfolding gather_with_failures
  gather-stays [] registry h = h
  gather-stays (name ∷ names) registry h = elim (Bool-cases (name == k)) [
    | inl same ↦
        let e : name ≡ k = (eq_iff name k).0 same in
        gather-stays names (write name registry).0 (rw e (stays registry h))
    | inr other ↦
        gather-stays names (write name registry).0
          (ground (arith, others_agree name registry other))
  ]

  gather-arrives :
      (names : List String) (registry : RegistryView)
      → member k (gather_with_failures write names registry).1 ≡ true
      → shown (Dict.get (gather_with_failures write names registry).0.specs k) ≡ true
  unfolding gather_with_failures
  gather-arrives [] registry h = absurd (ground arith)
  gather-arrives (name ∷ names) registry h = elim (Bool-cases (name == k)) [
    | inl same ↦
        let e : name ≡ k = (eq_iff name k).0 same in
        elim (Bool-cases (write name registry).1) [
          | inl done ↦
              gather-stays names (write name registry).0 (rw e (arrives registry (rw (sym e) done)))
          | inr failed ↦ gather-arrives names (write name registry).0 (ground arith)
        ]
    | inr other ↦ gather-arrives names (write name registry).0 (ground arith)
  ]

finish-reported :
    (upserted : List String) (r : RegistryView × List String × List String) (k : String)
    → member k (reported (finish upserted r).1) ≡ true
    → member k upserted ≡ true
unfolding finish
finish-reported upserted (registry, deleted, []) k h = sym (member-sorted_set upserted k) ∙ h
finish-reported upserted (registry, deleted, f ∷ fs) k h = absurd (ground arith)

delete_pass-reported :
    (v : Validation) (network : Transfers) (names : List String)
    (r : RegistryView × List String × List String) (k : String)
    → member k (reported (delete_pass v network names r).1) ≡ true
    → member k r.1 ≡ true
unfolding delete_pass
delete_pass-reported v network names (registry, upserted, failures) k h =
    finish-reported upserted _ k h

-- The deletions of a selection do not name `k`.
abbrev spares : String → Option (List String × List String) → Bool
spares k none = true
spares k (some (upserts, deletes)) = not (member k deletes)

select_writes-spares :
    (diff : DeviceDiff) (strategy : String) (selected : Option (List String)) (k : String)
    → member k diff.removed ≡ false
    → spares k (select_writes diff strategy selected) ≡ true
unfolding select_writes
select_writes-spares diff strategy none k r = ground arith
select_writes-spares diff strategy (some chosen) k r =
    let p = λ (name : String). member name chosen in
    ground
      (arith, member-sorted_set (names_where p diff.removed) k, member-names_where p k diff.removed)

apply_writes-shown :
    (v : Validation) (network : Transfers) (device_data : Dict DevicePayload) (k : String)
    (metadata : Option Item) (sent : Item)
    → FillsDefaults v
    → Dict.get sent "active" ≡ some (bool true)
    → AreNamed device_data
    → Dict.get device_data k ≡ some (record { metadata = metadata; spec = some sent })
    → (registry : RegistryView) (writes : Option (List String × List String))
    → spares k writes ≡ true
    → member k (reported (apply_writes v network device_data registry writes).1) ≡ true
    → shown (Dict.get (apply_writes v network device_data registry writes).0.specs k) ≡ true
unfolding apply_writes
apply_writes-shown v network device_data k metadata sent fills active named e registry none s h =
    absurd (ground arith)
apply_writes-shown v network device_data k metadata sent fills active named e registry
      (some (upserts, deletes)) s h =
    let write = write_payload v network device_data in
    let writes = write_payload-Writes v network device_data k metadata sent fills active named e in
    let upserted = gather_with_failures write upserts registry in
    let written = λ (listed : member k upserted.1 ≡ true).
      gather-arrives write k (write_payload-Agree v network device_data k named) (λ r. (writes r).0)
        (λ r. (writes r).1) upserts registry listed in
    ground (
      arith,
      written,
      delete_pass-reported v network deletes upserted k,
      delete_pass-Agree v network deletes k upserted (ground arith),
    )

-- A specification that is shown differs from the worker's.
shown-modified :
    (same : Item → Item → Bool) (equal : Value → Value → Bool) (device_data : Dict DevicePayload)
    (specs : Dict Item) (k : String) (metadata : Option Item) (sent : Item)
    → ((a b : Item) (key : String) → same a b ≡ true → Dict.contains a key ≡ Dict.contains b key)
    → Dict.get device_data k ≡ some (record { metadata = metadata; spec = some sent })
    → Dict.contains sent "framework" ≡ false
    → shown (Dict.get specs k) ≡ true
    → (Dict.contains device_data k && is_active specs k)
        && differs same (payload_spec device_data k) (Dict.get specs k)
      ≡ true
unfolding is_disabled payload_spec
shown-modified same equal device_data specs k metadata sent same_keys e no_framework h =
    elim (Option-cases (Dict.get specs k)) [
      | inl absent ↦ absurd (ground arith)
      | inr (spec, e') ↦ elim (Bool-cases (same spec sent)) [
        | inl equal_specs ↦ absurd (ground (arith, same_keys spec sent "framework" equal_specs))
        | inr different ↦ ground arith
      ]
    ]

-- The device with the payload `metadata` and `sent` is found modified after it was written.
written-modified :
    (same : Item → Item → Bool) (equal : Value → Value → Bool) (v : Validation)
    (network : Transfers) (device_data : Dict DevicePayload) (registry : RegistryView)
    (strategy : String) (selected : Option (List String)) (k : String) (metadata : Option Item)
    (sent : Item)
    → ((a b : Item) (key : String) → same a b ≡ true → Dict.contains a key ≡ Dict.contains b key)
    → FillsDefaults v
    → AreNamed device_data
    → Dict.get device_data k ≡ some (record { metadata = metadata; spec = some sent })
    → Dict.get sent "active" ≡ some (bool true)
    → Dict.contains sent "framework" ≡ false
    → member k (
        reported
          (apply_diff v network
            (compute_diff same equal device_data registry.specs)
            device_data
            strategy
            selected
            registry).1)
      ≡ true
    → member k (
        modified_names
          (compute_diff same equal device_data
            (apply_diff v network
              (compute_diff same equal device_data registry.specs)
              device_data
              strategy
              selected
              registry).0.specs).modified)
      ≡ true
unfolding apply_diff
written-modified same equal v network device_data registry strategy selected k metadata sent
      same_keys fills named e active no_framework h =
    let diff = compute_diff same equal device_data registry.specs in
    let written =
      apply_writes-shown v network device_data k metadata sent fills active named e registry
        (select_writes diff strategy selected)
        (select_writes-spares diff strategy selected k
          (removed-member same equal device_data registry.specs k ∙ ground arith))
        h in
    modified-member same equal device_data _ k
    ∙ shown-modified same equal device_data _ k metadata sent same_keys e no_framework written

-- A comparison whose equality of specifications tells two dictionaries with different keys apart finds
-- a device of the worker modified again that `apply_diff` has just reported as written, if the
-- validation of the service fills the defaults in. The devices in the namespace of the worker, the
-- strategy, the selection, the lost messages and the registry before are arbitrary.
pub apply_diff-phantom :
    (same : Item → Item → Bool) (equal : Value → Value → Bool) (v : Validation)
    (network : Transfers) (devices : Dict (Option LiveDevice)) (registry : RegistryView)
    (strategy : String) (selected : Option (List String)) (k : String) (device : LiveDevice)
    → ((a b : Item) (key : String) → same a b ≡ true → Dict.contains a key ≡ Dict.contains b key)
    → FillsDefaults v
    → Dict.get devices k ≡ some (some device)
    → member k (
        reported
          (apply_diff v network
            (compute_diff same equal (build_config_service_payload devices) registry.specs)
            (build_config_service_payload devices)
            strategy
            selected
            registry).1)
      ≡ true
    → member k (
        modified_names
          (compute_diff same equal
            (build_config_service_payload devices)
            (apply_diff v network
              (compute_diff same equal (build_config_service_payload devices) registry.specs)
              (build_config_service_payload devices)
              strategy
              selected
              registry).0.specs).modified)
      ≡ true
unfolding device_to_instantiation_spec Dict.get
apply_diff-phantom same equal v network devices registry strategy selected k device same_keys fills
      e h =
    written-modified same equal v network (build_config_service_payload devices) registry strategy
      selected k (some (device_to_metadata_dict k device)) (device_to_instantiation_spec k device)
      same_keys fills (build-AreNamed devices) (build-get devices k device e) refl refl h
