-- ===== src/DeviceDiff/Untouched.antt =====
-- What the writes of `apply_diff` (queueserver_service/manager/config_service.py) leave alone: the
-- specification of a device that they do not name.
use ophyd_service.Prelude.{
  String, ◌≡◌, refl, ◌∙◌, Bool, false, Option, none, some, List, [], ◌∷◌, ◌++◌, ◌==◌, member, arith,
  Bool-cases, Option-cases, inl, inr,
}
use ophyd_service.Dict
use ophyd_service.Dict.{Dict, get-insert, get-remove}
use ophyd_service.Queue.Json.{Item}
use ophyd_service.DeviceDiff.Service.{
  text_in, RegistryView, Validation, Reply, accepted, conflict, refused, create_named,
  create_device, put_device, drop_device, Transfer, delivered, request_lost, response_lost, send,
  Transfers, after_post, upsert_named, upsert_device, send_delete,
}
use ophyd_service.DeviceDiff.{
  DevicePayload, write_payload, gather_with_failures, finish, delete_pass,
}

-- The specification of `k` is the same in two registries.
abbrev pub Agree : String → RegistryView → RegistryView → Type 0
Agree k now before = Dict.get now.specs k ≡ Dict.get before.specs k

create_named-Agree :
    (v : Validation) (name : String) (metadata sent spec : Item) (spec_name : Option String)
    (registry : RegistryView) (k : String)
    → (name == k) ≡ false
    → Agree k (create_named v name metadata sent spec spec_name registry).0 registry
unfolding create_named
create_named-Agree v name metadata sent spec none registry k other = refl
create_named-Agree v name metadata sent spec (some spec_name) registry k other =
    ground (arith, get-insert registry.specs name spec k)

create_device-Agree :
    (v : Validation) (name : String) (metadata : Item) (spec : Option Item)
    (registry : RegistryView) (k : String)
    → (name == k) ≡ false
    → Agree k (create_device v name metadata spec registry).0 registry
unfolding create_device
create_device-Agree v name metadata none registry k other = refl
create_device-Agree v name metadata (some sent) registry k other =
    elim (Option-cases (v.created sent)) [
      | inl invalid ↦ ground arith
      | inr (spec, e) ↦
          rw (e, create_device)
            (create_named-Agree v name metadata sent spec (text_in (Dict.get spec "name")) registry
              k other)
    ]

put_device-Agree :
    (v : Validation) (name : String) (metadata : Item) (spec : Option Item)
    (registry : RegistryView) (k : String)
    → (name == k) ≡ false
    → Agree k (put_device v name metadata spec registry).0 registry
unfolding put_device
put_device-Agree v name metadata none registry k other = ground arith
put_device-Agree v name metadata (some sent) registry k other =
    elim (Option-cases (v.merged (Dict.get registry.specs name) sent)) [
      | inl invalid ↦ ground arith
      | inr (spec, e) ↦ ground (arith, get-insert registry.specs name spec k)
    ]

drop_device-Agree :
    (v : Validation) (name : String) (registry : RegistryView) (k : String)
    → (name == k) ≡ false
    → Agree k (drop_device v name registry).0 registry
unfolding drop_device
drop_device-Agree v name registry k other = ground (arith, get-remove registry.specs name k)

send-Agree :
    (attempts : List Transfer) (route : RegistryView → RegistryView × Reply) (k : String)
    → ((registry : RegistryView) → Agree k (route registry).0 registry)
    → (registry : RegistryView) → Agree k (send attempts route registry).0 registry
unfolding send
send-Agree [] route k h registry = refl
send-Agree (delivered ∷ attempts) route k h registry = h registry
send-Agree (request_lost ∷ attempts) route k h registry = send-Agree attempts route k h registry
send-Agree (response_lost ∷ attempts) route k h registry =
    send-Agree attempts route k h (route registry).0 ∙ h registry

after_post-Agree :
    (put_request : RegistryView → RegistryView × Reply) (k : String)
    → ((registry : RegistryView) → Agree k (put_request registry).0 registry)
    → (r : RegistryView × Reply) → Agree k (after_post put_request r).0 r.0
unfolding after_post
after_post-Agree put_request k h (registry, accepted) = refl
after_post-Agree put_request k h (registry, conflict) = h registry
after_post-Agree put_request k h (registry, refused) = refl

upsert_named-Agree :
    (v : Validation) (network : Transfers) (name : String) (metadata : Item) (spec : Option Item)
    (registry : RegistryView) (k : String)
    → (name == k) ≡ false
    → Agree k (upsert_named v network (some name) metadata spec registry).0 registry
unfolding upsert_named
upsert_named-Agree v network name metadata spec registry k other =
    let put_request = send (network.put name) (put_device v name metadata spec) in
    let posted = send (network.post name) (create_device v name metadata spec) registry in
    elim (Bool-cases (name == "")) [
      | inl empty ↦ ground arith
      | inr given ↦
          let put_agrees =
            send-Agree (network.put name) (put_device v name metadata spec) k
              (λ r. put_device-Agree v name metadata spec r k other) in
          let post_agrees =
            send-Agree (network.post name) (create_device v name metadata spec) k
              (λ r. create_device-Agree v name metadata spec r k other) registry in
          ground (arith, after_post-Agree put_request k put_agrees posted, post_agrees)
    ]

send_delete-Agree :
    (v : Validation) (network : Transfers) (name : String) (registry : RegistryView) (k : String)
    → (name == k) ≡ false
    → Agree k (send_delete v network name registry).0 registry
unfolding send_delete
send_delete-Agree v network name registry k other =
    send-Agree (network.delete name) (drop_device v name) k
      (λ r. drop_device-Agree v name r k other) registry

-- The metadata of every payload has the name that the worker reports the payload under.
unfoldable pub AreNamed : Dict DevicePayload → Type 0
AreNamed device_data =
    (name : String) (payload : DevicePayload) (metadata : Item)
    → Dict.get device_data name ≡ some payload
    → payload.metadata ≡ some metadata
    → text_in (Dict.get metadata "name") ≡ some name

pub write_payload-Agree :
    (v : Validation) (network : Transfers) (device_data : Dict DevicePayload) (k : String)
    → AreNamed device_data
    → (name : String) (registry : RegistryView) → (name == k) ≡ false
    → Agree k (write_payload v network device_data name registry).0 registry
unfolding write_payload upsert_device AreNamed
write_payload-Agree v network device_data k named name registry other =
    elim (Option-cases (Dict.get device_data name)) [
      | inl absent ↦ ground arith
      | inr (payload, e) ↦ elim (Option-cases payload.metadata) [
        | inl missing ↦ ground arith
        | inr (metadata, e') ↦ ground (
          arith,
          named name payload metadata e e',
          upsert_named-Agree v network name metadata payload.spec registry k other,
        )
      ]
    ]

pub gather-Agree :
    (write : String → RegistryView → RegistryView × Bool) (k : String)
    → ((name : String) (registry : RegistryView)
        → (name == k) ≡ false
        → Agree k (write name registry).0 registry)
    → (names : List String) (registry : RegistryView) → member k names ≡ false
    → Agree k (gather_with_failures write names registry).0 registry
unfolding gather_with_failures
gather-Agree write k keeps [] registry absent = refl
gather-Agree write k keeps (name ∷ names) registry absent = ground (
  arith,
  keeps name registry (ground arith),
  gather-Agree write k keeps names (write name registry).0 (ground arith),
)

finish-registry :
    (upserted : List String) (r : RegistryView × List String × List String)
    → (finish upserted r).0 ≡ r.0
unfolding finish
finish-registry upserted (registry, deleted, []) = refl
finish-registry upserted (registry, deleted, f ∷ fs) = refl

pub delete_pass-Agree :
    (v : Validation) (network : Transfers) (names : List String) (k : String)
    (r : RegistryView × List String × List String)
    → member k names ≡ false
    → Agree k (delete_pass v network names r).0 r.0
unfolding delete_pass
delete_pass-Agree v network names k (registry, upserted, failures) absent =
    let deleted = gather_with_failures (send_delete v network) names registry in
    ground (
      arith,
      finish-registry upserted (deleted.0, deleted.1, failures ++ deleted.2),
      gather-Agree (send_delete v network) k (λ name r. send_delete-Agree v network name r k) names
          registry absent,
    )
