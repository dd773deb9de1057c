-- ===== src/Coordinator/Plan.antt =====
-- `lock_devices_for_plan` of queueserver_service/manager/config_service_coordinator.py, with the
-- service behind it.
use mathlib.Core.Path.{subst}
use ophyd_service.Prelude.{
  String, ◌≡◌, refl, ap, ◌∙◌, sym, true, false, ◌||◌, not, some, List, [], ◌∷◌, arith, ◌==◌, eq_iff,
  member, Bool-cases, Option-cases, inl, inr,
}
use ophyd_service.Dict
use ophyd_service.Dict.{Dict}
use ophyd_service.Registry.{
  DeviceRegistry, DeviceInstantiationSpec, list_instantiation_specs, active_specs,
  get_instantiation_spec,
}
use ophyd_service.Locks.Acquire.{has_active_spec}
use ophyd_service.LockService
use ophyd_service.LockService.{Service, Moment, Response, DeviceLockResponse, force_response}
use ophyd_service.Coordinator.{
  Answer, ok, err, Coordinator, unlock_devices, settle, book, booked, is_empty, registered_active,
  lock_registered, settle_debt, lock_settled, lock_devices_for_plan, record_lock_epoch_and_lease,
  ensure_heartbeat,
}
use ophyd_service.Coordinator.Network.{World, Network, call, service_client, read_body, answer_of}
use ophyd_service.Coordinator.Requests.{call-keeps, call-Answered}
use ophyd_service.Coordinator.Held.{HeldBy, Has, lock_request, unlock-Has, lock-HeldBy}

-- An active specification is listed among the active ones.
contains-active_specs :
    (specs : Dict DeviceInstantiationSpec) (d : String) (spec : DeviceInstantiationSpec)
    → Dict.get specs d ≡ some spec
    → spec.active ≡ true
    → Dict.contains (active_specs specs) d ≡ true
unfolding active_specs Dict.get
contains-active_specs [] d spec e on = absurd (ground arith)
contains-active_specs ((name, other) ∷ specs) d spec e on =
    ground (arith, eq_iff name d, contains-active_specs specs d spec)

pub listed :
    (r : DeviceRegistry) (d : String)
    → has_active_spec r d ≡ true
    → Dict.contains (list_instantiation_specs true r) d ≡ true
unfolding list_instantiation_specs get_instantiation_spec
listed r d h = elim (Option-cases (Dict.get r.instantiation_specs d)) [
  | inl missing ↦ absurd (ground arith)
  | inr (spec, e) ↦ contains-active_specs r.instantiation_specs d spec e (ground arith)
]

member-registered_active :
    (d : String) (names : List String) (specs : Dict DeviceInstantiationSpec)
    → Dict.contains specs d ≡ true
    → member d (registered_active names specs) ≡ member d names
unfolding registered_active
member-registered_active d [] specs h = refl
member-registered_active d (name ∷ names) specs h =
    ground (arith, eq_iff name d, member-registered_active d names specs h)

member-is_empty :
    (d : String) (names : List String) → member d names ≡ true → is_empty names ≡ false
unfolding is_empty
member-is_empty d [] h = absurd (ground arith)
member-is_empty d (name ∷ names) h = refl

-- The device is locked for the item at the service, and stands in the books under the item.
abbrev pub IsLockedFor : String → String → Coordinator × World × Answer (Unit {0}) → Type 0
IsLockedFor uid d (c', w', answer) =
    HeldBy w'.service.lock_manager uid d
    × (member d c'.locked_devices ≡ true)
    × (c'.locked_item_id ≡ uid)

specs-Has :
    (r : DeviceRegistry) (at : Moment) (s : Service)
    → Has r s
    → Has r (LockService.get_instantiation_specs true s).0
unfolding LockService.get_instantiation_specs
specs-Has r at s h = h

-- The registry lists the active device, whatever attempt got through.
answered-lists :
    (n : Network) (r : DeviceRegistry) (w w' : World) (specs : Dict DeviceInstantiationSpec)
    (d : String)
    → Has r w.service
    → has_active_spec r d ≡ true
    → call n (λ at. LockService.get_instantiation_specs true) w ≡ (w', ok specs)
    → Dict.contains specs d ≡ true
unfolding LockService.get_instantiation_specs answer_of read_body
answered-lists n r w w' specs d has active e =
    let (at, s, has', _, answer) =
      call-Answered n (λ at. LockService.get_instantiation_specs true) (Has r) (specs-Has r) w w'
        specs has e in
    let same : list_instantiation_specs true s.registry ≡ specs = ground arith in
    subst (λ (x : Dict DeviceInstantiationSpec). Dict.contains x d ≡ true)
      (ap (list_instantiation_specs true) (sym has') ∙ same) (listed r d active)

settle-Has :
    (n : Network) (r : DeviceRegistry) (c : Coordinator) (a : World × Answer (Unit {0}))
    → Has r a.0.service
    → Has r (settle (service_client n) false c a).1.service
unfolding settle
settle-Has n r c (w, ok done) h = h
settle-Has n r c (w, err e) h = h

-- Settling a debt does not change the registry.
settle_debt-Has :
    (n : Network) (r : DeviceRegistry) (c : Coordinator) (w : World)
    → Has r w.service
    → Has r (settle_debt (service_client n) c w).1.service
unfolding settle_debt unlock_devices service_client
settle_debt-Has n r c w h = elim (Bool-cases (c.locked_item_id == "")) [
  | inl clean ↦ rw clean h
  | inr debt ↦ elim (Bool-cases (not c.enabled || is_empty c.locked_devices)) [
    | inl idle ↦ rw (debt, idle) h
    | inr work ↦
        rw (debt, work)
          (settle-Has n r c
            (call n (LockService.unlock_devices c.locked_devices c.locked_item_id) w)
            (call-keeps n (LockService.unlock_devices c.locked_devices c.locked_item_id) (Has r)
              (unlock-Has r c.locked_devices c.locked_item_id) w h))
  ]
]

module _ (n : Network) (uid plan d : String) where
  -- Every raised error is outside the claim.
  abbrev pub Succeeds : Coordinator × World × Answer (Unit {0}) → Type 0
  Succeeds r = r.2 ≡ ok tt

  booked-IsLockedFor :
      (names : List String) (c : Coordinator) (w : World) (r : World × Answer DeviceLockResponse)
      → r ≡ call n (LockService.lock_devices (lock_request n names uid plan)) w
      → member d names ≡ true
      → Succeeds (booked (service_client n) names uid plan c r)
      → IsLockedFor uid d (booked (service_client n) names uid plan c r)
  unfolding booked book record_lock_epoch_and_lease ensure_heartbeat
  booked-IsLockedFor names c w (w', err e) called named h = absurd (ground arith)
  booked-IsLockedFor names c w (w', ok resp) called named h =
      (lock-HeldBy n (lock_request n names uid plan) w w' resp d (sym called) named, named, refl)

  lock_registered-IsLockedFor :
      (names : List String) (c : Coordinator) (r : World × Answer (Dict DeviceInstantiationSpec))
      → ((w : World) (specs : Dict DeviceInstantiationSpec)
          → r ≡ (w, ok specs)
          → Dict.contains specs d ≡ true)
      → member d names ≡ true
      → Succeeds (lock_registered (service_client n) names uid plan c r)
      → IsLockedFor uid d (lock_registered (service_client n) names uid plan c r)
  unfolding lock_registered service_client
  lock_registered-IsLockedFor names c (w, err e) lists named h = absurd (ground arith)
  lock_registered-IsLockedFor names c (w, ok specs) lists named h =
      let kept : member d (registered_active names specs) ≡ true =
        member-registered_active d names specs (lists w specs refl) ∙ named in
      let some_left = member-is_empty d (registered_active names specs) kept in
      rw some_left (
        booked-IsLockedFor (registered_active names specs) c w
          (call n
            (LockService.lock_devices (lock_request n (registered_active names specs) uid plan)) w)
          refl kept (rw some_left at h))

  lock_settled-IsLockedFor :
      (r : DeviceRegistry) (names : List String) (s : Coordinator × World × Answer (Unit {0}))
      → Has r s.1.service
      → has_active_spec r d ≡ true
      → member d names ≡ true
      → Succeeds (lock_settled (service_client n) names uid plan s)
      → IsLockedFor uid d (lock_settled (service_client n) names uid plan s)
  unfolding lock_settled service_client
  lock_settled-IsLockedFor r names (c, w, err e) has active named h = absurd (ground arith)
  lock_settled-IsLockedFor r names (c, w, ok done) has active named h =
      let some_left = member-is_empty d names named in
      rw some_left (
        lock_registered-IsLockedFor names c
          (call n (λ at. LockService.get_instantiation_specs true) w)
          (λ w' specs e. answered-lists n r w w' specs d has active e) named (rw some_left at h))

-- If the call before a plan raises no error, then every device that the plan names and that the
-- registry has active is locked for the plan's item at the service, and stands in the books under
-- that item, whatever the network did and whatever the books said before.
pub lock_devices_for_plan-locks :
    (n : Network) (names : List String) (uid plan : String) (c : Coordinator) (w : World)
    (d : String)
    → (lock_devices_for_plan (service_client n) names uid plan c w).2 ≡ ok tt
    → member d names ≡ true
    → has_active_spec w.service.registry d ≡ true
    → IsLockedFor uid d (lock_devices_for_plan (service_client n) names uid plan c w)
unfolding lock_devices_for_plan
lock_devices_for_plan-locks n names uid plan c w d h named active =
    lock_settled-IsLockedFor n uid plan d w.service.registry names
      (settle_debt (service_client n) c w) (settle_debt-Has n w.service.registry c w refl) active
      named h
