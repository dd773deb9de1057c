-- ===== src/Coordinator/Retry.antt =====
-- A response that is lost: `_request` of queueserver_service/manager/config_service.py under
-- `lock_devices_for_plan` of config_service_coordinator.py.
use mathlib.Core.Path.{subst}
use ophyd_service.Prelude.{
  ℕ, suc, ◌+◌, String, ◌≡◌, refl, ap, ◌∙◌, sym, true, false, none, some, List, [], ◌∷◌, arith, ◌==◌,
  eq_iff, is_some, member, Option-cases, inl, inr,
}
use ophyd_service.Registry.{DeviceRegistry, list_instantiation_specs, get_device}
use ophyd_service.Locks.{
  DeviceLockManager, LockRequest, DeviceLockState, acquire_locks, active_lock, find_conflicts,
  check_device, cons_some, has_reason, error_code_of, LockConflict, already_locked, disabled,
  spec_missing, not_found, next_expiry, live,
}
use ophyd_service.Locks.Acquire.{AllAcquirable, has_active_spec}
use ophyd_service.LockService
use ophyd_service.LockService.{Service, Moment, Response, DeviceLockResponse, force_response}
use ophyd_service.Coordinator.{
  ok, err, conflict, Coordinator, booked, is_empty, registered_active, lock_registered, settle_debt,
  lock_settled, lock_devices_for_plan,
}
use ophyd_service.Coordinator.Network.{
  World, Network, call, service_client, Delivery, delivered, unanswered, is_retryable, is_expected,
  read_body, answer_of, attempt, request,
}
use ophyd_service.Locks.{grant}
use ophyd_service.Locks.Acquire.{find_conflicts_iff}
use ophyd_service.Locks.Acquire.Exclusion.{acquire_locks_holds}
use ophyd_service.Coordinator.Plan.{listed}
use ophyd_service.Coordinator.Held.{lock_request}

-- Known devices with active specifications that are under live locks at any time.
abbrev Blocked : DeviceLockManager → DeviceRegistry → List String → Type 0
Blocked m r [] = Unit
Blocked m r (d ∷ ds) =
    (is_some (get_device r d) ≡ true)
    × (has_active_spec r d ≡ true)
    × ((t : ℕ) → is_some (active_lock m d t) ≡ true)
    × Blocked m r ds

check_device-locked :
    (m : DeviceLockManager) (r : DeviceRegistry) (now : ℕ) (d : String)
    → is_some (get_device r d) ≡ true
    → has_active_spec r d ≡ true
    → is_some (active_lock m d now) ≡ true
    → (c : LockConflict) × (check_device m r now d ≡ some c) × (c.reason ≡ already_locked)
unfolding check_device
check_device-locked m r now d known active held = elim (Option-cases (active_lock m d now)) [
  | inl absent ↦ absurd (ground arith)
  | inr (l, e) ↦ (
    record {
      device_name = d;
      reason = already_locked;
      locked_by_plan = some l.locked_by_plan;
      locked_at = some l.locked_at;
    },
    ground arith,
    refl,
  )
]

find_conflicts-Blocked :
    (m : DeviceLockManager) (r : DeviceRegistry) (clock : ℕ → ℕ) (i : ℕ) (ds : List String)
    → Blocked m r ds
    → (has_reason spec_missing (find_conflicts m r clock i ds) ≡ false)
      × (has_reason not_found (find_conflicts m r clock i ds) ≡ false)
      × (has_reason disabled (find_conflicts m r clock i ds) ≡ false)
unfolding find_conflicts cons_some has_reason
find_conflicts-Blocked m r clock i [] b = (refl, refl, refl)
find_conflicts-Blocked m r clock i (d ∷ ds) b =
    let (c, e, locked) = check_device-locked m r (clock i) d b.0 b.1 (b.2 (clock i)) in
    let rest = find_conflicts-Blocked m r clock (suc i) ds b.3 in rw (e, locked) rest

-- Asking again for devices that one has locked is a conflict, and changes nothing.
acquire_locks-Blocked :
    (m : DeviceLockManager) (q : LockRequest) (r : DeviceRegistry) (clock : ℕ → ℕ) (uuid d : String)
    (ds : List String)
    → q.device_names ≡ d ∷ ds
    → Blocked m r (d ∷ ds)
    → ((acquire_locks m q r clock uuid).0 ≡ m)
      × ((acquire_locks m q r clock uuid).1.success ≡ false)
      × ((acquire_locks m q r clock uuid).1.error_code ≡ 409)
unfolding acquire_locks error_code_of find_conflicts cons_some
acquire_locks-Blocked m q r clock uuid d ds names b =
    let (c, e, locked) = check_device-locked m r (clock 0) d b.0 b.1 (b.2 (clock 0)) in
    let codes = find_conflicts-Blocked m r clock 0 (d ∷ ds) b in
    ground (arith, names, e, codes.0, codes.1, codes.2)

granted_without_lease :
    (m : DeviceLockManager) (q : LockRequest) (r : DeviceRegistry) (clock : ℕ → ℕ) (uuid : String)
    → AllAcquirable m r clock 0 q.device_names
    → m.lease_ttl ≡ 0
    → ((acquire_locks m q r clock uuid).1.success ≡ true)
      × ((acquire_locks m q r clock uuid).1.expires_at ≡ none)
unfolding acquire_locks grant next_expiry
granted_without_lease m q r clock uuid all lease =
    let clean = (find_conflicts_iff m r clock 0 q.device_names).1 all in
    (rw (clean, acquire_locks) refl, rw (clean, acquire_locks) (rw lease refl))

held_at_any_time :
    (m : DeviceLockManager) (q : LockRequest) (r : DeviceRegistry) (clock : ℕ → ℕ) (uuid d : String)
    (t : ℕ)
    → AllAcquirable m r clock 0 q.device_names
    → m.lease_ttl ≡ 0
    → member d q.device_names ≡ true
    → (l : DeviceLockState) × (active_lock (acquire_locks m q r clock uuid).0 d t ≡ some l)
      × (l.locked_by_item ≡ q.item_id)
held_at_any_time m q r clock uuid d t all lease named =
    let (granted, forever) = granted_without_lease m q r clock uuid all lease in
    let (l, e, owner, _) =
      acquire_locks_holds m q r clock uuid d t granted named (rw forever refl) in
    (l, e, owner)

then_Blocked :
    (m m' : DeviceLockManager) (r : DeviceRegistry) (clock : ℕ → ℕ) (i : ℕ) (ds : List String)
    → AllAcquirable m r clock i ds
    → ((d : String) (t : ℕ) → member d ds ≡ true → is_some (active_lock m' d t) ≡ true)
    → Blocked m' r ds
then_Blocked m m' r clock i [] all held = tt
then_Blocked m m' r clock i (d ∷ ds) all held = (
  all.0.0,
  all.0.1,
  λ t. held d t (ground (arith, eq_iff d d)),
  then_Blocked m m' r clock (suc i) ds all.1 (λ e t k. held e t (ground arith)),
)

route-refused :
    (q : LockRequest) (at : Moment) (s : Service)
    → let r = acquire_locks s.lock_manager q s.registry at.clock at.uuid in
      r.0 ≡ s.lock_manager
      → r.1.success ≡ false
      → r.1.error_code ≡ 409
      → ((LockService.lock_devices q at s).0.lock_manager ≡ s.lock_manager)
        × ((LockService.lock_devices q at s).1 ≡ record { status_code = 409; body = none })
unfolding LockService.lock_devices
route-refused q at s same refused code = (ground arith, ground arith)

-- The first handling locks the devices, the second is refused and changes nothing.
module _ (q : LockRequest) (at at' : Moment) (s : Service) (d : String) (ds : List String)
    (names : q.device_names ≡ d ∷ ds)
    (all : AllAcquirable s.lock_manager s.registry at.clock 0 q.device_names)
    (lease : s.lock_manager.lease_ttl ≡ 0) where
  abbrev first : Service
  first = (LockService.lock_devices q at s).0

  first-manager :
      first.lock_manager ≡ (acquire_locks s.lock_manager q s.registry at.clock at.uuid).0
  unfolding LockService.lock_devices
  first-manager =
      ground
        (arith, (granted_without_lease s.lock_manager q s.registry at.clock at.uuid all lease).0)

  first-held :
      (e : String) (t : ℕ)
      → member e q.device_names ≡ true
      → (l : DeviceLockState) × (active_lock first.lock_manager e t ≡ some l)
        × (l.locked_by_item ≡ q.item_id)
  first-held e t named =
      let (l, held, owner) =
        held_at_any_time s.lock_manager q s.registry at.clock at.uuid e t all lease named in
      (l, ap (λ m. active_lock m e t) first-manager ∙ held, owner)

  first-registry : first.registry ≡ s.registry
  unfolding LockService.lock_devices
  first-registry = ground arith

  first-Blocked : Blocked first.lock_manager first.registry (d ∷ ds)
  first-Blocked =
      subst (λ r. Blocked first.lock_manager r (d ∷ ds)) (sym first-registry)
        (then_Blocked s.lock_manager first.lock_manager s.registry at.clock 0 (d ∷ ds)
          (subst (AllAcquirable s.lock_manager s.registry at.clock 0) names all)
          (λ e t k. let (l, held, _) = first-held e t (ap (member e) names ∙ k) in ap is_some held))

  second-refused :
      ((LockService.lock_devices q at' first).0.lock_manager ≡ first.lock_manager)
      × ((LockService.lock_devices q at' first).1 ≡ record { status_code = 409; body = none })
  second-refused =
      let (same, refused, code) =
        acquire_locks-Blocked first.lock_manager q first.registry at'.clock at'.uuid d ds names
          first-Blocked in
      route-refused q at' first same refused code

-- Two attempts, of which the first is answered in vain.
request_twice :
    {S A : Type 0} (handle : ℕ → S → S × Response A) (network : ℕ → Delivery) (k : ℕ) (s : S)
    → network 0 ≡ unanswered
    → network 1 ≡ delivered
    → (handle 1 (handle 0 s).0).1 ≡ record { status_code = 409; body = none }
    → request handle network 0 (suc (suc k)) s ≡ ((handle 1 (handle 0 s).0).0, err conflict)
unfolding request attempt is_retryable is_expected answer_of
request_twice handle network k s lost through refused = rw (lost, through) (ground (arith, refused))

request_once :
    {S A : Type 0} (handle : ℕ → S → S × Response A) (network : ℕ → Delivery) (k : ℕ) (s : S)
    (a : A)
    → network 0 ≡ delivered
    → (handle 0 s).1 ≡ record { status_code = 200; body = some a }
    → request handle network 0 (suc k) s ≡ ((handle 0 s).0, ok a)
unfolding request attempt is_retryable is_expected answer_of read_body
request_once handle network k s a through fine = rw through (ground (arith, fine))

all_registered :
    (m : DeviceLockManager) (r : DeviceRegistry) (clock : ℕ → ℕ) (i : ℕ) (ds : List String)
    → AllAcquirable m r clock i ds
    → registered_active ds (list_instantiation_specs true r) ≡ ds
unfolding registered_active
all_registered m r clock i [] all = refl
all_registered m r clock i (d ∷ ds) all =
    rw (listed r d all.0.1, all_registered m r clock (suc i) ds all.1) refl

call_once :
    {A : Type 0} (n : Network) (route : Moment → Service → Service × Response A) (k : ℕ) (w : World)
    (a : A)
    → n.max_attempts ≡ suc k
    → n.deliver w.calls 0 ≡ delivered
    → (route (n.moment w.calls 0) w.service).1 ≡ record { status_code = 200; body = some a }
    → call n route w
      ≡ (record { service = (route (n.moment w.calls 0) w.service).0; calls = w.calls + 1 }, ok a)
unfolding call
call_once n route k w a attempts through fine =
    let once =
      request_once (λ i. route (n.moment w.calls i)) (n.deliver w.calls) k w.service a through
        fine in
    rw (attempts, once) refl

call_twice :
    {A : Type 0} (n : Network) (route : Moment → Service → Service × Response A) (k : ℕ) (w : World)
    → n.max_attempts ≡ suc (suc k)
    → n.deliver w.calls 0 ≡ unanswered
    → n.deliver w.calls 1 ≡ delivered
    → let second = route (n.moment w.calls 1) (route (n.moment w.calls 0) w.service).0 in
      second.1 ≡ record { status_code = 409; body = none }
      → call n route w ≡ (record { service = second.0; calls = w.calls + 1 }, err conflict)
unfolding call
call_twice n route k w attempts lost through refused =
    let twice =
      request_twice (λ i. route (n.moment w.calls i)) (n.deliver w.calls) k w.service lost through
        refused in
    rw (attempts, twice) refl

-- Let no lease be used, the books be empty, and every device that the plan names be free and active.
-- If the answer of the registry arrives, the request for the locks is handled but its response does
-- not arrive in time, and the second attempt gets through, then the call before the plan raises a
-- conflict with its own lock: the books stay empty, and at the service each of the devices is under a
-- live lock of the plan's item, at any time.
pub lock_devices_for_plan-lost_response :
    (n : Network) (k : ℕ) (uid plan : String) (c : Coordinator) (w : World) (d : String)
    (ds : List String)
    → n.max_attempts ≡ suc (suc k)
    → c.locked_item_id == "" ≡ true
    → w.service.lock_manager.lease_ttl ≡ 0
    → AllAcquirable w.service.lock_manager w.service.registry
        (n.moment (w.calls + 1) 0).clock
        0
        (d ∷ ds)
    → n.deliver w.calls 0 ≡ delivered
    → n.deliver (w.calls + 1) 0 ≡ unanswered
    → n.deliver (w.calls + 1) 1 ≡ delivered
    → let r = lock_devices_for_plan (service_client n) (d ∷ ds) uid plan c w in
      (r.0 ≡ c)
      × (r.2 ≡ err conflict)
      × ((e : String) (t : ℕ)
          → member e (d ∷ ds) ≡ true
          → (l : DeviceLockState) × (active_lock r.1.service.lock_manager e t ≡ some l)
            × (l.locked_by_item ≡ uid))
unfolding lock_devices_for_plan settle_debt lock_settled lock_registered booked service_client
    is_empty LockService.get_instantiation_specs
lock_devices_for_plan-lost_response n k uid plan c w d ds attempts clean lease all got lost
      through =
    let q = lock_request n (d ∷ ds) uid plan in
    let at = n.moment (w.calls + 1) 0 in
    let at' = n.moment (w.calls + 1) 1 in
    let refused = second-refused q at at' w.service d ds refl all lease in
    let held = first-held q at at' w.service d ds refl all lease in
    let w1 : World = record { service = w.service; calls = w.calls + 1 } in
    let known =
      call_once n (λ at. LockService.get_instantiation_specs true) (suc k) w
        (list_instantiation_specs true w.service.registry) attempts got refl in
    let twice = call_twice n (LockService.lock_devices q) k w1 attempts lost through refused.1 in
    let names = all_registered w.service.lock_manager w.service.registry at.clock 0 (d ∷ ds) all in
    let run : lock_devices_for_plan (service_client n) (d ∷ ds) uid plan c w ≡ (
      c,
      record {
        service = (LockService.lock_devices q at' (LockService.lock_devices q at w.service).0).0;
        calls = w.calls + 1 + 1;
      },
      err conflict,
    ) =
      rw (clean, known, names, twice) refl in
    rw run (
      refl,
      refl,
      λ e t named.
          let (l, live, owner) = held e t named in
          (l, ap (λ m. active_lock m e t) refused.0 ∙ live, owner),
    )
