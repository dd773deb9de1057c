-- ===== src/Coordinator/Held.antt =====
-- What a successful request for locks leaves at the service: configuration_service/main.py, asked by
-- queueserver_service/manager/config_service.py.
use mathlib.Core.Path.{subst}
use ophyd_service.Prelude.{
  ℕ, String, ◌≡◌, refl, ◌∙◌, sym, true, some, List, arith, member, Bool-cases, inl, inr,
}
use ophyd_service.Dict
use ophyd_service.Dict.{Dict}
use ophyd_service.Registry.{DeviceRegistry}
use ophyd_service.Locks.{DeviceLockManager, LockRequest, DeviceLockState, acquire_locks, new_lock}
use ophyd_service.Locks.Acquire.{acquire_locks_all_or_nothing}
use ophyd_service.LockService
use ophyd_service.LockService.{Service, Moment, Response, DeviceLockResponse, force_response}
use ophyd_service.Coordinator.{ok}
use ophyd_service.Coordinator.Network.{World, Network, call, read_body, answer_of}
use ophyd_service.Coordinator.Requests.{call-Answered}

-- The table has a lock of the item on the device.
abbrev pub HeldBy : DeviceLockManager → String → String → Type 0
HeldBy m item d =
    (l : DeviceLockState) × (Dict.get m.locks d ≡ some l)
    × (l.locked ≡ true)
    × (l.locked_by_item ≡ item)

-- The registry of the service is `r`.
abbrev pub Has : DeviceRegistry → Service → Type 0
Has r s = s.registry ≡ r

abbrev pub lock_request : Network → List String → String → String → LockRequest
lock_request n names item plan = record {
  device_names = names;
  item_id = item;
  plan_name = plan;
  locked_by_service = n.service_name;
}

pub lock-Has :
    (r : DeviceRegistry) (q : LockRequest) (at : Moment) (s : Service)
    → Has r s
    → Has r (LockService.lock_devices q at s).0
unfolding LockService.lock_devices
lock-Has r q at s h = ground arith

pub unlock-Has :
    (r : DeviceRegistry) (names : List String) (item : String) (at : Moment) (s : Service)
    → Has r s
    → Has r (LockService.unlock_devices names item at s).0
unfolding LockService.unlock_devices
unlock-Has r names item at s h = ground arith

lock-success :
    (q : LockRequest) (at : Moment) (s : Service) (resp : DeviceLockResponse)
    → answer_of (LockService.lock_devices q at s).1 ≡ ok resp
    → ((acquire_locks s.lock_manager q s.registry at.clock at.uuid).1.success ≡ true)
      × ((LockService.lock_devices q at s).0.lock_manager
          ≡ (acquire_locks s.lock_manager q s.registry at.clock at.uuid).0)
unfolding LockService.lock_devices answer_of read_body
lock-success q at s resp e =
    elim (Bool-cases (acquire_locks s.lock_manager q s.registry at.clock at.uuid).1.success) [
      | inl granted ↦ (granted, ground arith)
      | inr refused ↦ absurd (ground arith)
    ]

granted-HeldBy :
    (m : DeviceLockManager) (q : LockRequest) (r : DeviceRegistry) (clock : ℕ → ℕ) (uuid d : String)
    → (acquire_locks m q r clock uuid).1.success ≡ true
    → member d q.device_names ≡ true
    → HeldBy (acquire_locks m q r clock uuid).0 q.item_id d
granted-HeldBy m q r clock uuid d granted named =
    elim (acquire_locks_all_or_nothing m q r clock uuid) [
      | inr (_, refused, _, _) ↦ absurd (ground arith)
      | inl (_, g) ↦
          let (t, e) = g.2 d in
          (
            new_lock q.item_id q.plan_name q.locked_by_service uuid
                (acquire_locks m q r clock uuid).1.expires_at d t,
            e ∙ rw named refl,
            unfold new_lock in refl,
            unfold new_lock in refl,
          )
    ]

pub lock-HeldBy :
    (n : Network) (q : LockRequest) (w w' : World) (resp : DeviceLockResponse) (d : String)
    → call n (LockService.lock_devices q) w ≡ (w', ok resp)
    → member d q.device_names ≡ true
    → HeldBy w'.service.lock_manager q.item_id d
lock-HeldBy n q w w' resp d e named =
    let (at, s, _, state, answer) =
      call-Answered n (LockService.lock_devices q) (λ s. Unit {0}) (λ at s u. tt) w w' resp tt e in
    let (granted, manager) = lock-success q at s resp answer in
    subst (λ (v : Service). HeldBy v.lock_manager q.item_id d) state
      (subst (λ m. HeldBy m q.item_id d) (sym manager)
        (granted-HeldBy s.lock_manager q s.registry at.clock at.uuid d granted named))
