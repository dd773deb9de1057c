-- ===== src/Coordinator/Unlock.antt =====
-- `unlock_devices` of queueserver_service/manager/config_service_coordinator.py, with the service
-- behind it.
use ophyd_service.Prelude.{
  ℕ, String, ◌≡◌, refl, ap, ◌∙◌, sym, Bool, true, ◌||◌, not, none, List, arith, if◌then◌else◌,
  member, Bool-cases, ◌⊎◌, inl, inr,
}
use ophyd_service.Locks.{active_lock}
use ophyd_service.Locks.Release.{release_locks}
use ophyd_service.Locks.Release.Ownership.{release_locks_success}
use ophyd_service.LockService
use ophyd_service.LockService.{Service, Moment, Response, DeviceLockResponse, force_response}
use ophyd_service.Coordinator.{
  Answer, ok, err, ConfigServiceError, Coordinator, unlock_devices, settle, clear_books, is_empty,
}
use ophyd_service.Coordinator.Network.{World, Network, call, service_client, read_body, answer_of}
use ophyd_service.Coordinator.Requests.{call-Answered}

-- The route answers with success only if the manager released.
unlock-success :
    (names : List String) (item : String) (at : Moment) (s : Service) (done : Unit {0})
    → answer_of (LockService.unlock_devices names item at s).1 ≡ ok done
    → ((release_locks s.lock_manager names item at.now).1.success ≡ true)
      × ((LockService.unlock_devices names item at s).0.lock_manager
          ≡ (release_locks s.lock_manager names item at.now).0)
unfolding LockService.unlock_devices answer_of read_body
unlock-success names item at s done e =
    elim (Bool-cases (release_locks s.lock_manager names item at.now).1.success) [
      | inl freed ↦ (freed, ground arith)
      | inr refused ↦ absurd (ground arith)
    ]

unlock-frees :
    (n : Network) (names : List String) (item : String) (w w' : World) (done : Unit {0})
    → call n (LockService.unlock_devices names item) w ≡ (w', ok done)
    → (d : String) (t : ℕ) → member d names ≡ true
    → active_lock w'.service.lock_manager d t ≡ none
unlock-frees n names item w w' done e d t named =
    let (at, s, _, state, answer) =
      call-Answered n (LockService.unlock_devices names item) (λ s. Unit {0}) (λ at s u. tt) w w'
        done tt e in
    let (freed, manager) = unlock-success names item at s done answer in
    let left = (release_locks_success s.lock_manager names item at.now freed d).0 t in
    ap (λ (v : Service). active_lock v.lock_manager d t) (sym state)
    ∙ (ap (λ m. active_lock m d t) manager ∙ (left ∙ rw named))

-- The service holds none of the devices of the books at any time.
abbrev pub AreFree : List String → World → Type 0
AreFree names w =
    (d : String) (t : ℕ) → member d names ≡ true → active_lock w.service.lock_manager d t ≡ none

abbrev pub SettlesAs : Bool → Coordinator → Coordinator × World × Answer (Unit {0}) → Type 0
SettlesAs suppress_errors c (c', w', answer) =
    ((c' ≡ clear_books c) × (answer ≡ ok tt) × AreFree c.locked_devices w')
    ⊎ ((c' ≡ c)
        × ((e : ConfigServiceError) × (answer ≡ (if suppress_errors then ok tt else err e))))

settle-SettlesAs :
    (n : Network) (suppress_errors : Bool) (c : Coordinator) (r : World × Answer (Unit {0}))
    → ((w' : World) (done : Unit {0}) → r ≡ (w', ok done) → AreFree c.locked_devices w')
    → SettlesAs suppress_errors c (settle (service_client n) suppress_errors c r)
unfolding settle
settle-SettlesAs n suppress_errors c (w', ok done) frees = inl (refl, refl, frees w' done refl)
settle-SettlesAs n suppress_errors c (w', err e) frees = inr (refl, (e, refl))

-- Whatever the network does, an unlock does one of three things. It succeeds: then the books are
-- empty, and none of the devices that they listed is under a live lock at the service any more. Or it
-- fails: then it raises, unless errors are suppressed, and the books are as they were. Or there is
-- nothing to do, because the configuration service is not used or the books list no device: then
-- nothing changes.
pub unlock_devices_settles :
    (n : Network) (suppress_errors : Bool) (c : Coordinator) (w : World)
    → SettlesAs suppress_errors c (unlock_devices (service_client n) suppress_errors c w)
      ⊎ ((not c.enabled || is_empty c.locked_devices ≡ true)
          × (unlock_devices (service_client n) suppress_errors c w ≡ (c, w, ok tt)))
unfolding unlock_devices service_client
unlock_devices_settles n suppress_errors c w =
    elim (Bool-cases (not c.enabled || is_empty c.locked_devices)) [
      | inl idle ↦ inr (idle, rw idle refl)
      | inr work ↦ rw work (
          inl (
            settle-SettlesAs n suppress_errors c
              (call n (LockService.unlock_devices c.locked_devices c.locked_item_id) w)
              (λ w' done e d t. unlock-frees n c.locked_devices c.locked_item_id w w' done e d t)))
    ]
