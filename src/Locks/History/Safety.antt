-- ===== src/Locks/History/Safety.antt =====
-- A live lock stays with its item (configuration_service/lock_manager.py).
use ophyd_service.Prelude.{
  ℕ, String, ◌≡◌, refl, ◌∙◌, ◌≢◌, true, false, ◌&&◌, some, List, [], ◌∷◌, arith, member, inl, inr,
  Bool-cases, Option-cases,
}
use ophyd_service.Dict
use ophyd_service.Dict.{Dict, NodupKeys, insert-NodupKeys, remove-NodupKeys}
use ophyd_service.Locks.{DeviceLockState, DeviceLockManager, active_lock, live, is_expired}
use ophyd_service.Locks.Acquire.{acquire_locks_all_or_nothing}
use ophyd_service.Locks.Acquire.Exclusion.{AllAcquirable-active}
use ophyd_service.Locks.Renewal.{standing, renew_locks, is_own}
use ophyd_service.Locks.Renewal.Sorting.{renew_locks_sorts}
use ophyd_service.Locks.Release.{
  find_foreign, release_locks, dedup, unknown_names, force_branch, force_unlock,
}
use ophyd_service.Locks.Release.Ownership.{get-drop_held, find_foreign-none}
use ophyd_service.Locks.Release.Force.{get-force_drop, member-dedup}
use ophyd_service.Locks.Policy.{set_lock_all}
use ophyd_service.Locks.History.{Call, acquire, renew, release, force, clear, policy, step}

-- A call that has no right to a lock of the item on the device: a request, a policy change or a
-- heartbeat of anyone; a release by another item; a forced release that does not name the device.
-- The lock must not lapse at an instant at which a request or a release looks at it.
abbrev pub NoRight : Call → DeviceLockState → String → Type 0
NoRight (acquire q r clock lock_id) s d = (i : ℕ) → is_expired s (clock i) ≡ false
NoRight (renew names item now) s d = Unit
NoRight (release names item now) s d = (s.locked_by_item ≢ item) × (is_expired s now ≡ false)
NoRight (force names r) s d = member d names ≡ false
NoRight clear s d = ⊥
NoRight (policy enabled) s d = Unit

-- The device is still under the same lock, whose lease may have been moved.
abbrev pub StillLocked : DeviceLockManager → DeviceLockState → String → Type 0
StillLocked m s d =
    (s' : DeviceLockState) × (Dict.get m.locks d ≡ some s')
    × (s'.locked ≡ true)
    × (s'.locked_by_item ≡ s.locked_by_item)
    × (s'.lock_id ≡ s.lock_id)

force_branch-StillLocked :
    (m : DeviceLockManager) (names unknown : List String) (s : DeviceLockState) (d : String)
    → Dict.get m.locks d ≡ some s
    → s.locked ≡ true
    → member d names ≡ false
    → StillLocked (force_branch m names unknown).0 s d
unfolding force_branch
force_branch-StillLocked m names (x ∷ xs) s d e h n = (s, e, h, refl, refl)
force_branch-StillLocked m names [] s d e h n =
    (s, ground (arith, n, e, get-force_drop m.locks names d), h, refl, refl)

-- Whoever holds a live lock keeps it through every call that has no right to it.
pub step-StillLocked :
    (m : DeviceLockManager) (c : Call) (s : DeviceLockState) (d : String)
    → Dict.get m.locks d ≡ some s
    → s.locked ≡ true
    → NoRight c s d
    → StillLocked (step m c) s d
unfolding step
step-StillLocked m (acquire q r clock lock_id) s d e h n =
    elim (acquire_locks_all_or_nothing m q r clock lock_id) [
      | inr (_, _, _, same) ↦ rw same (s, e, h, refl, refl)
      | inl (a, g) ↦ elim (Bool-cases (member d q.device_names)) [
        | inl k ↦
            let (j, free) = AllAcquirable-active m r clock 0 q.device_names d a k in
            absurd (unfold active_lock live in ground (arith, free, e, h, n j))
        | inr k ↦ let (t, f) = g.2 d in (s, ground (arith, f, k, e), h, refl, refl)
      ]
    ]
step-StillLocked m (renew names item now) s d e h n =
    let g = (renew_locks_sorts m names item now d).3 in
    elim (Bool-cases (member d names && is_own (standing item now (Dict.get m.locks d)))) [
      | inl k ↦ (
        record s { expires_at = (renew_locks m names item now).1.expires_at },
        g ∙ (rw (k, e) refl),
        h,
        refl,
        refl,
      )
      | inr k ↦ (s, g ∙ (rw k e), h, refl, refl)
    ]
step-StillLocked m (release names item now) s d e h n =
    elim (Option-cases (find_foreign m item now names)) [
      | inr (f, x) ↦ (s, unfold release_locks in ground (arith, x, e), h, refl, refl)
      | inl x ↦ elim (Bool-cases (member d names)) [
        | inl k ↦ absurd (
            n.0 (
              find_foreign-none m item now names d s x k
                (unfold active_lock live in ground (arith, e, h, n.1))))
        | inr k ↦ (
          s,
          unfold release_locks in ground (arith, x, k, e, get-drop_held m.locks names d),
          h,
          refl,
          refl,
        )
      ]
    ]
step-StillLocked m (force names r) s d e h n =
    unfold force_unlock in
    force_branch-StillLocked m (dedup [] names) (unknown_names m r (dedup [] names)) s d e h
      (ground (arith, n, member-dedup [] names d))
step-StillLocked m clear s d e h n = absurd n
step-StillLocked m (policy enabled) s d e h n =
    (s, unfold set_lock_all in ground (arith, e), h, refl, refl)
