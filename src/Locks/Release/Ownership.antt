-- ===== src/Locks/Release/Ownership.antt =====
-- `release_locks` (configuration_service/lock_manager.py): only the owner of a live lock releases it.
use ophyd_service.Prelude.{
  ℕ, String, ◌≡◌, refl, ◌≢◌, true, false, ◌&&◌, none, some, List, [], ◌∷◌, arith, ◌==◌, eq_iff,
  if◌then◌else◌, member, inl, inr, Bool-cases, Option-cases,
}
use ophyd_service.Dict
use ophyd_service.Dict.{Dict, get-remove}
use ophyd_service.Locks.{DeviceLockState, DeviceLockManager, active_lock, live}
use ophyd_service.Locks.Release.{ForeignLock, find_foreign, is_held, drop_held, release_locks}

-- The loop of `release_locks` removes the entries of the named devices that are held, and no other.
pub get-drop_held :
    (locks : Dict DeviceLockState) (names : List String) (d : String)
    → Dict.get (drop_held locks names).0 d
      ≡ (if member d names && is_held locks d then none else Dict.get locks d)
unfolding drop_held
get-drop_held locks [] d = refl
get-drop_held locks (name ∷ names) d = elim (Bool-cases (is_held locks name)) [
  | inl e ↦ rw e (
      ground (
        arith,
        eq_iff name d,
        get-remove locks name d,
        get-drop_held (Dict.remove locks name) names d,
      ))
  | inr e ↦ rw e (ground (arith, eq_iff name d, get-drop_held locks names d))
]

active_lock-is_held :
    (m : DeviceLockManager) (d : String) (t : ℕ)
    → is_held m.locks d ≡ false
    → active_lock m d t ≡ none
unfolding active_lock live
active_lock-is_held m d t h = ground arith

pub find_foreign-none :
    (m : DeviceLockManager) (item : String) (now : ℕ) (names : List String) (d : String)
    (s : DeviceLockState)
    → find_foreign m item now names ≡ none
    → member d names ≡ true
    → active_lock m d now ≡ some s
    → s.locked_by_item ≡ item
unfolding find_foreign
find_foreign-none m item now [] d s e h a = absurd (ground arith)
find_foreign-none m item now (name ∷ names) d s e h a =
    ground
      (arith, eq_iff name d, eq_iff s.locked_by_item item, find_foreign-none m item now names d s)

find_foreign-some :
    (m : DeviceLockManager) (item : String) (now : ℕ) (names : List String) (f : ForeignLock)
    → find_foreign m item now names ≡ some f
    → (s : DeviceLockState) × (member f.device_name names ≡ true)
      × (active_lock m f.device_name now ≡ some s)
      × (s.locked_by_item ≡ f.locked_by_item)
      × (s.locked_by_item ≢ item)
unfolding find_foreign
find_foreign-some m item now [] f e = absurd (ground arith)
find_foreign-some m item now (name ∷ names) f e = elim (Option-cases (active_lock m name now)) [
  | inl a ↦ later (find_foreign-some m item now names f (ground (arith, e, a)))
  | inr (s, a) ↦ elim (Bool-cases (s.locked_by_item == item)) [
    | inl own ↦ later (find_foreign-some m item now names f (ground (arith, e, a, own)))
    | inr other ↦ (
      s,
      ground (arith, e, a, other, eq_iff name f.device_name),
      ground (arith, e, a, other),
      ground (arith, e, a, other),
      λ same. ground (arith, same, other, eq_iff s.locked_by_item item),
    )
  ]
]
  where
    later :
        (s : DeviceLockState) × (member f.device_name names ≡ true)
          × (active_lock m f.device_name now ≡ some s)
          × (s.locked_by_item ≡ f.locked_by_item)
          × (s.locked_by_item ≢ item)
        → (s : DeviceLockState) × (member f.device_name (name ∷ names) ≡ true)
          × (active_lock m f.device_name now ≡ some s)
          × (s.locked_by_item ≡ f.locked_by_item)
          × (s.locked_by_item ≢ item)
    later (s, k, a, o, n) = (s, ground (arith, k), a, o, n)

live-drop_held :
    (locks : Dict DeviceLockState) (names : List String) (d : String) (t : ℕ)
    → live t (Dict.get (drop_held locks names).0 d)
      ≡ (if member d names then none else live t (Dict.get locks d))
unfolding live
live-drop_held locks names d t = ground (arith, get-drop_held locks names d)

-- A release that succeeds frees every named device for every later instant and leaves every other
-- device as it was; and each live lock among the named ones was the item's own.
pub release_locks_success :
    (m : DeviceLockManager) (names : List String) (item : String) (now : ℕ)
    → (release_locks m names item now).1.success ≡ true
    → (d : String)
    → ((t : ℕ)
        → active_lock (release_locks m names item now).0 d t
          ≡ (if member d names then none else active_lock m d t))
      × ((s : DeviceLockState)
          → member d names ≡ true
          → active_lock m d now ≡ some s
          → s.locked_by_item ≡ item)
unfolding release_locks active_lock
release_locks_success m names item now h d = elim (Option-cases (find_foreign m item now names)) [
  | inr (f, e) ↦ absurd (ground (arith, h, e))
  | inl e ↦ (
    λ t. rw (e, release_locks) (live-drop_held m.locks names d t),
    λ s k a. find_foreign-none m item now names d s e k a,
  )
]

-- A release that fails changes nothing, and names a device that a live lock of another item holds.
pub release_locks_failure :
    (m : DeviceLockManager) (names : List String) (item : String) (now : ℕ)
    → (release_locks m names item now).1.success ≡ false
    → ((release_locks m names item now).0 ≡ m)
      × (f : ForeignLock) × (s : DeviceLockState) × ((release_locks m names item now).1.error
          ≡ some f)
      × (member f.device_name names ≡ true)
      × (active_lock m f.device_name now ≡ some s)
      × (s.locked_by_item ≡ f.locked_by_item)
      × (s.locked_by_item ≢ item)
unfolding release_locks
release_locks_failure m names item now h = elim (Option-cases (find_foreign m item now names)) [
  | inl e ↦ absurd (ground (arith, h, e))
  | inr (f, e) ↦
      let (s, k, a, o, n) = find_foreign-some m item now names f e in
      (ground (arith, e), f, s, ground (arith, e), k, a, o, n)
]
