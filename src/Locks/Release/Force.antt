-- ===== src/Locks/Release/Force.antt =====
-- `force_unlock` and `clear_all` (configuration_service/lock_manager.py).
use ophyd_service.Prelude.{
  ℕ, String, ◌≡◌, refl, ◌≢◌, Bool, true, ◌||◌, ◌&&◌, not, none, List, [], ◌∷◌, arith, eq_iff,
  if◌then◌else◌, is_some, member, ◌⊎◌, inl, inr, Bool-cases,
}
use ophyd_service.Dict
use ophyd_service.Dict.{Dict, NodupKeys, get-remove}
use ophyd_service.Registry.{DeviceRegistry, get_device}
use ophyd_service.Locks.{DeviceLockState, DeviceLockManager, active_lock, live}
use ophyd_service.Locks.Release.{
  is_held, dedup, unknown_names, force_drop, force_branch, force_unlock, held_names, clear_all,
}

pub member-dedup :
    (seen names : List String) (d : String)
    → member d (dedup seen names) ≡ (member d names && not (member d seen))
unfolding dedup
member-dedup seen [] d = refl
member-dedup seen (x ∷ xs) d = elim (Bool-cases (member x seen)) [
  | inl e ↦ rw e (ground (arith, eq_iff x d, member-dedup seen xs d))
  | inr e ↦ rw e (ground (arith, eq_iff x d, member-dedup (x ∷ seen) xs d))
]

-- The names that are neither registered nor hold a lock, and no others, are reported as unknown.
member-unknown_names :
    (m : DeviceLockManager) (r : DeviceRegistry) (names : List String) (d : String)
    → member d (unknown_names m r names)
      ≡ (member d names && not (is_some (get_device r d) || Dict.contains m.locks d))
unfolding unknown_names
member-unknown_names m r [] d = refl
member-unknown_names m r (x ∷ xs) d = ground (arith, eq_iff x d, member-unknown_names m r xs d)

member-held_names :
    (locks : Dict DeviceLockState) (d : String)
    → NodupKeys locks
    → member d (held_names locks) ≡ is_held locks d
unfolding held_names Dict.get
member-held_names [] d n = refl
member-held_names ((k, s) ∷ locks) d n = ground (arith, eq_iff k d, member-held_names locks d n.1)

pub get-force_drop :
    (locks : Dict DeviceLockState) (names : List String) (d : String)
    → Dict.get (force_drop locks names) d
      ≡ (if member d names && is_held locks d then none else Dict.get locks d)
unfolding force_drop
get-force_drop locks [] d = refl
get-force_drop locks (x ∷ xs) d = elim (Bool-cases (is_held locks x)) [
  | inl e ↦
      rw e (
        ground (arith, eq_iff x d, get-remove locks x d, get-force_drop (Dict.remove locks x) xs d))
  | inr e ↦ rw e (ground (arith, e, eq_iff x d, get-force_drop locks xs d))
]

live-force_drop :
    (locks : Dict DeviceLockState) (names : List String) (d : String) (t : ℕ)
    → live t (Dict.get (force_drop locks names) d)
      ≡ (if member d names then none else live t (Dict.get locks d))
unfolding live
live-force_drop locks names d t = ground (arith, get-force_drop locks names d)

-- The name is a registered device, or an entry of the lock table.
abbrev pub is_known : DeviceLockManager → DeviceRegistry → String → Bool
is_known m r d = is_some (get_device r d) || Dict.contains m.locks d

-- All is refused or all is done: the new manager, the unlocked names, and the unknown ones.
abbrev pub ForceOutcome :
    DeviceLockManager
    → DeviceRegistry
    → List String
    → DeviceLockManager × List String × List String
    → Type 0
ForceOutcome m r names (m', unlocked, not_found) =
    (not_found ≢ [])
      × (m' ≡ m)
      × (unlocked ≡ [])
      × ((d : String) → member d not_found ≡ (member d names && not (is_known m r d)))
    ⊎ (not_found ≡ [])
      × ((d : String) (t : ℕ)
          → active_lock m' d t ≡ (if member d names then none else active_lock m d t))
      × ((d : String) → member d unlocked ≡ member d names)
      × ((d : String) → member d names ≡ true → is_known m r d ≡ true)

force_branch-ForceOutcome :
    (m : DeviceLockManager) (r : DeviceRegistry) (names uniq unknown : List String)
    → ((d : String) → member d uniq ≡ member d names)
    → ((d : String) → member d unknown ≡ (member d uniq && not (is_known m r d)))
    → ForceOutcome m r names (force_branch m uniq unknown)
unfolding force_branch active_lock
force_branch-ForceOutcome m r names uniq [] h k = inr (
  refl,
  λ d t. ground (arith, h d, live-force_drop m.locks uniq d t),
  h,
  λ d e. ground (arith, h d, k d),
)
force_branch-ForceOutcome m r names uniq (x ∷ xs) h k =
    inl (λ e. ground (arith, e), refl, refl, λ d. ground (arith, h d, k d))

-- Forcing the release of devices does one of two things. If some name is neither registered nor
-- in the lock table, nothing changes, nothing is reported as unlocked, and exactly such names are
-- reported as not found. Otherwise every named device is free at every instant, registered or not,
-- every other device is as it was, and exactly the given names are reported as unlocked.
pub force_unlock_all_or_nothing :
    (m : DeviceLockManager) (names : List String) (r : DeviceRegistry)
    → ForceOutcome m r names (force_unlock m names r)
unfolding force_unlock
force_unlock_all_or_nothing m names r =
    force_branch-ForceOutcome m r names (dedup [] names) _
      (λ d. ground (arith, member-dedup [] names d)) (member-unknown_names m r (dedup [] names))

-- With one entry for each device in the lock table, `clear_all` frees every device at every instant,
-- and reports exactly the devices that held a lock.
pub clear_all_frees :
    (m : DeviceLockManager) (d : String)
    → NodupKeys m.locks
    → ((t : ℕ) → active_lock (clear_all m).0 d t ≡ none)
      × (member d (clear_all m).1 ≡ is_held m.locks d)
unfolding clear_all active_lock live Dict.get
clear_all_frees m d n = (λ t. refl, member-held_names m.locks d n)
