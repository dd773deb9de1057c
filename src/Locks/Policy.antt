-- ===== src/Locks/Policy.antt =====
-- The queries of configuration_service/lock_manager.py and the `lock_all` availability policy.
pub mod Holder
use mathlib.Core.Bool.{beq}
use mathlib.Core.Option.{some-injective}
use ophyd_service.Prelude.{
  ℕ, ◌+◌, ◌≤◌, String, ◌≡◌, refl, ◌∙◌, ◌≢◌, Bool, true, false, ◌||◌, ◌&&◌, not, Option, none, some,
  List, [], ◌∷◌, arith, ◌==◌, eq_iff, if◌then◌else◌, is_some, member, leb, ltb, ltb→lt, ◌⊎◌, inl,
  inr, ◌↔◌, Bool-cases, Option-cases,
}
use ophyd_service.Dict
use ophyd_service.Dict.{Dict, NodupKeys}
use ophyd_service.Locks.{DeviceLockState, DeviceLockManager, active_lock, live, is_expired}

pub is_device_locked : DeviceLockManager → String → ℕ → Bool
is_device_locked m name now = is_some (active_lock m name now)

-- state.locked and not state.is_expired(now)
abbrev pub is_live : ℕ → DeviceLockState → Bool
is_live now s = s.locked && not (is_expired s now)

unfoldable pub live_entries : ℕ → Dict DeviceLockState → Dict DeviceLockState
live_entries now [] = []
live_entries now ((name, s) ∷ locks) =
    let rest = live_entries now locks in if is_live now s then (name, s) ∷ rest else rest

unfoldable pub get_all_locks : DeviceLockManager → ℕ → Dict DeviceLockState
get_all_locks m now = live_entries now m.locks

unfoldable pub set_lock_all : DeviceLockManager → Bool → DeviceLockManager
set_lock_all m enabled =
    if beq enabled m.lock_all_enabled
    then m
    else record m { lock_all_enabled = enabled; version = m.version + 1 }

pub earlier : DeviceLockState → DeviceLockState → DeviceLockState
earlier s s' = if ltb s'.locked_at s.locked_at then s' else s

-- min(active, key=lambda state: state.locked_at): the first of the smallest.
unfoldable pub earliest : DeviceLockState → Dict DeviceLockState → DeviceLockState
earliest s [] = s
earliest s ((name, s') ∷ rest) = earliest (earlier s s') rest

unfoldable pub first_earliest : Dict DeviceLockState → Option DeviceLockState
first_earliest [] = none
first_earliest ((name, s) ∷ rest) = some (earliest s rest)

unfoldable pub global_lock_holder : DeviceLockManager → ℕ → Option DeviceLockState
unfolding first_earliest
global_lock_holder m now = first_earliest (live_entries now m.locks)

-- `own` and the global holder are read at two instants, one after the other.
pub effective_lock : DeviceLockManager → String → ℕ → ℕ → Option DeviceLockState
effective_lock m name now later = elim (active_lock m name now) [
  | some own ↦ some own
  | none ↦ if m.lock_all_enabled then global_lock_holder m later else none
]
