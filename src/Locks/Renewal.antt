-- ===== src/Locks/Renewal.antt =====
-- `renew_locks` of configuration_service/lock_manager.py: the heartbeat of a lock holder.
pub mod Sorting
use ophyd_service.Prelude.{
  ℕ, ◌+◌, String, ◌≡◌, refl, sym, ◌∙◌, Bool, true, false, ◌||◌, ◌&&◌, not, Option, none, some, List,
  [], ◌∷◌, arith, ◌==◌, eq_iff, if◌then◌else◌, member, leb, ◌⊎◌, inl, inr, Bool-cases, Option-cases,
}
use ophyd_service.Dict
use ophyd_service.Dict.{Dict, get-insert}
use ophyd_service.Locks.{DeviceLockState, DeviceLockManager, RenewResult, is_expired, next_expiry}
use ophyd_service.Locks.Acquire.Exclusion.{lapsed}

pub record Tally : Type 0 where
  pub locks : Dict DeviceLockState
  pub renewed : List String
  pub lost : List String
  pub conflicts : List String

-- How an entry of the table stands to the item: not held, held by another, or its own.
pub data Standing : Type 0 where
  gone foreign own : Standing

abbrev pub standing : String → ℕ → Option DeviceLockState → Standing
standing item now none = gone
standing item now (some s) =
    if not s.locked || is_expired s now
    then gone
    else if s.locked_by_item == item
    then own
    else foreign

abbrev pub is_gone : Standing → Bool
is_gone gone = true
is_gone _ = false

abbrev pub is_foreign : Standing → Bool
is_foreign foreign = true
is_foreign _ = false

abbrev pub is_own : Standing → Bool
is_own own = true
is_own _ = false

-- state.expires_at = expires_at, on the shared state object of the table.
unfoldable pub touch : Option ℕ → Dict DeviceLockState → String → Dict DeviceLockState
touch expires locks name = elim (Dict.get locks name) [
  | none ↦ locks
  | some state ↦ Dict.insert locks name (record state { expires_at = expires })
]

-- The loop over the devices. The three lists are in the order of the devices.
unfoldable pub renew_loop : String → ℕ → Option ℕ → Dict DeviceLockState → List String → Tally
renew_loop item_id now expires_at locks [] = record {
  locks = locks;
  renewed = [];
  lost = [];
  conflicts = [];
}
renew_loop item_id now expires_at locks (name ∷ names) =
    let kept = renew_loop item_id now expires_at locks names in
    let moved = renew_loop item_id now expires_at (touch expires_at locks name) names in
    elim (standing item_id now (Dict.get locks name)) [
      | gone ↦ record kept { lost = name ∷ kept.lost }
      | foreign ↦ record kept { conflicts = name ∷ kept.conflicts }
      | own ↦ record moved { renewed = name ∷ moved.renewed }
    ]

abbrev pub is_empty : List String → Bool
is_empty [] = true
is_empty (x ∷ xs) = false

unfoldable pub renew_locks :
    DeviceLockManager → List String → String → ℕ → DeviceLockManager × RenewResult
renew_locks m device_names item_id now =
    let expires_at = next_expiry m now in
    let t = renew_loop item_id now expires_at m.locks device_names in
    (
      record m { locks = t.locks },
      record {
        success = is_empty t.lost && is_empty t.conflicts;
        renewed = t.renewed;
        lost = t.lost;
        conflicts = t.conflicts;
        expires_at = expires_at;
      },
    )
