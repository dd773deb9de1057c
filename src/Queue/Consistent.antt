-- ===== src/Queue/Consistent.antt =====
-- The well-formed states of `PlanQueueOperations` (queueserver_service/manager/plan_queue_ops.py) in
-- which no item that was submitted for immediate execution runs.
pub mod Ends
pub mod Pop
pub mod Slots
pub mod Add
pub mod Batch
pub mod Replace
pub mod Move
pub mod Clear
pub mod Start
pub mod Finish
use ophyd_service.Prelude.{
  ℕ, suc, ◌+◌, String, ◌≡◌, refl, sym, ap, ◌∙◌, Bool, true, false, not, ◌&&◌, ◌||◌, Option, none,
  some, List, [], ◌∷◌, if◌then◌else◌, length, ◌==◌, eq_iff, is_some, arith, ◌⊎◌, inl, inr,
  Bool-cases, Option-cases,
}
use ophyd_service.Prelude.Int.{ℤ, pos}
use ophyd_service.Dict
use ophyd_service.Dict.{Dict, get-remove, get-insert}
use ophyd_service.Queue.Json.{Item, uid_of}
use ophyd_service.Queue.State.{PlanQueue, is_running}
use ophyd_service.Queue.Uids.{queued, WellQueued, has_uid_eq, queued-get}

-- The dictionary of uids has exactly the queued items and the running one, which is not queued, and
-- the cached size is the queue's.
pub record IsConsistent (s : PlanQueue) : Type 0 where
  pub items : WellQueued s.uid_dict s.queue
  pub only :
      (u : String) → Dict.contains s.uid_dict u ≡ true → (queued u s.queue || is_running s u) ≡ true
  pub apart : (u : String) → is_running s u ≡ true → queued u s.queue ≡ false
  pub runs : (u : String) → is_running s u ≡ true → Dict.contains s.uid_dict u ≡ true
  pub size : s.queue_size ≡ pos (length s.queue)

-- What the dictionary has under a queued uid.
pub queued-item :
    (d : Dict Item) (is : List Item) (u : String)
    → WellQueued d is
    → queued u is ≡ true
    → (x : Item) × (Dict.get d u ≡ some x) × (uid_of x ≡ some u)
unfolding queued
queued-item d [] u w q = absurd (ground arith)
queued-item d (i ∷ is) u (v, e, g, f, w) q = elim (Bool-cases (v == u)) [
  | inl h ↦ let same = (eq_iff v u).0 h in (i, rw (sym same) g, rw (sym same) e)
  | inr h ↦ queued-item d is u w (ground (arith, h, q, has_uid_eq u i e))
]

-- A queued uid is known and not running; any other known uid is the running item's.
pub waits :
    (s : PlanQueue) (u : String)
    → IsConsistent s
    → queued u s.queue ≡ true
    → (Dict.contains s.uid_dict u ≡ true) × (is_running s u ≡ false)
waits s u c q = elim (Bool-cases (is_running s u)) [
  | inl h ↦ absurd (ground (arith, q, c.apart u h))
  | inr h ↦ (queued-get s.uid_dict s.queue u c.items q, h)
]
