-- ===== src/Queue/History.antt =====
-- Trimming the history: `_trim_history` of queueserver_service/manager/plan_queue_ops.py.
use ophyd_service.Prelude.{
  ℕ, zero, suc, ◌-◌, ◌≤◌, String, ◌≡◌, refl, ap, Option, none, some, List, [], ◌∷◌, if◌then◌else◌,
  length, leb, ltb, drop, take-length, length-drop, arith, inl, inr, Bool-cases,
}
use ophyd_service.Prelude.Int.{ℤ, pos, negsuc, is_lt}
use ophyd_service.Queue.Json.{Item}
use ophyd_service.Queue.Store.{list_trim, resolve_range}
use ophyd_service.Queue.State.{
  PlanQueue, ok, Exec, raise, modify, value_error, refresh_history_size, renew_history_uid,
}
use ophyd_service.Queue.Edit.{index_by_uid}

-- max(new_size, 0), for a size below the length of the history
abbrev to_size : ℤ → ℕ
to_size (pos n) = n
to_size (negsuc n) = 0

-- Dropping that many of the oldest items.
unfoldable pub delete_oldest : ℕ → PlanQueue → PlanQueue
delete_oldest n s =
    renew_history_uid (record s { history = list_trim s.history (pos n) (negsuc 0) })

unfoldable pub trim_to : ℤ → PlanQueue → PlanQueue
trim_to new_size s =
    let size = length s.history in
    if is_lt new_size (pos size) then delete_oldest (size - to_size new_size) s else s

-- Up to and with the first item of that uid; the items of the history have uids.
unfoldable pub trim_after : String → PlanQueue → PlanQueue
trim_after uid s = elim (index_by_uid uid s.history) [ none ↦ s | some n ↦ delete_oldest (suc n) s ]

unfoldable pub trim_history : Option ℤ → Option String → Exec (Unit {0})
trim_history none none = raise value_error
trim_history (some n) (some uid) = raise value_error
trim_history (some n) none = modify (λ s. refresh_history_size (trim_to n s))
trim_history none (some uid) = modify (λ s. refresh_history_size (trim_after uid s))

drop_all : (n : ℕ) (l : List Item) → length l ≤ n → drop n l ≡ []
drop_all zero [] h = refl
drop_all zero (x ∷ l) h = absurd (omega arith)
drop_all (suc n) [] h = refl
drop_all (suc n) (x ∷ l) h = drop_all n l (omega arith)

list_trim-drop : (l : List Item) (n : ℕ) → list_trim l (pos n) (negsuc 0) ≡ drop n l
unfolding list_trim resolve_range
list_trim-drop l n = elim (Bool-cases (leb (length l) n)) [
  | inl h ↦ ground (arith, h, drop_all n l)
  | inr h ↦ ground (arith, h, take-length (length l - n) (drop n l), length-drop n l)
]

drop_more : (l : List Item) (n : ℕ) → length l ≤ n → drop (length l - n) l ≡ l
drop_more l n h = ap (λ k. drop k l) none_left
  where
    none_left : length l - n ≡ 0
    none_left = omega arith

trim_to-drop :
    (s : PlanQueue) (z : ℤ) → (trim_to z s).history ≡ drop (length s.history - to_size z) s.history
unfolding trim_to delete_oldest
trim_to-drop s (negsuc n) = list_trim-drop s.history (length s.history - 0)
trim_to-drop s (pos n) = elim (Bool-cases (ltb n (length s.history))) [
  | inl h ↦ ground (arith, h, list_trim-drop s.history (length s.history - n))
  | inr h ↦ ground (arith, h, drop_more s.history n)
]

-- Trimming the history to a size keeps its newest items, as many as that, or all of them if there are
-- not more, and for a negative size none; the cached size is the new length, and nothing
-- raises.
pub trim_history-newest :
    (s : PlanQueue) (new_size : ℤ)
    → let (r, s') = trim_history (some new_size) none s in
      (r ≡ ok tt)
      × (s'.history ≡ drop (length s.history - to_size new_size) s.history)
      × (s'.history_size ≡ length s'.history)
      × (length s'.history ≤ length s.history)
unfolding trim_history
trim_history-newest s new_size =
    let kept = trim_to-drop s new_size in
    (
      refl,
      kept,
      refl,
      omega (arith, ap length kept, length-drop (length s.history - to_size new_size) s.history),
    )
