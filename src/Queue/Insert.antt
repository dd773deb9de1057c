-- ===== src/Queue/Insert.antt =====
-- Adding and replacing items: `_verify_item`, `filter_item_parameters`, `_add_item_to_queue`,
-- `_add_batch_to_queue` and `_replace_item` of queueserver_service/manager/plan_queue_ops.py.
use mathlib.Core.List.{reverse}
use ophyd_service.Prelude.{
  ℕ, zero, suc, String, Bool, true, false, not, ◌&&◌, ◌||◌, Option, none, some, List, [], ◌∷◌,
  if◌then◌else◌, length, is_some, member, map,
}
use ophyd_service.Prelude.Int.{ℤ, pos, negsuc, is_lt, is_eq, add_ℕ}
use ophyd_service.Dict
use ophyd_service.Dict.{Dict}
use ophyd_service.Queue.Json.{Item, uid_of}
use ophyd_service.Queue.Store.{Where, before, after, list_insert, list_push_front, list_push_back}
use ophyd_service.Queue.State.{
  PlanQueue, Result, ok, err, Exec, ◌>>=◌, ◌>>◌, pure, raise, gets, raise_if, or_raise, modify,
  value_error, runtime_error, index_error, refresh_queue_size, uid_dict_add, uid_dict_get_item,
  is_empty, is_running, set_new_item_uuid,
}
use ophyd_service.Queue.Access.{
  Pos, front, back, other, at, or_back, get_item_at, pop_item_from_queue,
}

abbrev pub allowed_item_parameters : List String
allowed_item_parameters =
    "item_uid" ∷ "item_type" ∷ "name" ∷ "args" ∷ "kwargs" ∷ "meta" ∷ "user" ∷ "user_group"
    ∷ "properties" ∷ []

unfoldable pub keep_keys : List String → Item → Item
keep_keys allowed [] = []
keep_keys allowed ((k, w) ∷ item) =
    let rest = keep_keys allowed item in if member k allowed then (k, w) ∷ rest else rest

unfoldable pub filter_item_parameters : Item → Item
filter_item_parameters item = keep_keys allowed_item_parameters item

-- `ignore` is the list `ignore_uids`.
unfoldable pub verify_item : Item → List String → Exec (Unit {0})
verify_item item ignore = do
  uid ← or_raise (uid_of item) value_error
  known ← gets (λ s. Dict.contains s.uid_dict uid)
  raise_if (not (member uid ignore) && known) runtime_error

-- Where a new item goes: the arguments `pos`, `before_uid` and `after_uid`.
pub record Place : Type 0 where
  pub position : Option Pos
  pub before_uid : Option String
  pub after_uid : Option String

abbrev minus : ℕ → ℤ
minus zero = pos 0
minus (suc n) = negsuc n

-- A position outside the queue becomes an end.
unfoldable pub clip : ℕ → Pos → Pos
clip qsize (at i) =
    if is_eq i (pos 0) || is_lt i (minus qsize)
    then front
    else if is_eq i (negsuc 0) || not (is_lt i (pos qsize))
    then back
    else at i
clip qsize p = p

unfoldable pub push_front : Item → Exec ℤ
push_front item s =
    let q = list_push_front s.queue item in (ok (pos (length q)), record s { queue = q })

unfoldable pub push_back : Item → Exec ℤ
push_back item s =
    let q = list_push_back s.queue item in (ok (pos (length q)), record s { queue = q })

unfoldable pub insert_by : Where → Item → Item → Exec ℤ
insert_by w pivot item s =
    let (q, n) = list_insert s.queue w pivot item in (ok n, record s { queue = q })

abbrev near_running : Where → Item → Exec ℤ
near_running before item = raise index_error
near_running after item = push_front item

-- The branch for `before_uid` or `after_uid`.
unfoldable pub insert_near : Where → String → Item → Exec ℤ
insert_near w uid item = do
  known ← gets (λ s. Dict.contains s.uid_dict uid)
  raise_if (not known) index_error
  running ← gets (λ s. is_running s uid)
  if running
      then near_running w item
      else (do pivot ← uid_dict_get_item uid; insert_by w pivot item)

-- The branches for a position, after clipping.
unfoldable pub insert_at : Pos → Item → Exec ℤ
insert_at back item = push_back item
insert_at front item = push_front item
insert_at other item = raise value_error
insert_at (at i) item = do
  pivot ← get_item_at (at (if is_lt (pos 0) i then i else add_ℕ 1 i))
  if is_empty pivot then raise runtime_error else insert_by before pivot item

-- The item that is stored: with a new uid if it has none, and filtered on request.
unfoldable pub prepare_item : Item → Exec Item
prepare_item item =
    if Dict.contains item "item_uid"
    then (do verify_item item []; pure item)
    else set_new_item_uuid item

unfoldable pub insert_item : Place → Item → Exec ℤ
insert_item p item = do
  qsize ← gets (λ s. length s.queue)
  elim p.before_uid [
    | some uid ↦ insert_near before uid item
    | none ↦ elim p.after_uid [
      | some uid ↦ insert_near after uid item
      | none ↦ insert_at (clip qsize (or_back p.position)) item
    ]
  ]

unfoldable pub add_item_to_queue : Item → Place → Bool → Exec (Item × ℤ)
add_item_to_queue item p filter_parameters = do
  raise_if (is_some p.position && (is_some p.before_uid || is_some p.after_uid)) value_error
  raise_if (is_some p.before_uid && is_some p.after_uid) value_error
  prepared ← prepare_item item
  let stored = if filter_parameters then filter_item_parameters prepared else prepared
  qsize ← insert_item p stored
  modify (λ s. record s { queue_size = qsize })
  uid_dict_add stored
  pure (stored, qsize)

-- The last of the uids that were added, if any, is where the next item goes.
abbrev pub next_place : Place → List String → Place
next_place p [] = p
next_place p (uid ∷ uids) = record { position = none; before_uid = none; after_uid = some uid }

-- A success adds the item's uid; an item without one fails at `item_added["item_uid"]`, which the
-- addition has excluded.
abbrev pub added_after : Result (Item × ℤ) → List String → List String
added_after (err e) added = added
added_after (ok (item, size)) added = elim (uid_of item) [ none ↦ added | some uid ↦ uid ∷ added ]

abbrev pub reported : Item → Result (Item × ℤ) → Item × Bool
reported item (err e) = (item, false)
reported item (ok (item', size)) = (item', true)

-- The loop of the batch: the reports of the items, and the uids that were added, newest first.
unfoldable pub add_each :
    Place
    → Bool
    → List String
    → List Item
    → PlanQueue
    → (List (Item × Bool) × List String) × PlanQueue
add_each p fp added [] s = (([], added), s)
add_each p fp added (item ∷ items) s =
    let (r, s') = add_item_to_queue item (next_place p added) fp s in
    let ((reports, uids), s'') = add_each p fp (added_after r added) items s' in
    ((reported item r ∷ reports, uids), s'')

-- The 'undo' loop, in the order in which the items were added; failures are logged.
unfoldable pub undo : List String → PlanQueue → PlanQueue
undo [] s = s
undo (uid ∷ uids) s = undo uids (pop_item_from_queue none (some uid) s).1

unfoldable pub all_succeeded : List (Item × Bool) → Bool
all_succeeded [] = true
all_succeeded ((item, success) ∷ reports) = success && all_succeeded reports

pub record BatchResult : Type 0 where
  pub items_added : List Item
  pub results : List Bool
  pub queue_size : ℤ
  pub success : Bool

unfoldable pub add_batch_to_queue : List Item → Place → Bool → PlanQueue → BatchResult × PlanQueue
add_batch_to_queue items p fp s =
    let ((reports, uids), added) = add_each p fp [] items s in
    let success = all_succeeded reports in
    let left = refresh_queue_size (if success then added else undo (reverse uids) added) in
    (
      record {
        items_added = if success then map (λ r. r.0) reports else items;
        results = map (λ r. r.1) reports;
        queue_size = left.queue_size;
        success = success;
      },
      left,
    )
