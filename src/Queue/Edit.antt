-- ===== src/Queue/Edit.antt =====
-- Replacing and moving items: `_replace_item` and `_move_item` of
-- queueserver_service/manager/plan_queue_ops.py.
use ophyd_service.Prelude.{
  ℕ, suc, String, Bool, true, false, not, ◌&&◌, ◌||◌, Option, none, some, List, [], ◌∷◌,
  if◌then◌else◌, length, ◌==◌, is_some,
}
use ophyd_service.Prelude.Int.{ℤ, pos, negsuc, sub_ℕ, add_ℕ, is_lt}
use ophyd_service.Dict
use ophyd_service.Queue.Json.{Item, uid_of}
use ophyd_service.Queue.Store.{Where, before, after}
use ophyd_service.Queue.State.{
  PlanQueue, ok, err, Exec, ◌>>=◌, ◌>>◌, pure, raise, gets, raise_if, or_raise, modify, value_error,
  index_error, runtime_error, key_error, refresh_queue_size, uid_dict_remove, uid_dict_add,
  uid_dict_get_item, is_running,
}
use ophyd_service.Queue.Access.{
  Pos, front, back, other, at, get_item, pop_item_from_queue, remove_item,
}
use ophyd_service.Queue.Insert.{
  Place, add_item_to_queue, verify_item, filter_item_parameters, insert_by,
}
use ophyd_service.Queue.Running.{identified}

-- From the verification of the new item on.
unfoldable pub exchange : Item → Item → String → Exec (Item × ℤ)
exchange item old item_uid = do
  verify_item item (item_uid ∷ [])
  let stored = filter_item_parameters item
  insert_by after old stored
  remove_item old true
  uid_dict_remove item_uid
  uid_dict_add stored
  modify refresh_queue_size
  size ← gets (λ s. s.queue_size)
  pure (stored, size)

abbrev pub unchanged : Item → Exec (Item × ℤ)
unchanged item s = (ok (item, pos (length s.queue)), s)

-- `equal` is Python's `==` of two dictionaries, which does not see the order of the keys.
unfoldable pub replace_item : (Item → Item → Bool) → Item → String → Exec (Item × ℤ)
replace_item equal item item_uid = do
  known ← gets (λ s. Dict.contains s.uid_dict item_uid)
  raise_if (not known) runtime_error
  running ← gets (λ s. is_running s item_uid)
  raise_if running runtime_error
  own ← identified item
  old ← uid_dict_get_item item_uid
  if equal own old then unchanged own else exchange own old item_uid

-- `_get_index_by_uid`
abbrev next_index : Option ℕ → Option ℕ
next_index none = none
next_index (some n) = some (suc n)

unfoldable pub index_by_uid : String → List Item → Option ℕ
index_by_uid uid [] = none
index_by_uid uid (i ∷ is) =
    let rest = next_index (index_by_uid uid is) in
    elim (uid_of i) [ none ↦ rest | some u ↦ if u == uid then some 0 else rest ]

abbrev pub given : {A : Type 0} → Option A → Bool
given o = is_some o

-- `except Exception as ex: raise IndexError`
abbrev or_index_error : {A : Type 0} → Exec A → Exec A
or_index_error m s =
    let (r, s') = m s in elim r [ ok a ↦ (ok a, s') | err e ↦ (err index_error, s') ]

-- The index of the source, from either end.
abbrev source_index : Option Pos → Option String → PlanQueue → Option ℤ
source_index (some front) u s = some (pos 0)
source_index (some back) u s = some (sub_ℕ (length s.queue) 1)
source_index (some (at z)) u s = some z
source_index (some other) u s = none
source_index none none s = none
source_index none (some uid) s = elim (index_by_uid uid s.queue) [
  | none ↦ none
  | some n ↦ some (pos n)
]

-- i if i >= 0 else queue_size + i
abbrev from_front : ℕ → ℤ → ℤ
from_front size (pos i) = pos i
from_front size (negsuc i) = add_ℕ size (negsuc i)

-- Before the destination, or after it.
abbrev side : ℕ → ℤ → Pos → Where
side size source front = before
side size source back = after
side size source other = after
side size source (at z) =
    if is_lt (from_front size z) (from_front size source) then before else after

unfoldable pub destination_at : Option Pos → Option String → Pos → Exec (Item × Where)
destination_at p u dest = do
  item ← get_item (some dest) none
  found ← gets (source_index p u)
  source ← or_raise found index_error
  size ← gets (λ s. length s.queue)
  pure (item, side size source dest)

-- before_uid if before_uid else after_uid
abbrev destination_uid : Option String → Option String → Option String
destination_uid none a = a
destination_uid (some b) a = if b == "" then a else some b

abbrev is_before : Option String → Option String → Where
is_before none a = after
is_before (some b) a = if b == "" then after else before

unfoldable pub destination :
    Option Pos → Option String → Option Pos → Option String → Option String → Exec (Item × Where)
destination p u dest b a =
    if given b || given a
    then (do item ← get_item none (destination_uid b a); pure (item, is_before b a))
    else elim dest [ none ↦ raise value_error | some d ↦ destination_at p u d ]

abbrev pub place_by : Where → String → Place
place_by before uid = record { position = none; before_uid = some uid; after_uid = none }
place_by after uid = record { position = none; before_uid = none; after_uid = some uid }

unfoldable pub transfer : String → Where → String → Exec (Item × ℤ)
transfer uid_source w uid_dest = do
  popped ← pop_item_from_queue none (some uid_source)
  add_item_to_queue popped.0 (place_by w uid_dest) false

unfoldable pub move_item :
    Option Pos → Option String → Option Pos → Option String → Option String → Exec (Item × ℤ)
move_item p u dest b a = do
  raise_if (not (given p) && not (given u)) value_error
  raise_if (not (given dest) && not (given b) && not (given a)) value_error
  raise_if (given p && given u) value_error
  raise_if (given dest && (given b || given a)) value_error
  raise_if (given b && given a) value_error
  source ← or_index_error (get_item p u)
  uid_source ← or_raise (uid_of source) key_error
  target ← or_index_error (destination p u dest b a)
  uid_dest ← or_raise (uid_of target.0) key_error
  moved ←
      if uid_source == uid_dest then unchanged target.0 else transfer uid_source target.1 uid_dest
  modify (λ s. record s { queue_size = moved.1 })
  pure moved
