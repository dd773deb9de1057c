-- ===== src/Queue/Access.antt =====
-- Reading and removing items: `_get_item`, `_pop_item_from_queue`, `_pop_item_from_queue_batch` and
-- `_clear_queue` of queueserver_service/manager/plan_queue_ops.py.
use ophyd_service.Prelude.{
  String, Bool, true, false, not, ◌&&◌, ◌||◌, Option, none, some, List, [], ◌∷◌, if◌then◌else◌,
  member, eqb,
}
use ophyd_service.Prelude.Int.{ℤ, pos, negsuc}
use ophyd_service.Dict
use ophyd_service.Dict.{Dict}
use ophyd_service.Queue.Json.{Item, uid_of}
use ophyd_service.Queue.Store.{list_index, list_remove, list_pop_front, list_pop_back}
use ophyd_service.Queue.State.{
  PlanQueue, Result, ok, err, Exec, ◌>>=◌, ◌>>◌, pure, raise, gets, raise_if, or_raise, modify,
  value_error, type_error, runtime_error, index_error, key_error, refresh_queue_size,
  uid_dict_remove, uid_dict_add, uid_dict_clear, uid_dict_get_item, is_empty, is_running,
  renew_queue_uid,
}

-- A position argument: "front", "back", an integer, or anything else.
pub data Pos : Type 0 where
  front back other : Pos
  at : ℤ → Pos

unfoldable pub index_of : Pos → Option ℤ
index_of back = some (negsuc 0)
index_of front = some (pos 0)
index_of (at i) = some i
index_of other = none

-- The branch of `_get_item` for a position.
unfoldable pub get_item_at : Pos → Exec Item
unfolding index_of
get_item_at p = do
  index ← or_raise (index_of p) type_error
  found ← gets (λ s. list_index s.queue index)
  or_raise found index_error

-- The branch of `_get_item` for a uid.
unfoldable pub get_item_by_uid : String → Exec Item
get_item_by_uid uid = do
  known ← gets (λ s. Dict.contains s.uid_dict uid)
  raise_if (not known) index_error
  running ← gets (λ s. is_running s uid)
  raise_if running index_error
  uid_dict_get_item uid

abbrev pub or_back : Option Pos → Pos
or_back none = back
or_back (some p) = p

unfoldable pub get_item : Option Pos → Option String → Exec Item
get_item (some p) (some uid) = raise value_error
get_item none (some uid) = get_item_by_uid uid
get_item p none = get_item_at (or_back p)

unfoldable pub remove_item : Item → Bool → Exec (Unit {0})
remove_item item single = do
  n ← gets (λ s. (list_remove s.queue item).1)
  modify (λ s. refresh_queue_size (record s { queue = (list_remove s.queue item).0 }))
  raise_if (not (eqb n 1) && single) runtime_error

unfoldable pub pop_back : Exec Item
pop_back = do
  popped ← gets (λ s. (list_pop_back s.queue).0)
  modify (λ s. record s { queue = (list_pop_back s.queue).1 })
  or_raise popped index_error

unfoldable pub pop_front : Exec Item
pop_front = do
  popped ← gets (λ s. (list_pop_front s.queue).0)
  modify (λ s. record s { queue = (list_pop_front s.queue).1 })
  or_raise popped index_error

unfoldable pub pop_by_uid : String → Exec Item
pop_by_uid uid = do
  known ← gets (λ s. Dict.contains s.uid_dict uid)
  raise_if (not known) index_error
  running ← gets (λ s. is_running s uid)
  raise_if running index_error
  item ← uid_dict_get_item uid
  remove_item item true
  pure item

unfoldable pub pop_at : ℤ → Exec Item
unfolding get_item_at
pop_at i = do
  item ← get_item_at (at i)
  if is_empty item then pure tt else remove_item item true
  pure item

-- The branches of `_pop_item_from_queue` that find and remove the item.
unfoldable pub pop_source : Option Pos → Option String → Exec Item
pop_source (some p) (some uid) = raise value_error
pop_source none (some uid) = pop_by_uid uid
pop_source none none = pop_back
pop_source (some back) none = pop_back
pop_source (some front) none = pop_front
pop_source (some (at i)) none = pop_at i
pop_source (some other) none = raise value_error

-- if item: self._uid_dict_remove(item["item_uid"])
unfoldable pub forget : Item → Exec (Unit {0})
forget [] = pure tt
forget (f ∷ fs) = do uid ← or_raise (uid_of (f ∷ fs)) key_error; uid_dict_remove uid

unfoldable pub pop_item_from_queue : Option Pos → Option String → Exec (Item × ℤ)
pop_item_from_queue p u = do
  item ← pop_source p u
  forget item
  modify refresh_queue_size
  size ← gets (λ s. s.queue_size)
  pure (item, size)

abbrev keep_popped :
    Result (Item × ℤ) → Result (List Item) × PlanQueue → Result (List Item) × PlanQueue
keep_popped (ok (item, size)) (ok items, s) = (ok (item ∷ items), s)
keep_popped _ rest = rest

-- The loop of the batch: an item that cannot be removed is logged and passed over.
unfoldable pub pop_each : List String → Exec (List Item)
pop_each [] s = (ok [], s)
pop_each (uid ∷ uids) s =
    let (r, s') = pop_item_from_queue none (some uid) s in keep_popped r (pop_each uids s')

-- len(set(uids)) != len(uids)
unfoldable pub has_repeated : List String → Bool
has_repeated [] = false
has_repeated (u ∷ us) = member u us || has_repeated us

unfoldable pub all_known : Dict Item → List String → Bool
all_known d [] = true
all_known d (u ∷ us) = Dict.contains d u && all_known d us

unfoldable pub pop_item_from_queue_batch : List String → Bool → Exec (List Item × ℤ)
pop_item_from_queue_batch uids ignore_missing = do
  raise_if (not ignore_missing && has_repeated uids) value_error
  known ← gets (λ s. all_known s.uid_dict uids)
  raise_if (not ignore_missing && not known) value_error
  items ← pop_each uids
  modify refresh_queue_size
  size ← gets (λ s. s.queue_size)
  pure (items, size)

unfoldable pub readd_running : Exec (Unit {0})
readd_running s = elim (uid_of s.running) [
  | none ↦ (err key_error, s)
  | some uid ↦ (do item ← uid_dict_get_item uid; uid_dict_clear; uid_dict_add item) s
]

unfoldable pub clear_queue : Exec (Unit {0})
clear_queue = do
  modify (λ s. record (renew_queue_uid s) { queue = [] })
  idle ← gets (λ s. is_empty s.running)
  if idle then uid_dict_clear else readd_running
  modify refresh_queue_size
