-- ===== src/Queue/Running.antt =====
-- Starting items: `_set_next_item_as_running` and `_process_next_item` of
-- queueserver_service/manager/plan_queue_ops.py. The time is an argument.
use ophyd_service.Prelude.{
  String, Bool, true, false, not, Option, none, some, [], ◌∷◌, if◌then◌else◌, ◌==◌, member,
}
use ophyd_service.Dict
use ophyd_service.Dict.{Dict}
use ophyd_service.Queue.Json.{
  Item, Value, null, bool, num, text, arr, obj, nil, cons, end, field, to_dict, of_dict,
}
use ophyd_service.Queue.Store.{list_pop_front}
use ophyd_service.Queue.State.{
  PlanQueue, Result, ok, err, Exec, ◌>>=◌, ◌>>◌, pure, gets, raise_if, or_raise, modify, type_error,
  runtime_error, key_error, exception, refresh_queue_size, refresh_running, renew_queue_uid,
  is_empty, set_new_item_uuid,
}
use ophyd_service.Queue.Access.{front, get_item_at, pop_item_from_queue}
use ophyd_service.Queue.Insert.{Place, add_item_to_queue}

-- bool(value); a zero is written in one of these ways by `json.dumps`.
unfoldable pub truthy : Value → Bool
truthy null = false
truthy (bool b) = b
truthy (num s) = not (member s ("0" ∷ "0.0" ∷ "-0.0" ∷ []))
truthy (text s) = not (s == "")
truthy (arr nil) = false
truthy (arr (cons x xs)) = true
truthy (obj end) = false
truthy (obj (field k x fs)) = true

abbrev pub as_dict : Value → Option (Dict Value)
as_dict (obj fs) = some (to_dict fs)
as_dict _ = none

-- item.setdefault(key, {}), as a dictionary; `none` if it is not one.
abbrev pub sub_dict : Item → String → Option (Dict Value)
sub_dict item key = elim (Dict.get item key) [ none ↦ some [] | some v ↦ as_dict v ]

-- item.setdefault("properties", {})[key] = v
unfoldable pub set_property : Item → String → Value → Option Item
set_property item key v = elim (sub_dict item "properties") [
  | none ↦ none
  | some p ↦ some (Dict.insert item "properties" (obj (of_dict (Dict.insert p key v))))
]

-- item["properties"], of an item that has been set as running
abbrev pub properties_of : Item → Option (Dict Value)
properties_of item = elim (Dict.get item "properties") [ none ↦ none | some v ↦ as_dict v ]

abbrev pub flag : Option Value → Bool
flag none = false
flag (some v) = truthy v

-- properties.get("immediate_execution", False)
abbrev pub is_immediate : Dict Value → Bool
is_immediate p = flag (Dict.get p "immediate_execution")

abbrev put_properties : Item → Dict Value → Item
put_properties item [] = Dict.remove item "properties"
put_properties item (f ∷ fs) = Dict.insert item "properties" (obj (of_dict (f ∷ fs)))

-- `_clean_item_properties`, of an item whose properties are a dictionary.
unfoldable pub clean_item_properties : Item → Option Item
clean_item_properties item = elim (Dict.get item "properties") [
  | none ↦ some item
  | some v ↦ elim (as_dict v) [
    | none ↦ none
    | some p ↦
        some (put_properties item (Dict.remove (Dict.remove p "immediate_execution") "time_start"))
  ]
]

abbrev pub is_plan : Value → Bool
is_plan (text t) = t == "plan"
is_plan _ = false

-- The store and the cache.
abbrev pub set_running : Item → PlanQueue → PlanQueue
set_running plan s = record s { running = plan; running_item_info = plan }

abbrev pub drop_front : PlanQueue → PlanQueue
drop_front s = record s { queue = (list_pop_front s.queue).1 }

-- From the type of the plan on.
unfoldable pub start_plan : Bool → Item → Value → Exec Item
start_plan immediate plan now = do
  item_type ← or_raise (Dict.get plan "item_type") exception
  raise_if (not (is_plan item_type)) runtime_error
  if immediate then pure tt else modify drop_front
  started ← or_raise (set_property plan "time_start" now) type_error
  modify (set_running started)
  modify renew_queue_uid
  pure started

-- The `try` block, for the item at the front or for one that is to be executed at once.
unfoldable pub try_front : Value → Exec Item
try_front now = do
  idle ← gets (λ s. is_empty s.running)
  raise_if (not idle) exception
  plan ← get_item_at front
  raise_if (is_empty plan) exception
  start_plan false plan now

unfoldable pub try_immediate : Item → Value → Exec Item
try_immediate item now = do
  idle ← gets (λ s. is_empty s.running)
  raise_if (not idle) exception
  start_plan true item now

-- `except RuntimeError: raise`, `except Exception: plan = {}`
abbrev pub handled : Result Item → Result Item
handled (ok plan) = ok plan
handled (err runtime_error) = err runtime_error
handled (err _) = ok []

abbrev guarded : Exec Item → Exec Item
guarded m s = let (r, s') = m s in (handled r, s')

-- item if "item_uid" in item else self.set_new_item_uuid(item)
abbrev pub identified : Item → Exec Item
identified item = if Dict.contains item "item_uid" then pure item else set_new_item_uuid item

unfoldable pub started_plan : Item → Value → Exec Item
started_plan item now = if is_empty item then guarded (try_front now) else (do
  own ← identified item
  marked ← or_raise (set_property own "immediate_execution" (bool true)) type_error
  guarded (try_immediate marked now))

-- `item` is `{}` where no item is submitted for immediate execution.
unfoldable pub set_next_item_as_running : Item → Value → Exec Item
set_next_item_as_running item now = do
  plan ← started_plan item now
  modify refresh_queue_size
  modify refresh_running
  pure plan

abbrev at_back : Place
at_back = record { position = none; before_uid = none; after_uid = none }

unfoldable pub add_again : Item → Exec (Unit {0})
add_again item = do
  renewed ← set_new_item_uuid item
  add_item_to_queue renewed at_back true
  pure tt

unfoldable pub pass_instruction : Item → Exec Item
pass_instruction item = do
  pop_item_from_queue (some front) none
  loop ← gets (λ s. s.mode.loop)
  if loop then add_again item else pure tt
  pure item

-- Running, or passing over, an item that is not empty.
unfoldable pub process_item : Bool → Item → Value → Exec Item
process_item immediate item now = do
  item_type ← or_raise (Dict.get item "item_type") key_error
  let chosen = if immediate then item else []
  let passed = if immediate then pure item else pass_instruction item
  if is_plan item_type then set_next_item_as_running chosen now else passed

unfoldable pub process_next_item : Item → Value → Exec Item
process_next_item item now = do
  chosen ← if is_empty item then get_item_at front else identified item
  returned ← if is_empty chosen then pure [] else process_item (not (is_empty item)) chosen now
  modify refresh_queue_size
  modify refresh_running
  pure returned
