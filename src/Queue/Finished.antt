-- ===== src/Queue/Finished.antt =====
-- Finishing items: `_set_processed_item_as_completed` and `_set_processed_item_as_stopped` of
-- queueserver_service/manager/plan_queue_ops.py, with the history. The time is an argument.
use ophyd_service.Prelude.{
  String, false, not, ◌&&◌, Option, none, some, [], if◌then◌else◌, length, ◌==◌,
}
use ophyd_service.Dict
use ophyd_service.Dict.{Dict}
use ophyd_service.Queue.Json.{Item, Value, text, obj, uid_of, of_dict}
use ophyd_service.Queue.Store.{list_push_back}
use ophyd_service.Queue.State.{
  PlanQueue, Exec, ◌>>=◌, ◌>>◌, pure, gets, or_raise, modify, type_error, key_error,
  refresh_queue_size, refresh_history_size, refresh_running, renew_queue_uid, renew_history_uid,
  uid_dict_remove, uid_dict_add, is_empty, set_new_item_uuid,
}
use ophyd_service.Queue.Access.{front}
use ophyd_service.Queue.Insert.{Place, add_item_to_queue}
use ophyd_service.Queue.Running.{
  sub_dict, properties_of, is_immediate, clean_item_properties, set_running,
}

-- What the run engine reports of a run.
pub record RunReport : Type 0 where
  pub exit_status : String
  pub run_uids : Value
  pub scan_ids : Value
  pub err_msg : Value
  pub err_tb : Value

-- item_cleaned["result"] and its keys
unfoldable pub with_result : Item → RunReport → Value → Value → Option Item
with_result item r started stopped = elim (sub_dict item "result") [
  | none ↦ none
  | some d0 ↦
      let d1 = Dict.insert d0 "exit_status" (text r.exit_status) in
      let d2 = Dict.insert d1 "run_uids" r.run_uids in
      let d3 = Dict.insert d2 "scan_ids" r.scan_ids in
      let d4 = Dict.insert d3 "time_start" started in
      let d5 = Dict.insert d4 "time_stop" stopped in
      let d6 = Dict.insert d5 "msg" r.err_msg in
      let d7 = Dict.insert d6 "traceback" r.err_tb in
      some (Dict.insert item "result" (obj (of_dict d7)))
]

unfoldable pub add_to_history : Item → PlanQueue → PlanQueue
add_to_history item s =
    let h = list_push_back s.history item in
    record (renew_history_uid s) { history = h; history_size = length h }

abbrev pub refresh_all : PlanQueue → PlanQueue
refresh_all s = refresh_running (refresh_history_size (refresh_queue_size s))

-- self._uid_dict_remove(item["item_uid"])
unfoldable pub remove_uid_of : Item → Exec (Unit {0})
remove_uid_of item = do uid ← or_raise (uid_of item) key_error; uid_dict_remove uid

abbrev push_to_queue : Item → PlanQueue → PlanQueue
push_to_queue item s = record s { queue = list_push_back s.queue item }

-- The branch of the loop mode.
unfoldable pub requeue : Item → Item → Exec (Unit {0})
requeue item cleaned = do
  item_to_add ← set_new_item_uuid cleaned
  modify (push_to_queue item_to_add)
  remove_uid_of item
  uid_dict_add item_to_add

-- The branch in which an item runs.
unfoldable pub complete_running : RunReport → Value → Exec Item
complete_running r now = do
  item ← gets (λ s. s.running)
  loop ← gets (λ s. s.mode.loop)
  properties ← or_raise (properties_of item) key_error
  started ← or_raise (Dict.get properties "time_start") key_error
  cleaned ← or_raise (clean_item_properties item) type_error
  let immediate = is_immediate properties
  if loop && not immediate then requeue item cleaned else pure tt
  done ← or_raise (with_result cleaned r started now) type_error
  modify (set_running [])
  if not loop && not immediate then remove_uid_of item else pure tt
  modify renew_queue_uid
  modify (add_to_history done)
  pure done

unfoldable pub set_processed_item_as_completed : RunReport → Value → Exec Item
set_processed_item_as_completed r now = do
  idle ← gets (λ s. is_empty s.running)
  cleaned ← if idle then pure [] else complete_running r now
  modify refresh_all
  pure cleaned

abbrev pub at_front : Place
at_front = record { position = some front; before_uid = none; after_uid = none }

-- The item goes back to the front of the queue under a new uid.
unfoldable pub push_back_in : Item → Item → Exec (Unit {0})
push_back_in item done = do
  remove_uid_of item
  pushed ← set_new_item_uuid done
  add_item_to_queue pushed at_front false
  pure tt

-- The branch in which an item runs, for an exit status other than "stopped".
unfoldable pub fail_running : RunReport → Value → Exec Item
fail_running r now = do
  item ← gets (λ s. s.running)
  properties ← or_raise (properties_of item) key_error
  started ← or_raise (Dict.get properties "time_start") key_error
  cleaned ← or_raise (clean_item_properties item) type_error
  done ← or_raise (with_result cleaned r started now) type_error
  modify (add_to_history done)
  modify (set_running [])
  if is_immediate properties then pure tt else push_back_in item done
  modify renew_queue_uid
  pure done

unfoldable pub set_processed_item_as_failed : RunReport → Value → Exec Item
set_processed_item_as_failed r now = do
  idle ← gets (λ s. is_empty s.running)
  if idle then pure [] else fail_running r now

unfoldable pub set_processed_item_as_stopped : RunReport → Value → Exec Item
set_processed_item_as_stopped r now = do
  let as_completed = set_processed_item_as_completed r now
  let as_failed = set_processed_item_as_failed r now
  cleaned ← if r.exit_status == "stopped" then as_completed else as_failed
  modify refresh_all
  pure cleaned

unfoldable pub clear_history : PlanQueue → PlanQueue
clear_history s = refresh_history_size (record (renew_history_uid s) { history = [] })
