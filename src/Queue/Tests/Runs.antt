-- ===== src/Queue/Tests/Runs.antt =====
-- Concrete runs of a plan, from its start to its end (queueserver_service/manager/plan_queue_ops.py).
use ophyd_service.Prelude.{String, ◌≡◌, refl, Bool, true, false, some, [], ◌∷◌, arith}
use ophyd_service.Dict
use ophyd_service.Queue.Json.{
  Item, Value, text, num, null, obj, field, end, uid_of, of_dict, to_dict,
}
use ophyd_service.Queue.State.{PlanQueue}
use ophyd_service.Queue.Consistent.{IsConsistent}
use ophyd_service.Queue.State.{ok}
use ophyd_service.Queue.Running.{
  set_next_item_as_running, set_property, truthy, clean_item_properties,
}
use ophyd_service.Queue.Finished.{
  RunReport, set_processed_item_as_completed, set_processed_item_as_stopped, with_result,
}
use ophyd_service.Queue.Consistent.Start.{started, set_next_item_as_running-started}
use ophyd_service.Queue.Consistent.Finish.{Ends, Ended, set_processed_item_as_completed-Ended}
use ophyd_service.Queue.Consistent.Finish.Again.{
  renamed, set_processed_item_as_completed-looped, set_processed_item_as_stopped-failed,
}
use ophyd_service.Queue.Tests.{
  uuid4, plan_item, waiting_in, waiting, waiting_in-IsConsistent, waiting-IsConsistent,
  next_unknown,
}

abbrev now : Value
now = num "100"

abbrev a_started : Item
a_started =
    ("item_uid", text "a")
    ∷ ("item_type", text "plan")
    ∷ ("name", text "count")
    ∷ ("properties", obj (field "time_start" now end))
    ∷ []

a_starts : set_property (plan_item "a") "time_start" now ≡ some a_started
unfolding set_property Dict.get Dict.insert of_dict
a_starts = refl

-- The first plan runs.
abbrev busy_in : Bool → PlanQueue
busy_in loop = started (waiting_in loop) a_started (plan_item "b" ∷ [])

a_type : Dict.get (plan_item "a") "item_type" ≡ some (text "plan")
unfolding Dict.get
a_type = refl

set_next_item_as_running-started_example :
    (set_next_item_as_running [] now waiting ≡ (ok a_started, busy_in false))
    × (uid_of a_started ≡ uid_of (plan_item "a"))
    × IsConsistent (busy_in false)
set_next_item_as_running-started_example =
    set_next_item_as_running-started waiting (plan_item "a") a_started (plan_item "b" ∷ []) now
      waiting-IsConsistent refl refl a_type a_starts

busy_in-IsConsistent : (loop : Bool) → IsConsistent (busy_in loop)
busy_in-IsConsistent loop =
    (set_next_item_as_running-started (waiting_in loop) (plan_item "a") a_started
      (plan_item "b" ∷ []) now (waiting_in-IsConsistent loop) refl refl a_type a_starts).2

abbrev report : String → RunReport
report status = record {
  exit_status = status;
  run_uids = null;
  scan_ids = null;
  err_msg = null;
  err_tb = null;
}

-- The item that ran, with the report of its end.
abbrev a_done : String → Item
a_done status =
    ("item_uid", text "a")
    ∷ ("item_type", text "plan")
    ∷ ("name", text "count")
    ∷ (
      "result",
      obj (
          field "exit_status" (text status) (
            field "run_uids" null (
              field "scan_ids" null (
                field "time_start" now
                  (field "time_stop" now (field "msg" null (field "traceback" null end))))))),
    )
    ∷ []

a_done-Ends :
    (loop : Bool) (status : String)
    → Ends (busy_in loop) (report status) now "a" (plan_item "a") (a_done status)
unfolding uid_of Dict.get Dict.insert Dict.remove truthy clean_item_properties with_result to_dict
    of_dict
a_done-Ends loop status = record {
  properties = ("time_start", now) ∷ [];
  start = now;
  has_uid = refl;
  has_properties = refl;
  has_start = refl;
  from_queue = refl;
  cleans = refl;
  reports = refl;
}

set_processed_item_as_completed-Ended_example :
    Ended
      (busy_in false)
      (a_done "completed")
      (plan_item "b" ∷ [])
      (Dict.remove waiting.uid_dict "a")
      (set_processed_item_as_completed (report "completed") now (busy_in false))
set_processed_item_as_completed-Ended_example =
    set_processed_item_as_completed-Ended (busy_in false) (report "completed") now "a"
      (plan_item "a") (a_done "completed") (busy_in-IsConsistent false)
      (a_done-Ends false "completed") refl

set_processed_item_as_completed-looped_example :
    Ended
      (busy_in true)
      (a_done "completed")
      (plan_item "b" ∷ renamed (plan_item "a") (uuid4 3) ∷ [])
      (Dict.insert (Dict.remove waiting.uid_dict "a") (uuid4 3) (renamed (plan_item "a") (uuid4 3)))
      (set_processed_item_as_completed (report "completed") now (busy_in true))
set_processed_item_as_completed-looped_example =
    set_processed_item_as_completed-looped (busy_in true) (report "completed") now "a"
      (plan_item "a") (a_done "completed") (busy_in-IsConsistent true)
      (a_done-Ends true "completed") refl (next_unknown 3 (omega arith))

set_processed_item_as_stopped-failed_example :
    Ended
      (busy_in false)
      (a_done "failed")
      (renamed (a_done "failed") (uuid4 5) ∷ plan_item "b" ∷ [])
      (Dict.insert
        (Dict.remove waiting.uid_dict "a")
        (uuid4 5)
        (renamed (a_done "failed") (uuid4 5)))
      (set_processed_item_as_stopped (report "failed") now (busy_in false))
set_processed_item_as_stopped-failed_example =
    set_processed_item_as_stopped-failed (busy_in false) (report "failed") now "a" (plan_item "a")
      (a_done "failed") (busy_in-IsConsistent false) (a_done-Ends false "failed") refl
      (next_unknown 5 (omega arith))
