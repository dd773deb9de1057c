-- ===== src/Queue/Consistent/Finish.antt =====
-- `_set_processed_item_as_completed` and `_set_processed_item_as_stopped` of
-- queueserver_service/manager/plan_queue_ops.py for an item that came from the queue.
pub mod Again
use ophyd_service.Prelude.{
  ℕ, zero, suc, ◌+◌, String, ◌≡◌, refl, sym, ap, ◌∙◌, Bool, true, false, not, ◌&&◌, ◌||◌, Option,
  none, some, List, [], ◌∷◌, ◌++◌, if◌then◌else◌, length, ◌==◌, eq_iff, is_some, arith, ◌⊎◌, inl,
  inr, Bool-cases, Option-cases, member,
}
use ophyd_service.Prelude.Int.{ℤ, pos}
use ophyd_service.Dict
use ophyd_service.Dict.{Dict, get-insert, get-insert_self, get-remove}
use ophyd_service.Queue.Json.{Item, Value, text, obj, of_dict, uid_of}
use ophyd_service.Queue.Store.{list_push_back, list_push_front}
use ophyd_service.Queue.State.{
  PlanQueue, Exec, Result, ok, err, Error, is_running, is_empty, set_new_item_uuid, uid_dict_remove,
  uid_dict_add, renew_queue_uid,
}
use ophyd_service.Queue.Insert.{
  add_item_to_queue, prepare_item, verify_item, insert_item, insert_at, push_front, clip,
}
use ophyd_service.Queue.Running.{properties_of, is_immediate, clean_item_properties, set_running}
use ophyd_service.Queue.Finished.{
  RunReport, with_result, add_to_history, remove_uid_of, requeue, complete_running,
  set_processed_item_as_completed, push_back_in, fail_running, set_processed_item_as_failed,
  set_processed_item_as_stopped, refresh_all,
}
use ophyd_service.Queue.Uids.{
  queued, WellQueued, has_uid_eq, has_uid, queued-get, WellQueued-remove,
}
use ophyd_service.Queue.Consistent.{IsConsistent}
use ophyd_service.Queue.Consistent.Ends.{not_empty}
use ophyd_service.Queue.Consistent.Add.Whole.{holding-IsConsistent, holding}
use ophyd_service.Queue.Consistent.Start.{none_running}

-- The item that runs came from the queue, and the report of its end can be made.
pub record Ends (s : PlanQueue) (r : RunReport) (now : Value) (u : String) (cleaned done : Item)
    : Type 0 where
  pub properties : Dict Value
  pub start : Value
  pub has_uid : uid_of s.running ≡ some u
  pub has_properties : properties_of s.running ≡ some properties
  pub has_start : Dict.get properties "time_start" ≡ some start
  pub from_queue : is_immediate properties ≡ false
  pub cleans : clean_item_properties s.running ≡ some cleaned
  pub reports : with_result cleaned r start now ≡ some done

-- Consistency looks at four fields.
pub carry :
    (s s' : PlanQueue)
    → s'.queue ≡ s.queue
    → s'.uid_dict ≡ s.uid_dict
    → s'.running ≡ s.running
    → s'.queue_size ≡ pos (length s.queue)
    → IsConsistent s
    → IsConsistent s'
carry s s' a b d e c = record {
  items = rw (a, b) c.items;
  only = λ v k. ground (arith, c.only v, k, a, b, d);
  apart = λ v k. ground (arith, c.apart v, k, a, d);
  runs = λ v k. ground (arith, c.runs v, k, b, d);
  size = rw (a, e) refl;
}

-- The state in which the running item, of that uid, has gone.
abbrev pub released : PlanQueue → String → PlanQueue
released s u = record s {
  running = [];
  running_item_info = [];
  uid_dict = Dict.remove s.uid_dict u;
  queue_size = pos (length s.queue);
}

is_running_eq :
    (s : PlanQueue) (u v : String) → uid_of s.running ≡ some u → is_running s v ≡ (v == u)
is_running_eq s u v e = ground (arith, e)

pub released-IsConsistent :
    (s : PlanQueue) (u : String)
    → IsConsistent s
    → uid_of s.running ≡ some u
    → IsConsistent (released s u)
released-IsConsistent s u c e = record {
  items =
      WellQueued-remove s.uid_dict u s.queue (c.apart u (ground (arith, e, eq_iff u u))) c.items;
  only = λ v k. ground (arith, k, c.only v, get-remove s.uid_dict u v, e, eq_iff u v, eq_iff v u);
  apart = λ v k. absurd (ground (arith, k, none_running (released s u) v refl));
  runs = λ v k. absurd (ground (arith, k, none_running (released s u) v refl));
  size = refl;
}

pub running_known :
    (s : PlanQueue) (u : String)
    → IsConsistent s
    → uid_of s.running ≡ some u
    → Dict.contains s.uid_dict u ≡ true
running_known s u c e = c.runs u (ground (arith, e, eq_iff u u))

-- The item and the state that a call ends with: what is queued, what is known, and the history.
abbrev pub Ended : PlanQueue → Item → List Item → Dict Item → Result Item × PlanQueue → Type 0
Ended s done queue' uid_dict' (res, s') =
    (res ≡ ok done)
    × (s'.queue ≡ queue')
    × (s'.uid_dict ≡ uid_dict')
    × (s'.running ≡ [])
    × (s'.history ≡ s.history ++ done ∷ [])
    × IsConsistent s'

completed_state : PlanQueue → String → Item → PlanQueue
completed_state s u done = refresh_all (
    add_to_history done (
      renew_queue_uid
        (record (renew_queue_uid (set_running [] s)) { uid_dict = Dict.remove s.uid_dict u })))

completes :
    (s : PlanQueue) (r : RunReport) (now : Value) (u : String) (cleaned done : Item)
    → IsConsistent s
    → Ends s r now u cleaned done
    → s.mode.loop ≡ false
    → set_processed_item_as_completed r now s ≡ (ok done, completed_state s u done)
unfolding set_processed_item_as_completed complete_running remove_uid_of uid_dict_remove
    completed_state
completes s r now u cleaned done c e l = ground (
  arith,
  running_known s u c e.has_uid,
  not_empty s.running u e.has_uid,
  e.reports,
  e.cleans,
  e.from_queue,
  e.has_start,
  e.has_properties,
  e.has_uid,
  l,
)

-- In a consistent state, when the loop mode is off, an item from the queue that runs is completed by
-- moving it to the end of the history with its report: nothing runs any more, its uid is free, the
-- queue is unchanged, and the state is consistent.
pub set_processed_item_as_completed-Ended :
    (s : PlanQueue) (r : RunReport) (now : Value) (u : String) (cleaned done : Item)
    → IsConsistent s
    → Ends s r now u cleaned done
    → s.mode.loop ≡ false
    → Ended s done s.queue (Dict.remove s.uid_dict u) (set_processed_item_as_completed r now s)
unfolding completed_state add_to_history list_push_back
set_processed_item_as_completed-Ended s r now u cleaned done c e l =
    rw (completes s r now u cleaned done c e l) (
      refl,
      refl,
      refl,
      refl,
      refl,
      carry (released s u) _ refl refl refl refl (released-IsConsistent s u c e.has_uid),
    )
