-- ===== src/Queue/Consistent/Finish/Again.antt =====
-- Items that go back to the queue when they end: the loop mode, and a failure
-- (queueserver_service/manager/plan_queue_ops.py).
use ophyd_service.Prelude.{
  suc, String, ◌≡◌, refl, sym, true, false, some, [], ◌∷◌, ◌++◌, length, ◌==◌, arith,
}
use ophyd_service.Prelude.Int.{pos}
use ophyd_service.Dict
use ophyd_service.Dict.{Dict, get-insert, get-insert_self, get-remove}
use ophyd_service.Queue.Json.{Item, Value, text, uid_of}
use ophyd_service.Queue.Store.{list_push_back, list_push_front}
use ophyd_service.Queue.State.{
  draw, PlanQueue, ok, set_new_item_uuid, uid_dict_remove, uid_dict_add, renew_queue_uid,
}
use ophyd_service.Queue.Insert.{
  add_item_to_queue, prepare_item, verify_item, insert_item, insert_at, push_front, clip,
}
use ophyd_service.Queue.Running.{set_running}
use ophyd_service.Queue.Finished.{
  RunReport, add_to_history, remove_uid_of, requeue, complete_running,
  set_processed_item_as_completed, push_back_in, fail_running, set_processed_item_as_failed,
  set_processed_item_as_stopped, refresh_all,
}
use ophyd_service.Queue.Consistent.{IsConsistent}
use ophyd_service.Queue.Consistent.Ends.{not_empty}
use ophyd_service.Queue.Consistent.Slots.{empty_append}
use ophyd_service.Queue.Consistent.Add.Whole.{holding-IsConsistent, holding}
use ophyd_service.Queue.Consistent.Finish.{
  Ends, Ended, running_known, released, carry, released-IsConsistent,
}

-- The item under a new uid.
abbrev pub renamed : Item → String → Item
renamed item uid = Dict.insert item "item_uid" (text uid)

uid_of-renamed : (x : Item) (n : String) → uid_of (renamed x n) ≡ some n
unfolding uid_of
uid_of-renamed x n = ground (arith, get-insert_self x "item_uid" (text n))

still_fresh :
    (s : PlanQueue) (u n : String)
    → Dict.contains s.uid_dict n ≡ false
    → Dict.contains (Dict.remove s.uid_dict u) n ≡ false
still_fresh s u n h = ground (arith, h, get-remove s.uid_dict u n)

looped_state : PlanQueue → String → Item → Item → PlanQueue
looped_state s u x done =
    let s1 = record (renew_queue_uid (draw s)) {
      queue = list_push_back s.queue x;
      uid_dict = Dict.remove s.uid_dict u;
    } in
    let s2 = record (renew_queue_uid s1) {
      uid_dict = Dict.insert (Dict.remove s.uid_dict u) (s.uuid4 s.drawn) x;
    } in
    refresh_all (add_to_history done (renew_queue_uid (set_running [] s2)))

loops :
    (s : PlanQueue) (r : RunReport) (now : Value) (u : String) (cleaned done : Item)
    → IsConsistent s
    → Ends s r now u cleaned done
    → s.mode.loop ≡ true
    → Dict.contains s.uid_dict (s.uuid4 s.drawn) ≡ false
    → set_processed_item_as_completed r now s
      ≡ (ok done, looped_state s u (renamed cleaned (s.uuid4 s.drawn)) done)
unfolding set_processed_item_as_completed complete_running requeue set_new_item_uuid remove_uid_of
    uid_dict_remove uid_dict_add looped_state
loops s r now u cleaned done c e l fresh = ground (
  arith,
  running_known s u c e.has_uid,
  not_empty s.running u e.has_uid,
  e.reports,
  e.cleans,
  e.from_queue,
  e.has_start,
  e.has_properties,
  e.has_uid,
  l,
  uid_of-renamed cleaned (s.uuid4 s.drawn),
  still_fresh s u (s.uuid4 s.drawn) fresh,
)

-- In a consistent state and the loop mode, an item from the queue that is completed goes to the history with its report,
-- and again to the back of the queue under a new uid, which takes the place of the old one in the
-- dictionary of uids; the state is consistent. The new uuid is assumed not to be known.
pub set_processed_item_as_completed-looped :
    (s : PlanQueue) (r : RunReport) (now : Value) (u : String) (cleaned done : Item)
    → IsConsistent s
    → Ends s r now u cleaned done
    → s.mode.loop ≡ true
    → Dict.contains s.uid_dict (s.uuid4 s.drawn) ≡ false
    → let x = renamed cleaned (s.uuid4 s.drawn) in
      Ended s done
        (s.queue ++ x ∷ [])
        (Dict.insert (Dict.remove s.uid_dict u) (s.uuid4 s.drawn) x)
        (set_processed_item_as_completed r now s)
unfolding looped_state add_to_history list_push_back
set_processed_item_as_completed-looped s r now u cleaned done c e l fresh =
    let n = s.uuid4 s.drawn in
    let x = renamed cleaned n in
    let c' =
      holding-IsConsistent (released s u) s.queue x [] n (released-IsConsistent s u c e.has_uid)
        (sym (empty_append s.queue)) (uid_of-renamed cleaned n) (still_fresh s u n fresh) in
    rw (loops s r now u cleaned done c e l fresh) (
      refl,
      refl,
      refl,
      refl,
      refl,
      carry (holding (released s u) s.queue x [] n) _ refl refl refl refl c',
    )

failed_state : PlanQueue → String → Item → Item → PlanQueue
failed_state s u x done =
    let s1 = record (renew_queue_uid (set_running [] (add_to_history done s))) {
      uid_dict = Dict.remove s.uid_dict u;
    } in
    let s2 = record (renew_queue_uid (draw s1)) {
      queue = x ∷ s.queue;
      queue_size = pos (length (x ∷ s.queue));
      uid_dict = Dict.insert (Dict.remove s.uid_dict u) (s.uuid4 (suc (suc s.drawn))) x;
    } in
    refresh_all (renew_queue_uid s2)

-- The third uuid that the failure draws.
abbrev pub failure_uid : PlanQueue → String
failure_uid s = s.uuid4 (suc (suc s.drawn))

renamed-has_uid : (x : Item) (n : String) → Dict.contains (renamed x n) "item_uid" ≡ true
renamed-has_uid x n = ground (arith, get-insert_self x "item_uid" (text n))

fails :
    (s : PlanQueue) (r : RunReport) (now : Value) (u : String) (cleaned done : Item)
    → IsConsistent s
    → Ends s r now u cleaned done
    → r.exit_status == "stopped" ≡ false
    → Dict.contains s.uid_dict (failure_uid s) ≡ false
    → set_processed_item_as_stopped r now s
      ≡ (ok done, failed_state s u (renamed done (failure_uid s)) done)
unfolding set_processed_item_as_stopped set_processed_item_as_failed fail_running push_back_in
    set_new_item_uuid remove_uid_of uid_dict_remove uid_dict_add add_to_history add_item_to_queue
    prepare_item verify_item insert_item insert_at clip push_front list_push_front failed_state
fails s r now u cleaned done c e l fresh = ground (
  arith,
  running_known s u c e.has_uid,
  not_empty s.running u e.has_uid,
  e.reports,
  e.cleans,
  e.from_queue,
  e.has_start,
  e.has_properties,
  e.has_uid,
  l,
  uid_of-renamed done (failure_uid s),
  renamed-has_uid done (failure_uid s),
  still_fresh s u (failure_uid s) fresh,
)

-- In a consistent state, an item from the queue that ends with an exit status other than "stopped" goes to the history with
-- its report, and again to the front of the queue, report included, under a new uid, which takes the
-- place of the old one in the dictionary of uids; the state is consistent. The new uuid is assumed
-- not to be known.
pub set_processed_item_as_stopped-failed :
    (s : PlanQueue) (r : RunReport) (now : Value) (u : String) (cleaned done : Item)
    → IsConsistent s
    → Ends s r now u cleaned done
    → r.exit_status == "stopped" ≡ false
    → Dict.contains s.uid_dict (failure_uid s) ≡ false
    → let x = renamed done (failure_uid s) in
      Ended s done
        (x ∷ s.queue)
        (Dict.insert (Dict.remove s.uid_dict u) (failure_uid s) x)
        (set_processed_item_as_stopped r now s)
unfolding failed_state add_to_history list_push_back
set_processed_item_as_stopped-failed s r now u cleaned done c e l fresh =
    let n = failure_uid s in
    let x = renamed done n in
    let c' =
      holding-IsConsistent (released s u) [] x s.queue n (released-IsConsistent s u c e.has_uid)
        refl (uid_of-renamed done n) (still_fresh s u n fresh) in
    rw (fails s r now u cleaned done c e l fresh) (
      refl,
      refl,
      refl,
      refl,
      refl,
      carry (holding (released s u) [] x s.queue n) _ refl refl refl refl c',
    )
