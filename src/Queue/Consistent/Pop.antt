-- ===== src/Queue/Consistent/Pop.antt =====
-- `_pop_item_from_queue` of queueserver_service/manager/plan_queue_ops.py for a queued item.
pub mod Anywhere
use ophyd_service.Prelude.{
  ℕ, suc, ◌+◌, String, ◌≡◌, refl, sym, ap, ◌∙◌, Bool, true, false, not, ◌&&◌, ◌||◌, Option, none,
  some, List, [], ◌∷◌, ◌++◌, if◌then◌else◌, length, ◌==◌, eq_iff, eqb, is_some, arith, ◌⊎◌, inl,
  inr, Bool-cases, Option-cases,
}
use ophyd_service.Prelude.Int.{ℤ, pos}
use ophyd_service.Dict
use ophyd_service.Dict.{Dict, get-remove, get-insert}
use ophyd_service.Queue.Json.{Item, uid_of}
use ophyd_service.Queue.Store.{list_remove}
use ophyd_service.Queue.State.{
  PlanQueue, Exec, Result, ok, err, is_running, renew_queue_uid, refresh_queue_size, index_error,
  uid_dict_remove, uid_dict_get_item,
}
use ophyd_service.Queue.Access.{
  Pos, front, back, pop_item_from_queue, pop_source, pop_by_uid, remove_item, forget, pop_front,
  pop_back,
}
use ophyd_service.Queue.Uids.{
  queued, WellQueued, drop_uid, has_uid_eq, queued-get, queued-drop_uid, WellQueued-drop_uid,
  WellQueued-remove, list_remove-drop_uid,
}
use ophyd_service.Queue.Consistent.{IsConsistent, queued-item, waits}

-- The state without the queued item of that uid.
abbrev pub without : PlanQueue → String → PlanQueue
without s u =
    refresh_queue_size (record (renew_queue_uid s) {
      queue = drop_uid u s.queue;
      uid_dict = Dict.remove s.uid_dict u;
    })

pub without-IsConsistent :
    (s : PlanQueue) (u : String)
    → IsConsistent s
    → queued u s.queue ≡ true
    → IsConsistent (without s u)
without-IsConsistent s u c q = record {
  items =
      WellQueued-remove s.uid_dict u (drop_uid u s.queue)
        (ground (arith, queued-drop_uid u u s.queue, eq_iff u u))
        (WellQueued-drop_uid s.uid_dict u s.queue c.items);
  only = λ v k. ground (arith, k, c.only v, get-remove s.uid_dict u v, queued-drop_uid u v s.queue);
  apart = λ v r. ground (arith, c.apart v r, queued-drop_uid u v s.queue);
  runs =
      λ v r. ground (arith, r, q, c.apart v r, c.runs v r, get-remove s.uid_dict u v, eq_iff u v);
  size = refl;
}

forget-uid :
    (s : PlanQueue) (x : Item) (u : String) → uid_of x ≡ some u → forget x s ≡ uid_dict_remove u s
unfolding forget uid_of Dict.get
forget-uid s [] u e = absurd (ground (arith, e))
forget-uid s (f ∷ fs) u e = rw e refl

pop_by_uid-queued :
    (s : PlanQueue) (u : String) (x : Item)
    → Dict.get s.uid_dict u ≡ some x
    → is_running s u ≡ false
    → (list_remove s.queue x).1 ≡ 1
    → pop_by_uid u s ≡ (ok x, refresh_queue_size (record s { queue = (list_remove s.queue x).0 }))
unfolding pop_by_uid uid_dict_get_item remove_item
pop_by_uid-queued s u x g nr r = ground (arith, g, nr, r)

forget-ok :
    (s : PlanQueue) (x : Item) (u : String)
    → uid_of x ≡ some u
    → Dict.contains s.uid_dict u ≡ true
    → forget x s ≡ (ok tt, record (renew_queue_uid s) { uid_dict = Dict.remove s.uid_dict u })
unfolding uid_dict_remove
forget-ok s x u e k = forget-uid s x u e ∙ ground (arith, k)

-- The three steps of a removal that succeeds.
pop_item_from_queue-ok :
    (p : Option Pos) (v : Option String) (s s' : PlanQueue) (x : Item) (u : String)
    → pop_source p v s ≡ (ok x, s')
    → uid_of x ≡ some u
    → Dict.contains s'.uid_dict u ≡ true
    → pop_item_from_queue p v s ≡ (
      ok (x, pos (length s'.queue)),
      refresh_queue_size (record (renew_queue_uid s') { uid_dict = Dict.remove s'.uid_dict u }),
    )
unfolding pop_item_from_queue
pop_item_from_queue-ok p v s s' x u a e k = ground (arith, a, forget-ok s' x u e k)

-- Removing a queued item by its uid.
pub pop_queued :
    (s : PlanQueue) (u : String)
    → IsConsistent s
    → queued u s.queue ≡ true
    → (x : Item) × (Dict.get s.uid_dict u ≡ some x)
      × (uid_of x ≡ some u)
      × (pop_item_from_queue none (some u) s
          ≡ (ok (x, pos (length (drop_uid u s.queue))), without s u))
unfolding pop_source
pop_queued s u c q =
    let (x, g, e) = queued-item s.uid_dict s.queue u c.items q in
    let r : list_remove s.queue x ≡ (drop_uid u s.queue, 1) =
      ground (arith, q, list_remove-drop_uid s.uid_dict u x s.queue g e c.items) in
    let p = pop_by_uid-queued s u x g (waits s u c q).1 (ap (λ y. y.1) r) in
    let p' : pop_source none (some u) s
        ≡ (ok x, refresh_queue_size (record s { queue = drop_uid u s.queue })) =
      p ∙ rw r refl in
    (x, g, e, pop_item_from_queue-ok none (some u) s _ x u p' e (rw g refl))
