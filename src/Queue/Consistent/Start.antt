-- ===== src/Queue/Consistent/Start.antt =====
-- `_set_next_item_as_running` of queueserver_service/manager/plan_queue_ops.py for the item at the
-- front of the queue.
use mathlib.Core.Path.{subst}
use ophyd_service.Prelude.{
  String, ◌≡◌, refl, sym, ◌∙◌, true, false, none, some, List, [], ◌∷◌, ◌==◌, eq_iff, arith, inl,
  inr, Option-cases,
}
use ophyd_service.Dict
use ophyd_service.Dict.{Dict, get-insert, get-insert_ne}
use ophyd_service.Queue.Json.{Item, Value, text, obj, of_dict, uid_of}
use ophyd_service.Queue.Store.{list_index, list_pop_front}
use ophyd_service.Queue.State.{
  PlanQueue, ok, is_running, is_empty, renew_queue_uid, refresh_queue_size,
}
use ophyd_service.Queue.Access.{get_item_at, index_of}
use ophyd_service.Queue.Running.{
  set_next_item_as_running, started_plan, try_front, start_plan, set_property, sub_dict,
  set_running,
}
use ophyd_service.Queue.Uids.{queued, WellQueued, has_uid_eq}
use ophyd_service.Queue.Consistent.{IsConsistent}
use ophyd_service.Queue.Consistent.Ends.{not_empty}

pub none_running : (s : PlanQueue) (u : String) → is_empty s.running ≡ true → is_running s u ≡ false
unfolding uid_of Dict.get
none_running s u h = of_item s.running h
  where
    of_item :
        (x : Item) → is_empty x ≡ true → elim (uid_of x) [ none ↦ false | some r ↦ u == r ] ≡ false
    of_item [] h = refl
    of_item (f ∷ fs) h = absurd (ground (arith, h))

pub uid_of-insert :
    (x : Item) (k : String) (v : Value)
    → k == "item_uid" ≡ false
    → uid_of (Dict.insert x k v) ≡ uid_of x
unfolding uid_of
uid_of-insert x k v h = ground (arith, h, get-insert x k v "item_uid")

uid_of-set_property :
    (x y : Item) (k : String) (v : Value) → set_property x k v ≡ some y → uid_of y ≡ uid_of x
unfolding set_property
uid_of-set_property x y k v h = elim (Option-cases (sub_dict x "properties")) [
  | inl n ↦ absurd (ground (arith, n, h))
  | inr (p, e) ↦
      let z : Dict.insert x "properties" (obj (of_dict (Dict.insert p k v))) ≡ y =
        ground (arith, e, h) in
      rw (sym z) (uid_of-insert x "properties" (obj (of_dict (Dict.insert p k v))) refl)
]

-- The state in which the first item runs, as it was set.
abbrev pub started : PlanQueue → Item → List Item → PlanQueue
started s y rest = refresh_queue_size (renew_queue_uid (set_running y (record s { queue = rest })))

started-IsConsistent :
    (s : PlanQueue) (x y : Item) (rest : List Item)
    → IsConsistent s
    → is_empty s.running ≡ true
    → s.queue ≡ x ∷ rest
    → uid_of y ≡ uid_of x
    → IsConsistent (started s y rest)
unfolding queued
started-IsConsistent s x y rest c idle m h =
    let (u, e, g, f, w) = subst (WellQueued s.uid_dict) m c.items in
    let e' : uid_of y ≡ some u = h ∙ e in
    record {
      items = w;
      only = λ v k. ground (
        arith,
        c.only v k,
        none_running s v idle,
        m,
        has_uid_eq v x {v = u} e,
        e',
        eq_iff u v,
        eq_iff v u,
      );
      apart = λ v k. ground (arith, k, e', f, eq_iff v u);
      runs = λ v k. ground (arith, k, e', g, eq_iff v u);
      size = refl;
    }

-- In a consistent state in which nothing runs and a plan, whose properties if any are a
-- dictionary, is at the front of the queue, `_set_next_item_as_running` takes the plan off the queue,
-- sets it running with its start time, returns it as it runs, keeps the dictionary of uids, and
-- leaves a consistent state.
pub set_next_item_as_running-started :
    (s : PlanQueue) (x y : Item) (rest : List Item) (now : Value)
    → IsConsistent s
    → is_empty s.running ≡ true
    → s.queue ≡ x ∷ rest
    → Dict.get x "item_type" ≡ some (text "plan")
    → set_property x "time_start" now ≡ some y
    → (set_next_item_as_running [] now s ≡ (ok y, started s y rest))
      × (uid_of y ≡ uid_of x)
      × IsConsistent (started s y rest)
unfolding set_next_item_as_running started_plan try_front start_plan get_item_at index_of list_index
    list_pop_front
set_next_item_as_running-started s x y rest now c idle m t p =
    let (u, e, g, f, w) = subst (WellQueued s.uid_dict) m c.items in
    let h = uid_of-set_property x y "time_start" now p in
    (ground (arith, idle, m, t, p, not_empty x u e), h, started-IsConsistent s x y rest c idle m h)
