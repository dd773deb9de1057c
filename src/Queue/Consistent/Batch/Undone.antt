-- ===== src/Queue/Consistent/Batch/Undone.antt =====
-- A batch that fails (`_add_batch_to_queue` of queueserver_service/manager/plan_queue_ops.py).
use mathlib.Core.List.{reverse}
use ophyd_service.Prelude.{
  ◌+◌, String, ◌≡◌, refl, ap, ◌∙◌, Bool, true, false, ◌||◌, some, List, [], ◌∷◌, if◌then◌else◌,
  length, map, arith, ◌⊎◌, inl, inr, Bool-cases,
}
use ophyd_service.Prelude.Int.{ℤ, pos}
use ophyd_service.Dict
use ophyd_service.Queue.Json.{Item, uid_of}
use ophyd_service.Queue.State.{PlanQueue, Result, ok, is_running, refresh_queue_size}
use ophyd_service.Queue.Insert.{
  Place, BatchResult, add_item_to_queue, add_each, added_after, next_place, undo, all_succeeded,
  add_batch_to_queue, reported,
}
use ophyd_service.Queue.Uids.{queued, queued-get}
use ophyd_service.Queue.Consistent.{IsConsistent}
use ophyd_service.Queue.Consistent.Batch.{
  Fresh, Step, add_item_to_queue-Step, drop_each, drop_each-reverse, undo-drop_each,
}

-- What the loop leaves, from a queue that would be `q` without the uids added so far.
abbrev Looped :
    PlanQueue → List Item → List Item → (List (Item × Bool) × List String) × PlanQueue → Type 0
Looped s q items ((reports, uids), s') =
    IsConsistent s'
    × (s'.running ≡ s.running)
    × (drop_each uids s'.queue ≡ q)
    × (all_succeeded reports ≡ true → length s'.queue ≡ length s.queue + length items)

added_eq :
    (x : Item) (n : ℤ) (u : String) (added : List String)
    → uid_of x ≡ some u
    → added_after (ok (x, n)) added ≡ u ∷ added
added_eq x n u added e = ground (arith, e)

add_each-Looped :
    (p : Place) (fp : Bool) (added : List String) (items : List Item) (s : PlanQueue)
    (q : List Item)
    → IsConsistent s
    → Fresh s items
    → drop_each added s.queue ≡ q
    → Looped s q items (add_each p fp added items s)
unfolding add_each all_succeeded drop_each
add_each-Looped p fp added [] s q c f d = (c, refl, d, λ h. omega arith)
add_each-Looped p fp added (item ∷ items) s q c f d =
    of_step (λ r s' c' f' d'. add_each-Looped p fp (added_after r added) items s' q c' f' d')
      (add_item_to_queue item (next_place p added) fp s)
      (add_item_to_queue-Step s item items (next_place p added) fp c f)
  where
    after : Result (Item × ℤ) × PlanQueue → (List (Item × Bool) × List String) × PlanQueue
    after (r, s') =
        let ((reports, uids), s'') = add_each p fp (added_after r added) items s' in
        ((reported item r ∷ reports, uids), s'')

    of_step :
        ((r : Result (Item × ℤ)) (s' : PlanQueue)
          → IsConsistent s'
          → Fresh s' items
          → drop_each (added_after r added) s'.queue ≡ q
          → Looped s' q items (add_each p fp (added_after r added) items s'))
        → (out : Result (Item × ℤ) × PlanQueue) → Step s items out
        → Looped s q (item ∷ items) (after out)
    of_step ih (r, s') (c', f', run, inl (x, n, u, e, a, b, len)) =
        let gone : drop_each (added_after r added) s'.queue ≡ q =
          ap (λ r'. drop_each (added_after r' added) s'.queue) e
          ∙ (ap (λ us. drop_each us s'.queue) (added_eq x n u added a)
              ∙ (ap (drop_each added) b ∙ d)) in
        let (c2, run2, d2, l2) = ih r s' c' f' (gone) in
        (c2, run2 ∙ run, d2, λ h. ground (arith, h, e, len, l2))
    of_step ih (r, s') (c', f', run, inr (e, a, b)) =
        let (c2, run2, d2, l2) = ih r s' c' f' (
          (ap (λ r'. drop_each (added_after r' added) s'.queue) a
            ∙ (ap (drop_each added) b ∙ d))) in
        (c2, run2 ∙ run, d2, λ h. absurd (ground (arith, h, a)))

pub refreshed : (s : PlanQueue) → IsConsistent s → IsConsistent (refresh_queue_size s)
refreshed s c = record {
  items = c.items;
  only = c.only;
  apart = c.apart;
  runs = c.runs;
  size = refl;
}

-- The same uids are known.
abbrev SameUids : PlanQueue → PlanQueue → Type 0
SameUids s s' = (u : String) → Dict.contains s'.uid_dict u ≡ Dict.contains s.uid_dict u

-- In a consistent state a uid is known if it is queued or running.
known_iff :
    (s : PlanQueue) (u : String)
    → IsConsistent s
    → Dict.contains s.uid_dict u ≡ (queued u s.queue || is_running s u)
known_iff s u c = elim (Bool-cases (Dict.contains s.uid_dict u)) [
  | inl k ↦ ground (arith, k, c.only u k)
  | inr k ↦ elim (Bool-cases (queued u s.queue)) [
    | inl q ↦ absurd (ground (arith, k, queued-get s.uid_dict s.queue u c.items q))
    | inr q ↦ elim (Bool-cases (is_running s u)) [
      | inl r ↦ absurd (ground (arith, k, c.runs u r))
      | inr r ↦ ground (arith, k, q, r)
    ]
  ]
]

-- A batch succeeds as a whole or changes nothing in the queue.
abbrev pub AllOrNothing : PlanQueue → List Item → BatchResult × PlanQueue → Type 0
AllOrNothing s items (r, s') =
    IsConsistent s'
    × (s'.running ≡ s.running)
    × (r.queue_size ≡ pos (length s'.queue))
    × ((r.success ≡ true) × (length s'.queue ≡ length s.queue + length items)
        ⊎ (r.success ≡ false) × (r.items_added ≡ items) × (s'.queue ≡ s.queue) × SameUids s s')

-- A batch that is added to a consistent state, where the uuids to come are different, not known
-- and not the uids of the items: if the call succeeds, the queue has grown by the number of the
-- items; otherwise the queue is as it was, the same uids are known, and the items are returned as they
-- came. In both cases the state is consistent, the running item is the same and the queue's
-- length is returned.
pub add_batch_to_queue-AllOrNothing :
    (s : PlanQueue) (items : List Item) (p : Place) (fp : Bool)
    → IsConsistent s
    → Fresh s items
    → AllOrNothing s items (add_batch_to_queue items p fp s)
unfolding add_batch_to_queue drop_each
add_batch_to_queue-AllOrNothing s items p fp c f =
    of_loop (add_each p fp [] items s) (add_each-Looped p fp [] items s s.queue c f refl)
  where
    batch : (List (Item × Bool) × List String) × PlanQueue → BatchResult × PlanQueue
    batch ((reports, uids), added) =
        let success = all_succeeded reports in
        let left = refresh_queue_size (if success then added else undo (reverse uids) added) in
        (
          record {
            items_added = if success then map (λ (r : Item × Bool). r.0) reports else items;
            results = map (λ (r : Item × Bool). r.1) reports;
            queue_size = left.queue_size;
            success = success;
          },
          left,
        )

    of_loop :
        (out : (List (Item × Bool) × List String) × PlanQueue)
        → Looped s s.queue items out
        → AllOrNothing s items (batch out)
    of_loop ((reports, uids), added) (c1, run, d, l) = elim (Bool-cases (all_succeeded reports)) [
      | inl h ↦ rw h (refreshed added c1, run, refl, inl (refl, l h))
      | inr h ↦
          let (c2, q, run2) = undo-drop_each (reverse uids) added c1 in
          let q' : (undo (reverse uids) added).queue ≡ s.queue =
            q ∙ (drop_each-reverse uids added.queue ∙ d) in
          rw h (
            refreshed (undo (reverse uids) added) c2,
            run2 ∙ run,
            refl,
            inr (
              refl,
              refl,
              q',
              λ u. ground (
                arith,
                known_iff s u c,
                known_iff (undo (reverse uids) added) u c2,
                q',
                run,
                run2,
              ),
            ),
          )
    ]
