-- ===== src/Queue/Consistent/Batch/Removed.antt =====
-- Removing a batch (`_pop_item_from_queue_batch` of queueserver_service/manager/plan_queue_ops.py).
use ophyd_service.Prelude.{
  String, ◌≡◌, refl, ap, ◌∙◌, Bool, true, false, not, ◌&&◌, ◌||◌, none, some, List, [], ◌∷◌, length,
  arith, ◌⊎◌, inl, inr, Bool-cases,
}
use ophyd_service.Prelude.Int.{ℤ, pos}
use ophyd_service.Dict
use ophyd_service.Queue.Json.{Item}
use ophyd_service.Queue.State.{
  PlanQueue, Error, ok, err, value_error, index_error, refresh_queue_size,
}
use ophyd_service.Queue.Access.{
  pop_item_from_queue, pop_item_from_queue_batch, pop_each, has_repeated, all_known,
}
use ophyd_service.Queue.Uids.{queued}
use ophyd_service.Queue.Consistent.{IsConsistent}
use ophyd_service.Queue.Consistent.Pop.{pop_queued}
use ophyd_service.Queue.Consistent.Pop.Anywhere.{pop_absent}
use ophyd_service.Queue.Consistent.Batch.{drop_each, pop_drops}
use ophyd_service.Queue.Consistent.Batch.Undone.{refreshed}

-- The items that the dictionary has under the uids that are queued, each uid once, in that order.
abbrev pub Popped : PlanQueue → List String → List Item → Type 0
Popped s [] items = items ≡ []
Popped s (uid ∷ uids) items =
    let s' = (pop_item_from_queue none (some uid) s).1 in
    ((x : Item) × (rest : List Item) × (queued uid s.queue ≡ true)
      × (Dict.get s.uid_dict uid ≡ some x)
      × (items ≡ x ∷ rest)
      × Popped s' uids rest)
    ⊎ (queued uid s.queue ≡ false) × Popped s' uids items

pop_each-first :
    (uid : String) (uids : List String) (s : PlanQueue) (x : Item) (n : ℤ) (items : List Item)
    → (pop_item_from_queue none (some uid) s).0 ≡ ok (x, n)
    → (pop_each uids (pop_item_from_queue none (some uid) s).1).0 ≡ ok items
    → pop_each (uid ∷ uids) s
      ≡ (ok (x ∷ items), (pop_each uids (pop_item_from_queue none (some uid) s).1).1)
unfolding pop_each
pop_each-first uid uids s x n items h e = ground (arith, h, e)

pop_each-skip :
    (uid : String) (uids : List String) (s : PlanQueue) (er : Error)
    → (pop_item_from_queue none (some uid) s).0 ≡ err er
    → pop_each (uid ∷ uids) s ≡ pop_each uids (pop_item_from_queue none (some uid) s).1
unfolding pop_each
pop_each-skip uid uids s er h = ground (arith, h)

pop_each-Popped :
    (uids : List String) (s : PlanQueue)
    → IsConsistent s
    → (items : List Item) × ((pop_each uids s).0 ≡ ok items)
      × Popped s uids items
      × IsConsistent (pop_each uids s).1
      × ((pop_each uids s).1.queue ≡ drop_each uids s.queue)
      × ((pop_each uids s).1.running ≡ s.running)
unfolding drop_each
pop_each-Popped [] s c = (
  [],
  unfold pop_each in refl,
  refl,
  unfold pop_each in c,
  unfold pop_each in refl,
  unfold pop_each in refl,
)
pop_each-Popped (uid ∷ uids) s c =
    let (c1, q, r) = pop_drops s uid c in
    let (items, e, p, c2, q2, r2) =
      pop_each-Popped uids (pop_item_from_queue none (some uid) s).1 c1 in
    let left = q2 ∙ ap (drop_each uids) q in
    elim (Bool-cases (queued uid s.queue)) [
      | inl k ↦
          let (x, g, u, f) = pop_queued s uid c k in
          rw (pop_each-first uid uids s x _ items (ap (λ y. y.0) f) e)
            (x ∷ items, refl, inl (x, items, k, g, refl, p), c2, left, r2 ∙ r)
      | inr k ↦
          rw (pop_each-skip uid uids s index_error (ap (λ y. y.0) (pop_absent s uid c k)))
            (items, e, inr (k, p), c2, left, r2 ∙ r)
    ]

-- The request is refused: missing items are not to be ignored, and a uid is repeated or not known.
abbrev pub refuses : PlanQueue → List String → Bool → Bool
refuses s uids ignore_missing =
    not ignore_missing && (has_repeated uids || not (all_known s.uid_dict uids))

batch-refused :
    (s : PlanQueue) (uids : List String) (ignore_missing : Bool)
    → refuses s uids ignore_missing ≡ true
    → pop_item_from_queue_batch uids ignore_missing s ≡ (err value_error, s)
unfolding pop_item_from_queue_batch
batch-refused s uids ignore_missing h = ground (arith, h)

batch-runs :
    (s : PlanQueue) (uids : List String) (ignore_missing : Bool) (items : List Item)
    → refuses s uids ignore_missing ≡ false
    → (pop_each uids s).0 ≡ ok items
    → pop_item_from_queue_batch uids ignore_missing s
      ≡ (ok (items, pos (length (pop_each uids s).1.queue)), refresh_queue_size (pop_each uids s).1)
unfolding pop_item_from_queue_batch
batch-runs s uids ignore_missing items h e = ground (arith, h, e)

-- Removing a batch from a consistent state. A request in which missing items are not to be ignored and
-- a uid is repeated or not known raises and changes nothing. Any other returns the queued items of the
-- uids, each once, with the new length, removes exactly these, keeps the running item, and
-- leads to a consistent state.
pub pop_item_from_queue_batch-Popped :
    (s : PlanQueue) (uids : List String) (ignore_missing : Bool)
    → IsConsistent s
    → let (r, s') = pop_item_from_queue_batch uids ignore_missing s in
      (refuses s uids ignore_missing ≡ true) × (r ≡ err value_error) × (s' ≡ s)
      ⊎ (refuses s uids ignore_missing ≡ false)
        × (items : List Item) × (r ≡ ok (items, pos (length s'.queue)))
        × Popped s uids items
        × (s'.queue ≡ drop_each uids s.queue)
        × (s'.running ≡ s.running)
        × IsConsistent s'
pop_item_from_queue_batch-Popped s uids ignore_missing c =
    let (items, e, p, c2, q, r) = pop_each-Popped uids s c in
    elim (Bool-cases (refuses s uids ignore_missing)) [
      | inl h ↦ rw (batch-refused s uids ignore_missing h) (inl (h, refl, refl))
      | inr h ↦
          rw (batch-runs s uids ignore_missing items h e)
            (inr (h, items, refl, p, q, r, refreshed (pop_each uids s).1 c2))
    ]
