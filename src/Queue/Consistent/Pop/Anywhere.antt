-- ===== src/Queue/Consistent/Pop/Anywhere.antt =====
-- `_pop_item_from_queue` and `_get_item` of queueserver_service/manager/plan_queue_ops.py for every
-- way of addressing an item.
use ophyd_service.Prelude.{
  String, ◌≡◌, refl, ◌∙◌, true, false, Option, none, some, length, arith, ◌⊎◌, inl, inr, Bool-cases,
  Option-cases,
}
use ophyd_service.Prelude.Int.{ℤ, pos, negsuc}
use ophyd_service.Dict
use ophyd_service.Dict.{Dict, get-remove, get-insert}
use ophyd_service.Queue.Json.{Item, uid_of}
use ophyd_service.Queue.Store.{list_remove, list_index}
use ophyd_service.Queue.State.{
  PlanQueue, ok, err, Error, value_error, is_running, index_error, uid_dict_get_item,
}
use ophyd_service.Queue.Access.{
  Pos, front, back, at, other, index_of, get_item, get_item_at, get_item_by_uid,
  pop_item_from_queue, pop_source, pop_by_uid, remove_item, pop_front, pop_back, pop_at,
}
use ophyd_service.Queue.Uids.{queued, drop_uid, list_remove-drop_uid}
use ophyd_service.Queue.Consistent.{IsConsistent, waits}
use ophyd_service.Queue.Consistent.Pop.{
  without, without-IsConsistent, pop_queued, pop_item_from_queue-ok,
}
use ophyd_service.Queue.Consistent.Ends.{
  list_index-In, pop_back-drop_uid, pop_front-drop_uid, pop_back_empty, pop_front_empty, not_empty,
}

-- What the item found at an address has to do with its removal.
abbrev pub Removal : Option Pos → Option String → PlanQueue → Type 0
Removal p v s =
    ((x : Item) × (u : String) × (get_item p v s ≡ (ok x, s))
      × (uid_of x ≡ some u)
      × (queued u s.queue ≡ true)
      × (pop_item_from_queue p v s ≡ (ok (x, pos (length (drop_uid u s.queue))), without s u)))
    ⊎ (e : Error) × (get_item p v s ≡ (err e, s)) × (pop_item_from_queue p v s ≡ (err e, s))

-- A way of taking the item off the queue that finds it makes the whole operation succeed.
removed :
    (p : Option Pos) (v : Option String) (s : PlanQueue) (x : Item) (u : String) (n : ℤ)
    → uid_of x ≡ some u
    → queued u s.queue ≡ true
    → Dict.get s.uid_dict u ≡ some x
    → get_item p v s ≡ (ok x, s)
    → pop_source p v s ≡ (ok x, record s { queue = drop_uid u s.queue; queue_size = n })
    → Removal p v s
removed p v s x u n e q g f a = inl (
  x,
  u,
  f,
  e,
  q,
  pop_item_from_queue-ok p v s (record s { queue = drop_uid u s.queue; queue_size = n }) x u a e
      (rw g refl),
)

failed :
    (p : Option Pos) (v : Option String) (s : PlanQueue) (e : Error)
    → get_item p v s ≡ (err e, s)
    → pop_source p v s ≡ (err e, s)
    → Removal p v s
unfolding pop_item_from_queue
failed p v s e f a = inr (e, f, ground (arith, a))

pop_at_back :
    (p : Option Pos) (s : PlanQueue)
    → get_item p none s ≡ get_item_at back s
    → pop_source p none s ≡ pop_back s
    → IsConsistent s
    → Removal p none s
unfolding get_item_at index_of pop_back
pop_at_back p s a b c = elim (Option-cases (list_index s.queue (negsuc 0))) [
  | inl n ↦
      let r = pop_back_empty s.queue n in
      failed p none s index_error (a ∙ ground (arith, n)) (b ∙ rw r refl)
  | inr (x, g) ↦
      let (u, e, q, k) = list_index-In s (negsuc 0) x c g in
      let r = pop_back-drop_uid s.uid_dict s.queue x u c.items g e in
      removed p none s x u s.queue_size e q k (a ∙ ground (arith, g)) (b ∙ rw r refl)
]

pop_at_front : (s : PlanQueue) → IsConsistent s → Removal (some front) none s
unfolding get_item get_item_at index_of pop_source pop_front
pop_at_front s c = elim (Option-cases (list_index s.queue (pos 0))) [
  | inl n ↦
      let r = pop_front_empty s.queue n in
      failed (some front) none s index_error (ground (arith, n)) (rw r refl)
  | inr (x, g) ↦
      let (u, e, q, k) = list_index-In s (pos 0) x c g in
      let r = pop_front-drop_uid s.uid_dict s.queue x u c.items g e in
      removed (some front) none s x u s.queue_size e q k (ground (arith, g)) (rw r refl)
]

pop_at_index : (s : PlanQueue) (z : ℤ) → IsConsistent s → Removal (some (at z)) none s
unfolding get_item get_item_at index_of pop_source pop_at remove_item
pop_at_index s z c = elim (Option-cases (list_index s.queue z)) [
  | inl n ↦ failed (some (at z)) none s index_error (ground (arith, n)) (ground (arith, n))
  | inr (x, g) ↦
      let (u, e, q, k) = list_index-In s z x c g in
      let r : list_remove s.queue x ≡ (drop_uid u s.queue, 1) =
        ground (arith, q, list_remove-drop_uid s.uid_dict u x s.queue k e c.items) in
      removed (some (at z)) none s x u (pos (length (drop_uid u s.queue))) e q k (ground (arith, g))
        (ground (arith, g, not_empty x u e, r))
]

pop_uid : (s : PlanQueue) (u : String) → IsConsistent s → Removal none (some u) s
unfolding get_item get_item_by_uid pop_source pop_by_uid uid_dict_get_item
pop_uid s u c = elim (Bool-cases (queued u s.queue)) [
  | inl q ↦
      let (x, g, e, p) = pop_queued s u c q in
      let (k, nr) = waits s u c q in inl (x, u, ground (arith, g, nr), e, q, p)
  | inr q ↦ elim (Bool-cases (is_running s u)) [
    | inl r ↦
        failed none (some u) s index_error (ground (arith, r, c.runs u r))
          (ground (arith, r, c.runs u r))
    | inr r ↦
        let k : Dict.contains s.uid_dict u ≡ false = ground (arith, q, r, c.only u) in
        failed none (some u) s index_error (rw k refl) (rw k refl)
  ]
]

pub pop_absent :
    (s : PlanQueue) (u : String)
    → IsConsistent s
    → queued u s.queue ≡ false
    → pop_item_from_queue none (some u) s ≡ (err index_error, s)
unfolding pop_item_from_queue pop_source pop_by_uid uid_dict_get_item
pop_absent s u c q = elim (Bool-cases (is_running s u)) [
  | inl r ↦ ground (arith, r, c.runs u r)
  | inr r ↦
      let k : Dict.contains s.uid_dict u ≡ false = ground (arith, q, r, c.only u) in
      ground (arith, k)
]

-- In a consistent state, `_pop_item_from_queue` takes away exactly the item that `_get_item` finds
-- with the same arguments, and answers with it and the new length; where `_get_item` fails, so does
-- the removal, with the same error and no change of the state. The position is not one that is
-- neither "front", "back" nor a number.
pub pop_item_from_queue-get_item :
    (s : PlanQueue) (p : Option Pos) (v : Option String)
    → IsConsistent s
    → ¬ (p ≡ some other)
    → Removal p v s
pop_item_from_queue-get_item s none none c h =
    pop_at_back none s (unfold get_item in refl) (unfold pop_source in refl) c
pop_item_from_queue-get_item s (some back) none c h =
    pop_at_back (some back) s (unfold get_item in refl) (unfold pop_source in refl) c
pop_item_from_queue-get_item s (some front) none c h = pop_at_front s c
pop_item_from_queue-get_item s (some (at z)) none c h = pop_at_index s z c
pop_item_from_queue-get_item s (some other) none c h = absurd (h refl)
pop_item_from_queue-get_item s none (some u) c h = pop_uid s u c
pop_item_from_queue-get_item s (some p) (some u) c h =
    failed (some p) (some u) s value_error (unfold get_item in refl) (unfold pop_source in refl)

Removal-IsConsistent :
    (s : PlanQueue) (p : Option Pos) (v : Option String)
    → IsConsistent s
    → Removal p v s
    → IsConsistent (pop_item_from_queue p v s).1
Removal-IsConsistent s p v c (inl (x, u, f, e, q, r)) = rw r (without-IsConsistent s u c q)
Removal-IsConsistent s p v c (inr (e, f, r)) = rw r c

-- From a consistent state, a removal with any arguments, successful or not, leads to a consistent
-- state.
pub pop_item_from_queue-IsConsistent :
    (s : PlanQueue) (p : Option Pos) (v : Option String)
    → IsConsistent s
    → IsConsistent (pop_item_from_queue p v s).1
pop_item_from_queue-IsConsistent s (some other) none c = unfold pop_item_from_queue pop_source in c
pop_item_from_queue-IsConsistent s (some other) (some u) c =
    unfold pop_item_from_queue pop_source in c
pop_item_from_queue-IsConsistent s none v c =
    Removal-IsConsistent s none v c
      (pop_item_from_queue-get_item s none v c (λ h. ground (arith, h)))
pop_item_from_queue-IsConsistent s (some front) v c =
    Removal-IsConsistent s (some front) v c
      (pop_item_from_queue-get_item s (some front) v c (λ h. ground (arith, h)))
pop_item_from_queue-IsConsistent s (some back) v c =
    Removal-IsConsistent s (some back) v c
      (pop_item_from_queue-get_item s (some back) v c (λ h. ground (arith, h)))
pop_item_from_queue-IsConsistent s (some (at z)) v c =
    Removal-IsConsistent s (some (at z)) v c
      (pop_item_from_queue-get_item s (some (at z)) v c (λ h. ground (arith, h)))
