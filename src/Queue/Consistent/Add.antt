-- ===== src/Queue/Consistent/Add.antt =====
-- Where `_add_item_to_queue` of queueserver_service/manager/plan_queue_ops.py puts an item.
pub mod Whole
use mathlib.Core.Path.{subst}
use ophyd_service.Prelude.{
  ℕ, zero, suc, ◌+◌, ◌-◌, ◌<◌, String, ◌≡◌, refl, sym, ap, ◌∙◌, Bool, true, false, not, ◌&&◌, ◌||◌,
  Option, none, some, List, [], ◌∷◌, ◌++◌, if◌then◌else◌, length, length-append, ◌==◌, eq_iff, eqb,
  leb, is_some, arith, ◌⊎◌, inl, inr, Bool-cases, Option-cases, get_elem?,
}
use ophyd_service.Prelude.Int.{ℤ, pos, negsuc, is_lt, is_eq, add_ℕ}
use ophyd_service.Dict
use ophyd_service.Dict.{Dict, get-remove, get-insert}
use ophyd_service.Queue.Json.{Item, uid_of}
use ophyd_service.Queue.Store.{
  Where, before, after, list_index, list_insert, list_insert_at, list_push_front, list_push_back,
}
use ophyd_service.Queue.State.{
  PlanQueue, Exec, Result, ok, err, Error, index_error, value_error, is_empty, is_running,
  uid_dict_get_item,
}
use ophyd_service.Queue.Access.{Pos, front, back, at, other, or_back, get_item_at, index_of}
use ophyd_service.Queue.Insert.{
  Place, clip, insert_item, insert_near, insert_at, insert_by, push_front, push_back,
}
use ophyd_service.Queue.Uids.{queued, WellQueued, has_uid_eq, queued-get}
use ophyd_service.Queue.Uids.Insertion.{Beside, list_insert_at-Beside, queued-middle}
use ophyd_service.Queue.Consistent.{IsConsistent, queued-item, waits}
use ophyd_service.Queue.Consistent.Ends.{list_index-In, get_elem-queued, not_empty}
use ophyd_service.Queue.Consistent.Slots.{slot, insert_by-ok, Aimed-at}

-- The queue parted where the item goes.
abbrev pub Aims : PlanQueue → Place → List Item → List Item → Type 0
Aims s p l r = elim p.before_uid [
  | some u ↦ (x : Item) × (r' : List Item) × (Dict.get s.uid_dict u ≡ some x) × (r ≡ x ∷ r')
  | none ↦ elim p.after_uid [
    | some u ↦
        if is_running s u
        then l ≡ []
        else (x : Item) × (l' : List Item) × (Dict.get s.uid_dict u ≡ some x) × (l ≡ l' ++ x ∷ [])
    | none ↦ length l ≡ slot (length s.queue) (or_back p.position)
  ]
]

abbrev is_place : Pos → Bool
is_place other = false
is_place _ = true

-- The place exists: the neighbour is known, and nothing goes before the running item.
abbrev pub place_ok : PlanQueue → Place → Bool
place_ok s p = elim p.before_uid [
  | some u ↦ Dict.contains s.uid_dict u && not (is_running s u)
  | none ↦ elim p.after_uid [
    | some u ↦ Dict.contains s.uid_dict u
    | none ↦ is_place (or_back p.position)
  ]
]

-- Inserting succeeds and puts the item where it should go, or fails and does nothing.
abbrev pub Insertion : PlanQueue → Place → Item → Type 0
Insertion s p x =
    ((l : List Item) × (r : List Item) × (s.queue ≡ l ++ r)
      × Aims s p l r
      × (place_ok s p ≡ true)
      × (insert_item p x s ≡ (ok (pos (length (l ++ x ∷ r))), record s { queue = l ++ x ∷ r })))
    ⊎ (e : Error) × (place_ok s p ≡ false) × (insert_item p x s ≡ (err e, s))

-- A known uid is queued unless it is the running item's.
known-queued :
    (s : PlanQueue) (u : String)
    → IsConsistent s
    → Dict.contains s.uid_dict u ≡ true
    → is_running s u ≡ false
    → queued u s.queue ≡ true
known-queued s u c k r = ground (arith, c.only u k, r)

insert_before :
    (s : PlanQueue) (u : String) (a : Option String) (p : Option Pos) (x : Item)
    → IsConsistent s
    → Insertion s (record { position = p; before_uid = some u; after_uid = a }) x
unfolding insert_item insert_near uid_dict_get_item
insert_before s u a p x c = elim (Bool-cases (Dict.contains s.uid_dict u)) [
  | inl k ↦ elim (Bool-cases (is_running s u)) [
    | inl r ↦ inr (index_error, ground (arith, k, r), ground (arith, k, r))
    | inr r ↦
        let q = known-queued s u c k r in
        let (y, g, e) = queued-item s.uid_dict s.queue u c.items q in
        let (is', (l, t, m, n), z) = insert_by-ok s before u y x c q g e in
        inl (l, y ∷ t, m, (y, t, g, refl), ground (arith, g, r), ground (arith, g, r, z, n))
  ]
  | inr k ↦ inr (index_error, ground (arith, k), ground (arith, k))
]

split_after : (l r : List Item) (y x : Item) → (l ++ y ∷ []) ++ x ∷ r ≡ l ++ y ∷ x ∷ r
split_after [] r y x = refl
split_after (z ∷ l) r y x = ap (◌∷◌ z) (split_after l r y x)

snoc_append : (l r : List Item) (y : Item) → (l ++ y ∷ []) ++ r ≡ l ++ y ∷ r
snoc_append [] r y = refl
snoc_append (z ∷ l) r y = ap (◌∷◌ z) (snoc_append l r y)

insert_after :
    (s : PlanQueue) (u : String) (p : Option Pos) (x : Item)
    → IsConsistent s
    → Insertion s (record { position = p; before_uid = none; after_uid = some u }) x
unfolding insert_item insert_near uid_dict_get_item push_front list_push_front
insert_after s u p x c = elim (Bool-cases (Dict.contains s.uid_dict u)) [
  | inl k ↦ elim (Bool-cases (is_running s u)) [
    | inl r ↦ inl ([], s.queue, refl, rw r refl, k, ground (arith, k, r))
    | inr r ↦
        let q = known-queued s u c k r in
        let (y, g, e) = queued-item s.uid_dict s.queue u c.items q in
        let (is', (l, t, m, n), z) = insert_by-ok s after u y x c q g e in
        inl (
          l ++ y ∷ [],
          t,
          m ∙ sym (snoc_append l t y),
          rw r (y, l, g, refl),
          k,
          ground (arith, g, r, z, n, split_after l t y x),
        )
  ]
  | inr k ↦ inr (index_error, ground (arith, k), ground (arith, k))
]

insert_at_place :
    (s : PlanQueue) (p : Option Pos) (x : Item)
    → IsConsistent s
    → ¬ (or_back p ≡ other)
    → is_place (or_back p) ≡ true
    → Insertion s (record { position = p; before_uid = none; after_uid = none }) x
unfolding insert_item
insert_at_place s p x c h o =
    let (l, r, m, a, b) = Aimed-at s (or_back p) x c h in inl (l, r, m, a, o, b)

-- Inserting with any of the ways to name a place.
pub insert_item-Insertion :
    (s : PlanQueue) (p : Option Pos) (b a : Option String) (x : Item)
    → IsConsistent s
    → Insertion s (record { position = p; before_uid = b; after_uid = a }) x
insert_item-Insertion s p (some u) a x c = insert_before s u a p x c
insert_item-Insertion s p none (some u) x c = insert_after s u p x c
insert_item-Insertion s none none none x c =
    insert_at_place s none x c (λ h. ground (arith, h)) refl
insert_item-Insertion s (some front) none none x c =
    insert_at_place s (some front) x c (λ h. ground (arith, h)) refl
insert_item-Insertion s (some back) none none x c =
    insert_at_place s (some back) x c (λ h. ground (arith, h)) refl
insert_item-Insertion s (some (at z)) none none x c =
    insert_at_place s (some (at z)) x c (λ h. ground (arith, h)) refl
insert_item-Insertion s (some other) none none x c =
    inr (value_error, refl, unfold insert_item insert_at clip in refl)
