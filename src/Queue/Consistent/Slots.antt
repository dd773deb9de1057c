-- ===== src/Queue/Consistent/Slots.antt =====
-- Where a position puts a new item in a consistent queue, and inserting next to a queued item
-- (queueserver_service/manager/plan_queue_ops.py).
use mathlib.Core.Path.{subst}
use ophyd_service.Prelude.{
  ℕ, zero, suc, ◌-◌, ◌<◌, String, ◌≡◌, refl, sym, ap, ◌∙◌, true, some, List, [], ◌∷◌, ◌++◌,
  if◌then◌else◌, length, eq_iff, eqb, leb, arith, inl, inr, Bool-cases, get_elem?,
}
use ophyd_service.Prelude.Int.{ℤ, pos, negsuc, is_lt, add_ℕ}
use ophyd_service.Dict
use ophyd_service.Dict.{Dict, get-remove, get-insert}
use ophyd_service.Queue.Json.{Item, uid_of}
use ophyd_service.Queue.Store.{
  Where, before, list_index, list_insert, list_push_front, list_push_back,
}
use ophyd_service.Queue.State.{PlanQueue, ok}
use ophyd_service.Queue.Access.{Pos, front, back, at, other, get_item_at, index_of}
use ophyd_service.Queue.Insert.{clip, insert_at, insert_by, push_front, push_back}
use ophyd_service.Queue.Uids.{queued, WellQueued, has_uid_eq}
use ophyd_service.Queue.Uids.Insertion.{Beside, list_insert_at-Beside, queued-middle}
use ophyd_service.Queue.Consistent.{IsConsistent}
use ophyd_service.Queue.Consistent.Ends.{get_elem-queued, not_empty}

-- The place of a new item in a queue of that length, as Python counts: a negative position counts
-- from the end, -1 being behind the last item.
unfoldable pub slot : ℕ → Pos → ℕ
slot len back = len
slot len front = 0
slot len other = len
slot len (at (pos i)) = if leb i len then i else len
slot len (at (negsuc i)) = len - i

-- An item of a well-formed queue stands at one position.
position_unique :
    (d : Dict Item) (x : Item) (l r : List Item) (i : ℕ)
    → WellQueued d (l ++ x ∷ r)
    → get_elem? (l ++ x ∷ r) i ≡ some x
    → i ≡ length l
unfolding queued
position_unique d x [] r zero w g = refl
position_unique d x [] r (suc i) (u, e, k, f, w) g =
    let (v, a, q, b) = get_elem-queued d r i x w g in absurd (ground (arith, a, e, q, f))
position_unique d x (y ∷ l) r zero (u, e, k, f, w) g = absurd (
    ground (
      arith,
      g,
      e,
      f,
      queued-middle u x l r,
      has_uid_eq u x {v = u} (ground (arith, g, e)),
      eq_iff u u,
    ))
position_unique d x (y ∷ l) r (suc i) (u, e, k, f, w) g = ap suc (position_unique d x l r i w g)

-- Inserting next to a queued item.
pub insert_by-ok :
    (s : PlanQueue) (w : Where) (u : String) (y x : Item)
    → IsConsistent s
    → queued u s.queue ≡ true
    → Dict.get s.uid_dict u ≡ some y
    → uid_of y ≡ some u
    → (is' : List Item) × Beside w y x s.queue is'
      × (insert_by w y x s ≡ (ok (pos (length is')), record s { queue = is' }))
unfolding insert_by list_insert
insert_by-ok s w u y x c q g e =
    let (is', a, b) = list_insert_at-Beside s.uid_dict u y x w s.queue g e c.items q in
    (is', b, ground (arith, a))

pub empty_append : (l : List Item) → l ++ [] ≡ l
empty_append [] = refl
empty_append (z ∷ l) = ap (◌∷◌ z) (empty_append l)

-- Where a position puts the item, before the code's own clipping.
abbrev Aimed : PlanQueue → Pos → Pos → Item → Type 0
Aimed s p p' x =
    (l : List Item) × (r : List Item) × (s.queue ≡ l ++ r)
    × (length l ≡ slot (length s.queue) p)
    × (insert_at p' x s ≡ (ok (pos (length (l ++ x ∷ r))), record s { queue = l ++ x ∷ r }))

Aimed-back :
    (s : PlanQueue) (p : Pos) (x : Item)
    → slot (length s.queue) p ≡ length s.queue
    → Aimed s p back x
unfolding insert_at push_back list_push_back
Aimed-back s p x h = (s.queue, [], sym (empty_append s.queue), sym h, refl)

Aimed-front : (s : PlanQueue) (p : Pos) (x : Item) → slot (length s.queue) p ≡ 0 → Aimed s p front x
unfolding insert_at push_front list_push_front
Aimed-front s p x h = ([], s.queue, refl, sym h, refl)

in_range : (q : List Item) (i : ℕ) → i < length q → (y : Item) × (get_elem? q i ≡ some y)
in_range [] i h = absurd (omega arith)
in_range (y ∷ q) zero h = (y, refl)
in_range (y ∷ q) (suc i) h = in_range q i (omega arith)

-- Before the item at an index of the list.
Aimed-index :
    (s : PlanQueue) (z w : ℤ) (i : ℕ) (x : Item)
    → IsConsistent s
    → (if is_lt (pos 0) z then z else add_ℕ 1 z) ≡ w
    → list_index s.queue w ≡ get_elem? s.queue i
    → i < length s.queue
    → slot (length s.queue) (at z) ≡ i
    → Aimed s (at z) (at z) x
unfolding insert_at get_item_at index_of
Aimed-index s z w i x c hw hi lt hs =
    let (y, g) = in_range s.queue i lt in
    let (u, e, q, k) = get_elem-queued s.uid_dict s.queue i y c.items g in
    let (is', (l, t, m, n), a) = insert_by-ok s before u y x c q k e in
    let len =
      position_unique s.uid_dict y l t i (subst (WellQueued s.uid_dict) m c.items)
        (ap (λ v. get_elem? v i) (sym m) ∙ g) in
    (l, y ∷ t, m, sym len ∙ sym hs, ground (arith, hw, hi ∙ g, not_empty y u e, a, n))

clip_last : (n : ℕ) → clip n (at (negsuc 0)) ≡ (if eqb n 0 then front else back)
unfolding clip
clip_last zero = ground arith
clip_last (suc n) = ground arith

clip_from_end :
    (n k : ℕ)
    → clip n (at (negsuc (suc k))) ≡ (if leb n (suc k) then front else at (negsuc (suc k)))
unfolding clip
clip_from_end zero k = ground arith
clip_from_end (suc n) k = ground arith

by_clip : {s : PlanQueue} (p : Pos) {a b : Pos} {x : Item} → b ≡ a → Aimed s p a x → Aimed s p b x
by_clip {s} p {a} {b} {x} e h = subst (λ q. Aimed s p q x) (sym e) h

pub Aimed-at :
    (s : PlanQueue) (p : Pos) (x : Item)
    → IsConsistent s
    → ¬ (p ≡ other)
    → Aimed s p (clip (length s.queue) p) x
unfolding clip slot list_index
Aimed-at s front x c h = Aimed-front s front x refl
Aimed-at s back x c h = Aimed-back s back x refl
Aimed-at s other x c h = absurd (h refl)
Aimed-at s (at (pos zero)) x c h = Aimed-front s (at (pos zero)) x (ground arith)
Aimed-at s (at (pos (suc k))) x c h = elim (Bool-cases (leb (length s.queue) (suc k))) [
  | inl le ↦
      by_clip (at (pos (suc k))) (ground (arith, le))
        (Aimed-back s (at (pos (suc k))) x (ground (arith, le)))
  | inr gt ↦ by_clip (at (pos (suc k))) (ground (arith, gt)) (
      Aimed-index s (pos (suc k)) (pos (suc k)) (suc k) x c (ground arith) refl (ground (arith, gt))
        (ground (arith, gt)))
]
Aimed-at s (at (negsuc zero)) x c h = elim (Bool-cases (eqb (length s.queue) 0)) [
  | inl e ↦
      by_clip (at (negsuc zero)) (ground (arith, e, clip_last (length s.queue)))
        (Aimed-front s (at (negsuc zero)) x (ground (arith, e)))
  | inr ne ↦
      by_clip (at (negsuc zero)) (ground (arith, ne, clip_last (length s.queue)))
        (Aimed-back s (at (negsuc zero)) x (ground arith))
]
Aimed-at s (at (negsuc (suc k))) x c h = elim (Bool-cases (leb (length s.queue) (suc k))) [
  | inl le ↦
      by_clip (at (negsuc (suc k))) (ground (arith, le, clip_from_end (length s.queue) k))
        (Aimed-front s (at (negsuc (suc k))) x (ground (arith, le)))
  | inr gt ↦ by_clip (at (negsuc (suc k))) (ground (arith, gt, clip_from_end (length s.queue) k)) (
      Aimed-index s (negsuc (suc k)) (negsuc k) (length s.queue - suc k) x c (ground arith)
        (ground (arith, gt)) (ground (arith, gt)) (ground arith))
]
