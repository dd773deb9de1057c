-- ===== src/Queue/Uids/Insertion.antt =====
-- Items put into and taken out of the middle of a queue
-- (queueserver_service/manager/plan_queue_ops.py over queue_store.py).
use ophyd_service.Prelude.{
  suc, String, ◌≡◌, refl, ap, true, false, ◌||◌, some, List, [], ◌∷◌, ◌++◌, length, ◌==◌, eq_iff,
  arith, inl, inr, Bool-cases,
}
use ophyd_service.Dict
use ophyd_service.Dict.{Dict, get-insert, get-remove}
use ophyd_service.Queue.Json.{Item, uid_of, same_text, same_text_iff}
use ophyd_service.Queue.Store.{Where, before, after, list_insert_at}
use ophyd_service.Queue.Uids.{has_uid, has_uid_eq, queued, WellQueued}

-- The pivot and the new item, in their order.
abbrev pub beside : Where → Item → Item → List Item → List Item
beside before p x r = x ∷ p ∷ r
beside after p x r = p ∷ x ∷ r

-- The new queue has the item directly before or after the pivot, and is otherwise the old one.
abbrev pub Beside : Where → Item → Item → List Item → List Item → Type 0
Beside w p x is is' =
    (l : List Item) × (r : List Item) × (is ≡ l ++ p ∷ r) × (is' ≡ l ++ beside w p x r)

Beside-cons :
    (w : Where) (p x i : Item) (is is' : List Item)
    → Beside w p x is is'
    → Beside w p x (i ∷ is) (i ∷ is')
Beside-cons w p x i is is' (l, r, e, f) = (i ∷ l, r, ap (◌∷◌ i) e, ap (◌∷◌ i) f)

different :
    (i p : Item) {v u : String}
    → uid_of i ≡ some v
    → uid_of p ≡ some u
    → v == u ≡ false
    → same_text i p ≡ false
different i p {v} {u} a b h = ground (arith, a, b, h, same_text_iff i p, eq_iff v u)

-- Inserting next to the item that the dictionary has under a queued uid finds it.
pub list_insert_at-Beside :
    (d : Dict Item) (u : String) (p x : Item) (w : Where) (is : List Item)
    → Dict.get d u ≡ some p
    → uid_of p ≡ some u
    → WellQueued d is
    → queued u is ≡ true
    → (is' : List Item) × (list_insert_at is w p x ≡ some is') × Beside w p x is is'
unfolding queued list_insert_at
list_insert_at-Beside d u p x w [] g e wq q = absurd (ground arith)
list_insert_at-Beside d u p x before (i ∷ is) g e (v, ei, gi, f, wq) q =
    elim (Bool-cases (v == u)) [
      | inl h ↦
          let same : i ≡ p = ground (arith, h, eq_iff v u, gi, g) in
          (
            x ∷ i ∷ is,
            rw ((same_text_iff i p).1 same) refl,
            ([], is, ap (λ (j : Item). j ∷ is) same, ap (λ (j : Item). x ∷ j ∷ is) same),
          )
      | inr h ↦
          let (is', a, b) =
            list_insert_at-Beside d u p x before is g e wq
              (ground (arith, q, has_uid_eq u i ei, h)) in
          (i ∷ is', rw (different i p ei e h, a) refl, Beside-cons before p x i is is' b)
    ]
list_insert_at-Beside d u p x after (i ∷ is) g e (v, ei, gi, f, wq) q = elim (Bool-cases (v == u)) [
  | inl h ↦
      let same : i ≡ p = ground (arith, h, eq_iff v u, gi, g) in
      (
        i ∷ x ∷ is,
        rw ((same_text_iff i p).1 same) refl,
        ([], is, ap (λ (j : Item). j ∷ is) same, ap (λ (j : Item). j ∷ x ∷ is) same),
      )
  | inr h ↦
      let (is', a, b) =
        list_insert_at-Beside d u p x after is g e wq (ground (arith, q, has_uid_eq u i ei, h)) in
      (i ∷ is', rw (different i p ei e h, a) refl, Beside-cons after p x i is is' b)
]

pub queued-middle :
    (v : String) (x : Item) (l r : List Item)
    → queued v (l ++ x ∷ r) ≡ (has_uid v x || queued v (l ++ r))
unfolding queued
queued-middle v x [] r = refl
queued-middle v x (i ∷ l) r = ground (arith, queued-middle v x l r)

pub WellQueued-middle :
    (d : Dict Item) (n : String) (x : Item) (l r : List Item)
    → Dict.get d n ≡ some x
    → uid_of x ≡ some n
    → queued n (l ++ r) ≡ false
    → WellQueued d (l ++ r)
    → WellQueued d (l ++ x ∷ r)
WellQueued-middle d n x [] r g e q w = (n, e, g, q, w)
WellQueued-middle d n x (i ∷ l) r g e q (u, ei, gi, f, w) = (
  u,
  ei,
  gi,
  ground (arith, f, queued-middle u x l r, has_uid_eq u x e, eq_iff n u, q_head),
  WellQueued-middle d n x l r g e (unfold queued in ground (arith, q)) w,
)
  where
    q_head : n == u ≡ false
    q_head = unfold queued in ground (arith, q, has_uid_eq n i ei, eq_iff u n, eq_iff n u)

-- An item of the queue has a uid that no other has.
pub WellQueued-split :
    (d : Dict Item) (x : Item) (l r : List Item)
    → WellQueued d (l ++ x ∷ r)
    → WellQueued d (l ++ r)
      × (u : String) × (uid_of x ≡ some u)
      × (Dict.get d u ≡ some x)
      × (queued u (l ++ r) ≡ false)
unfolding queued
WellQueued-split d x [] r (u, e, g, f, w) = (w, u, e, g, f)
WellQueued-split d x (i ∷ l) r (v, ei, gi, f, w) =
    let (w', u, e, g, q) = WellQueued-split d x l r w in
    (
      (v, ei, gi, ground (arith, f, queued-middle v x l r), w'),
      u,
      e,
      g,
      ground (
        arith,
        f,
        q,
        queued-middle v x l r,
        has_uid_eq v x e,
        has_uid_eq u i ei,
        eq_iff v u,
        eq_iff u v,
      ),
    )

pub length-middle : (x : Item) (l r : List Item) → length (l ++ x ∷ r) ≡ suc (length (l ++ r))
length-middle x [] r = refl
length-middle x (i ∷ l) r = ap suc (length-middle x l r)
