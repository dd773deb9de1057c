-- ===== src/Queue/Consistent/Replace.antt =====
-- `_replace_item` of queueserver_service/manager/plan_queue_ops.py.
use mathlib.Core.Path.{subst}
use ophyd_service.Prelude.{
  ℕ, String, ◌≡◌, refl, sym, ap, ◌∙◌, Bool, true, false, not, ◌||◌, some, List, [], ◌∷◌, ◌++◌,
  if◌then◌else◌, length, eqb, ◌==◌, eq_iff, arith, ◌⊎◌, inl, inr, Bool-cases, Option-cases,
}
use ophyd_service.Prelude.Int.{ℤ, pos}
use ophyd_service.Dict
use ophyd_service.Dict.{Dict, get-insert, get-insert_self, get-remove}
use ophyd_service.Queue.Json.{Item, uid_of, same_text, same_text_iff}
use ophyd_service.Queue.Store.{after, list_remove}
use ophyd_service.Queue.State.{
  PlanQueue, Result, ok, err, runtime_error, is_running, uid_dict_add, uid_dict_remove,
  uid_dict_get_item, renew_queue_uid,
}
use ophyd_service.Queue.Access.{remove_item}
use ophyd_service.Queue.Insert.{verify_item, filter_item_parameters, insert_by}
use ophyd_service.Queue.Edit.{replace_item, exchange}
use ophyd_service.Queue.Uids.{queued, WellQueued, drop_uid, drop_uid-absent, list_remove-drop_uid}
use ophyd_service.Queue.Uids.Insertion.{WellQueued-split}
use ophyd_service.Queue.Consistent.{IsConsistent, queued-item, waits}
use ophyd_service.Queue.Consistent.Pop.{without, without-IsConsistent}
use ophyd_service.Queue.Consistent.Slots.{insert_by-ok}
use ophyd_service.Queue.Consistent.Add.Whole.{holding, holding-IsConsistent, uid_of-filter}
use ophyd_service.Queue.Consistent.Batch.{drop_uid-middle}
use ophyd_service.Queue.Consistent.Finish.{carry}

-- Removing the old item by its text, with the new one behind it.
remove_old :
    (old x : Item) (l r : List Item)
    → list_remove (l ++ r) old ≡ (l ++ r, 0)
    → list_remove (l ++ old ∷ x ∷ r) old
      ≡ (if same_text x old then (l ++ r, 2) else (l ++ x ∷ r, 1))
unfolding list_remove
remove_old old x [] r h = ground (arith, h, same_text_iff old old)
remove_old old x (i ∷ l) r h = ground (arith, h, remove_old old x l r)

-- The two ways in which a queued item is exchanged.
abbrev pub Exchanged :
    PlanQueue → Item → Item → String → String → Result (Item × ℤ) × PlanQueue → Type 0
Exchanged s old x u v (r, s') =
    (a : List Item) × (b : List Item) × (s.queue ≡ a ++ old ∷ b)
    × ((same_text x old ≡ false)
          × (r ≡ ok (x, pos (length (a ++ x ∷ b))))
          × (s'.queue ≡ a ++ x ∷ b)
          × (s'.uid_dict ≡ Dict.insert (Dict.remove s.uid_dict u) v x)
          × IsConsistent s'
        ⊎ (same_text x old ≡ true)
          × (r ≡ err runtime_error)
          × (s'.queue ≡ a ++ b)
          × (s'.uid_dict ≡ s.uid_dict))

-- The store and the caches after the exchange, and after its failure.
abbrev exchanged_state : PlanQueue → List Item → String → String → Item → PlanQueue
exchanged_state s q u v x = record (renew_queue_uid (renew_queue_uid s)) {
  queue = q;
  queue_size = pos (length q);
  uid_dict = Dict.insert (Dict.remove s.uid_dict u) v x;
}

abbrev lost_state : PlanQueue → List Item → PlanQueue
lost_state s q = record s { queue = q; queue_size = pos (length q) }

-- The steps of the exchange, once the item has been inserted and the old one removed.
exchange-runs :
    (s : PlanQueue) (item old : Item) (u v : String) (q : List Item) (n : ℕ) (is' : List Item)
    → uid_of item ≡ some v
    → (u == v || not (Dict.contains s.uid_dict v)) ≡ true
    → Dict.contains s.uid_dict u ≡ true
    → insert_by after old (filter_item_parameters item) s
      ≡ (ok (pos (length is')), record s { queue = is' })
    → list_remove is' old ≡ (q, n)
    → exchange item old u s ≡ (
        if eqb n 1
        then (
          ok (filter_item_parameters item, pos (length q)),
          exchanged_state s q u v (filter_item_parameters item),
        )
        else (err runtime_error, lost_state s q))
unfolding exchange verify_item remove_item uid_dict_remove uid_dict_add
exchange-runs s item old u v q n is' f k g ins rem =
    ground (arith, f, k, g, ins, rem, eq_iff u v, uid_of-filter item ∙ f, get-remove s.uid_dict u v)

-- The state with the old item taken out.
abbrev base : PlanQueue → String → List Item → PlanQueue
base s u q = record s {
  queue = q;
  queue_size = pos (length q);
  uid_dict = Dict.remove s.uid_dict u;
}

exchange-Exchanged :
    (s : PlanQueue) (item old : Item) (u v : String)
    → IsConsistent s
    → queued u s.queue ≡ true
    → Dict.get s.uid_dict u ≡ some old
    → uid_of old ≡ some u
    → uid_of item ≡ some v
    → (u == v || not (Dict.contains s.uid_dict v)) ≡ true
    → Exchanged s old (filter_item_parameters item) u v (exchange item old u s)
exchange-Exchanged s item old u v c q g e f k =
    let x = filter_item_parameters item in
    let (is', (a, b, m, n), ins) = insert_by-ok s after u old x c q g e in
    let (w, u', e', g', q') =
      WellQueued-split s.uid_dict old a b (subst (WellQueued s.uid_dict) m c.items) in
    let qu : queued u (a ++ b) ≡ false = ground (arith, e, e', q') in
    let none_there : list_remove (a ++ b) old ≡ (a ++ b, 0) =
      list_remove-drop_uid s.uid_dict u old (a ++ b) g e w
      ∙ rw (qu, drop_uid-absent u (a ++ b) qu) refl in
    let rem = ap (λ z. list_remove z old) n ∙ remove_old old x a b none_there in
    let fx : uid_of x ≡ some v = uid_of-filter item ∙ f in
    let fresh : Dict.contains (Dict.remove s.uid_dict u) v ≡ false =
      ground (arith, k, get-remove s.uid_dict u v) in
    elim (Bool-cases (same_text x old)) [
      | inl t ↦
          let run =
            exchange-runs s item old u v (a ++ b) 2 is' f k (rw g refl) ins
              (rem ∙ ground (arith, t)) in
          rw run (a, b, m, inr (t, refl, refl, refl))
      | inr t ↦
          let run =
            exchange-runs s item old u v (a ++ x ∷ b) 1 is' f k (rw g refl) ins
              (rem ∙ ground (arith, t)) in
          let gone = sym (ap (drop_uid u) m ∙ drop_uid-middle u old a b e qu) in
          let c1 =
            carry (without s u) (base s u (a ++ b)) gone refl refl (ap (λ q. pos (length q)) gone)
              (without-IsConsistent s u c q) in
          let c2 = holding-IsConsistent (base s u (a ++ b)) a x b v c1 refl fx fresh in
          rw run (
            a,
            b,
            m,
            inl (
              t,
              refl,
              refl,
              refl,
              carry (holding (base s u (a ++ b)) a x b v) _ refl refl refl refl c2,
            ),
          )
    ]

pub has_uid_key : (i : Item) (w : String) → uid_of i ≡ some w → Dict.contains i "item_uid" ≡ true
unfolding uid_of
has_uid_key i w h = elim (Option-cases (Dict.get i "item_uid")) [
  | inl n ↦ absurd (ground (arith, n, h))
  | inr (x, e) ↦ rw e refl
]

replace-runs :
    (s : PlanQueue) (equal : Item → Item → Bool) (item old : Item) (u : String)
    → Dict.contains s.uid_dict u ≡ true
    → is_running s u ≡ false
    → Dict.get s.uid_dict u ≡ some old
    → Dict.contains item "item_uid" ≡ true
    → equal item old ≡ false
    → replace_item equal item u s ≡ exchange item old u s
unfolding replace_item uid_dict_get_item
replace-runs s equal item old u k r g h ne = ground (arith, k, r, g, h, ne)

-- Replacing a queued item of a consistent state by an item that differs from it as a dictionary,
-- with a uid that is the same or not known. If what is to be stored has another JSON text than the
-- old item, it takes the old item's place, its uid the place of the old uid, and the state is
-- consistent. Otherwise the call raises, the old item is gone from the queue, and its uid
-- is still known.
pub replace_item-Exchanged :
    (s : PlanQueue) (equal : Item → Item → Bool) (item old : Item) (u v : String)
    → IsConsistent s
    → queued u s.queue ≡ true
    → Dict.get s.uid_dict u ≡ some old
    → uid_of item ≡ some v
    → (u == v || not (Dict.contains s.uid_dict v)) ≡ true
    → equal item old ≡ false
    → Exchanged s old (filter_item_parameters item) u v (replace_item equal item u s)
replace_item-Exchanged s equal item old u v c q g f k ne =
    let (x, g', e) = queued-item s.uid_dict s.queue u c.items q in
    let same : uid_of old ≡ some u = ground (arith, g, g', e) in
    subst (Exchanged s old (filter_item_parameters item) u v)
      (sym (
        replace-runs s equal item old u (waits s u c q).0 (waits s u c q).1 g (has_uid_key item v f)
          ne))
      (exchange-Exchanged s item old u v c q g same f k)
