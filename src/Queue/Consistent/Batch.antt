-- ===== src/Queue/Consistent/Batch.antt =====
-- `_add_batch_to_queue` of queueserver_service/manager/plan_queue_ops.py: the loop, and its undoing.
pub mod Undone
pub mod Removed
use mathlib.Core.Path.{subst}
use mathlib.Core.List.{reverse, reverse-cons}
use ophyd_service.Prelude.{
  ℕ, zero, suc, ◌+◌, ◌≤◌, String, ◌≡◌, refl, sym, ap, ◌∙◌, Bool, true, false, not, ◌&&◌, ◌||◌,
  Option, none, some, List, [], ◌∷◌, ◌++◌, if◌then◌else◌, length, ◌==◌, eq_iff, is_some, arith, ◌⊎◌,
  inl, inr, Bool-cases, Option-cases, member, All,
}
use ophyd_service.Prelude.Int.{ℤ, pos}
use ophyd_service.Dict
use ophyd_service.Dict.{Dict, get-insert, get-insert_self}
use ophyd_service.Queue.Json.{Item, text, uid_of}
use ophyd_service.Queue.State.{PlanQueue, Exec, Result, ok, err, Error, is_running}
use ophyd_service.Queue.Access.{Pos, other, pop_item_from_queue}
use ophyd_service.Queue.Insert.{
  Place, BatchResult, add_item_to_queue, add_each, added_after, next_place, undo, all_succeeded,
  add_batch_to_queue, reported,
}
use ophyd_service.Queue.Uids.{
  queued, WellQueued, has_uid_eq, queued-get, drop_uid, drop_uid-absent, has_uid,
}
use ophyd_service.Queue.Uids.Insertion.{length-middle}
use ophyd_service.Queue.Consistent.{IsConsistent}
use ophyd_service.Queue.Consistent.Pop.Anywhere.{pop_absent, pop_item_from_queue-IsConsistent}
use ophyd_service.Queue.Consistent.Pop.{pop_queued, without}
use ophyd_service.Queue.Consistent.Add.Whole.{
  redrawn, as_stored, with_uid, Named, Addition, add_item_to_queue-Addition, holding,
  holding-IsConsistent,
}

-- The uuids to come are different, not known, and not the uids of the items.
pub record Fresh (s : PlanQueue) (items : List Item) : Type 0 where
  pub unknown : (i : ℕ) → s.drawn ≤ i → Dict.contains s.uid_dict (s.uuid4 i) ≡ false
  pub distinct : (i j : ℕ) → s.uuid4 i ≡ s.uuid4 j → i ≡ j
  pub own : All (λ item. (i : ℕ) → s.drawn ≤ i → ¬ (uid_of item ≡ some (s.uuid4 i))) items

unfoldable pub drop_each : List String → List Item → List Item
drop_each [] q = q
drop_each (u ∷ us) q = drop_each us (drop_uid u q)

drop_uid-swap :
    (u v : String) (q : List Item) → drop_uid u (drop_uid v q) ≡ drop_uid v (drop_uid u q)
unfolding drop_uid
drop_uid-swap u v [] = refl
drop_uid-swap u v (i ∷ q) = ground (arith, drop_uid-swap u v q)

drop_each-swap :
    (us : List String) (v : String) (q : List Item)
    → drop_each us (drop_uid v q) ≡ drop_uid v (drop_each us q)
unfolding drop_each
drop_each-swap [] v q = refl
drop_each-swap (u ∷ us) v q =
    ap (drop_each us) (drop_uid-swap u v q) ∙ drop_each-swap us v (drop_uid u q)

drop_each-snoc :
    (us : List String) (v : String) (q : List Item)
    → drop_each (us ++ v ∷ []) q ≡ drop_uid v (drop_each us q)
unfolding drop_each
drop_each-snoc [] v q = refl
drop_each-snoc (u ∷ us) v q = drop_each-snoc us v (drop_uid u q)

pub drop_each-reverse :
    (us : List String) (q : List Item) → drop_each (reverse us) q ≡ drop_each us q
unfolding drop_each
drop_each-reverse [] q = refl
drop_each-reverse (u ∷ us) q =
    ap (λ vs. drop_each vs q) (reverse-cons u us)
    ∙ (drop_each-snoc (reverse us) u q
        ∙ (ap (drop_uid u) (drop_each-reverse us q) ∙ sym (drop_each-swap us u q)))

-- One removal of the undoing.
pub pop_drops :
    (s : PlanQueue) (u : String)
    → IsConsistent s
    → let s' = (pop_item_from_queue none (some u) s).1 in
      IsConsistent s' × (s'.queue ≡ drop_uid u s.queue) × (s'.running ≡ s.running)
pop_drops s u c = elim (Bool-cases (queued u s.queue)) [
  | inl q ↦
      let (x, g, e, p) = pop_queued s u c q in
      (pop_item_from_queue-IsConsistent s none (some u) c, rw p refl, rw p refl)
  | inr q ↦
      let p = pop_absent s u c q in (rw p c, rw p (sym (drop_uid-absent u s.queue q)), rw p refl)
]

pub undo-drop_each :
    (us : List String) (s : PlanQueue)
    → IsConsistent s
    → IsConsistent (undo us s)
      × ((undo us s).queue ≡ drop_each us s.queue)
      × ((undo us s).running ≡ s.running)
unfolding undo drop_each
undo-drop_each [] s c = (c, refl, refl)
undo-drop_each (u ∷ us) s c =
    let (c1, q, r) = pop_drops s u c in
    let (c2, q2, r2) = undo-drop_each us (pop_item_from_queue none (some u) s).1 c1 in
    (c2, q2 ∙ ap (drop_each us) q, r2 ∙ r)

pub drop_uid-middle :
    (u : String) (x : Item) (l r : List Item)
    → uid_of x ≡ some u
    → queued u (l ++ r) ≡ false
    → drop_uid u (l ++ x ∷ r) ≡ l ++ r
unfolding drop_uid queued
drop_uid-middle u x [] r e q =
    ground (arith, has_uid_eq u x {v = u} e, eq_iff u u, drop_uid-absent u r q)
drop_uid-middle u x (i ∷ l) r e q = ground (arith, q, drop_uid-middle u x l r e)

-- What one addition of the loop leaves.
abbrev pub Step : PlanQueue → List Item → Result (Item × ℤ) × PlanQueue → Type 0
Step s items (r, s') =
    IsConsistent s'
    × Fresh s' items
    × (s'.running ≡ s.running)
    × (((x : Item) × (n : ℤ) × (u : String) × (r ≡ ok (x, n))
          × (uid_of x ≡ some u)
          × (drop_uid u s'.queue ≡ s.queue)
          × (length s'.queue ≡ suc (length s.queue)))
        ⊎ (e : Error) × (r ≡ err e) × (s'.queue ≡ s.queue))

fewer_own :
    (s : PlanQueue) (n : ℕ) (items : List Item)
    → s.drawn ≤ n
    → All (λ (item : Item). (i : ℕ) → s.drawn ≤ i → ¬ (uid_of item ≡ some (s.uuid4 i))) items
    → All (λ (item : Item). (i : ℕ) → n ≤ i → ¬ (uid_of item ≡ some (s.uuid4 i))) items
fewer_own s n [] h a = tt
fewer_own s n (x ∷ items) h (a, b) = (λ i k. a i (omega arith), fewer_own s n items h b)

unknown_uid :
    (s : PlanQueue) (u : String)
    → IsConsistent s
    → Dict.contains s.uid_dict u ≡ false
    → queued u s.queue ≡ false
unknown_uid s u c h = elim (Bool-cases (queued u s.queue)) [
  | inl q ↦ absurd (ground (arith, h, queued-get s.uid_dict s.queue u c.items q))
  | inr q ↦ q
]

other_uid :
    (s : PlanQueue) (item : Item) (items : List Item) (u : String) (n i : ℕ)
    → Fresh s (item ∷ items)
    → Named s item u n
    → suc n ≤ i
    → u == s.uuid4 i ≡ false
other_uid s item items u n i f (a, inl e) h = elim (Bool-cases (u == s.uuid4 i)) [
  | inl t ↦ absurd (f.own.0 i (omega arith) (e ∙ ap some ((eq_iff u (s.uuid4 i)).0 t)))
  | inr t ↦ t
]
other_uid s item items u n i f (a, inr (e, b)) h = elim (Bool-cases (u == s.uuid4 i)) [
  | inl t ↦ absurd (omega (arith, f.distinct s.drawn i (sym e ∙ (eq_iff u (s.uuid4 i)).0 t)))
  | inr t ↦ t
]

pub add_item_to_queue-Step :
    (s : PlanQueue) (item : Item) (items : List Item) (p : Place) (fp : Bool)
    → IsConsistent s
    → Fresh s (item ∷ items)
    → Step s items (add_item_to_queue item p fp s)
add_item_to_queue-Step s item items p fp c f = of_addition (
    add_item_to_queue-Addition s item p.position p.before_uid p.after_uid fp c
      (f.unknown s.drawn (omega arith)))
  where
    of_addition :
        Addition s item p.position p.before_uid p.after_uid fp
        → Step s items (add_item_to_queue item p fp s)
    of_addition (inr (k, e, n, le, h)) = rw h (
      redrawn s n c,
      record {
        unknown = λ i j. f.unknown i (omega arith);
        distinct = f.distinct;
        own = fewer_own s n items le f.own.1;
      },
      refl,
      inr (e, refl, refl),
    )
    of_addition (inl (k, l, t, u, n, m, aim, e, d, nm, h)) =
        let x = as_stored fp (with_uid s item) in
        rw h (
          holding-IsConsistent (record s { drawn = n }) l x t u (redrawn s n c) m e d,
          record {
            unknown = λ i j. ground (
              arith,
              get-insert s.uid_dict u x (s.uuid4 i),
              other_uid s item items u n i f nm j,
              f.unknown i (omega (arith, nm.0)),
            );
            distinct = f.distinct;
            own = fewer_own s (suc n) items (omega (arith, nm.0)) f.own.1;
          },
          refl,
          inl (
            x,
            _,
            u,
            refl,
            e,
            drop_uid-middle u x l t e (subst (λ q. queued u q ≡ false) m (unknown_uid s u c d))
                ∙ sym m,
            length-middle x l t ∙ ap (λ q. suc (length q)) (sym m),
          ),
        )
