-- ===== src/Queue/Consistent/Ends.antt =====
-- The items at the positions and the ends of a consistent queue
-- (queueserver_service/manager/plan_queue_ops.py over queue_store.py).
use mathlib.Core.Path.{ap₂}
use ophyd_service.Prelude.{
  ℕ, zero, suc, ◌-◌, String, ◌≡◌, refl, sym, ◌∙◌, true, false, none, some, List, [], ◌∷◌, length,
  ◌==◌, eq_iff, arith, get_elem?,
}
use ophyd_service.Prelude.Int.{ℤ, pos, negsuc}
use ophyd_service.Dict
use ophyd_service.Dict.{Dict, get-remove, get-insert}
use ophyd_service.Queue.Json.{Item, uid_of}
use ophyd_service.Queue.Store.{list_index, list_pop_front, list_pop_back}
use ophyd_service.Queue.State.{PlanQueue, is_empty}
use ophyd_service.Queue.Uids.{queued, WellQueued, drop_uid, has_uid_eq, drop_uid-absent}
use ophyd_service.Queue.Consistent.{IsConsistent}

-- An item is in the queue under a uid of its own.
abbrev pub In : PlanQueue → Item → Type 0
In s x =
    (u : String) × (uid_of x ≡ some u)
    × (queued u s.queue ≡ true)
    × (Dict.get s.uid_dict u ≡ some x)

pub get_elem-queued :
    (d : Dict Item) (is : List Item) (i : ℕ) (x : Item)
    → WellQueued d is
    → get_elem? is i ≡ some x
    → (u : String) × (uid_of x ≡ some u) × (queued u is ≡ true) × (Dict.get d u ≡ some x)
unfolding queued
get_elem-queued d [] i x w g = absurd (ground arith)
get_elem-queued d (y ∷ is) zero x (u, e, k, f, w) g =
    let same : y ≡ x = ground arith in
    (u, rw (sym same) e, ground (arith, has_uid_eq u y e, eq_iff u u), rw (sym same) k)
get_elem-queued d (y ∷ is) (suc i) x (v, e, k, f, w) g =
    let (u, a, b, c) = get_elem-queued d is i x w g in (u, a, ground (arith, b), c)

pub list_index-In :
    (s : PlanQueue) (z : ℤ) (x : Item) → IsConsistent s → list_index s.queue z ≡ some x → In s x
unfolding list_index
list_index-In s (pos i) x c g = get_elem-queued s.uid_dict s.queue i x c.items g
list_index-In s (negsuc i) x c g =
    get_elem-queued s.uid_dict s.queue (length s.queue - suc i) x c.items (ground arith)

list_pop_front-index : (is : List Item) → (list_pop_front is).0 ≡ list_index is (pos 0)
unfolding list_pop_front list_index
list_pop_front-index [] = refl
list_pop_front-index (x ∷ is) = refl

list_pop_back-last :
    (x : Item) (is : List Item) → (list_pop_back (x ∷ is)).0 ≡ get_elem? (x ∷ is) (length is)
unfolding list_pop_back
list_pop_back-last x [] = refl
list_pop_back-last x (y ∷ is) = ground (arith, list_pop_back-last y is)

list_pop_back-index : (is : List Item) → (list_pop_back is).0 ≡ list_index is (negsuc 0)
unfolding list_pop_back list_index
list_pop_back-index [] = refl
list_pop_back-index (x ∷ is) = ground (arith, list_pop_back-last x is)

drop_last :
    (d : Dict Item) (x : Item) (is : List Item) (u : String) (y : Item)
    → WellQueued d (x ∷ is)
    → (list_pop_back (x ∷ is)).0 ≡ some y
    → uid_of y ≡ some u
    → (list_pop_back (x ∷ is)).1 ≡ drop_uid u (x ∷ is)
unfolding list_pop_back drop_uid
drop_last d x [] u y w p e = ground (arith, eq_iff u u)
drop_last d x (z ∷ is) u y (v, a, g, f, w) p e =
    let last : (list_pop_back (z ∷ is)).0 ≡ some y =
      list_pop_back-last z is ∙ (sym (list_pop_back-last x (z ∷ is)) ∙ p) in
    let (u', e', q, g') =
      get_elem-queued d (z ∷ is) (length is) y w (sym (list_pop_back-last z is) ∙ last) in
    let ne : v == u ≡ false = ground (arith, e, e', q, f, eq_iff v u) in
    rw (has_uid_eq u x {v = v} a, ne, last, drop_last d z is u y w last e) refl

pub pop_back-drop_uid :
    (d : Dict Item) (q : List Item) (x : Item) (u : String)
    → WellQueued d q
    → list_index q (negsuc 0) ≡ some x
    → uid_of x ≡ some u
    → list_pop_back q ≡ (some x, drop_uid u q)
unfolding list_index
pop_back-drop_uid d [] x u w g e = absurd (ground (arith, g))
pop_back-drop_uid d (y ∷ q) x u w g e =
    let last = list_pop_back-index (y ∷ q) ∙ g in
    ap₂ (λ a b. (a, b)) last (drop_last d y q u x w last e)

pub pop_front-drop_uid :
    (d : Dict Item) (q : List Item) (x : Item) (u : String)
    → WellQueued d q
    → list_index q (pos 0) ≡ some x
    → uid_of x ≡ some u
    → list_pop_front q ≡ (some x, drop_uid u q)
unfolding list_index list_pop_front drop_uid
pop_front-drop_uid d [] x u w g e = absurd (ground (arith, g))
pop_front-drop_uid d (y ∷ q) x u (v, a, b, f, w) g e =
    ground (arith, g, e, a, f, eq_iff v u, drop_uid-absent u q)

some_last : (y : Item) (q : List Item) → ¬ (get_elem? (y ∷ q) (length q) ≡ none)
some_last y [] h = ground (arith, h)
some_last y (z ∷ q) h = some_last z q h

pub pop_back_empty : (q : List Item) → list_index q (negsuc 0) ≡ none → list_pop_back q ≡ (none, q)
unfolding list_index list_pop_back
pop_back_empty [] h = refl
pop_back_empty (y ∷ q) h = absurd (some_last y q (ground (arith, h)))

pub pop_front_empty : (q : List Item) → list_index q (pos 0) ≡ none → list_pop_front q ≡ (none, q)
unfolding list_index list_pop_front
pop_front_empty [] h = refl
pop_front_empty (y ∷ q) h = absurd (ground (arith, h))

pub not_empty : (x : Item) (u : String) → uid_of x ≡ some u → is_empty x ≡ false
unfolding uid_of Dict.get
not_empty [] u e = absurd (ground (arith, e))
not_empty (f ∷ fs) u e = refl
