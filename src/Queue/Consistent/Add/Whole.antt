-- ===== src/Queue/Consistent/Add/Whole.antt =====
-- `_add_item_to_queue` of queueserver_service/manager/plan_queue_ops.py as a whole.
use mathlib.Core.Path.{subst}
use ophyd_service.Prelude.{
  ℕ, suc, ◌≤◌, String, ◌≡◌, refl, sym, ◌∙◌, Bool, true, false, not, ◌&&◌, ◌||◌, Option, none, some,
  List, [], ◌∷◌, ◌++◌, if◌then◌else◌, length, eq_iff, is_some, arith, ◌⊎◌, inl, inr, Bool-cases,
  Option-cases, member,
}
use ophyd_service.Prelude.Int.{pos}
use ophyd_service.Dict
use ophyd_service.Dict.{Dict, get-insert, get-insert_self}
use ophyd_service.Queue.Json.{Item, text, uid_of}
use ophyd_service.Queue.State.{
  PlanQueue, ok, err, Error, value_error, runtime_error, renew_queue_uid, set_new_item_uuid,
  uid_dict_add,
}
use ophyd_service.Queue.Access.{Pos}
use ophyd_service.Queue.Insert.{
  Place, add_item_to_queue, prepare_item, verify_item, filter_item_parameters, keep_keys,
  allowed_item_parameters,
}
use ophyd_service.Queue.Uids.{queued, WellQueued, has_uid_eq, queued-get, WellQueued-insert}
use ophyd_service.Queue.Uids.Insertion.{queued-middle, WellQueued-middle}
use ophyd_service.Queue.Consistent.{IsConsistent}
use ophyd_service.Queue.Consistent.Add.{Aims, place_ok, insert_item-Insertion}

get-keep_keys :
    (allowed : List String) (item : Item) (k : String)
    → member k allowed ≡ true
    → Dict.get (keep_keys allowed item) k ≡ Dict.get item k
unfolding keep_keys Dict.get
get-keep_keys allowed [] k m = refl
get-keep_keys allowed ((j, w) ∷ item) k m =
    ground (arith, eq_iff j k, get-keep_keys allowed item k m)

-- Filtering keeps the uid.
pub uid_of-filter : (item : Item) → uid_of (filter_item_parameters item) ≡ uid_of item
unfolding uid_of filter_item_parameters
uid_of-filter item = ground (arith, get-keep_keys allowed_item_parameters item "item_uid" refl)

-- What is stored for an item.
abbrev pub with_uid : PlanQueue → Item → Item
with_uid s item =
    if Dict.contains item "item_uid"
    then item
    else Dict.insert item "item_uid" (text (s.uuid4 s.drawn))

abbrev pub as_stored : Bool → Item → Item
as_stored fp item = if fp then filter_item_parameters item else item

-- The item has no uid, or one that is not known.
abbrev pub uid_ok : PlanQueue → Item → Bool
uid_ok s item =
    not (Dict.contains item "item_uid")
    || elim (uid_of item) [ none ↦ false | some u ↦ not (Dict.contains s.uid_dict u) ]

abbrev pub one_place : Place → Bool
one_place p =
    not (is_some p.position && (is_some p.before_uid || is_some p.after_uid))
    && not (is_some p.before_uid && is_some p.after_uid)

-- The uid is the item's own, or the next uuid, which is used up.
abbrev pub Named : PlanQueue → Item → String → ℕ → Type 0
Named s item u n =
    (s.drawn ≤ n) × ((uid_of item ≡ some u) ⊎ (u ≡ s.uuid4 s.drawn) × (suc s.drawn ≤ n))

abbrev Prepared : PlanQueue → Item → Type 0
Prepared s item =
    ((u : String) × (n : ℕ) × (uid_ok s item ≡ true)
      × (uid_of (with_uid s item) ≡ some u)
      × (Dict.contains s.uid_dict u ≡ false)
      × Named s item u n
      × (prepare_item item s ≡ (ok (with_uid s item), record s { drawn = n })))
    ⊎ (e : Error) × (uid_ok s item ≡ false) × (prepare_item item s ≡ (err e, s))

prepared :
    (s : PlanQueue) (item : Item)
    → Dict.contains s.uid_dict (s.uuid4 s.drawn) ≡ false
    → Prepared s item
unfolding prepare_item verify_item set_new_item_uuid uid_of
prepared s item fresh = elim (Bool-cases (Dict.contains item "item_uid")) [
  | inl k ↦ elim (Option-cases (uid_of item)) [
    | inl n ↦ inr (value_error, ground (arith, k, n), ground (arith, k, n))
    | inr (u, e) ↦ elim (Bool-cases (Dict.contains s.uid_dict u)) [
      | inl d ↦ inr (runtime_error, ground (arith, k, e, d), ground (arith, k, e, d))
      | inr d ↦ inl (
        u,
        s.drawn,
        ground (arith, k, e, d),
        ground (arith, k, e),
        d,
        (omega arith, inl e),
        ground (arith, k, e, d),
      )
    ]
  ]
  | inr k ↦ inl (
    s.uuid4 s.drawn,
    suc s.drawn,
    ground (arith, k),
    ground (arith, k, get-insert_self item "item_uid" (text (s.uuid4 s.drawn))),
    fresh,
    (omega arith, inr (refl, omega arith)),
    ground (arith, k),
  )
]

pub redrawn : (s : PlanQueue) (n : ℕ) → IsConsistent s → IsConsistent (record s { drawn = n })
redrawn s n c = record {
  items = c.items;
  only = c.only;
  apart = c.apart;
  runs = c.runs;
  size = c.size;
}

-- The state with the item between the two parts of the queue.
abbrev pub holding : PlanQueue → List Item → Item → List Item → String → PlanQueue
holding s l x r u = record (renew_queue_uid s) {
  queue = l ++ x ∷ r;
  uid_dict = Dict.insert s.uid_dict u x;
  queue_size = pos (length (l ++ x ∷ r));
}

pub holding-IsConsistent :
    (s : PlanQueue) (l : List Item) (x : Item) (r : List Item) (u : String)
    → IsConsistent s
    → s.queue ≡ l ++ r
    → uid_of x ≡ some u
    → Dict.contains s.uid_dict u ≡ false
    → IsConsistent (holding s l x r u)
holding-IsConsistent s l x r u c m e k =
    let new : queued u (l ++ r) ≡ false = rw (sym m) (unknown u k) in
    record {
      items =
          WellQueued-middle (Dict.insert s.uid_dict u x) u x l r (get-insert_self s.uid_dict u x) e
            new
            (WellQueued-insert s.uid_dict u x (l ++ r) k (subst (WellQueued s.uid_dict) m c.items));
      only = λ v h. ground (
        arith,
        h,
        c.only v,
        m,
        get-insert s.uid_dict u x v,
        queued-middle v x l r,
        has_uid_eq v x {v = u} e,
      );
      apart = λ v h. ground (
        arith,
        c.apart v h,
        c.runs v h,
        k,
        m,
        queued-middle v x l r,
        has_uid_eq v x {v = u} e,
        eq_iff u v,
      );
      runs = λ v h. ground (arith, c.runs v h, get-insert s.uid_dict u x v);
      size = refl;
    }
  where
    unknown : (v : String) → Dict.contains s.uid_dict v ≡ false → queued v s.queue ≡ false
    unknown v h = elim (Bool-cases (queued v s.queue)) [
      | inl q ↦ absurd (ground (arith, h, queued-get s.uid_dict s.queue v c.items q))
      | inr q ↦ q
    ]

-- What adding an item comes to.
abbrev pub Addition : PlanQueue → Item → Option Pos → Option String → Option String → Bool → Type 0
Addition s item pos' b a fp =
    let p : Place = record { position = pos'; before_uid = b; after_uid = a } in
    let x = as_stored fp (with_uid s item) in
    let r = add_item_to_queue item p fp s in
    ((uid_ok s item && one_place p && place_ok s p ≡ true)
      × (l : List Item) × (t : List Item) × (u : String) × (n : ℕ) × (s.queue ≡ l ++ t)
      × Aims s p l t
      × (uid_of x ≡ some u)
      × (Dict.contains s.uid_dict u ≡ false)
      × Named s item u n
      × (r ≡ (ok (x, pos (length (l ++ x ∷ t))), holding (record s { drawn = n }) l x t u)))
    ⊎ (uid_ok s item && one_place p && place_ok s p ≡ false)
      × (e : Error) × (n : ℕ) × (s.drawn ≤ n)
      × (r ≡ (err e, record s { drawn = n }))

uid_of-as_stored : (fp : Bool) (item : Item) → uid_of (as_stored fp item) ≡ uid_of item
uid_of-as_stored true item = uid_of-filter item
uid_of-as_stored false item = refl

-- Adding an item to a consistent state succeeds exactly if the item's uid is unknown, the
-- place is named in one way, and the place exists. Then what was stored stands in the queue at
-- the place asked for, the rest of the queue is unchanged, the dictionary has the item, and
-- the new length is returned. Otherwise the call raises, and the state changes at most in the
-- number of uuids drawn. The next uuid is assumed not to be known.
pub add_item_to_queue-Addition :
    (s : PlanQueue) (item : Item) (p : Option Pos) (b a : Option String) (fp : Bool)
    → IsConsistent s
    → Dict.contains s.uid_dict (s.uuid4 s.drawn) ≡ false
    → Addition s item p b a fp
unfolding add_item_to_queue uid_dict_add
add_item_to_queue-Addition s item p b a fp c fresh =
    elim (Bool-cases (one_place (record { position = p; before_uid = b; after_uid = a }))) [
      | inr o ↦ inr (ground (arith, o), value_error, s.drawn, omega arith, ground (arith, o))
      | inl o ↦ elim (prepared s item fresh) [
        | inr (e, k, h) ↦ inr (ground (arith, k), e, s.drawn, omega arith, ground (arith, o, h))
        | inl (u, n, k, e, d, nm, h) ↦
            let x = as_stored fp (with_uid s item) in
            elim (insert_item-Insertion (record s { drawn = n }) p b a x (redrawn s n c)) [
              | inr (er, k', h') ↦ inr (ground (arith, k'), er, n, nm.0, ground (arith, o, h, h'))
              | inl (l, t, m, aim, k', h') ↦
                  let e' : uid_of x ≡ some u = uid_of-as_stored fp (with_uid s item) ∙ e in
                  inl (
                    ground (arith, k, o, k'),
                    l,
                    t,
                    u,
                    n,
                    m,
                    aim,
                    e',
                    d,
                    nm,
                    ground (arith, o, h, h', e', d),
                  )
            ]
      ]
    ]
