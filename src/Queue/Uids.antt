-- ===== src/Queue/Uids.antt =====
-- The queue of queueserver_service/manager/plan_queue_ops.py seen by the uids of its items, and what
-- the store's lists do to it.
pub mod Insertion
use ophyd_service.Prelude.{
  ℕ, zero, suc, ◌+◌, String, ◌≡◌, refl, sym, ap, ◌≢◌, ◌∙◌, Bool, true, false, not, ◌&&◌, ◌||◌,
  Option, none, some, List, [], ◌∷◌, ◌++◌, if◌then◌else◌, length, ◌==◌, eq_iff, is_some, arith, ◌⊎◌,
  inl, inr, Bool-cases, Option-cases,
}
use ophyd_service.Dict
use ophyd_service.Dict.{Dict, get-insert, get-remove}
use ophyd_service.Queue.Json.{Item, uid_of, same_text, same_text_iff}
use ophyd_service.Queue.Store.{
  Where, before, after, list_remove, list_insert, list_insert_at, list_pop_back,
}

-- item["item_uid"] == uid
abbrev pub has_uid : String → Item → Bool
has_uid uid item = elim (uid_of item) [ none ↦ false | some u ↦ u == uid ]

pub has_uid_eq : (u : String) (i : Item) {v : String} → uid_of i ≡ some v → has_uid u i ≡ (v == u)
has_uid_eq u i e = ground (arith, e)

unfoldable pub queued : String → List Item → Bool
queued uid [] = false
queued uid (i ∷ is) = has_uid uid i || queued uid is

-- Each item has a uid of its own, and the dictionary maps the uid to the item.
abbrev pub WellQueued : Dict Item → List Item → Type 0
WellQueued d [] = Unit
WellQueued d (i ∷ is) =
    (u : String) × (uid_of i ≡ some u)
    × (Dict.get d u ≡ some i)
    × (queued u is ≡ false)
    × WellQueued d is

-- The queue without the item of that uid.
unfoldable pub drop_uid : String → List Item → List Item
drop_uid uid [] = []
drop_uid uid (i ∷ is) = let rest = drop_uid uid is in if has_uid uid i then rest else i ∷ rest

pub queued-get :
    (d : Dict Item) (is : List Item) (u : String)
    → WellQueued d is
    → queued u is ≡ true
    → Dict.contains d u ≡ true
unfolding queued
queued-get d [] u w q = absurd (ground arith)
queued-get d (i ∷ is) u (v, e, g, f, w) q = ground (arith, eq_iff v u, queued-get d is u w)

pub WellQueued-insert :
    (d : Dict Item) (n : String) (x : Item) (is : List Item)
    → Dict.contains d n ≡ false
    → WellQueued d is
    → WellQueued (Dict.insert d n x) is
WellQueued-insert d n x [] c w = tt
WellQueued-insert d n x (i ∷ is) c (u, e, g, f, w) =
    (u, e, ground (arith, c, g, eq_iff n u, get-insert d n x u), f, WellQueued-insert d n x is c w)

pub WellQueued-remove :
    (d : Dict Item) (n : String) (is : List Item)
    → queued n is ≡ false
    → WellQueued d is
    → WellQueued (Dict.remove d n) is
unfolding queued
WellQueued-remove d n [] q w = tt
WellQueued-remove d n (i ∷ is) q (u, e, g, f, w) = (
  u,
  e,
  ground (arith, q, e, g, eq_iff n u, eq_iff u n, get-remove d n u),
  f,
  WellQueued-remove d n is (ground (arith, q)) w,
)

pub queued-drop_uid :
    (u v : String) (is : List Item)
    → queued v (drop_uid u is) ≡ (if u == v then false else queued v is)
unfolding queued drop_uid
queued-drop_uid u v [] = ground arith
queued-drop_uid u v (i ∷ is) = elim (Option-cases (uid_of i)) [
  | inl e ↦ ground (arith, e, queued-drop_uid u v is)
  | inr (x, e) ↦ ground (arith, e, eq_iff x u, eq_iff x v, eq_iff u v, queued-drop_uid u v is)
]

pub WellQueued-drop_uid :
    (d : Dict Item) (u : String) (is : List Item) → WellQueued d is → WellQueued d (drop_uid u is)
unfolding drop_uid
WellQueued-drop_uid d u [] w = tt
WellQueued-drop_uid d u (i ∷ is) (v, e, g, f, w) = elim (Bool-cases (v == u)) [
  | inl h ↦ rw (has_uid_eq u i e ∙ h) (WellQueued-drop_uid d u is w)
  | inr h ↦
      rw (has_uid_eq u i e ∙ h)
        (v, e, g, ground (arith, f, queued-drop_uid u v is), WellQueued-drop_uid d u is w)
]

pub drop_uid-absent : (u : String) (is : List Item) → queued u is ≡ false → drop_uid u is ≡ is
unfolding queued drop_uid
drop_uid-absent u [] q = refl
drop_uid-absent u (i ∷ is) q = ground (arith, q, drop_uid-absent u is)

pub length-drop_uid :
    (d : Dict Item) (u : String) (is : List Item)
    → WellQueued d is
    → length (drop_uid u is) + (if queued u is then 1 else 0) ≡ length is
unfolding queued drop_uid
length-drop_uid d u [] w = omega arith
length-drop_uid d u (i ∷ is) (v, e, g, f, w) =
    ground (arith, e, f, eq_iff v u, length-drop_uid d u is w, drop_uid-absent u is)

-- Removing by text the item that the dictionary has under a uid removes the queued item of that
-- uid, and reports whether there was one.
pub list_remove-drop_uid :
    (d : Dict Item) (u : String) (x : Item) (is : List Item)
    → Dict.get d u ≡ some x
    → uid_of x ≡ some u
    → WellQueued d is
    → list_remove is x ≡ (drop_uid u is, (if queued u is then 1 else 0))
unfolding queued drop_uid list_remove
list_remove-drop_uid d u x [] g e w = refl
list_remove-drop_uid d u x (i ∷ is) g e (v, ei, gi, f, w) =
    let ih = list_remove-drop_uid d u x is g e w in
    elim (Bool-cases (v == u)) [
      | inl h ↦
          let same = (same_text_iff i x).1 (ground (arith, h, eq_iff v u, gi, g)) in
          let absent : queued u is ≡ false = ground (arith, h, eq_iff v u, f) in
          rw (has_uid_eq u i ei ∙ h, same, ih, absent) refl
      | inr h ↦ rw (has_uid_eq u i ei ∙ h, not_same h, ih) refl
    ]
  where
    not_same : v == u ≡ false → same_text i x ≡ false
    not_same h = ground (arith, h, ei, e, same_text_iff i x, eq_iff v u)
