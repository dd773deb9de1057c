-- ===== src/Queue/Consistent/Move.antt =====
-- `_move_item` of queueserver_service/manager/plan_queue_ops.py for items addressed by their uids.
use ophyd_service.Prelude.{
  suc, String, ◌≡◌, refl, sym, ap, ◌∙◌, true, false, ◌&&◌, Option, none, some, List, ◌∷◌, ◌++◌,
  length, ◌==◌, eq_iff, arith, inl, inr,
}
use ophyd_service.Prelude.Int.{ℤ, pos}
use ophyd_service.Dict
use ophyd_service.Dict.{Dict, get-insert, get-insert_self, get-remove}
use ophyd_service.Queue.Json.{Item, uid_of}
use ophyd_service.Queue.Store.{Where, before, after}
use ophyd_service.Queue.State.{PlanQueue, Result, ok, is_running, uid_dict_get_item}
use ophyd_service.Queue.Access.{get_item, get_item_by_uid, pop_item_from_queue}
use ophyd_service.Queue.Insert.{Place, add_item_to_queue}
use ophyd_service.Queue.Edit.{move_item, transfer, destination}
use ophyd_service.Queue.Uids.{queued, drop_uid}
use ophyd_service.Queue.Consistent.{IsConsistent, queued-item, waits}
use ophyd_service.Queue.Consistent.Pop.{without, without-IsConsistent, pop_queued}
use ophyd_service.Queue.Consistent.Add.{Aims, place_ok}
use ophyd_service.Queue.Consistent.Add.Whole.{
  redrawn, Addition, add_item_to_queue-Addition, holding, holding-IsConsistent, uid_ok, one_place,
  with_uid,
}
use ophyd_service.Queue.Consistent.Finish.{carry}
use ophyd_service.Queue.Consistent.Replace.{has_uid_key}

-- The item of that uid stands at the place instead, and nothing else has changed.
abbrev pub Moved : PlanQueue → String → Place → Item → Result (Item × ℤ) × PlanQueue → Type 0
Moved s u p x (r, s') =
    (a : List Item) × (b : List Item) × (drop_uid u s.queue ≡ a ++ b)
    × Aims (without s u) p a b
    × (r ≡ ok (x, pos (length (a ++ x ∷ b))))
    × (s'.queue ≡ a ++ x ∷ b)
    × ((w : String) → Dict.get s'.uid_dict w ≡ Dict.get s.uid_dict w)
    × IsConsistent s'

kept :
    (s : PlanQueue) (x : Item) (u v : String)
    → Dict.get s.uid_dict u ≡ some x
    → uid_of x ≡ some u
    → uid_of x ≡ some v
    → (w : String) → Dict.get (Dict.insert (Dict.remove s.uid_dict u) v x) w ≡ Dict.get s.uid_dict w
kept s x u v g e f w =
    let same : u ≡ v = ground (arith, e, f) in
    rw (sym same) (
      ground (
        arith,
        g,
        get-insert (Dict.remove s.uid_dict u) u x w,
        get-remove s.uid_dict u w,
        eq_iff u w,
      ))

added_again :
    (s : PlanQueue) (x : Item) (u : String) (b a : Option String)
    → IsConsistent s
    → queued u s.queue ≡ true
    → Dict.get s.uid_dict u ≡ some x
    → uid_of x ≡ some u
    → uid_ok (without s u) x
        && one_place (record { position = none; before_uid = b; after_uid = a })
        && place_ok (without s u) (record { position = none; before_uid = b; after_uid = a })
      ≡ true
    → Addition (without s u) x none b a false
    → Moved s u
        (record { position = none; before_uid = b; after_uid = a })
        x
        (add_item_to_queue x
          (record { position = none; before_uid = b; after_uid = a })
          false
          (without s u))
added_again s x u b a c q g e o (inr (k, er, n, le, h)) = absurd (ground (arith, k, o))
added_again s x u b a c q g e o (inl (k, l, t, v, n, m, aim, e', d, nm, h)) =
    let same : with_uid (without s u) x ≡ x = rw (has_uid_key x u e) refl in
    let run =
      h
      ∙ ap
          (λ y. (
            ok (y, pos (length (l ++ y ∷ t))),
            holding (record (without s u) { drawn = n }) l y t v,
          ))
          same in
    let f : uid_of x ≡ some v = ap uid_of (sym same) ∙ e' in
    rw run (
      l,
      t,
      m,
      aim,
      refl,
      refl,
      kept s x u v g e f,
      holding-IsConsistent (record (without s u) { drawn = n }) l x t v
          (redrawn (without s u) n (without-IsConsistent s u c q)) m f d,
    )

-- The arguments `before_uid` and `after_uid` of a move.
abbrev pub before_arg : Where → String → Option String
before_arg before v = some v
before_arg after v = none

abbrev pub after_arg : Where → String → Option String
after_arg before v = none
after_arg after v = some v

abbrev pub place_near : Where → String → Place
place_near w v = record { position = none; before_uid = before_arg w v; after_uid = after_arg w v }

place_near_ok :
    (s : PlanQueue) (w : Where) (v : String)
    → Dict.contains s.uid_dict v ≡ true
    → is_running s v ≡ false
    → (one_place (place_near w v) && place_ok s (place_near w v)) ≡ true
place_near_ok s before v k r = ground (arith, k, r)
place_near_ok s after v k r = ground (arith, k)

-- The calls that the move makes once both items are found.
move-runs :
    (s : PlanQueue) (w : Where) (u v : String) (x y : Item)
    → v == "" ≡ false
    → u == v ≡ false
    → get_item none (some u) s ≡ (ok x, s)
    → get_item none (some v) s ≡ (ok y, s)
    → uid_of x ≡ some u
    → uid_of y ≡ some v
    → pop_item_from_queue none (some u) s ≡ (ok (x, pos (length (drop_uid u s.queue))), without s u)
    → let (r, s') = add_item_to_queue x (place_near w v) false (without s u) in
      (z : Item × ℤ)
      → r ≡ ok z
      → move_item none (some u) none (before_arg w v) (after_arg w v) s
        ≡ (ok z, record s' { queue_size = z.1 })
unfolding move_item destination transfer
move-runs s before u v x y nv ne f g e h p z k = ground (arith, nv, ne, f, g, e, h, p, k)
move-runs s after u v x y nv ne f g e h p z k = ground (arith, nv, ne, f, g, e, h, p, k)

found :
    (s : PlanQueue) (u : String) (x : Item)
    → IsConsistent s
    → queued u s.queue ≡ true
    → Dict.get s.uid_dict u ≡ some x
    → get_item none (some u) s ≡ (ok x, s)
unfolding get_item get_item_by_uid uid_dict_get_item
found s u x c q g = ground (arith, g, (waits s u c q).1)

-- Moving one queued item of a consistent state before or after another one, by their uids, where the
-- other uid is not the empty text: the item stands at its new place, directly before or after the
-- other, the other items keep their order, the dictionary of uids has the same entries, the
-- new state is consistent, and the item and the length of the queue are returned. One uuid is
-- assumed not to be known.
pub move_item-Moved :
    (s : PlanQueue) (w : Where) (u v : String)
    → IsConsistent s
    → queued u s.queue ≡ true
    → queued v s.queue ≡ true
    → u == v ≡ false
    → v == "" ≡ false
    → Dict.contains (Dict.remove s.uid_dict u) (s.uuid4 (suc s.drawn)) ≡ false
    → (x : Item) × (Dict.get s.uid_dict u ≡ some x)
      × Moved s u
          (place_near w v)
          x
          (move_item none (some u) none (before_arg w v) (after_arg w v) s)
move_item-Moved s w u v c q r ne nv fresh =
    let (x, g, e, p) = pop_queued s u c q in
    let (y, g', e') = queued-item s.uid_dict s.queue v c.items r in
    let ok_uid : uid_ok (without s u) x ≡ true =
      ground (arith, has_uid_key x u e, e, get-remove s.uid_dict u u, eq_iff u u) in
    let known : Dict.contains (without s u).uid_dict v ≡ true =
      ground (arith, g', ne, get-remove s.uid_dict u v) in
    let ok_place = place_near_ok (without s u) w v known (waits s v c r).1 in
    let (a, b, m, aim, k, qq, dd, cc') =
      added_again s x u (before_arg w v) (after_arg w v) c q g e (ground (arith, ok_uid, ok_place))
        (add_item_to_queue-Addition (without s u) x none (before_arg w v) (after_arg w v) false
          (without-IsConsistent s u c q) fresh) in
    let run = move-runs s w u v x y nv ne (found s u x c q g) (found s v y c r g') e e' p _ k in
    (
      x,
      g,
      rw run (
        a,
        b,
        m,
        aim,
        refl,
        qq,
        dd,
        carry _ _ refl refl refl (ap (λ l. pos (length l)) (sym qq)) cc',
      ),
    )
