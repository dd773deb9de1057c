-- ===== src/Queue/SqlStore/Insertion.antt =====
-- `list_insert` of queueserver_service/manager/queue_store.py on rows and on lists.
use mathlib.Core.Path.{subst}
use ophyd_service.Prelude.{
  ℕ, suc, zero, String, ◌≡◌, refl, ap, sym, ◌∙◌, true, false, ◌&&◌, not, Option, none, some, List,
  [], ◌∷◌, ◌++◌, ◌==◌, All, arith, eq_iff, length, take, drop, get_elem?, Bool-cases, Option-cases,
  inl, inr, ◌+◌, ◌≤◌,
}
use ophyd_service.Prelude.Int.{pos, negsuc}
use ophyd_service.Queue.Json.{Item}
use ophyd_service.Queue.Store
use ophyd_service.Queue.Store.{Where, before, after}
use ophyd_service.Queue.SqlStore.{
  Arithmetic, IsOrdered, Row, of_key, order_by, ascending, renumber, values_of, position_at,
  position_near, neighbor, occupied, contents, find_pivot, new_row, insert_beside, list_insert,
}
use ophyd_service.Queue.SqlStore.Order.{
  has_id, distinct, All-weaken, distinct-order_by, has_id-order_by,
}
use ophyd_service.Queue.SqlStore.Sorted.{IsSorted, order_by-IsSorted}
use ophyd_service.Queue.SqlStore.Keys.{
  ascending_asym, ascending_above, distinct-of_key, has_id-other_key,
}
use ophyd_service.Queue.SqlStore.Window.{length-values_of}
use ophyd_service.Queue.SqlStore.Places.{
  Straddles, place, at_place, Climbs, list_insert_at-find_pivot, insert_row-place, values_of-place,
  position_near-Straddles,
}
use ophyd_service.Queue.SqlStore.Renumbering.{
  renumber-moved, of_key-moved, map_rows-absent, distinct-moved, has_id-moved,
}
use ophyd_service.Queue.SqlStore.Indices.{reposition, order_by-renumber, values_of-reposition}

module _ {P : Type 0} where
  own_ids : (rs : List (Row P)) → All (λ s. has_id s.id rs ≡ true) rs
  own_ids [] = tt
  own_ids (r ∷ rs) = (ground arith, All-weaken rs (λ s h. ground (arith, h)) (own_ids rs))

  get_elem?-find_pivot :
      (pivot : Item) (rs : List (Row P)) (i : ℕ)
      → find_pivot pivot rs ≡ some i
      → get_elem? rs i ≡ none
      → suc i ≤ i
  unfolding find_pivot
  get_elem?-find_pivot pivot [] i e n = absurd (ground arith)
  get_elem?-find_pivot pivot (r ∷ rs) zero e n = absurd (ground arith)
  get_elem?-find_pivot pivot (r ∷ rs) (suc i) e n = elim (Option-cases (find_pivot pivot rs)) [
    | inl missing ↦ absurd (ground arith)
    | inr (j, f) ↦
        let same : j ≡ i = ground arith in
        let f' = subst (λ k. find_pivot pivot rs ≡ some k) same f in
        omega (arith, get_elem?-find_pivot pivot rs i f' n)
  ]

module _ {P : Type 0} (a : Arithmetic P) (o : IsOrdered a) where
  reposition-higher :
      (p : P) (i : ℕ) (rs : List (Row P))
      → ((x : ℕ) → i ≤ x → a.lt p (a.of_index x) ≡ true)
      → All (λ s. a.lt p s.position ≡ true) (reposition a i rs)
  reposition-higher p i [] hi = tt
  reposition-higher p i (r ∷ rs) hi =
      (hi i (omega arith), reposition-higher p (suc i) rs (λ x h. hi x (omega (arith, h))))

  reposition-Straddles :
      (p : P) (i m : ℕ) (rs : List (Row P))
      → ((x : ℕ) → suc x ≤ i + m → a.lt (a.of_index x) p ≡ true)
      → ((x : ℕ) → i + m ≤ x → a.lt p (a.of_index x) ≡ true)
      → Straddles a o p m (reposition a i rs)
  reposition-Straddles p i zero [] lo hi = (tt, tt)
  reposition-Straddles p i (suc m) [] lo hi = (tt, tt)
  reposition-Straddles p i zero (r ∷ rs) lo hi =
      (tt, reposition-higher p i (r ∷ rs) (λ x h. hi x (omega (arith, h))))
  reposition-Straddles p i (suc m) (r ∷ rs) lo hi =
      let rest =
        reposition-Straddles p (suc i) m rs (λ x h. lo x (omega (arith, h)))
          (λ x h. hi x (omega (arith, h))) in
      ((lo i (omega arith), rest.0), rest.1)

  position_at-Straddles :
      (w : Where) (i : ℕ) (rs : List (Row P))
      → Straddles a o (position_at a w i) (place w i) (reposition a 0 rs)
  position_at-Straddles before i rs =
      reposition-Straddles (a.below_index i) 0 i rs (λ x h. o.under_below x i ∙ ground (arith, h))
        (λ x h. o.over_below i x ∙ ground (arith, h))
  position_at-Straddles after i rs =
      reposition-Straddles (a.above_index i) 0 (suc i) rs
        (λ x h. o.under_above x i ∙ ground (arith, h)) (λ x h. o.over_above i x ∙ ground (arith, h))

  contents-place :
      (id : ℕ) (key : String) (v : Item) (p : P) (m : ℕ) (table : List (Row P))
      → Straddles a o p m (order_by (ascending a) (of_key key table))
      → contents a key (new_row a id key v p ∷ table)
        ≡ take m (contents a key table) ++ v ∷ drop m (contents a key table)
  unfolding contents of_key order_by ascending new_row
  contents-place id key v p m table s =
      let row = new_row a id key v p in
      let rows = order_by (ascending a) (of_key key table) in
      rw ((eq_iff key key).1 refl) (
        ap values_of (
          insert_row-place (ascending a) row m rows
            (All-weaken (take m rows) (λ r h. ground (arith, h)) s.0)
            (All-weaken (drop m rows) (λ r h. ground (arith, h, o.asym p r.position)) s.1))
        ∙ values_of-place m row rows)

  IsSorted-Climbs :
      (rs : List (Row P))
      → IsSorted (ascending a) (ascending_asym a o) (ascending_above a o) rs
      → Climbs a rs
  unfolding ascending
  IsSorted-Climbs [] h = tt
  IsSorted-Climbs (r ∷ rs) h =
      (All-weaken rs (λ s k. ground (arith, k)) h.0, IsSorted-Climbs rs h.1)

  renumber-other :
      (key other : String) (table : List (Row P))
      → distinct table ≡ true
      → (key == other) ≡ false
      → let rows = order_by (ascending a) (of_key key table) in
        of_key other (renumber a 0 rows table) ≡ of_key other table
  renumber-other key other table d n =
      let rows = order_by (ascending a) (of_key key table) in
      let dr = distinct-order_by (ascending a) (of_key key table) (distinct-of_key key table d) in
      let n' : (other == key) ≡ false = ground (arith, n, eq_iff key other, eq_iff other key) in
      ap (of_key other) (renumber-moved a 0 rows table dr)
      ∙ (of_key-moved a other 0 rows table
          ∙ map_rows-absent a 0 rows (of_key other table) (
              All-weaken (of_key other table)
                (λ s h.
                  has_id-order_by (ascending a) s.id (of_key key table)
                  ∙ has_id-other_key other key s.id table d n' h)
                (own_ids (of_key other table))))

  renumber-ids :
      (key : String) (id : ℕ) (table : List (Row P))
      → distinct table ≡ true
      → has_id id table ≡ false
      → let rows = order_by (ascending a) (of_key key table) in
        not (has_id id (renumber a 0 rows table)) && distinct (renumber a 0 rows table) ≡ true
  renumber-ids key id table d f =
      let rows = order_by (ascending a) (of_key key table) in
      let dr = distinct-order_by (ascending a) (of_key key table) (distinct-of_key key table d) in
      rw
        (
          renumber-moved a 0 rows table dr,
          has_id-moved a 0 id rows table,
          distinct-moved a 0 rows table,
        )
        (ground (arith, d, f))

  contents-renumber :
      (key : String) (table : List (Row P))
      → distinct table ≡ true
      → let rows = order_by (ascending a) (of_key key table) in
        contents a key (renumber a 0 rows table) ≡ contents a key table
  unfolding contents
  contents-renumber key table d =
      let rows = order_by (ascending a) (of_key key table) in
      ap values_of (order_by-renumber a o key table d) ∙ values_of-reposition a 0 rows

  contents-renumber_other :
      (key other : String) (table : List (Row P))
      → distinct table ≡ true
      → (key == other) ≡ false
      → let rows = order_by (ascending a) (of_key key table) in
        contents a other (renumber a 0 rows table) ≡ contents a other table
  unfolding contents
  contents-renumber_other key other table d n =
      ap (λ rs. values_of (order_by (ascending a) rs)) (renumber-other key other table d n)

  contents-new_other :
      (id : ℕ) (key other : String) (v : Item) (p : P) (table : List (Row P))
      → (key == other) ≡ false
      → contents a other (new_row a id key v p ∷ table) ≡ contents a other table
  unfolding contents of_key new_row
  contents-new_other id key other v p table n = rw n refl

  -- The new row stands beside its pivot, and the other lists are as they were.
  Beside : ℕ → String → Where → Item → ℕ → List (Row P) → List (Row P) → Type 0
  Beside id key w v i table table' =
      (contents a key table'
        ≡ take (place w i) (contents a key table) ++ v ∷ drop (place w i) (contents a key table))
      × ((other : String)
          → (key == other) ≡ false
          → contents a other table' ≡ contents a other table)
      × (distinct table' ≡ true)

  insert_beside-Beside :
      (id : ℕ) (key : String) (w : Where) (v : Item) (i : ℕ) (x : Row P) (table : List (Row P))
      → distinct table ≡ true
      → has_id id table ≡ false
      → let rows = order_by (ascending a) (of_key key table) in
        get_elem? rows i ≡ some x
        → Beside id key w v i table (insert_beside a id key w v rows i (some x) table)
  unfolding Beside insert_beside
  insert_beside-Beside id key w v i x table d f e =
      let rows = order_by (ascending a) (of_key key table) in
      let p = position_near a w x.position (neighbor w i rows) in
      elim (Bool-cases (occupied a p rows)) [
        | inl taken ↦ rw taken (
          contents-place id key v (position_at a w i) (place w i) (renumber a 0 rows table) (
                subst (λ rs. Straddles a o (position_at a w i) (place w i) rs)
                  (sym (order_by-renumber a o key table d)) (position_at-Straddles w i rows))
              ∙ ap (λ l. take (place w i) l ++ v ∷ drop (place w i) l)
                  (contents-renumber key table d),
          λ other n.
              contents-new_other id key other v (position_at a w i) (renumber a 0 rows table) n
              ∙ contents-renumber_other key other table d n,
          renumber-ids key id table d f,
        )
        | inr free ↦ rw free (
          contents-place id key v p (place w i) table (
              position_near-Straddles a o w rows i x
                (IsSorted-Climbs rows (
                  order_by-IsSorted (ascending a) (ascending_asym a o) (ascending_above a o)
                    (of_key key table)))
                e free),
          λ other n. contents-new_other id key other v p table n,
          ground (arith, d, f),
        )
      ]

  length-beside :
      (m : ℕ) (v : Item) (l : List Item) → length (take m l ++ v ∷ drop m l) ≡ suc (length l)
  length-beside zero v l = refl
  length-beside (suc m) v [] = refl
  length-beside (suc m) v (x ∷ l) = ap suc (length-beside m v l)

  list_insert-values :
      (key : String) (w : Where) (pivot v : Item) (table : List (Row P)) (found : Option ℕ)
      → let rows = order_by (ascending a) (of_key key table) in
        find_pivot pivot rows ≡ found
        → Store.list_insert_at (contents a key table) w pivot v ≡ at_place w v found rows
  unfolding contents
  list_insert-values key w pivot v table found e =
      let rows = order_by (ascending a) (of_key key table) in
      list_insert_at-find_pivot w pivot v rows ∙ ap (λ f. at_place w v f rows) e

  run_missing :
      (fresh : List (Row P) → ℕ) (key : String) (w : Where) (pivot v : Item) (table : List (Row P))
      → find_pivot pivot (order_by (ascending a) (of_key key table)) ≡ none
      → list_insert a fresh key w pivot v table ≡ (table, negsuc 0)
  unfolding list_insert
  run_missing fresh key w pivot v table e = rw (list_insert, e) refl

  run_found :
      (fresh : List (Row P) → ℕ) (key : String) (w : Where) (pivot v : Item) (table : List (Row P))
      (i : ℕ) (x : Row P)
      → let rows = order_by (ascending a) (of_key key table) in
        find_pivot pivot rows ≡ some i
        → get_elem? rows i ≡ some x
        → list_insert a fresh key w pivot v table
          ≡ (insert_beside a (fresh table) key w v rows i (some x) table, pos (suc (length rows)))
  unfolding list_insert
  run_found fresh key w pivot v table i x e g = rw (list_insert, e, g) refl

  values_at :
      (w : Where) (pivot v : Item) (l : List Item) (l' : List Item)
      → Store.list_insert_at l w pivot v ≡ some l'
      → Store.list_insert l w pivot v ≡ (l', pos (length l'))
  unfolding Store.list_insert
  values_at w pivot v l l' e = rw (Store.list_insert, e) refl

  values_missing :
      (w : Where) (pivot v : Item) (l : List Item)
      → Store.list_insert_at l w pivot v ≡ none
      → Store.list_insert l w pivot v ≡ (l, negsuc 0)
  unfolding Store.list_insert
  values_missing w pivot v l e = rw (Store.list_insert, e) refl

  list_insert-found :
      (key : String) (w : Where) (pivot v : Item) (table : List (Row P)) (i : ℕ)
      → find_pivot pivot (order_by (ascending a) (of_key key table)) ≡ some i
      → Store.list_insert_at (contents a key table) w pivot v
        ≡ some
            (take (place w i) (contents a key table) ++ v ∷ drop (place w i) (contents a key table))
  unfolding contents
  list_insert-found key w pivot v table i e = list_insert-values key w pivot v table (some i) e

  number_found :
      (key : String) (w : Where) (v : Item) (table : List (Row P)) (i : ℕ)
      → suc (length (order_by (ascending a) (of_key key table)))
        ≡ length
            (take (place w i) (contents a key table) ++ v ∷ drop (place w i) (contents a key table))
  unfolding contents
  number_found key w v table i =
      let rows = order_by (ascending a) (of_key key table) in
      sym (ap suc (length-values_of rows)) ∙ sym (length-beside (place w i) v (values_of rows))

  -- Inserting a value beside a pivot does what it does to the contents of the list, also where the
  -- rows get new positions. No other list changes, and the ids stay distinct.
  pub list_insert-refines :
      (fresh : List (Row P) → ℕ) (key : String) (w : Where) (pivot v : Item) (table : List (Row P))
      → distinct table ≡ true
      → has_id (fresh table) table ≡ false
      → let result = list_insert a fresh key w pivot v table in
        ((contents a key result.0, result.1) ≡ Store.list_insert (contents a key table) w pivot v)
        × ((other : String)
            → (key == other) ≡ false
            → contents a other result.0 ≡ contents a other table)
        × (distinct result.0 ≡ true)
  unfolding Beside
  list_insert-refines fresh key w pivot v table d f =
      let rows = order_by (ascending a) (of_key key table) in
      elim (Option-cases (find_pivot pivot rows)) [
        | inl missing ↦
            rw
              (
                run_missing fresh key w pivot v table missing,
                values_missing w pivot v (contents a key table)
                    (list_insert-values key w pivot v table none missing),
              )
              (refl, λ other n. refl, d)
        | inr (i, e) ↦ elim (Option-cases (get_elem? rows i)) [
          | inl nothing ↦ absurd (omega (arith, get_elem?-find_pivot pivot rows i e nothing))
          | inr (x, g) ↦
              let b = insert_beside-Beside (fresh table) key w v i x table d f g in
              rw
                (
                  run_found fresh key w pivot v table i x e g,
                  values_at w pivot v (contents a key table) _
                      (list_insert-found key w pivot v table i e),
                )
                (rw (b.0, number_found key w v table i) refl, b.1, b.2)
        ]
      ]
