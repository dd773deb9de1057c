-- ===== src/Queue/SqlStore/Ends.antt =====
-- What pushing and popping rows (queueserver_service/manager/queue_store.py) do to the lists.
use ophyd_service.Prelude.{
  ℕ, String, ◌≡◌, refl, ap, sym, ◌∙◌, Bool, true, false, none, some, List, [], ◌∷◌, ◌++◌, ◌==◌,
  if◌then◌else◌, arith, eq_iff, length, Option-cases, inl, inr,
}
use ophyd_service.Queue.Json.{Item}
use ophyd_service.Queue.Store.{list_push_front, list_push_back, list_pop_front, list_pop_back}
use ophyd_service.Queue.SqlStore.{
  Arithmetic, IsOrdered, Row, of_key, delete_id, insert_row, order_by, values_of, ascending,
  descending, edge, beyond, first_row, contents, push, pop, delete_first,
}
use ophyd_service.Queue.SqlStore.Order.{
  has_id, distinct, All-weaken, All-order_by, insert_row-last, insert_row-first, first_row-has_id,
  has_id-order_by, delete_id-absent,
}
use ophyd_service.Queue.SqlStore.Extremes.{order_by-first_row, order_by-last_row}
use ophyd_service.Queue.SqlStore.Keys.{
  of_key-delete_id, distinct-of_key, distinct-delete_id, has_id-other_key, values_of-append,
  length-order_by, ascending_asym, ascending_above, ascending_total, beyond-lower, beyond-higher,
}

list_pop_back-append : (l : List Item) (v : Item) → list_pop_back (l ++ v ∷ []) ≡ (some v, l)
unfolding list_pop_back
list_pop_back-append [] v = refl
list_pop_back-append (x ∷ l) v = rw (list_pop_back-append l v) refl

module _ {P : Type 0} (a : Arithmetic P) (o : IsOrdered a) where
  abbrev new_row : ℕ → String → Item → Bool → List (Row P) → Row P
  new_row id key value front table = record {
    id = id;
    list_key = key;
    position = beyond a front (edge a front (of_key key table));
    value = value;
  }

  contents-lower :
      (id : ℕ) (key : String) (v : Item) (table : List (Row P))
      → contents a key (new_row id key v true table ∷ table) ≡ v ∷ contents a key table
  unfolding contents of_key order_by values_of ascending
  contents-lower id key v table = rw ((eq_iff key key).1 refl) (
      ap values_of (
        insert_row-first (ascending a) (new_row id key v true table)
          (order_by (ascending a) (of_key key table))
          (All-order_by (ascending a) _ (of_key key table) (
            All-weaken (of_key key table)
              (λ s h. ground (arith, h, o.asym (new_row id key v true table).position s.position))
              (beyond-lower a o (of_key key table))))))

  contents-higher :
      (id : ℕ) (key : String) (v : Item) (table : List (Row P))
      → contents a key (new_row id key v false table ∷ table) ≡ contents a key table ++ v ∷ []
  unfolding contents of_key order_by ascending
  contents-higher id key v table =
      let row = new_row id key v false table in
      let rows = order_by (ascending a) (of_key key table) in
      rw ((eq_iff key key).1 refl) (
        ap values_of (
          insert_row-last (ascending a) row rows (
            All-order_by (ascending a) _ (of_key key table) (
              All-weaken (of_key key table) (λ s h. ground (arith, h))
                (beyond-higher a o (of_key key table)))))
        ∙ values_of-append rows row)

  contents-other :
      (row : Row P) (other : String) (table : List (Row P))
      → (row.list_key == other) ≡ false
      → contents a other (row ∷ table) ≡ contents a other table
  unfolding contents of_key
  contents-other row other table n = rw n refl

  length-contents :
      (key : String) (table : List (Row P))
      → length (contents a key table) ≡ length (of_key key table)
  unfolding contents
  length-contents key table = length-order_by (ascending a) (of_key key table)

  -- Pushing a value onto a list of the database pushes it onto the contents of that list, and changes
  -- no other list; the result is the new length. If the new id was in no row, the ids stay distinct.
  pub push-refines :
      (fresh : List (Row P) → ℕ) (key : String) (v : Item) (front : Bool) (table : List (Row P))
      → distinct table ≡ true
      → has_id (fresh table) table ≡ false
      → let result = push a fresh key v front table in
        (contents a key result.0 ≡ (
          if front
          then list_push_front (contents a key table) v
          else list_push_back (contents a key table) v))
        × (result.1 ≡ length (contents a key result.0))
        × ((other : String)
            → (key == other) ≡ false
            → contents a other result.0 ≡ contents a other table)
        × (distinct result.0 ≡ true)
  unfolding push list_push_front list_push_back
  push-refines fresh key v true table d f = (
    contents-lower (fresh table) key v table,
    sym (length-contents key (new_row (fresh table) key v true table ∷ table)),
    λ other n. contents-other (new_row (fresh table) key v true table) other table n,
    ground (arith, d, f),
  )
  push-refines fresh key v false table d f = (
    contents-higher (fresh table) key v table,
    sym (length-contents key (new_row (fresh table) key v false table ∷ table)),
    λ other n. contents-other (new_row (fresh table) key v false table) other table n,
    ground (arith, d, f),
  )

  pop-other :
      (key other : String) (row : Row P) (table : List (Row P))
      → distinct table ≡ true
      → (key == other) ≡ false
      → has_id row.id (of_key key table) ≡ true
      → contents a other (delete_id row.id table) ≡ contents a other table
  unfolding contents
  pop-other key other row table d n h =
      rw
        (
          of_key-delete_id other row.id table,
          delete_id-absent row.id (of_key other table)
              (has_id-other_key key other row.id table d n h),
        )
        refl

  no_rows :
      (ahead : Row P → Row P → Bool) (rs : List (Row P))
      → first_row (order_by ahead rs) ≡ none
      → order_by (ascending a) rs ≡ []
  unfolding order_by first_row insert_row
  no_rows ahead [] e = refl
  no_rows ahead (r ∷ rs) e = elim (Option-cases (first_row (order_by ahead rs))) [
    | inl nothing ↦ absurd (ground arith)
    | inr (y, f) ↦ absurd (ground arith)
  ]

  -- The row that is taken, with the list before and after.
  taken :
      (key : String) (front : Bool) (row : Row P) (table : List (Row P))
      → distinct table ≡ true
      → first_row (order_by (if front then ascending a else descending a) (of_key key table))
        ≡ some row
      → (some row.value, contents a key (delete_id row.id table)) ≡ (
          if front
          then list_pop_front (contents a key table)
          else list_pop_back (contents a key table))
  unfolding contents descending values_of list_pop_front
  taken key true row table d e =
      rw
        (
          order_by-first_row (ascending a) (of_key key table) row (distinct-of_key key table d) e,
          of_key-delete_id key row.id table,
        )
        refl
  taken key false row table d e =
      let rows = order_by (ascending a) (delete_id row.id (of_key key table)) in
      rw
        (
          order_by-last_row (ascending a) (ascending_asym a o) (ascending_above a o)
              (ascending_total a o) (of_key key table) row (distinct-of_key key table d) e,
          of_key-delete_id key row.id table,
          values_of-append rows row,
          list_pop_back-append (values_of rows) row.value,
        )
        refl

  none_taken :
      (key : String) (front : Bool) (table : List (Row P))
      → first_row (order_by (if front then ascending a else descending a) (of_key key table)) ≡ none
      → (none, contents a key table) ≡ (
          if front
          then list_pop_front (contents a key table)
          else list_pop_back (contents a key table))
  unfolding contents values_of list_pop_front list_pop_back
  none_taken key true table e = rw (no_rows (ascending a) (of_key key table) e) refl
  none_taken key false table e = rw (no_rows (descending a) (of_key key table) e) refl

  -- Popping a list of the database returns and removes the value at that end of its contents, or
  -- nothing if it is empty, and changes no other list. The ids stay distinct.
  pub pop-refines :
      (key : String) (front : Bool) (table : List (Row P))
      → distinct table ≡ true
      → let result = pop a key front table in
        ((result.0, contents a key result.1) ≡ (
          if front
          then list_pop_front (contents a key table)
          else list_pop_back (contents a key table)))
        × ((other : String)
            → (key == other) ≡ false
            → contents a other result.1 ≡ contents a other table)
        × (distinct result.1 ≡ true)
  unfolding pop delete_first
  pop-refines key front table d =
      let ahead = if front then ascending a else descending a in
      elim (Option-cases (first_row (order_by ahead (of_key key table)))) [
        | inl nothing ↦ rw nothing (none_taken key front table nothing, λ other n. refl, d)
        | inr (row, e) ↦ rw e (
          taken key front row table d e,
          λ other n. pop-other key other row table d n (
              sym (has_id-order_by ahead row.id (of_key key table))
              ∙ first_row-has_id (order_by ahead (of_key key table)) row e),
          distinct-delete_id row.id table d,
        )
      ]
