-- ===== src/Queue/SqlStore/Ranges.antt =====
-- Reading a range of a list and deleting lists (queueserver_service/manager/queue_store.py).
use ophyd_service.Prelude.{
  ℕ, suc, String, ◌≡◌, refl, ap, ◌∙◌, true, false, List, [], ◌∷◌, ◌==◌, leb, if◌then◌else◌, arith,
  eq_iff, length, member, take, drop, Bool-cases, inl, inr, ◌-◌,
}
use ophyd_service.Prelude.Int.{ℤ, pos, negsuc}
use ophyd_service.Queue.Store
use ophyd_service.Queue.Store.{keep_range, resolve_range}
use ophyd_service.Queue.SqlStore.{
  Arithmetic, IsOrdered, Row, of_key, order_by, values_of, ascending, contents, list_len,
  rows_between, list_range, delete_lists,
}
use ophyd_service.Queue.SqlStore.Order.{has_id, distinct}
use ophyd_service.Queue.SqlStore.Inner.{length-contents}
use ophyd_service.Queue.SqlStore.Window.{values_of-take, values_of-drop}

module _ {P : Type 0} where
  of_key-delete_lists :
      (keys : List String) (k : String) (rs : List (Row P))
      → of_key k (delete_lists keys rs) ≡ (if member k keys then [] else of_key k rs)
  unfolding of_key delete_lists
  of_key-delete_lists keys k [] = ground arith
  of_key-delete_lists keys k (r ∷ rs) = elim (Bool-cases (r.list_key == k)) [
    | inl same ↦
        let e : member r.list_key keys ≡ member k keys =
          ap (λ s. member s keys) ((eq_iff r.list_key k).0 same) in
        ground (arith, of_key-delete_lists keys k rs, e)
    | inr other ↦ ground (arith, of_key-delete_lists keys k rs)
  ]

  has_id-delete_lists :
      (keys : List String) (i : ℕ) (rs : List (Row P))
      → has_id i rs ≡ false
      → has_id i (delete_lists keys rs) ≡ false
  unfolding delete_lists
  has_id-delete_lists keys i [] h = refl
  has_id-delete_lists keys i (r ∷ rs) h =
      ground (arith, has_id-delete_lists keys i rs (ground arith))

  pub distinct-delete_lists :
      (keys : List String) (rs : List (Row P))
      → distinct rs ≡ true
      → distinct (delete_lists keys rs) ≡ true
  unfolding delete_lists
  distinct-delete_lists keys [] d = refl
  distinct-delete_lists keys (r ∷ rs) d = ground (
    arith,
    distinct-delete_lists keys rs (ground arith),
    has_id-delete_lists keys r.id rs (ground arith),
  )

module _ {P : Type 0} (a : Arithmetic P) (o : IsOrdered a) where
  rows_between-keep_range :
      (key : String) (table : List (Row P)) (first : ℕ) (last : ℤ)
      → values_of (rows_between a key table (first, last))
        ≡ keep_range (contents a key table) (first, last)
  unfolding rows_between contents values_of
  rows_between-keep_range key table first (negsuc l) = refl
  rows_between-keep_range key table first (pos l) = elim (Bool-cases (leb first l)) [
    | inl some_left ↦
        let rows = order_by (ascending a) (of_key key table) in
        rw some_left (
          values_of-take (suc l - first) (drop first rows)
          ∙ ap (take (suc l - first)) (values_of-drop first rows))
    | inr empty ↦ rw empty refl
  ]

  -- Reading a range reads that range of the contents of the list.
  pub list_range-refines :
      (key : String) (start stop : ℤ) (table : List (Row P))
      → list_range a key start stop table ≡ Store.list_range (contents a key table) start stop
  unfolding list_range Store.list_range list_len
  list_range-refines key start stop table =
      let range = resolve_range (length (of_key key table)) start stop in
      rows_between-keep_range key table range.0 range.1 ∙ rw (length-contents a o key table) refl

  -- Deleting lists empties them and changes no other list.
  pub delete_lists-refines :
      (keys : List String) (table : List (Row P)) (k : String)
      → contents a k (delete_lists keys table) ≡ (if member k keys then [] else contents a k table)
  unfolding contents values_of order_by
  delete_lists-refines keys table k = elim (Bool-cases (member k keys)) [
    | inl deleted ↦ rw (of_key-delete_lists keys k table, deleted) refl
    | inr kept ↦ rw (of_key-delete_lists keys k table, kept) refl
  ]
