-- ===== src/Queue/SqlStore/Inner.antt =====
-- Reading and removing rows inside a list (queueserver_service/manager/queue_store.py).
use ophyd_service.Prelude.{
  ℕ, suc, zero, String, ◌≡◌, refl, ap, ◌∙◌, Bool, true, false, not, List, [], ◌∷◌, ◌==◌, leb, arith,
  eq_iff, length, get_elem?, Bool-cases, inl, inr, ◌+◌, ◌-◌,
}
use ophyd_service.Prelude.Int.{ℤ, pos, negsuc}
use ophyd_service.Queue.Json.{Item, same_text}
use ophyd_service.Queue.Store
use ophyd_service.Queue.SqlStore.{
  Arithmetic, IsOrdered, Row, of_key, delete_where, order_by, values_of, value_of, ascending,
  contents, list_len, row_at, list_index, list_remove,
}
use ophyd_service.Queue.SqlStore.Order.{has_id, distinct}
use ophyd_service.Queue.SqlStore.Sorted.{keep, keep-order_by}
use ophyd_service.Queue.SqlStore.Keys.{length-order_by, ascending_asym, ascending_above}

module _ {P : Type 0} where
  pub get_elem?-values_of :
      (rs : List (Row P)) (i : ℕ) → value_of (get_elem? rs i) ≡ get_elem? (values_of rs) i
  unfolding values_of
  get_elem?-values_of [] i = refl
  get_elem?-values_of (r ∷ rs) zero = refl
  get_elem?-values_of (r ∷ rs) (suc i) = get_elem?-values_of rs i

  pub of_key-delete_where :
      (key : String) (p : Row P → Bool) (rs : List (Row P))
      → of_key key (delete_where key p rs) ≡ keep (λ r. not (p r)) (of_key key rs)
  unfolding of_key delete_where
  of_key-delete_where key p [] = refl
  of_key-delete_where key p (r ∷ rs) = ground (arith, of_key-delete_where key p rs)

  pub of_key-delete_where_other :
      (key other : String) (p : Row P → Bool) (rs : List (Row P))
      → (key == other) ≡ false
      → of_key other (delete_where key p rs) ≡ of_key other rs
  unfolding of_key delete_where
  of_key-delete_where_other key other p [] n = refl
  of_key-delete_where_other key other p (r ∷ rs) n = ground (
    arith,
    of_key-delete_where_other key other p rs n,
    eq_iff r.list_key key,
    eq_iff r.list_key other,
    eq_iff key other,
  )

  length-delete_where :
      (key : String) (p : Row P → Bool) (rs : List (Row P))
      → length rs + length (keep (λ r. not (p r)) (of_key key rs))
        ≡ length (of_key key rs) + length (delete_where key p rs)
  unfolding of_key delete_where
  length-delete_where key p [] = refl
  length-delete_where key p (r ∷ rs) = ground (arith, length-delete_where key p rs)

  pub distinct-delete_where :
      (key : String) (p : Row P → Bool) (rs : List (Row P))
      → distinct rs ≡ true
      → distinct (delete_where key p rs) ≡ true
  unfolding delete_where
  distinct-delete_where key p [] d = refl
  distinct-delete_where key p (r ∷ rs) d = ground (
    arith,
    distinct-delete_where key p rs (ground arith),
    has_id-delete_where r.id rs (ground arith),
  )
    where
      has_id-delete_where :
          (i : ℕ) (ss : List (Row P))
          → has_id i ss ≡ false
          → has_id i (delete_where key p ss) ≡ false
      has_id-delete_where i [] h = refl
      has_id-delete_where i (s ∷ ss) h = ground (arith, has_id-delete_where i ss (ground arith))

  values_of-keep :
      (v : Item) (rs : List (Row P))
      → values_of (keep (λ r. not (same_text r.value v)) rs)
        ≡ (Store.list_remove (values_of rs) v).0
  unfolding values_of Store.list_remove
  values_of-keep v [] = refl
  values_of-keep v (r ∷ rs) = ground (arith, values_of-keep v rs)

length-list_remove :
    (l : List Item) (v : Item)
    → length l ≡ length (Store.list_remove l v).0 + (Store.list_remove l v).1
unfolding Store.list_remove
length-list_remove [] v = refl
length-list_remove (x ∷ l) v = ground (arith, length-list_remove l v)

module _ {P : Type 0} (a : Arithmetic P) (o : IsOrdered a) where
  pub contents-delete_where :
      (key : String) (p : Row P → Bool) (table : List (Row P))
      → contents a key (delete_where key p table)
        ≡ values_of (keep (λ r. not (p r)) (order_by (ascending a) (of_key key table)))
  unfolding contents
  contents-delete_where key p table =
      rw
        (
          of_key-delete_where key p table,
          keep-order_by (ascending a) (ascending_asym a o) (ascending_above a o) (λ r. not (p r))
              (of_key key table),
        )
        refl

  pub length-contents :
      (key : String) (table : List (Row P))
      → length (contents a key table) ≡ length (of_key key table)
  unfolding contents
  length-contents key table = length-order_by (ascending a) (of_key key table)

  pub contents-other :
      (key other : String) (p : Row P → Bool) (table : List (Row P))
      → (key == other) ≡ false
      → contents a other (delete_where key p table) ≡ contents a other table
  unfolding contents
  contents-other key other p table n = rw (of_key-delete_where_other key other p table n) refl

  row_at-contents :
      (key : String) (i : ℕ) (table : List (Row P))
      → value_of (row_at a key table (pos i)) ≡ get_elem? (contents a key table) i
  unfolding row_at contents
  row_at-contents key i table = get_elem?-values_of (order_by (ascending a) (of_key key table)) i

  -- Reading at an index, from either end, reads the contents of the list there.
  pub list_index-refines :
      (key : String) (i : ℤ) (table : List (Row P))
      → list_index a key i table ≡ Store.list_index (contents a key table) i
  unfolding list_index row_at list_len Store.list_index
  list_index-refines key (pos i) table = row_at-contents key i table
  list_index-refines key (negsuc i) table =
      let len = length (of_key key table) in
      elim (Bool-cases (leb (suc i) len)) [
        | inl inside ↦
            rw (length-contents key table, inside) (row_at-contents key (len - suc i) table)
        | inr outside ↦ rw (length-contents key table, outside) refl
      ]

  contents-removed :
      (key : String) (v : Item) (table : List (Row P))
      → contents a key (delete_where key (λ r. same_text r.value v) table)
        ≡ (Store.list_remove (contents a key table) v).0
  unfolding contents
  contents-removed key v table =
      contents-delete_where key (λ r. same_text r.value v) table
      ∙ values_of-keep v (order_by (ascending a) (of_key key table))

  number_removed :
      (key : String) (v : Item) (table : List (Row P))
      → length table - length (delete_where key (λ r. same_text r.value v) table)
        ≡ (Store.list_remove (contents a key table) v).1
  number_removed key v table =
      let p = λ (r : Row P). same_text r.value v in
      omega (
        arith,
        length-delete_where key p table,
        length-list_remove (contents a key table) v,
        length-contents key table,
        ap length (contents-removed key v table),
        length-contents key (delete_where key p table),
        ap length (of_key-delete_where key p table),
      )

  -- Removing a value removes all its occurrences from the contents of the list and returns their
  -- number. The ids stay distinct.
  pub list_remove-refines :
      (key : String) (v : Item) (table : List (Row P))
      → distinct table ≡ true
      → let result = list_remove a key v table in
        ((contents a key result.0, result.1) ≡ Store.list_remove (contents a key table) v)
        × ((other : String)
            → (key == other) ≡ false
            → contents a other result.0 ≡ contents a other table)
        × (distinct result.0 ≡ true)
  unfolding list_remove
  list_remove-refines key v table d = (
    rw (contents-removed key v table, number_removed key v table) refl,
    λ other n. contents-other key other (λ r. same_text r.value v) table n,
    distinct-delete_where key (λ r. same_text r.value v) table d,
  )
