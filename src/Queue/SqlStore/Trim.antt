-- ===== src/Queue/SqlStore/Trim.antt =====
-- `list_trim` of queueserver_service/manager/queue_store.py on rows and on lists.
use ophyd_service.Prelude.{
  ℕ, suc, String, ◌≡◌, refl, ap, sym, ◌∙◌, true, false, ◌||◌, Option, none, some, List, [], ◌∷◌,
  ◌==◌, leb, All, arith, length, get_elem?, take, drop, Bool-cases, Option-cases, inl, inr, ◌-◌,
  ◌≤◌,
}
use ophyd_service.Prelude.Int.{ℤ, pos, negsuc, sub_ℕ}
use ophyd_service.Queue.Store
use ophyd_service.Queue.SqlStore.{
  Arithmetic, IsOrdered, Row, of_key, delete_where, order_by, values_of, ascending, contents,
  list_len, row_at, list_trim, trim_rows, trim_between,
}
use ophyd_service.Queue.SqlStore.Order.{distinct, distinct-order_by}
use ophyd_service.Queue.SqlStore.Sorted.{order_by-IsSorted}
use ophyd_service.Queue.SqlStore.Keys.{
  distinct-of_key, ascending_asym, ascending_above, ascending_total,
}
use ophyd_service.Queue.Store.{keep_range, at_most, from_end, resolve_range}
use ophyd_service.Queue.SqlStore.Inner.{
  contents-delete_where, length-contents, contents-other, distinct-delete_where,
}
use ophyd_service.Queue.SqlStore.Window.{
  keep-none, get_elem?-short, length-values_of, values_of-take, values_of-drop, keep-window,
}

at_most-inside : (len : ℕ) (z : ℤ) (l : ℕ) → at_most len z ≡ pos l → suc l ≤ len
at_most-inside len (pos i) l e = elim (Bool-cases (leb 1 len)) [
  | inl some_left ↦ ground arith
  | inr empty ↦ ground arith
]
at_most-inside len (negsuc i) l e = elim (Bool-cases (leb 1 len)) [
  | inl some_left ↦ ground arith
  | inr empty ↦ ground arith
]

resolve_range-inside :
    (len : ℕ) (start stop : ℤ) (l : ℕ) → (resolve_range len start stop).1 ≡ pos l → suc l ≤ len
unfolding resolve_range
resolve_range-inside len start (pos i) l e = at_most-inside len (pos i) l e
resolve_range-inside len start (negsuc i) l e = at_most-inside len (sub_ℕ len (suc i)) l e

module _ {P : Type 0} (a : Arithmetic P) (o : IsOrdered a) where
  row_at-get_elem? :
      (key : String) (i : ℕ) (table : List (Row P))
      → row_at a key table (pos i) ≡ get_elem? (order_by (ascending a) (of_key key table)) i
  unfolding row_at
  row_at-get_elem? key i table = refl

  delete_all :
      (key : String) (table : List (Row P))
      → contents a key (delete_where key (λ r. true) table) ≡ []
  unfolding values_of
  delete_all key table =
      contents-delete_where a o key (λ r. true) table
      ∙ ap values_of (
          keep-none (λ r. false) (order_by (ascending a) (of_key key table))
            (all_rows (order_by (ascending a) (of_key key table))))
    where
      all_rows : (rs : List (Row P)) → All (λ s. false ≡ false) rs
      all_rows [] = tt
      all_rows (r ∷ rs) = (refl, all_rows rs)

  contents-between :
      (key : String) (i j : ℕ) (x y : Row P) (table : List (Row P))
      → distinct table ≡ true
      → i ≤ j
      → row_at a key table (pos i) ≡ some x
      → row_at a key table (pos j) ≡ some y
      → contents a key (delete_where key (λ r. ascending a r x || ascending a y r) table)
        ≡ take (suc j - i) (drop i (contents a key table))
  unfolding contents
  contents-between key i j x y table d le e f =
      let rows = order_by (ascending a) (of_key key table) in
      contents-delete_where a o key (λ r. ascending a r x || ascending a y r) table
      ∙ (ap values_of (
            keep-window (ascending a) (ascending_asym a o) (ascending_above a o)
              (ascending_total a o) rows i j x y
              (order_by-IsSorted (ascending a) (ascending_asym a o) (ascending_above a o)
                (of_key key table))
              (distinct-order_by (ascending a) (of_key key table) (distinct-of_key key table d)) le
              (sym (row_at-get_elem? key i table) ∙ e) (sym (row_at-get_elem? key j table) ∙ f))
          ∙ (values_of-take (suc j - i) (drop i rows)
              ∙ ap (take (suc j - i)) (values_of-drop i rows)))

  row_at-exists :
      (key : String) (i : ℕ) (table : List (Row P))
      → suc i ≤ length (contents a key table)
      → (x : Row P) × (row_at a key table (pos i) ≡ some x)
  unfolding contents
  row_at-exists key i table inside = elim (Option-cases (row_at a key table (pos i))) [
    | inl nothing ↦ absurd (
        omega (
          arith,
          inside,
          get_elem?-short (order_by (ascending a) (of_key key table)) i
              (sym (row_at-get_elem? key i table) ∙ nothing),
          length-values_of (order_by (ascending a) (of_key key table)),
        ))
    | inr found ↦ found
  ]

  trim_rows-keep_range :
      (key : String) (table : List (Row P)) (first : ℕ) (last : ℤ)
      → distinct table ≡ true
      → ((l : ℕ) → last ≡ pos l → suc l ≤ length (contents a key table))
      → contents a key (trim_rows a key table (first, last))
        ≡ keep_range (contents a key table) (first, last)
  unfolding trim_rows trim_between
  trim_rows-keep_range key table first (negsuc l) d inside = delete_all key table
  trim_rows-keep_range key table first (pos l) d inside = elim (Bool-cases (leb first l)) [
    | inr empty ↦ rw empty (delete_all key table)
    | inl some_left ↦
        let le : first ≤ l = ground arith in
        let (x, e) = row_at-exists key first table (omega (arith, le, inside l refl)) in
        let (y, f) = row_at-exists key l table (inside l refl) in
        rw (some_left, e, f) (contents-between key first l x y table d le e f)
  ]

  trim_between-others :
      (key : String) (x y : Option (Row P)) (table : List (Row P))
      → distinct table ≡ true
      → ((other : String)
          → (key == other) ≡ false
          → contents a other (trim_between a key table x y) ≡ contents a other table)
        × (distinct (trim_between a key table x y) ≡ true)
  unfolding trim_between
  trim_between-others key none y table d = (λ other n. refl, d)
  trim_between-others key (some x) none table d = (λ other n. refl, d)
  trim_between-others key (some x) (some y) table d =
      let p = λ (r : Row P). ascending a r x || ascending a y r in
      (λ other n. contents-other a o key other p table n, distinct-delete_where key p table d)

  trim_rows-others :
      (key : String) (table : List (Row P)) (first : ℕ) (last : ℤ)
      → distinct table ≡ true
      → ((other : String)
          → (key == other) ≡ false
          → contents a other (trim_rows a key table (first, last)) ≡ contents a other table)
        × (distinct (trim_rows a key table (first, last)) ≡ true)
  unfolding trim_rows
  trim_rows-others key table first (negsuc l) d = (
    λ other n. contents-other a o key other (λ r. true) table n,
    distinct-delete_where key (λ r. true) table d,
  )
  trim_rows-others key table first (pos l) d = elim (Bool-cases (leb first l)) [
    | inl some_left ↦ rw some_left (
        trim_between-others key (row_at a key table (pos first)) (row_at a key table (pos l)) table
          d)
    | inr empty ↦ rw empty (
      λ other n. contents-other a o key other (λ r. true) table n,
      distinct-delete_where key (λ r. true) table d,
    )
  ]

  -- Trimming a list of the database to a range, with indices from either end, keeps exactly that
  -- range of its contents, and changes no other list. The ids stay distinct.
  pub list_trim-refines :
      (key : String) (start stop : ℤ) (table : List (Row P))
      → distinct table ≡ true
      → let result = list_trim a key start stop table in
        (contents a key result ≡ Store.list_trim (contents a key table) start stop)
        × ((other : String)
            → (key == other) ≡ false
            → contents a other result ≡ contents a other table)
        × (distinct result ≡ true)
  unfolding list_trim Store.list_trim list_len
  list_trim-refines key start stop table d =
      let range = resolve_range (length (of_key key table)) start stop in
      let others = trim_rows-others key table range.0 range.1 d in
      (
        trim_rows-keep_range key table range.0 range.1 d (λ l e.
              rw (length-contents a o key table)
                (resolve_range-inside (length (of_key key table)) start stop l e))
            ∙ rw (length-contents a o key table) refl,
        others.0,
        others.1,
      )
