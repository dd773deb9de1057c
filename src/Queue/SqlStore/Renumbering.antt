-- ===== src/Queue/SqlStore/Renumbering.antt =====
-- New positions for all rows of a list (queueserver_service/manager/queue_store.py) keep their order.
use mathlib.Core.Path.{subst}
use ophyd_service.Prelude.{
  ℕ, suc, String, ◌≡◌, refl, ap, sym, ◌∙◌, Bool, true, false, List, [], ◌∷◌, ◌==◌, if◌then◌else◌,
  eqb, All, arith, Bool-cases, inl, inr,
}
use ophyd_service.Queue.SqlStore.{
  Arithmetic, Row, of_key, insert_row, order_by, set_position, renumber,
}
use ophyd_service.Queue.SqlStore.Order.{has_id, distinct, All-weaken, All-order_by}

abbrev pub map_rows : {P : Type 0} → (Row P → Row P) → List (Row P) → List (Row P)
map_rows f [] = []
map_rows f (r ∷ rs) = f r ∷ map_rows f rs

module _ {P : Type 0} where
  map_rows_id : (rs : List (Row P)) → map_rows (λ r. r) rs ≡ rs
  map_rows_id [] = refl
  map_rows_id (r ∷ rs) = ap (◌∷◌ r) (map_rows_id rs)

  pub All-both :
      {Q R S : Row P → Type 0}
      → (rs : List (Row P)) → ((s : Row P) → Q s → R s → S s)
      → All Q rs
      → All R rs
      → All S rs
  All-both [] f h k = tt
  All-both (r ∷ rs) f h k = (f r h.0 k.0, All-both rs f h.1 k.1)

  pub ids-All :
      (id : ℕ) (rs : List (Row P)) → has_id id rs ≡ false → All (λ s. eqb s.id id ≡ false) rs
  ids-All id [] h = tt
  ids-All id (r ∷ rs) h = (ground arith, ids-All id rs (ground arith))

module _ {P : Type 0} (ahead : Row P → Row P → Bool) where
  All-unsort_insert :
      (Q : Row P → Type 0) (r : Row P) (zs : List (Row P))
      → All Q (insert_row ahead r zs)
      → Q r × All Q zs
  unfolding insert_row
  All-unsort_insert Q r [] h = h
  All-unsort_insert Q r (z ∷ zs) h = elim (Bool-cases (ahead z r)) [
    | inl first ↦
        let h' = rw first at h in
        let rest = All-unsort_insert Q r zs h'.1 in (rest.0, (h'.0, rest.1))
    | inr later ↦ rw later at h
  ]

  pub All-unsort : (Q : Row P → Type 0) (rs : List (Row P)) → All Q (order_by ahead rs) → All Q rs
  unfolding order_by
  All-unsort Q [] h = tt
  All-unsort Q (r ∷ rs) h =
      let parts = All-unsort_insert Q r (order_by ahead rs) h in (parts.0, All-unsort Q rs parts.1)

  insert_row-map_rows :
      (f : Row P → Row P) (r : Row P) (zs : List (Row P))
      → All (λ z. ahead (f z) (f r) ≡ ahead z r) zs
      → insert_row ahead (f r) (map_rows f zs) ≡ map_rows f (insert_row ahead r zs)
  unfolding insert_row
  insert_row-map_rows f r [] h = refl
  insert_row-map_rows f r (z ∷ zs) h = ground (arith, h.0, insert_row-map_rows f r zs h.1)

  -- A map that keeps the order of the rows can be made before or after sorting.
  pub order_by-map_rows :
      (f : Row P → Row P) (rs : List (Row P))
      → All (λ x. All (λ y. ahead (f x) (f y) ≡ ahead x y) rs) rs
      → order_by ahead (map_rows f rs) ≡ map_rows f (order_by ahead rs)
  unfolding order_by
  order_by-map_rows f [] h = refl
  order_by-map_rows f (r ∷ rs) h =
      ap (insert_row ahead (f r)) (order_by-map_rows f rs (All-weaken rs (λ x k. k.1) h.1))
      ∙ insert_row-map_rows f r (order_by ahead rs)
          (All-order_by ahead _ rs (All-weaken rs (λ x k. k.0) h.1))

module _ {P : Type 0} (a : Arithmetic P) where
  -- A row with the position of its place.
  abbrev pub moved : ℕ → List (Row P) → Row P → Row P
  moved i [] y = y
  moved i (r ∷ rs) y =
      let rest = moved (suc i) rs y in
      if eqb y.id r.id then record y { position = a.of_index i } else rest

  pub moved-absent :
      (i : ℕ) (rs : List (Row P)) (y : Row P) → has_id y.id rs ≡ false → moved i rs y ≡ y
  moved-absent i [] y h = refl
  moved-absent i (r ∷ rs) y h = ground (arith, moved-absent (suc i) rs y (ground arith))

  moved-key : (i : ℕ) (rs : List (Row P)) (y : Row P) → (moved i rs y).list_key ≡ y.list_key
  moved-key i [] y = refl
  moved-key i (r ∷ rs) y = elim (Bool-cases (eqb y.id r.id)) [
    | inl same ↦ rw same refl
    | inr other ↦ rw other (moved-key (suc i) rs y)
  ]

  set_position-moved :
      (i : ℕ) (r : Row P) (rs table : List (Row P))
      → has_id r.id rs ≡ false
      → map_rows (moved (suc i) rs) (set_position r.id (a.of_index i) table)
        ≡ map_rows (moved i (r ∷ rs)) table
  unfolding set_position
  set_position-moved i r rs [] h = refl
  set_position-moved i r rs (y ∷ table) h = elim (Bool-cases (eqb y.id r.id)) [
    | inl same ↦
        let e : r.id ≡ y.id = ground arith in
        rw
          (
            same,
            moved-absent (suc i) rs (record y { position = a.of_index i })
                (subst (λ j. has_id j rs ≡ false) e h),
            set_position-moved i r rs table h,
          )
          refl
    | inr other ↦ rw (other, set_position-moved i r rs table h) refl
  ]

  pub renumber-moved :
      (i : ℕ) (rs table : List (Row P))
      → distinct rs ≡ true
      → renumber a i rs table ≡ map_rows (moved i rs) table
  unfolding renumber
  renumber-moved i [] table d = sym (map_rows_id table)
  renumber-moved i (r ∷ rs) table d =
      renumber-moved (suc i) rs (set_position r.id (a.of_index i) table) (ground arith)
      ∙ set_position-moved i r rs table (ground arith)

  pub of_key-moved :
      (key : String) (i : ℕ) (rs table : List (Row P))
      → of_key key (map_rows (moved i rs) table) ≡ map_rows (moved i rs) (of_key key table)
  unfolding of_key
  of_key-moved key i rs [] = refl
  of_key-moved key i rs (y ∷ table) = elim (Bool-cases (y.list_key == key)) [
    | inl here ↦ rw (moved-key i rs y, here, of_key-moved key i rs table) refl
    | inr there ↦ rw (moved-key i rs y, there, of_key-moved key i rs table) refl
  ]

  moved-id : (i : ℕ) (rs : List (Row P)) (y : Row P) → (moved i rs y).id ≡ y.id
  moved-id i [] y = refl
  moved-id i (r ∷ rs) y = elim (Bool-cases (eqb y.id r.id)) [
    | inl same ↦ rw same refl
    | inr other ↦ rw other (moved-id (suc i) rs y)
  ]

  pub has_id-moved :
      (i id : ℕ) (rs table : List (Row P))
      → has_id id (map_rows (moved i rs) table) ≡ has_id id table
  has_id-moved i id rs [] = refl
  has_id-moved i id rs (y ∷ table) = rw (moved-id i rs y, has_id-moved i id rs table) refl

  pub distinct-moved :
      (i : ℕ) (rs table : List (Row P)) → distinct (map_rows (moved i rs) table) ≡ distinct table
  distinct-moved i rs [] = refl
  distinct-moved i rs (y ∷ table) =
      rw (moved-id i rs y, has_id-moved i y.id rs table, distinct-moved i rs table) refl

  pub map_rows-absent :
      (i : ℕ) (rs ss : List (Row P))
      → All (λ s. has_id s.id rs ≡ false) ss
      → map_rows (moved i rs) ss ≡ ss
  map_rows-absent i rs [] h = refl
  map_rows-absent i rs (s ∷ ss) h = rw (moved-absent i rs s h.0, map_rows-absent i rs ss h.1) refl
