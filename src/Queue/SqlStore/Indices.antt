-- ===== src/Queue/SqlStore/Indices.antt =====
-- The rows of a list with their indices for positions (queueserver_service/manager/queue_store.py).
use ophyd_service.Prelude.{
  ℕ, suc, String, ◌≡◌, refl, ap, sym, ◌∙◌, true, false, List, [], ◌∷◌, eqb, All, arith, Bool-cases,
  inl, inr, ◌≤◌,
}
use ophyd_service.Queue.SqlStore.{
  Arithmetic, IsOrdered, Row, of_key, order_by, ascending, renumber, values_of,
}
use ophyd_service.Queue.SqlStore.Order.{has_id, distinct, All-weaken, distinct-order_by}
use ophyd_service.Queue.SqlStore.Sorted.{IsSorted, order_by-IsSorted}
use ophyd_service.Queue.SqlStore.Keys.{
  ascending_asym, ascending_above, ascending_total, distinct-of_key,
}
use ophyd_service.Queue.SqlStore.Renumbering.{
  All-both, ids-All, All-unsort, map_rows, order_by-map_rows, moved, renumber-moved, of_key-moved,
}

module _ {P : Type 0} (a : Arithmetic P) where
  moved-later :
      (i : ℕ) (r : Row P) (rs : List (Row P)) (s : Row P)
      → eqb s.id r.id ≡ false
      → moved a i (r ∷ rs) s ≡ moved a (suc i) rs s
  moved-later i r rs s h = rw h refl

  moved-here :
      (i : ℕ) (r : Row P) (rs : List (Row P))
      → moved a i (r ∷ rs) r ≡ record r { position = a.of_index i }
  moved-here i r rs = ground arith

  abbrev pub reposition : ℕ → List (Row P) → List (Row P)
  reposition i [] = []
  reposition i (r ∷ rs) = record r { position = a.of_index i } ∷ reposition (suc i) rs

  map_rows-later :
      (i : ℕ) (r : Row P) (rs ss : List (Row P))
      → has_id r.id ss ≡ false
      → map_rows (moved a i (r ∷ rs)) ss ≡ map_rows (moved a (suc i) rs) ss
  map_rows-later i r rs [] h = refl
  map_rows-later i r rs (s ∷ ss) h =
      let other : eqb s.id r.id ≡ false = ground arith in
      rw (other, map_rows-later i r rs ss (ground arith)) refl

  pub map_rows-reposition :
      (i : ℕ) (rs : List (Row P))
      → distinct rs ≡ true
      → map_rows (moved a i rs) rs ≡ reposition i rs
  map_rows-reposition i [] d = refl
  map_rows-reposition i (r ∷ rs) d =
      rw
        (
          moved-here i r rs,
          map_rows-later i r rs rs (ground arith),
          map_rows-reposition (suc i) rs (ground arith),
        )
        refl

  pub values_of-reposition :
      (i : ℕ) (rs : List (Row P)) → values_of (reposition i rs) ≡ values_of rs
  unfolding values_of
  values_of-reposition i [] = refl
  values_of-reposition i (r ∷ rs) = ap (◌∷◌ r.value) (values_of-reposition (suc i) rs)

module _ {P : Type 0} (a : Arithmetic P) (o : IsOrdered a) where
  moved-higher :
      (k i : ℕ) (rs : List (Row P))
      → suc k ≤ i
      → distinct rs ≡ true
      → All
          (λ s.
            (a.lt (a.of_index k) (moved a i rs s).position ≡ true)
            × (a.lt (moved a i rs s).position (a.of_index k) ≡ false))
          rs
  moved-higher k i [] h d = tt
  moved-higher k i (r ∷ rs) h d = (
    rw (moved-here a i r rs) (o.indices k i ∙ ground arith, o.indices i k ∙ ground arith),
    All-both rs (λ s n p. rw (moved-later a i r rs s n) p) (ids-All r.id rs (ground arith))
        (moved-higher k (suc i) rs (omega arith) (ground arith)),
  )

  irrefl : (r : Row P) → ascending a r r ≡ false
  irrefl r = elim (Bool-cases (ascending a r r)) [ inl h ↦ ascending_asym a o r r h | inr h ↦ h ]

  abbrev Keeps : ℕ → List (Row P) → Row P → Row P → Type 0
  Keeps i rs x y = ascending a (moved a i rs x) (moved a i rs y) ≡ ascending a x y

  abbrev InOrder : List (Row P) → Type 0
  InOrder rs = IsSorted (ascending a) (ascending_asym a o) (ascending_above a o) rs

  first-Keeps :
      (i : ℕ) (r s : Row P) (rs : List (Row P))
      → eqb s.id r.id ≡ false
      → ascending a s r ≡ false
      → (a.lt (a.of_index i) (moved a (suc i) rs s).position ≡ true)
        × (a.lt (moved a (suc i) rs s).position (a.of_index i) ≡ false)
      → Keeps i (r ∷ rs) r s × Keeps i (r ∷ rs) s r
  unfolding ascending
  first-Keeps i r s rs n h p =
      let forth = ascending_total a o s r n h in
      rw (moved-here a i r rs, moved-later a i r rs s n)
        (ground (arith, p.0, p.1, forth), ground (arith, p.0, p.1, h))

  later-Keeps :
      (i : ℕ) (r : Row P) (rs : List (Row P)) (s y : Row P)
      → eqb s.id r.id ≡ false
      → eqb y.id r.id ≡ false
      → Keeps (suc i) rs s y
      → Keeps i (r ∷ rs) s y
  later-Keeps i r rs s y n m k = rw (moved-later a i r rs s n, moved-later a i r rs y m) k

  firsts-Keep :
      (i : ℕ) (r : Row P) (rs : List (Row P))
      → All (λ s. ascending a s r ≡ false) rs
      → distinct (r ∷ rs) ≡ true
      → All (λ s. Keeps i (r ∷ rs) r s × Keeps i (r ∷ rs) s r) rs
  firsts-Keep i r rs h d =
      All-both rs
        (λ s (e : (eqb s.id r.id ≡ false) × (ascending a s r ≡ false)).
          first-Keeps i r s rs e.0 e.1)
        (All-both rs (λ s x y. (x, y)) (ids-All r.id rs (ground arith)) h)
        (moved-higher i (suc i) rs (omega arith) (ground arith))

  moved-Keeps :
      (i : ℕ) (rs : List (Row P))
      → InOrder rs
      → distinct rs ≡ true
      → All (λ x. All (λ y. Keeps i rs x y) rs) rs
  moved-Keeps i [] h d = tt
  moved-Keeps i (r ∷ rs) h d =
      let ids = ids-All r.id rs (ground arith) in
      let firsts = firsts-Keep i r rs h.0 d in
      let later : All (λ s. All (λ y. Keeps i (r ∷ rs) s y) rs) rs =
        All-both rs (λ s n q. All-both rs (λ y m k. later-Keeps i r rs s y n m k) ids q) ids
          (moved-Keeps (suc i) rs h.1 (ground arith)) in
      (
        (irrefl (moved a i (r ∷ rs) r) ∙ sym (irrefl r), All-weaken rs (λ s p. p.0) firsts),
        All-both rs (λ s p q. (p.1, q)) firsts later,
      )

  -- The rows of a list in order after they have been numbered.
  pub order_by-renumber :
      (key : String) (table : List (Row P))
      → distinct table ≡ true
      → let rows = order_by (ascending a) (of_key key table) in
        order_by (ascending a) (of_key key (renumber a 0 rows table)) ≡ reposition a 0 rows
  order_by-renumber key table d =
      let rows = order_by (ascending a) (of_key key table) in
      let dk = distinct-of_key key table d in
      let dr = distinct-order_by (ascending a) (of_key key table) dk in
      let keeps =
        moved-Keeps 0 rows
          (order_by-IsSorted (ascending a) (ascending_asym a o) (ascending_above a o)
            (of_key key table))
          dr in
      let keeps' =
        All-unsort (ascending a) _ (of_key key table)
          (All-weaken rows (λ x k. All-unsort (ascending a) _ (of_key key table) k) keeps) in
      ap (λ t. order_by (ascending a) (of_key key t)) (renumber-moved a 0 rows table dr)
      ∙ (ap (order_by (ascending a)) (of_key-moved a key 0 rows table)
          ∙ (order_by-map_rows (ascending a) (moved a 0 rows) (of_key key table) keeps'
              ∙ map_rows-reposition a 0 rows dr))
