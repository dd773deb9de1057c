-- ===== src/Queue/SqlStore/Order.antt =====
-- ORDER BY in the lists of queueserver_service/manager/queue_store.py: where a new row comes, and what
-- the first row in either direction is.
use ophyd_service.Prelude.{
  ℕ, ◌≡◌, refl, ap, ◌∙◌, Bool, true, false, ◌&&◌, ◌||◌, not, some, List, [], ◌∷◌, ◌++◌, eqb, All,
  arith, Bool-cases, inl, inr,
}
use ophyd_service.Queue.SqlStore.{Row, delete_id, insert_row, order_by, first_row}

module _ {P : Type 0} where
  abbrev pub has_id : ℕ → List (Row P) → Bool
  has_id id [] = false
  has_id id (r ∷ rs) = eqb r.id id || has_id id rs

  abbrev pub distinct : List (Row P) → Bool
  distinct [] = true
  distinct (r ∷ rs) = not (has_id r.id rs) && distinct rs

  pub delete_id-absent : (id : ℕ) (rs : List (Row P)) → has_id id rs ≡ false → delete_id id rs ≡ rs
  unfolding delete_id
  delete_id-absent id [] h = refl
  delete_id-absent id (r ∷ rs) h = ground (arith, delete_id-absent id rs (ground arith))

  pub first_row-has_id :
      (rs : List (Row P)) (x : Row P) → first_row rs ≡ some x → has_id x.id rs ≡ true
  unfolding first_row
  first_row-has_id [] x e = absurd (ground arith)
  first_row-has_id (r ∷ rs) x e =
      let same : r ≡ x = ground arith in ground (arith, ap (λ s. s.id) same)

  pub All-weaken {κ μ} :
      {Q : Row P → Type κ} {R : Row P → Type μ}
      → (rs : List (Row P)) → ((s : Row P) → Q s → R s)
      → All Q rs
      → All R rs
  All-weaken [] f h = tt
  All-weaken (r ∷ rs) f h = (f r h.0, All-weaken rs f h.1)

module _ {P : Type 0} (ahead : Row P → Row P → Bool) where
  pub insert_row-last :
      (x : Row P) (zs : List (Row P))
      → All (λ s. ahead s x ≡ true) zs
      → insert_row ahead x zs ≡ zs ++ x ∷ []
  unfolding insert_row
  insert_row-last x [] h = refl
  insert_row-last x (z ∷ zs) h = ground (arith, h.0, insert_row-last x zs h.1)

  pub insert_row-first :
      (x : Row P) (zs : List (Row P))
      → All (λ s. ahead s x ≡ false) zs
      → insert_row ahead x zs ≡ x ∷ zs
  unfolding insert_row
  insert_row-first x [] h = refl
  insert_row-first x (z ∷ zs) h = ground (arith, h.0)

  pub insert_row-append :
      (x y : Row P) (zs : List (Row P))
      → ahead x y ≡ false
      → insert_row ahead y (zs ++ x ∷ []) ≡ insert_row ahead y zs ++ x ∷ []
  unfolding insert_row
  insert_row-append x y [] h = ground (arith, h)
  insert_row-append x y (z ∷ zs) h = ground (arith, insert_row-append x y zs h)

  pub All-insert_row {κ} :
      (Q : Row P → Type κ) (r : Row P) (zs : List (Row P))
      → Q r
      → All Q zs
      → All Q (insert_row ahead r zs)
  unfolding insert_row
  All-insert_row Q r [] q h = (q, tt)
  All-insert_row Q r (z ∷ zs) q h = elim (Bool-cases (ahead z r)) [
    | inl first ↦ rw first (h.0, All-insert_row Q r zs q h.1)
    | inr later ↦ rw later (q, h)
  ]

  pub All-order_by {κ} :
      (Q : Row P → Type κ) (rs : List (Row P)) → All Q rs → All Q (order_by ahead rs)
  unfolding order_by
  All-order_by Q [] h = tt
  All-order_by Q (r ∷ rs) h = All-insert_row Q r (order_by ahead rs) h.0 (All-order_by Q rs h.1)

  has_id-insert_row :
      (id : ℕ) (r : Row P) (zs : List (Row P))
      → has_id id (insert_row ahead r zs) ≡ eqb r.id id || has_id id zs
  unfolding insert_row
  has_id-insert_row id r [] = refl
  has_id-insert_row id r (z ∷ zs) = ground (arith, has_id-insert_row id r zs)

  pub has_id-order_by : (id : ℕ) (rs : List (Row P)) → has_id id (order_by ahead rs) ≡ has_id id rs
  unfolding order_by
  has_id-order_by id [] = refl
  has_id-order_by id (r ∷ rs) =
      has_id-insert_row id r (order_by ahead rs) ∙ rw (has_id-order_by id rs) refl

  distinct-insert_row :
      (r : Row P) (zs : List (Row P))
      → distinct zs ≡ true
      → has_id r.id zs ≡ false
      → distinct (insert_row ahead r zs) ≡ true
  unfolding insert_row
  distinct-insert_row r [] d h = refl
  distinct-insert_row r (z ∷ zs) d h =
      ground
        (arith, distinct-insert_row r zs (ground arith) (ground arith), has_id-insert_row z.id r zs)

  pub distinct-order_by :
      (rs : List (Row P)) → distinct rs ≡ true → distinct (order_by ahead rs) ≡ true
  unfolding order_by
  distinct-order_by [] d = refl
  distinct-order_by (r ∷ rs) d =
      distinct-insert_row r (order_by ahead rs) (distinct-order_by rs (ground arith))
        (has_id-order_by r.id rs ∙ ground arith)
