-- ===== src/Queue/SqlStore/Sorted.antt =====
-- The rows in order are sorted, and deleting rows keeps the order of the others: lists of
-- queueserver_service/manager/queue_store.py.
use ophyd_service.Prelude.{
  ◌≡◌, refl, ◌∙◌, Bool, true, false, List, [], ◌∷◌, if◌then◌else◌, All, arith, Bool-cases, inl, inr,
}
use ophyd_service.Queue.SqlStore.{Row, insert_row, order_by}
use ophyd_service.Queue.SqlStore.Order.{All-weaken, All-insert_row, insert_row-first}

abbrev pub keep : {P : Type 0} → (Row P → Bool) → List (Row P) → List (Row P)
keep p [] = []
keep p (r ∷ rs) = let rest = keep p rs in if p r then r ∷ rest else rest

module _ {P : Type 0} (ahead : Row P → Row P → Bool)
    (asym : (x y : Row P) → ahead x y ≡ true → ahead y x ≡ false)
    (above : (x y z : Row P) → ahead x y ≡ false → ahead y z ≡ false → ahead x z ≡ false) where
  abbrev pub IsSorted : List (Row P) → Type 0
  IsSorted [] = Unit
  IsSorted (r ∷ rs) = All (λ s. ahead s r ≡ false) rs × IsSorted rs

  insert_row-IsSorted :
      (r : Row P) (zs : List (Row P)) → IsSorted zs → IsSorted (insert_row ahead r zs)
  unfolding insert_row
  insert_row-IsSorted r [] h = (tt, tt)
  insert_row-IsSorted r (z ∷ zs) h = elim (Bool-cases (ahead z r)) [
    | inl first ↦ rw first (
      All-insert_row ahead (λ s. ahead s z ≡ false) r zs (asym z r first) h.0,
      insert_row-IsSorted r zs h.1,
    )
    | inr later ↦ rw later ((later, All-weaken zs (λ s k. above s z r k later) h.0), h)
  ]

  pub order_by-IsSorted : (rs : List (Row P)) → IsSorted (order_by ahead rs)
  unfolding order_by
  order_by-IsSorted [] = tt
  order_by-IsSorted (r ∷ rs) = insert_row-IsSorted r (order_by ahead rs) (order_by-IsSorted rs)

  All-keep :
      (Q : Row P → Type 0) (p : Row P → Bool) (rs : List (Row P)) → All Q rs → All Q (keep p rs)
  All-keep Q p [] h = tt
  All-keep Q p (r ∷ rs) h = elim (Bool-cases (p r)) [
    | inl kept ↦ rw kept (h.0, All-keep Q p rs h.1)
    | inr dropped ↦ rw dropped (All-keep Q p rs h.1)
  ]

  keep-insert_row :
      (p : Row P → Bool) (r : Row P) (zs : List (Row P))
      → IsSorted zs
      → keep p (insert_row ahead r zs) ≡ (if p r then insert_row ahead r (keep p zs) else keep p zs)
  unfolding insert_row
  keep-insert_row p r [] h = refl
  keep-insert_row p r (z ∷ zs) h = elim (Bool-cases (ahead z r)) [
    | inl first ↦ ground (arith, keep-insert_row p r zs h.1)
    | inr later ↦ ground (
      arith,
      insert_row-first ahead r (keep p zs)
          (All-keep _ p zs (All-weaken zs (λ s k. above s z r k later) h.0)),
    )
  ]

  pub keep-order_by :
      (p : Row P → Bool) (rs : List (Row P))
      → keep p (order_by ahead rs) ≡ order_by ahead (keep p rs)
  unfolding order_by
  keep-order_by p [] = refl
  keep-order_by p (r ∷ rs) =
      keep-insert_row p r (order_by ahead rs) (order_by-IsSorted rs)
      ∙ rw (keep-order_by p rs) (ground arith)
