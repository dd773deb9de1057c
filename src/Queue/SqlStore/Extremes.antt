-- ===== src/Queue/SqlStore/Extremes.antt =====
-- The first row in an order and in its reverse, in the lists of queueserver_service/manager/queue_store.py.
use mathlib.Core.Path.{subst}
use ophyd_service.Prelude.{
  ℕ, ◌≡◌, refl, ap, sym, ◌∙◌, Bool, true, false, none, some, List, [], ◌∷◌, ◌++◌, eqb, All, arith,
  Bool-cases, Option-cases, inl, inr, ◌⊎◌,
}
use ophyd_service.Queue.SqlStore.{Row, delete_id, insert_row, order_by, first_row}
use ophyd_service.Queue.SqlStore.Order.{
  has_id, distinct, All-weaken, delete_id-absent, insert_row-last, insert_row-append, All-order_by,
  has_id-order_by, first_row-has_id,
}

module _ {P : Type 0} where
  delete_id-head :
      (r : Row P) (rs : List (Row P)) → distinct (r ∷ rs) ≡ true → delete_id r.id (r ∷ rs) ≡ rs
  unfolding delete_id
  delete_id-head r rs d = ground (arith, delete_id-absent r.id rs (ground arith))

  pub different_id :
      (r : Row P) (rs : List (Row P)) (i : ℕ)
      → distinct (r ∷ rs) ≡ true
      → has_id i rs ≡ true
      → eqb r.id i ≡ false
  different_id r rs i d h = elim (Bool-cases (eqb r.id i)) [
    | inl same ↦
        let e : i ≡ r.id = ground arith in
        let h' = subst (λ j. has_id j rs ≡ true) e h in absurd (ground arith)
    | inr other ↦ other
  ]

module _ {P : Type 0} (ahead : Row P → Row P → Bool) where
  first_row-insert_row :
      (r : Row P) (zs : List (Row P)) (x : Row P)
      → first_row (insert_row ahead r zs) ≡ some x
      → ((first_row zs ≡ some x) × (ahead x r ≡ true))
        ⊎ ((r ≡ x)
            × (insert_row ahead r zs ≡ r ∷ zs)
            × ((y : Row P) → first_row zs ≡ some y → ahead y r ≡ false))
  unfolding insert_row first_row
  first_row-insert_row r [] x e = inr (ground arith, refl, λ y f. absurd (ground arith))
  first_row-insert_row r (z ∷ zs) x e = elim (Bool-cases (ahead z r)) [
    | inl first ↦
        let same : z ≡ x = ground arith in
        inl (ap some same, subst (λ y. ahead y r ≡ true) same first)
    | inr later ↦
        inr (ground arith, ground arith, λ y f. subst (λ w. ahead w r ≡ false) (ground arith) later)
  ]

  none_first {κ} :
      (Q : Row P → Type κ) (rs : List (Row P)) → first_row (order_by ahead rs) ≡ none → All Q rs
  unfolding first_row order_by insert_row
  none_first Q [] h = tt
  none_first Q (r ∷ rs) h = elim (Option-cases (first_row (order_by ahead rs))) [
    | inl nothing ↦ absurd (ground arith)
    | inr (y, f) ↦ absurd (ground arith)
  ]

  -- The first row in the order comes before the others, also when it is taken out.
  pub order_by-first_row :
      (rs : List (Row P)) (x : Row P)
      → distinct rs ≡ true
      → first_row (order_by ahead rs) ≡ some x
      → order_by ahead rs ≡ x ∷ order_by ahead (delete_id x.id rs)
  unfolding order_by delete_id first_row insert_row
  order_by-first_row [] x d e = absurd (ground arith)
  order_by-first_row (r ∷ rs) x d e = elim (first_row-insert_row r (order_by ahead rs) x e) [
    | inl (f, before) ↦
        let other =
          different_id r rs x.id d
            (sym (has_id-order_by ahead x.id rs) ∙ first_row-has_id (order_by ahead rs) x f) in
        rw (other, order_by-first_row rs x (ground arith) f, before) refl
    | inr (same, placed, behind) ↦
        subst (λ y. order_by ahead (r ∷ rs) ≡ y ∷ order_by ahead (delete_id y.id (r ∷ rs))) same
          (placed ∙ ap (λ zs. r ∷ order_by ahead zs) (sym (delete_id-head r rs d)))
  ]

module _ {P : Type 0} (ahead : Row P → Row P → Bool)
    (asym : (x y : Row P) → ahead x y ≡ true → ahead y x ≡ false)
    (above : (x y z : Row P) → ahead x y ≡ false → ahead y z ≡ false → ahead x z ≡ false)
    (total : (x y : Row P) → eqb x.id y.id ≡ false → ahead x y ≡ false → ahead y x ≡ true) where
  abbrev reversed : Row P → Row P → Bool
  reversed r s = ahead s r

  irrefl : (r : Row P) → ahead r r ≡ false
  irrefl r = elim (Bool-cases (ahead r r)) [ inl h ↦ asym r r h | inr h ↦ h ]

  last_row-behind :
      (rs : List (Row P)) (x : Row P)
      → first_row (order_by reversed rs) ≡ some x
      → All (λ s. ahead x s ≡ false) rs
  unfolding order_by first_row
  last_row-behind [] x e = tt
  last_row-behind (r ∷ rs) x e = elim (first_row-insert_row reversed r (order_by reversed rs) x e) [
    | inl (f, before) ↦ (asym r x before, last_row-behind rs x f)
    | inr (same, placed, behind) ↦
        subst (λ y. All (λ s. ahead y s ≡ false) (r ∷ rs)) same
          (
            irrefl r,
            elim (Option-cases (first_row (order_by reversed rs))) [
              | inl nothing ↦ none_first reversed (λ s. ahead r s ≡ false) rs nothing
              | inr (y, f) ↦ All-weaken rs (λ s. above r y s (behind y f)) (last_row-behind rs y f)
            ],
          )
  ]

  behind-All :
      (r : Row P) (rs : List (Row P))
      → has_id r.id rs ≡ false
      → All (λ s. ahead r s ≡ false) rs
      → All (λ s. ahead s r ≡ true) rs
  behind-All r [] h b = tt
  behind-All r (s ∷ rs) h b = (total r s (ground arith) b.0, behind-All r rs (ground arith) b.1)

  -- The first row in the reverse order comes behind the others, also when it is taken out.
  pub order_by-last_row :
      (rs : List (Row P)) (x : Row P)
      → distinct rs ≡ true
      → first_row (order_by reversed rs) ≡ some x
      → order_by ahead rs ≡ order_by ahead (delete_id x.id rs) ++ x ∷ []
  unfolding order_by delete_id first_row
  order_by-last_row [] x d e = absurd (ground arith)
  order_by-last_row (r ∷ rs) x d e =
      elim (first_row-insert_row reversed r (order_by reversed rs) x e) [
        | inl (f, before) ↦
            let other = different_id r rs x.id d (
              sym (has_id-order_by reversed x.id rs)
              ∙ first_row-has_id (order_by reversed rs) x f) in
            rw (other, order_by-last_row rs x (ground arith) f)
              (insert_row-append ahead x r _ (asym r x before))
        | inr (same, placed, behind) ↦
            let all_behind =
              subst (λ y. All (λ s. ahead y s ≡ false) (r ∷ rs)) (sym same)
                (last_row-behind (r ∷ rs) x e) in
            subst
              (λ y. order_by ahead (r ∷ rs) ≡ order_by ahead (delete_id y.id (r ∷ rs)) ++ y ∷ [])
              same
              (insert_row-last ahead r (order_by ahead rs)
                  (All-order_by ahead _ rs (behind-All r rs (ground arith) all_behind.1))
                ∙ ap (λ zs. order_by ahead zs ++ r ∷ []) (sym (delete_id-head r rs d)))
      ]
