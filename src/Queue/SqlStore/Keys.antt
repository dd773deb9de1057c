-- ===== src/Queue/SqlStore/Keys.antt =====
-- The rows of one list among all rows (queueserver_service/manager/queue_store.py), and the order of rows.
use mathlib.Core.Path.{subst}
use ophyd_service.Prelude.{
  ℕ, suc, String, ◌≡◌, refl, ap, ◌∙◌, Bool, true, false, none, some, List, [], ◌∷◌, ◌++◌, ◌==◌, eqb,
  All, arith, eq_iff, length, Bool-cases, Option-cases, inl, inr,
}
use ophyd_service.Queue.SqlStore.{
  Arithmetic, IsOrdered, Row, of_key, delete_id, insert_row, order_by, values_of, ascending, edge,
  beyond,
}
use ophyd_service.Queue.SqlStore.Order.{has_id, distinct, All-weaken}

module _ {P : Type 0} where
  pub of_key-delete_id :
      (key : String) (id : ℕ) (rs : List (Row P))
      → of_key key (delete_id id rs) ≡ delete_id id (of_key key rs)
  unfolding of_key delete_id
  of_key-delete_id key id [] = refl
  of_key-delete_id key id (r ∷ rs) = ground (arith, of_key-delete_id key id rs)

  pub has_id-of_key :
      (key : String) (id : ℕ) (rs : List (Row P))
      → has_id id rs ≡ false
      → has_id id (of_key key rs) ≡ false
  unfolding of_key
  has_id-of_key key id [] h = refl
  has_id-of_key key id (r ∷ rs) h = ground (arith, has_id-of_key key id rs (ground arith))

  pub distinct-of_key :
      (key : String) (rs : List (Row P)) → distinct rs ≡ true → distinct (of_key key rs) ≡ true
  unfolding of_key
  distinct-of_key key [] d = refl
  distinct-of_key key (r ∷ rs) d =
      ground
        (arith, distinct-of_key key rs (ground arith), has_id-of_key key r.id rs (ground arith))

  pub has_id-delete_id :
      (i id : ℕ) (rs : List (Row P)) → has_id i rs ≡ false → has_id i (delete_id id rs) ≡ false
  unfolding delete_id
  has_id-delete_id i id [] h = refl
  has_id-delete_id i id (r ∷ rs) h = ground (arith, has_id-delete_id i id rs (ground arith))

  pub distinct-delete_id :
      (id : ℕ) (rs : List (Row P)) → distinct rs ≡ true → distinct (delete_id id rs) ≡ true
  unfolding delete_id
  distinct-delete_id id [] d = refl
  distinct-delete_id id (r ∷ rs) d =
      ground
        (arith, distinct-delete_id id rs (ground arith), has_id-delete_id r.id id rs (ground arith))

  -- An id of a row of one list is no id of a row of another.
  pub has_id-other_key :
      (key other : String) (id : ℕ) (rs : List (Row P))
      → distinct rs ≡ true
      → (key == other) ≡ false
      → has_id id (of_key key rs) ≡ true
      → has_id id (of_key other rs) ≡ false
  unfolding of_key
  has_id-other_key key other id [] d n h = refl
  has_id-other_key key other id (r ∷ rs) d n h = elim (Bool-cases (eqb r.id id)) [
    | inl same ↦
        let e : r.id ≡ id = ground arith in
        let absent : has_id id rs ≡ false = subst (λ i. has_id i rs ≡ false) e (ground arith) in
        ground (
          arith,
          has_id-of_key key id rs absent,
          has_id-of_key other id rs absent,
          eq_iff r.list_key key,
          eq_iff r.list_key other,
          eq_iff key other,
        )
    | inr differs ↦ ground (arith, has_id-other_key key other id rs (ground arith) n (ground arith))
  ]

  pub values_of-append :
      (rs : List (Row P)) (r : Row P) → values_of (rs ++ r ∷ []) ≡ values_of rs ++ r.value ∷ []
  unfolding values_of
  values_of-append [] r = refl
  values_of-append (s ∷ rs) r = ap (◌∷◌ s.value) (values_of-append rs r)

  length-insert_row :
      (ahead : Row P → Row P → Bool) (r : Row P) (rs : List (Row P))
      → length (values_of (insert_row ahead r rs)) ≡ suc (length (values_of rs))
  unfolding insert_row values_of
  length-insert_row ahead r [] = refl
  length-insert_row ahead r (s ∷ rs) = ground (arith, length-insert_row ahead r rs)

  pub length-order_by :
      (ahead : Row P → Row P → Bool) (rs : List (Row P))
      → length (values_of (order_by ahead rs)) ≡ length rs
  unfolding order_by values_of
  length-order_by ahead [] = refl
  length-order_by ahead (r ∷ rs) =
      length-insert_row ahead r (order_by ahead rs) ∙ ap suc (length-order_by ahead rs)

module _ {P : Type 0} (a : Arithmetic P) (o : IsOrdered a) where
  pub ascending_asym : (x y : Row P) → ascending a x y ≡ true → ascending a y x ≡ false
  unfolding ascending
  ascending_asym x y h = ground (arith, o.asym x.position y.position)

  pub ascending_above :
      (x y z : Row P) → ascending a x y ≡ false → ascending a y z ≡ false → ascending a x z ≡ false
  unfolding ascending
  ascending_above x y z h k = ground (
    arith,
    o.above x.position y.position z.position,
    o.above y.position z.position x.position,
    o.above z.position x.position y.position,
  )

  pub ascending_total :
      (x y : Row P) → eqb x.id y.id ≡ false → ascending a x y ≡ false → ascending a y x ≡ true
  unfolding ascending
  ascending_total x y n h = ground arith

  lt_irrefl : (x : P) → a.lt x x ≡ false
  lt_irrefl x = elim (Bool-cases (a.lt x x)) [ inl h ↦ o.asym x x h | inr h ↦ h ]

  no_edge :
      (Q : Row P → Type 0) (front : Bool) (rs : List (Row P)) → edge a front rs ≡ none → All Q rs
  unfolding edge
  no_edge Q front [] e = tt
  no_edge Q front (r ∷ rs) e = elim (Option-cases (edge a front rs)) [
    | inl nothing ↦ absurd (ground arith)
    | inr (q, f) ↦ absurd (ground arith)
  ]

  edge-min :
      (rs : List (Row P)) (p : P)
      → edge a true rs ≡ some p
      → All (λ s. a.lt s.position p ≡ false) rs
  unfolding edge
  edge-min [] p e = tt
  edge-min (r ∷ rs) p e = elim (Option-cases (edge a true rs)) [
    | inl nothing ↦
        subst (λ q. All (λ s. a.lt s.position q ≡ false) (r ∷ rs)) (ground arith)
          (lt_irrefl r.position, no_edge (λ s. a.lt s.position r.position ≡ false) true rs nothing)
    | inr (q, f) ↦ elim (Bool-cases (a.lt r.position q)) [
      | inl less ↦
          subst (λ y. All (λ s. a.lt s.position y ≡ false) (r ∷ rs)) (ground arith)
            (
              lt_irrefl r.position,
              All-weaken rs (λ s h. o.above s.position q r.position h (o.asym r.position q less))
                  (edge-min rs q f),
            )
      | inr more ↦
          subst (λ y. All (λ s. a.lt s.position y ≡ false) (r ∷ rs)) (ground arith)
            (more, edge-min rs q f)
    ]
  ]

  edge-max :
      (rs : List (Row P)) (p : P)
      → edge a false rs ≡ some p
      → All (λ s. a.lt p s.position ≡ false) rs
  unfolding edge
  edge-max [] p e = tt
  edge-max (r ∷ rs) p e = elim (Option-cases (edge a false rs)) [
    | inl nothing ↦
        subst (λ q. All (λ s. a.lt q s.position ≡ false) (r ∷ rs)) (ground arith)
          (lt_irrefl r.position, no_edge (λ s. a.lt r.position s.position ≡ false) false rs nothing)
    | inr (q, f) ↦ elim (Bool-cases (a.lt q r.position)) [
      | inl less ↦
          subst (λ y. All (λ s. a.lt y s.position ≡ false) (r ∷ rs)) (ground arith)
            (
              lt_irrefl r.position,
              All-weaken rs (λ s h. o.above r.position q s.position (o.asym q r.position less) h)
                  (edge-max rs q f),
            )
      | inr more ↦
          subst (λ y. All (λ s. a.lt y s.position ≡ false) (r ∷ rs)) (ground arith)
            (more, edge-max rs q f)
    ]
  ]

  -- A row at the front has a lower position than all others, and one at the back a higher one.
  pub beyond-lower :
      (rs : List (Row P)) → All (λ s. a.lt (beyond a true (edge a true rs)) s.position ≡ true) rs
  unfolding beyond
  beyond-lower rs = elim (Option-cases (edge a true rs)) [
    | inl nothing ↦ no_edge _ true rs nothing
    | inr (p, e) ↦ rw e (
        All-weaken rs (λ s h. ground (arith, h, o.lower p, o.above (a.minus_one p) s.position p))
          (edge-min rs p e))
  ]

  pub beyond-higher :
      (rs : List (Row P)) → All (λ s. a.lt s.position (beyond a false (edge a false rs)) ≡ true) rs
  unfolding beyond
  beyond-higher rs = elim (Option-cases (edge a false rs)) [
    | inl nothing ↦ no_edge _ false rs nothing
    | inr (p, e) ↦ rw e (
        All-weaken rs (λ s h. ground (arith, h, o.higher p, o.above p s.position (a.plus_one p)))
          (edge-max rs p e))
  ]
