-- ===== src/Queue/SqlStore/Places.antt =====
-- Where a new row comes among the rows of a list (queueserver_service/manager/queue_store.py).
use mathlib.Core.Path.{subst}
use ophyd_service.Prelude.{
  ℕ, suc, zero, ◌≡◌, refl, ap, sym, Bool, true, false, ◌&&◌, not, Option, none, some, List, [], ◌∷◌,
  ◌++◌, All, arith, get_elem?, take, drop, Option-cases, inl, inr, ◌≤◌,
}
use ophyd_service.Queue.Json.{Item}
use ophyd_service.Queue.Store.{Where, before, after, list_insert_at}
use ophyd_service.Queue.SqlStore.{
  Arithmetic, IsOrdered, Row, insert_row, values_of, find_pivot, neighbor, occupied, position_near,
}
use ophyd_service.Queue.SqlStore.Order.{All-weaken}

abbrev pub place : Where → ℕ → ℕ
place before i = i
place after i = suc i

abbrev pub at_place : {P : Type 0} → Where → Item → Option ℕ → List (Row P) → Option (List Item)
at_place w v none rows = none
at_place w v (some i) rows =
    some (take (place w i) (values_of rows) ++ v ∷ drop (place w i) (values_of rows))

module _ {P : Type 0} where
  -- The value stands next to the pivot that is found.
  pub list_insert_at-find_pivot :
      (w : Where) (pivot v : Item) (rows : List (Row P))
      → list_insert_at (values_of rows) w pivot v ≡ at_place w v (find_pivot pivot rows) rows
  unfolding list_insert_at find_pivot values_of
  list_insert_at-find_pivot w pivot v [] = refl
  list_insert_at-find_pivot before pivot v (r ∷ rs) = elim (Option-cases (find_pivot pivot rs)) [
    | inl missing ↦ ground (arith, list_insert_at-find_pivot before pivot v rs)
    | inr (i, e) ↦ ground (arith, list_insert_at-find_pivot before pivot v rs)
  ]
  list_insert_at-find_pivot after pivot v (r ∷ rs) = elim (Option-cases (find_pivot pivot rs)) [
    | inl missing ↦ ground (arith, list_insert_at-find_pivot after pivot v rs)
    | inr (i, e) ↦ ground (arith, list_insert_at-find_pivot after pivot v rs)
  ]

  pub insert_row-place :
      (ahead : Row P → Row P → Bool) (r : Row P) (m : ℕ) (rows : List (Row P))
      → All (λ s. ahead s r ≡ true) (take m rows)
      → All (λ s. ahead s r ≡ false) (drop m rows)
      → insert_row ahead r rows ≡ take m rows ++ r ∷ drop m rows
  unfolding insert_row
  insert_row-place ahead r zero [] h k = refl
  insert_row-place ahead r (suc m) [] h k = refl
  insert_row-place ahead r zero (s ∷ rows) h k = ground (arith, k.0)
  insert_row-place ahead r (suc m) (s ∷ rows) h k =
      ground (arith, h.0, insert_row-place ahead r m rows h.1 k)

  pub values_of-place :
      (m : ℕ) (r : Row P) (rows : List (Row P))
      → values_of (take m rows ++ r ∷ drop m rows)
        ≡ take m (values_of rows) ++ r.value ∷ drop m (values_of rows)
  unfolding values_of
  values_of-place zero r rows = refl
  values_of-place (suc m) r [] = refl
  values_of-place (suc m) r (s ∷ rows) = ap (◌∷◌ s.value) (values_of-place m r rows)

module _ {P : Type 0} (a : Arithmetic P) where
  -- Positions that do not go down.
  abbrev pub Climbs : List (Row P) → Type 0
  Climbs [] = Unit
  Climbs (r ∷ rs) = All (λ s. a.lt s.position r.position ≡ false) rs × Climbs rs

  pub unoccupied :
      (p : P) (rows : List (Row P)) (i : ℕ) (x : Row P)
      → occupied a p rows ≡ false
      → get_elem? rows i ≡ some x
      → not (a.lt p x.position) && not (a.lt x.position p) ≡ false
  unfolding occupied
  unoccupied p [] i x o e = absurd (ground arith)
  unoccupied p (r ∷ rows) zero x o e =
      let same : r ≡ x = ground arith in
      subst (λ y. not (a.lt p y.position) && not (a.lt y.position p) ≡ false) same (ground arith)
  unoccupied p (r ∷ rows) (suc i) x o e = unoccupied p rows i x (ground arith) e

module _ {P : Type 0} where
  pub All-at :
      (Q : Row P → Type 0) (rs : List (Row P)) (i : ℕ) (x : Row P)
      → get_elem? rs i ≡ some x
      → All Q rs
      → Q x
  All-at Q [] i x e h = absurd (ground arith)
  All-at Q (r ∷ rs) zero x e h = subst Q (ground arith) h.0
  All-at Q (r ∷ rs) (suc i) x e h = All-at Q rs i x e h.1

  drop-past :
      (Q : Row P → Type 0) (i : ℕ) (rs : List (Row P)) → get_elem? rs i ≡ none → All Q (drop i rs)
  drop-past Q zero [] e = tt
  drop-past Q (suc i) [] e = tt
  drop-past Q zero (r ∷ rs) e = absurd (ground arith)
  drop-past Q (suc i) (r ∷ rs) e = drop-past Q i rs e

  get_elem?-before :
      (rs : List (Row P)) (i : ℕ) (x : Row P)
      → get_elem? rs (suc i) ≡ some x
      → get_elem? rs i ≡ none
      → suc i ≤ i
  get_elem?-before [] i x e n = absurd (ground arith)
  get_elem?-before (r ∷ rs) zero x e n = absurd (ground arith)
  get_elem?-before (r ∷ rs) (suc i) x e n = omega (arith, get_elem?-before rs i x e n)

module _ {P : Type 0} (a : Arithmetic P) (o : IsOrdered a) where
  lower-All :
      (p : P) (rows : List (Row P)) (i : ℕ) (n : Row P)
      → Climbs a rows
      → get_elem? rows i ≡ some n
      → a.lt n.position p ≡ true
      → All (λ s. a.lt s.position p ≡ true) (take (suc i) rows)
  lower-All p [] i n c e h = absurd (ground arith)
  lower-All p (r ∷ rows) zero n c e h =
      let same : n ≡ r = ground arith in
      (subst (λ (y : Row P). a.lt y.position p ≡ true) same h, tt)
  lower-All p (r ∷ rows) (suc i) n c e h =
      let behind = All-at (λ s. a.lt s.position r.position ≡ false) rows i n e c.0 in
      (ground (arith, behind, h, o.above n.position r.position p), lower-All p rows i n c.1 e h)

  upper-All :
      (p : P) (rows : List (Row P)) (i : ℕ) (u : Row P)
      → Climbs a rows
      → get_elem? rows i ≡ some u
      → a.lt p u.position ≡ true
      → All (λ s. a.lt p s.position ≡ true) (drop i rows)
  upper-All p [] i u c e h = absurd (ground arith)
  upper-All p (r ∷ rows) zero u c e h =
      let same : u ≡ r = ground arith in
      let here = subst (λ (y : Row P). a.lt p y.position ≡ true) same h in
      (here, All-weaken rows (λ s k. ground (arith, here, k, o.above p s.position r.position)) c.0)
  upper-All p (r ∷ rows) (suc i) u c e h = upper-All p rows i u c.1 e h

  next-higher :
      (rows : List (Row P)) (i : ℕ) (x y : Row P)
      → Climbs a rows
      → get_elem? rows i ≡ some x
      → get_elem? rows (suc i) ≡ some y
      → a.lt y.position x.position ≡ false
  next-higher [] i x y c e f = absurd (ground arith)
  next-higher (r ∷ rows) zero x y c e f =
      let same : r ≡ x = ground arith in
      subst (λ (z : Row P). a.lt y.position z.position ≡ false) same
        (All-at (λ s. a.lt s.position r.position ≡ false) rows zero y f c.0)
  next-higher (r ∷ rows) (suc i) x y c e f = next-higher rows i x y c.1 e f

  abbrev pub Straddles : P → ℕ → List (Row P) → Type 0
  Straddles p m rows =
      All (λ s. a.lt s.position p ≡ true) (take m rows)
      × All (λ s. a.lt p s.position ≡ true) (drop m rows)

  between-Straddles :
      (rows : List (Row P)) (i : ℕ) (n u : Row P)
      → Climbs a rows
      → get_elem? rows i ≡ some n
      → get_elem? rows (suc i) ≡ some u
      → occupied a (a.halfway n.position u.position) rows ≡ false
      → Straddles (a.halfway n.position u.position) (suc i) rows
  between-Straddles rows i n u c e f free =
      let p = a.halfway n.position u.position in
      let climb = next-higher rows i n u c e f in
      let above_n : a.lt n.position p ≡ true =
        ground
          (arith, unoccupied a p rows i n free e, o.halfway_lower n.position u.position climb) in
      let below_u : a.lt p u.position ≡ true = ground (
        arith,
        unoccupied a p rows (suc i) u free f,
        o.halfway_upper n.position u.position climb,
      ) in
      (lower-All p rows i n c e above_n, upper-All p rows (suc i) u c f below_u)

  -- A position next to the pivot's that no row has is between the rows of both sides.
  pub position_near-Straddles :
      (w : Where) (rows : List (Row P)) (i : ℕ) (x : Row P)
      → Climbs a rows
      → get_elem? rows i ≡ some x
      → occupied a (position_near a w x.position (neighbor w i rows)) rows ≡ false
      → Straddles (position_near a w x.position (neighbor w i rows)) (place w i) rows
  position_near-Straddles before rows zero x c e free =
      (tt, upper-All (a.minus_one x.position) rows zero x c e (o.lower x.position))
  position_near-Straddles before rows (suc i) x c e free = elim (Option-cases (get_elem? rows i)) [
    | inl nothing ↦ absurd (omega (arith, get_elem?-before rows i x e nothing))
    | inr (n, f) ↦
        let comm = o.halfway_comm x.position n.position in
        let free' = rw f at free in
        let free'' = subst (λ p. occupied a p rows ≡ false) comm free' in
        rw f (
          subst (λ p. Straddles p (suc i) rows) (sym comm)
            (between-Straddles rows i n x c f e free''))
  ]
  position_near-Straddles after rows i x c e free = elim (Option-cases (get_elem? rows (suc i))) [
    | inl nothing ↦ rw nothing (
      lower-All (a.plus_one x.position) rows i x c e (o.higher x.position),
      drop-past _ (suc i) rows nothing,
    )
    | inr (n, f) ↦ rw f (between-Straddles rows i x n c e f (rw f at free))
  ]
