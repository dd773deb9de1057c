-- ===== src/Queue/SqlStore/Window.antt =====
-- Trimming a list to a window (queueserver_service/manager/queue_store.py).
use mathlib.Core.Path.{subst}
use ophyd_service.Prelude.{
  ℕ, suc, zero, ◌≡◌, refl, ap, ◌∙◌, Bool, true, false, ◌||◌, not, none, some, List, [], ◌∷◌, eqb,
  All, arith, length, get_elem?, take, drop, Bool-cases, inl, inr, ◌+◌, ◌-◌, ◌≤◌,
}
use ophyd_service.Queue.SqlStore.{Row, values_of}
use ophyd_service.Queue.SqlStore.Order.{has_id, distinct, All-weaken}
use ophyd_service.Queue.SqlStore.Sorted.{keep, IsSorted}
use ophyd_service.Queue.SqlStore.Extremes.{different_id}

module _ {P : Type 0} where
  keep-All : (p : Row P → Bool) (rs : List (Row P)) → All (λ s. p s ≡ true) rs → keep p rs ≡ rs
  keep-All p [] h = refl
  keep-All p (r ∷ rs) h = ground (arith, h.0, keep-All p rs h.1)

  pub keep-none :
      (p : Row P → Bool) (rs : List (Row P)) → All (λ s. p s ≡ false) rs → keep p rs ≡ []
  keep-none p [] h = refl
  keep-none p (r ∷ rs) h = ground (arith, h.0, keep-none p rs h.1)

  keep-keep :
      (p q : Row P → Bool) (rs : List (Row P))
      → keep (λ r. not (p r || q r)) rs ≡ keep (λ r. not (q r)) (keep (λ r. not (p r)) rs)
  keep-keep p q [] = refl
  keep-keep p q (r ∷ rs) = ground (arith, keep-keep p q rs)

  All-get_elem? :
      (Q : Row P → Type 0) (rs : List (Row P)) (i : ℕ) (x : Row P)
      → get_elem? rs i ≡ some x
      → All Q rs
      → Q x
  All-get_elem? Q [] i x e h = absurd (ground arith)
  All-get_elem? Q (r ∷ rs) zero x e h = subst Q (ground arith) h.0
  All-get_elem? Q (r ∷ rs) (suc i) x e h = All-get_elem? Q rs i x e h.1

  get_elem?-has_id :
      (rs : List (Row P)) (i : ℕ) (x : Row P) → get_elem? rs i ≡ some x → has_id x.id rs ≡ true
  get_elem?-has_id [] i x e = absurd (ground arith)
  get_elem?-has_id (r ∷ rs) zero x e =
      let same : r ≡ x = ground arith in ground (arith, ap (λ s. s.id) same)
  get_elem?-has_id (r ∷ rs) (suc i) x e = ground (arith, get_elem?-has_id rs i x e)

  get_elem?-drop : (i k : ℕ) (rs : List (Row P)) → get_elem? (drop i rs) k ≡ get_elem? rs (i + k)
  get_elem?-drop zero k rs = ap (get_elem? rs) (omega arith)
  get_elem?-drop (suc i) k [] = refl
  get_elem?-drop (suc i) k (r ∷ rs) =
      let next : suc (i + k) ≡ suc i + k = omega arith in
      get_elem?-drop i k rs ∙ ap (get_elem? (r ∷ rs)) next

  distinct-drop : (i : ℕ) (rs : List (Row P)) → distinct rs ≡ true → distinct (drop i rs) ≡ true
  distinct-drop zero rs d = d
  distinct-drop (suc i) [] d = refl
  distinct-drop (suc i) (r ∷ rs) d = distinct-drop i rs (ground arith)

  pub values_of-take : (n : ℕ) (rs : List (Row P)) → values_of (take n rs) ≡ take n (values_of rs)
  unfolding values_of
  values_of-take zero rs = refl
  values_of-take (suc n) [] = refl
  values_of-take (suc n) (r ∷ rs) = ap (◌∷◌ r.value) (values_of-take n rs)

  pub values_of-drop : (n : ℕ) (rs : List (Row P)) → values_of (drop n rs) ≡ drop n (values_of rs)
  unfolding values_of
  values_of-drop zero rs = refl
  values_of-drop (suc n) [] = refl
  values_of-drop (suc n) (r ∷ rs) = values_of-drop n rs

  pub length-values_of : (rs : List (Row P)) → length (values_of rs) ≡ length rs
  unfolding values_of
  length-values_of [] = refl
  length-values_of (r ∷ rs) = ap suc (length-values_of rs)

  pub get_elem?-short : (rs : List (Row P)) (i : ℕ) → get_elem? rs i ≡ none → length rs ≤ i
  get_elem?-short [] i e = omega arith
  get_elem?-short (r ∷ rs) zero e = absurd (ground arith)
  get_elem?-short (r ∷ rs) (suc i) e = omega (arith, get_elem?-short rs i e)

module _ {P : Type 0} (ahead : Row P → Row P → Bool)
    (asym : (x y : Row P) → ahead x y ≡ true → ahead y x ≡ false)
    (above : (x y z : Row P) → ahead x y ≡ false → ahead y z ≡ false → ahead x z ≡ false)
    (total : (x y : Row P) → eqb x.id y.id ≡ false → ahead x y ≡ false → ahead y x ≡ true) where
  abbrev InOrder : List (Row P) → Type 0
  InOrder rs = IsSorted ahead asym above rs

  drop-InOrder : (i : ℕ) (rs : List (Row P)) → InOrder rs → InOrder (drop i rs)
  drop-InOrder zero rs h = h
  drop-InOrder (suc i) [] h = tt
  drop-InOrder (suc i) (r ∷ rs) h = drop-InOrder i rs h.1

  irrefl : (r : Row P) → ahead r r ≡ false
  irrefl r = elim (Bool-cases (ahead r r)) [ inl h ↦ asym r r h | inr h ↦ h ]

  before-All :
      (r : Row P) (rs : List (Row P))
      → has_id r.id rs ≡ false
      → All (λ s. ahead s r ≡ false) rs
      → All (λ s. ahead r s ≡ true) rs
  before-All r [] h b = tt
  before-All r (s ∷ rs) h b = (total s r (ground arith) b.0, before-All r rs (ground arith) b.1)

  keep-from :
      (rs : List (Row P)) (i : ℕ) (x : Row P)
      → InOrder rs
      → distinct rs ≡ true
      → get_elem? rs i ≡ some x
      → keep (λ r. not (ahead r x)) rs ≡ drop i rs
  keep-from [] i x h d e = absurd (ground arith)
  keep-from (r ∷ rs) zero x h d e =
      subst (λ y. keep (λ s. not (ahead s y)) (r ∷ rs) ≡ r ∷ rs) (ground arith)
        (keep-All (λ s. not (ahead s r)) (r ∷ rs)
          (ap not (irrefl r), All-weaken rs (λ s k. ap not k) h.0))
  keep-from (r ∷ rs) (suc i) x h d e = ground (
    arith,
    total x r (ground (arith, different_id r rs x.id d (get_elem?-has_id rs i x e)))
        (All-get_elem? (λ s. ahead s r ≡ false) rs i x e h.0),
    keep-from rs i x h.1 (ground arith) e,
  )

  keep-to :
      (rs : List (Row P)) (i : ℕ) (y : Row P)
      → InOrder rs
      → distinct rs ≡ true
      → get_elem? rs i ≡ some y
      → keep (λ r. not (ahead y r)) rs ≡ take (suc i) rs
  keep-to [] i y h d e = absurd (ground arith)
  keep-to (r ∷ rs) zero y h d e =
      let same : r ≡ y = ground arith in
      subst (λ w. keep (λ s. not (ahead w s)) (r ∷ rs) ≡ r ∷ []) same
        (ground (
          arith,
          irrefl r,
          keep-none (λ s. not (ahead r s)) rs
              (All-weaken rs (λ s k. ap not k) (before-All r rs (ground arith) h.0)),
        ))
  keep-to (r ∷ rs) (suc i) y h d e = ground (
    arith,
    All-get_elem? (λ s. ahead s r ≡ false) rs i y e h.0,
    keep-to rs i y h.1 (ground arith) e,
  )

  -- The rows from one to another, both included.
  pub keep-window :
      (rs : List (Row P)) (i j : ℕ) (x y : Row P)
      → InOrder rs
      → distinct rs ≡ true
      → i ≤ j
      → get_elem? rs i ≡ some x
      → get_elem? rs j ≡ some y
      → keep (λ r. not (ahead r x || ahead y r)) rs ≡ take (suc j - i) (drop i rs)
  keep-window rs i j x y h d le e f =
      let last : get_elem? (drop i rs) (j - i) ≡ some y =
        get_elem?-drop i (j - i) rs ∙ (ap (get_elem? rs) (omega arith) ∙ f) in
      let size : suc (j - i) ≡ suc j - i = omega arith in
      keep-keep (λ r. ahead r x) (λ r. ahead y r) rs
      ∙ (ap (keep (λ r. not (ahead y r))) (keep-from rs i x h d e)
          ∙ (keep-to (drop i rs) (j - i) y (drop-InOrder i rs h) (distinct-drop i rs d) last
              ∙ ap (λ n. take n (drop i rs)) size))
