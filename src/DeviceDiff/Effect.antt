-- ===== src/DeviceDiff/Effect.antt =====
-- The names that the list operations of `compute_diff` and `apply_diff`
-- (queueserver_service/manager/config_service.py) keep.
use ophyd_service.Prelude.{
  String, ◌≡◌, refl, Bool, ◌&&◌, ◌||◌, List, [], ◌∷◌, ◌++◌, ◌==◌, member, arith, eq_iff, Bool-cases,
  inl, inr,
}
use ophyd_service.Dict
use ophyd_service.Dict.{Dict, get-insert, get-remove}
use ophyd_service.DeviceDiff.{names_where}

pub member-names_where :
    (p : String → Bool) (k : String) (names : List String)
    → member k (names_where p names) ≡ member k names && p k
unfolding names_where
member-names_where p k [] = refl
member-names_where p k (name ∷ names) = elim (Bool-cases (name == k)) [
  | inl same ↦
      let e : name ≡ k = (eq_iff name k).0 same in
      rw e (ground (arith, eq_iff k k, member-names_where p k names))
  | inr other ↦ ground (arith, member-names_where p k names)
]

pub member-append :
    (k : String) (xs ys : List String) → member k (xs ++ ys) ≡ member k xs || member k ys
member-append k [] ys = refl
member-append k (x ∷ xs) ys = ground (arith, member-append k xs ys)

pub member-keys {ℓ} :
    {V : Type ℓ} (k : String) (d : Dict V) → member k (Dict.keys d) ≡ Dict.contains d k
unfolding Dict.keys Dict.get
member-keys k [] = refl
member-keys k ((j, v) ∷ d) = ground (arith, member-keys k d)
