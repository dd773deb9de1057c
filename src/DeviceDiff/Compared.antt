-- ===== src/DeviceDiff/Compared.antt =====
-- Which names `compute_diff` (queueserver_service/manager/config_service.py) finds added, removed and
-- modified.
use ophyd_service.Prelude.{
  String, ◌≡◌, refl, ap, ◌∙◌, Bool, false, ◌&&◌, not, Option, none, some, List, [], ◌∷◌, ◌==◌,
  member, arith, eq_iff, Bool-cases, inl, inr,
}
use ophyd_service.Dict
use ophyd_service.Dict.{Dict, get-insert, get-remove}
use ophyd_service.Queue.Json.{Item, Value}
use ophyd_service.Locks.Acquire.Exclusion.{member-sorted_set}
use ophyd_service.DeviceDiff.{
  DevicePayload, is_disabled, payload_spec, modified_of, modified_among, compute_diff,
  modified_names,
}
use ophyd_service.DeviceDiff.Effect.{member-names_where, member-keys}

abbrev pub differs : (Item → Item → Bool) → Option Item → Option Item → Bool
differs same none before = false
differs same (some after) none = false
differs same (some after) (some before) = not (same before after)

abbrev pub is_active : Dict Item → String → Bool
is_active specs k = Dict.contains specs k && not (is_disabled specs k)

module _ (same : Item → Item → Bool) (equal : Value → Value → Bool) where
  member-modified_among :
      (data' : Dict DevicePayload) (specs : Dict Item) (names : List String) (k : String)
      → member k (modified_names (modified_among same equal data' specs names))
        ≡ member k names && differs same (payload_spec data' k) (Dict.get specs k)
  unfolding modified_among modified_of modified_names
  member-modified_among data' specs [] k = refl
  member-modified_among data' specs (name ∷ names) k = elim (Bool-cases (name == k)) [
    | inl equal ↦
        let e : name ≡ k = (eq_iff name k).0 equal in
        rw e (ground (arith, eq_iff k k, member-modified_among data' specs names k))
    | inr other ↦ ground (arith, member-modified_among data' specs names k)
  ]

  pub added-member :
      (data' : Dict DevicePayload) (specs : Dict Item) (k : String)
      → member k (compute_diff same equal data' specs).added
        ≡ Dict.contains data' k && not (Dict.contains specs k)
  unfolding compute_diff
  added-member data' specs k =
      member-sorted_set _ k
      ∙ (member-names_where _ k (Dict.keys data') ∙ rw (member-keys k data') refl)

  pub removed-member :
      (data' : Dict DevicePayload) (specs : Dict Item) (k : String)
      → member k (compute_diff same equal data' specs).removed
        ≡ Dict.contains specs k && (is_active specs k && not (Dict.contains data' k))
  unfolding compute_diff
  removed-member data' specs k =
      member-sorted_set _ k
      ∙ (member-names_where _ k (Dict.keys specs) ∙ rw (member-keys k specs) refl)

  pub modified-member :
      (data' : Dict DevicePayload) (specs : Dict Item) (k : String)
      → member k (modified_names (compute_diff same equal data' specs).modified)
        ≡ (Dict.contains data' k && is_active specs k)
          && differs same (payload_spec data' k) (Dict.get specs k)
  unfolding compute_diff
  modified-member data' specs k =
      member-modified_among data' specs _ k
      ∙ ap (λ b. b && differs same (payload_spec data' k) (Dict.get specs k))
          (member-sorted_set _ k
            ∙ (member-names_where _ k (Dict.keys data') ∙ rw (member-keys k data') refl))
