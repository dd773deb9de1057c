-- ===== src/Overlay/Specs.antt =====
-- `build_staleness_plan` of queueserver_service/manager/config_service.py fails only on a device without
-- a specification.
use ophyd_service.Prelude.{
  ℕ, String, ◌≡◌, refl, Bool, true, Option, none, some, List, [], ◌∷◌, ◌++◌, arith, is_some, All,
  Bool-cases, inl, inr,
}
use ophyd_service.Dict
use ophyd_service.Dict.{Dict, NodupKeys, get-insert, insert-NodupKeys}
use ophyd_service.Registry.{DeviceInstantiationSpec}
use ophyd_service.RegistryStore.{DeviceRow, DeviceAuditEntry}
use ophyd_service.RegistryStore.Feed.{
  DeviceChange, ChangeOp, deleted, upserted, change_op, change_of, changes_in, is_latest,
}
use ophyd_service.Overlay.{sort_change, sort_changes}
use ophyd_service.Overlay.Plan.{has_spec}

sort_change-total :
    (name : String) (op : ChangeOp) (found : Dict DeviceInstantiationSpec × List String)
    → has_spec op ≡ true
    → (more : Dict DeviceInstantiationSpec × List String) × (sort_change name op found ≡ some more)
unfolding sort_change
sort_change-total name deleted (upserts, deletes) h = ((upserts, deletes ++ name ∷ []), refl)
sort_change-total name (upserted m none) (upserts, deletes) h = absurd (ground arith)
sort_change-total name (upserted m (some spec)) (upserts, deletes) h =
    elim (Bool-cases spec.active) [
      | inl on ↦ ((Dict.insert upserts name spec, deletes), ground arith)
      | inr off ↦ ((upserts, deletes ++ name ∷ []), ground arith)
    ]

-- The loop fails only on a device without a specification.
pub sort_changes-total :
    (changes : List DeviceChange) (found : Dict DeviceInstantiationSpec × List String)
    → All (λ change. has_spec change.op ≡ true) changes
    → (found' : Dict DeviceInstantiationSpec × List String) × (sort_changes changes found
        ≡ some found')
unfolding sort_changes
sort_changes-total [] found h = (found, refl)
sort_changes-total (change ∷ changes) found h =
    let (more, ok) = sort_change-total change.device_name change.op found h.0 in
    let (found', e) = sort_changes-total changes more h.1 in (found', ground (arith, ok, e))

has_spec-append :
    (xs ys : List DeviceChange)
    → All (λ change. has_spec change.op ≡ true) xs
    → All (λ change. has_spec change.op ≡ true) ys
    → All (λ change. has_spec change.op ≡ true) (xs ++ ys)
has_spec-append [] ys p q = q
has_spec-append (x ∷ xs) ys p q = (p.0, has_spec-append xs ys p.1 q)

-- Every row that there is has a specification.
abbrev pub has_row_spec : Option DeviceRow → Bool
has_row_spec none = true
has_row_spec (some row) = is_some row.instantiation_spec

change_of-has_spec :
    (rows : Dict DeviceRow) (entry : DeviceAuditEntry)
    → has_row_spec (Dict.get rows entry.device_name) ≡ true
    → has_spec (change_of rows entry).op ≡ true
unfolding change_of change_op
change_of-has_spec rows entry h = ground arith

pub changes_in-has_spec :
    (rows : Dict DeviceRow) (since : ℕ) (all log : List DeviceAuditEntry)
    → ((k : String) → has_row_spec (Dict.get rows k) ≡ true)
    → All (λ change. has_spec change.op ≡ true) (changes_in rows since all log)
unfolding changes_in
changes_in-has_spec rows since all [] h = tt
changes_in-has_spec rows since all (entry ∷ log) h = elim (Bool-cases (is_latest since all entry)) [
  | inr old ↦ rw old (changes_in-has_spec rows since all log h)
  | inl latest ↦ rw latest (
      has_spec-append (changes_in rows since all log) (change_of rows entry ∷ [])
        (changes_in-has_spec rows since all log h)
        (change_of-has_spec rows entry (h entry.device_name), tt))
]
