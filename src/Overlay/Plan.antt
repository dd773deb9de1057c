-- ===== src/Overlay/Plan.antt =====
-- What `build_staleness_plan` of queueserver_service/manager/config_service.py makes of the changes.
use ophyd_service.Prelude.{
  ℕ, String, ◌≡◌, refl, Bool, true, false, ◌&&◌, ◌||◌, not, Option, none, some, List, [], ◌∷◌, ◌++◌,
  arith, ◌==◌, eq_iff, if◌then◌else◌, member, is_some, All, Bool-cases, Option-cases, inl, inr,
}
use ophyd_service.Dict
use ophyd_service.Dict.{Dict, NodupKeys, get-insert, insert-NodupKeys}
use ophyd_service.Registry.{DeviceInstantiationSpec}
use ophyd_service.RegistryStore.{DeviceRow, DeviceAuditEntry}
use ophyd_service.RegistryStore.Feed.{
  DeviceChange, ChangeOp, deleted, upserted, change_op, change_of, changes_in, is_latest,
}
use ophyd_service.RegistryStore.Latest.{touched, Settled}
use ophyd_service.Overlay.{sort_change, sort_changes}

-- The specification of a device that is to be in the overlay.
abbrev pub active_spec : Option DeviceInstantiationSpec → Option DeviceInstantiationSpec
active_spec none = none
active_spec (some spec) = if spec.active then some spec else none

abbrev pub row_spec : Option DeviceRow → Option DeviceInstantiationSpec
row_spec none = none
row_spec (some row) = active_spec row.instantiation_spec

unfoldable pub wanted : Dict DeviceRow → String → Option DeviceInstantiationSpec
wanted rows k = row_spec (Dict.get rows k)

abbrev pub op_spec : ChangeOp → Option DeviceInstantiationSpec
op_spec deleted = none
op_spec (upserted metadata spec) = active_spec spec

abbrev pub has_spec : ChangeOp → Bool
has_spec deleted = true
has_spec (upserted metadata spec) = is_some spec

-- Every change says what the registry has now.
abbrev pub AreCurrent : Dict DeviceRow → List DeviceChange → Type 0
AreCurrent rows changes = All (λ change. op_spec change.op ≡ wanted rows change.device_name) changes

pub AreCurrent-append :
    (rows : Dict DeviceRow) (xs ys : List DeviceChange)
    → AreCurrent rows xs
    → AreCurrent rows ys
    → AreCurrent rows (xs ++ ys)
AreCurrent-append rows [] ys p q = q
AreCurrent-append rows (x ∷ xs) ys p q = (p.0, AreCurrent-append rows xs ys p.1 q)

change_of-current :
    (rows : Dict DeviceRow) (entry : DeviceAuditEntry)
    → entry.operation == "delete" && is_some (Dict.get rows entry.device_name) ≡ false
    → op_spec (change_of rows entry).op ≡ wanted rows entry.device_name
unfolding change_of change_op wanted
change_of-current rows entry settled = ground arith

pub changes_in-AreCurrent :
    (rows : Dict DeviceRow) (since : ℕ) (all log : List DeviceAuditEntry)
    → Settled rows since all log
    → AreCurrent rows (changes_in rows since all log)
unfolding changes_in
changes_in-AreCurrent rows since all [] settled = tt
changes_in-AreCurrent rows since all (entry ∷ log) settled =
    elim (Bool-cases (is_latest since all entry)) [
      | inr old ↦ rw old (changes_in-AreCurrent rows since all log settled.1)
      | inl latest ↦ rw latest (
          AreCurrent-append rows (changes_in rows since all log) (change_of rows entry ∷ [])
            (changes_in-AreCurrent rows since all log settled.1)
            (unfold change_of in change_of-current rows entry (ground arith), tt))
    ]

-- The upserts and the deletions that the changes end up in.
pub record Sorted (rows : Dict DeviceRow) (changes : List DeviceChange)
    (found found' : Dict DeviceInstantiationSpec × List String) : Type 0 where
  pub nodup : NodupKeys found'.0
  pub upserts :
      (k : String)
      → Dict.get found'.0 k ≡ (
          if touched k changes && is_some (wanted rows k)
          then wanted rows k
          else Dict.get found.0 k)
  pub deletes :
      (k : String)
      → member k found'.1 ≡ (touched k changes && not (is_some (wanted rows k))) || member k found.1

pub member-append :
    (k : String) (xs ys : List String) → member k (xs ++ ys) ≡ member k xs || member k ys
member-append k [] ys = refl
member-append k (x ∷ xs) ys = ground (arith, member-append k xs ys)

-- One change that says what the registry has: the upserts and the deletions after it.
sort_change-nodup :
    (name : String) (op : ChangeOp) (upserts : Dict DeviceInstantiationSpec) (deletes : List String)
    (found' : Dict DeviceInstantiationSpec × List String)
    → sort_change name op (upserts, deletes) ≡ some found'
    → NodupKeys upserts
    → NodupKeys found'.0
unfolding sort_change
sort_change-nodup name deleted upserts deletes found' e n = ground arith
sort_change-nodup name (upserted m none) upserts deletes found' e n = absurd (ground arith)
sort_change-nodup name (upserted m (some spec)) upserts deletes found' e n =
    ground (arith, insert-NodupKeys upserts name spec n)

sort_change-upserts :
    (rows : Dict DeviceRow) (name : String) (op : ChangeOp) (upserts : Dict DeviceInstantiationSpec)
    (deletes : List String) (found' : Dict DeviceInstantiationSpec × List String)
    → op_spec op ≡ wanted rows name
    → sort_change name op (upserts, deletes) ≡ some found'
    → (k : String)
    → Dict.get found'.0 k
      ≡ (if name == k && is_some (wanted rows k) then wanted rows k else Dict.get upserts k)
unfolding sort_change
sort_change-upserts rows name deleted upserts deletes found' current e k =
    ground (arith, eq_iff name k)
sort_change-upserts rows name (upserted m none) upserts deletes found' current e k =
    absurd (ground arith)
sort_change-upserts rows name (upserted m (some spec)) upserts deletes found' current e k =
    ground (arith, eq_iff name k, get-insert upserts name spec k)

sort_change-deletes :
    (rows : Dict DeviceRow) (name : String) (op : ChangeOp) (upserts : Dict DeviceInstantiationSpec)
    (deletes : List String) (found' : Dict DeviceInstantiationSpec × List String)
    → op_spec op ≡ wanted rows name
    → sort_change name op (upserts, deletes) ≡ some found'
    → (k : String)
    → member k found'.1 ≡ (name == k && not (is_some (wanted rows k))) || member k deletes
unfolding sort_change
sort_change-deletes rows name deleted upserts deletes found' current e k =
    ground (arith, eq_iff name k, member-append k deletes (name ∷ []))
sort_change-deletes rows name (upserted m none) upserts deletes found' current e k =
    absurd (ground arith)
sort_change-deletes rows name (upserted m (some spec)) upserts deletes found' current e k =
    ground (arith, eq_iff name k, member-append k deletes (name ∷ []))

pub sort_changes-Sorted :
    (rows : Dict DeviceRow) (changes : List DeviceChange)
    (found found' : Dict DeviceInstantiationSpec × List String)
    → AreCurrent rows changes
    → NodupKeys found.0
    → sort_changes changes found ≡ some found'
    → Sorted rows changes found found'
unfolding sort_changes
sort_changes-Sorted rows [] found found' current n e = record {
  nodup = ground arith;
  upserts = λ k. ground arith;
  deletes = λ k. ground arith;
}
sort_changes-Sorted rows (change ∷ changes) found found' current n e =
    elim (Option-cases (sort_change change.device_name change.op found)) [
      | inl bad ↦ absurd (ground arith)
      | inr (more, ok) ↦
          let later =
            sort_changes-Sorted rows changes more found' current.1
              (sort_change-nodup change.device_name change.op found.0 found.1 more ok n)
              (ground arith) in
          record {
            nodup = later.nodup;
            upserts = λ k. ground (
              arith,
              later.upserts k,
              sort_change-upserts rows change.device_name change.op found.0 found.1 more current.0
                  ok k,
            );
            deletes = λ k. ground (
              arith,
              later.deletes k,
              sort_change-deletes rows change.device_name change.op found.0 found.1 more current.0
                  ok k,
            );
          }
    ]
