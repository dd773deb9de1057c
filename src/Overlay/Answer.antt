-- ===== src/Overlay/Answer.antt =====
-- What the answer of `get_changes_since` (configuration_service/device_registry_store.py) is worth to
-- the queue server, and the plan that it makes of it.
use mathlib.Core.Path.{subst}
use ophyd_service.Prelude.{
  ℕ, String, ◌≡◌, refl, ◌∙◌, Bool, true, false, ◌&&◌, ◌||◌, not, none, some, List, [], ◌∷◌, arith,
  ◌==◌, if◌then◌else◌, ltb, leb, leb→le, member, is_some, All, Bool-cases, Option-cases, ◌⊎◌, inl,
  inr,
}
use ophyd_service.Dict
use ophyd_service.Dict.{Dict, NodupKeys}
use ophyd_service.Registry.{DeviceInstantiationSpec}
use ophyd_service.RegistryStore.{DeviceRow, DeviceAuditEntry, DeviceRegistryStore}
use ophyd_service.RegistryStore.Feed.{
  ChangesSince, get_changes_since, max_id, in_feed, latest_id, reset_since,
}
use ophyd_service.RegistryStore.Latest.{
  Bounded, Bounded-le, Bounded-max_id, touched, touched-changes_in,
}
use ophyd_service.RegistryStore.Events.{Follows}
use ophyd_service.Overlay.{
  StalenessPlan, ConfigServiceState, sort_changes, build_staleness_plan, fetch_staleness_plan,
}
use ophyd_service.Overlay.Specs.{has_row_spec, changes_in-has_spec}
use ophyd_service.Overlay.Plan.{
  wanted, AreCurrent, changes_in-AreCurrent, sort_changes-Sorted, has_spec,
}

quiet-reset_since :
    (since : ℕ) (log : List DeviceAuditEntry) → Bounded since log → reset_since since log ≡ false
unfolding reset_since
quiet-reset_since since [] b = refl
quiet-reset_since since (e ∷ log) b = ground (arith, quiet-reset_since since log b.1)

quiet-latest_id :
    (since : ℕ) (k : String) (log : List DeviceAuditEntry)
    → Bounded since log
    → latest_id since k log ≡ 0
unfolding latest_id in_feed
quiet-latest_id since k [] b = refl
quiet-latest_id since k (e ∷ log) b = ground (arith, quiet-latest_id since k log b.1)

-- With no reset, what the answer does not name has not changed.
pub changes-or-kept :
    (since : ℕ) (base : Dict DeviceRow) (s : DeviceRegistryStore) (k : String)
    → Follows since base s
    → k == "*" ≡ false
    → (get_changes_since since s).reset_occurred ≡ false
    → (touched k (get_changes_since since s).changes ≡ true)
      ⊎ (Dict.get s.device_registry k ≡ Dict.get base k)
unfolding get_changes_since
changes-or-kept since base s k f star calm =
    let log = s.device_audit_log in
    elim (Bool-cases (leb (max_id log) since)) [
      | inl old ↦
          let b = Bounded-le (max_id log) since log (leb→le _ _ old) (Bounded-max_id log) in
          inr (f.kept k star (quiet-reset_since since log b) (quiet-latest_id since k log b))
      | inr new ↦ elim (Bool-cases (ltb 0 (latest_id since k log))) [
        | inl named ↦
            inl (ground (arith, touched-changes_in s.device_registry since k log log refl))
        | inr silent ↦ inr (f.kept k star (ground arith) (ground arith))
      ]
    ]

pub changes-AreCurrent :
    (since : ℕ) (base : Dict DeviceRow) (s : DeviceRegistryStore)
    → Follows since base s
    → AreCurrent s.device_registry (get_changes_since since s).changes
unfolding get_changes_since
changes-AreCurrent since base s f =
    let log = s.device_audit_log in
    elim (Bool-cases (leb (max_id log) since)) [
      | inl old ↦ rw old tt
      | inr new ↦ rw new (changes_in-AreCurrent s.device_registry since log log f.settled)
    ]

pub changes-has_spec :
    (since : ℕ) (s : DeviceRegistryStore)
    → ((k : String) → has_row_spec (Dict.get s.device_registry k) ≡ true)
    → All (λ change. has_spec change.op ≡ true) (get_changes_since since s).changes
unfolding get_changes_since
changes-has_spec since s h =
    let log = s.device_audit_log in
    elim (Bool-cases (leb (max_id log) since)) [
      | inl old ↦ rw old tt
      | inr new ↦ rw new (changes_in-has_spec s.device_registry since log log h)
    ]

-- A plan that leads to the registry's devices.
pub data Leads (rows : Dict DeviceRow) (t : String → Bool) (settled : Bool)
    : StalenessPlan → Type 0 where
  whole :
      (upserts : Dict DeviceInstantiationSpec) (state : ConfigServiceState)
      → NodupKeys upserts
      → ((k : String) → Dict.get upserts k ≡ wanted rows k)
      → Leads rows t settled
          (record { replace_overlay = true; upserts = upserts; deletes = []; new_state = state })
  part :
      (upserts : Dict DeviceInstantiationSpec) (deletes : List String) (state : ConfigServiceState)
      → settled ≡ true
      → NodupKeys upserts
      → ((k : String)
          → Dict.get upserts k ≡ (if t k && is_some (wanted rows k) then wanted rows k else none))
      → ((k : String) → member k deletes ≡ t k && not (is_some (wanted rows k)))
      → Leads rows t settled (record {
        replace_overlay = false;
        upserts = upserts;
        deletes = deletes;
        new_state = state;
      })

pub fetch_staleness_plan-Leads :
    (rows : Dict DeviceRow) (response : ChangesSince) (specs : Dict DeviceInstantiationSpec)
    (state : ConfigServiceState) (plan : StalenessPlan)
    → AreCurrent rows response.changes
    → NodupKeys specs
    → ((k : String) → Dict.get specs k ≡ wanted rows k)
    → fetch_staleness_plan (some response) (some specs) state ≡ some plan
    → Leads rows (λ k. touched k response.changes) (not response.reset_occurred) plan
unfolding fetch_staleness_plan build_staleness_plan
fetch_staleness_plan-Leads rows response specs state plan current n full e =
    let state' : ConfigServiceState = record {
      cursor = response.current_version;
      epoch = response.service_epoch;
    } in
    let leads = Leads rows (λ k. touched k response.changes) (not response.reset_occurred) in
    elim (Bool-cases (response.reset_occurred || not (response.service_epoch == state.epoch))) [
      | inl replace ↦
          subst leads
            {x = record {
              replace_overlay = true;
              upserts = specs;
              deletes = [];
              new_state = state';
            }}
            (ground arith) (whole specs state' n full)
      | inr same ↦ elim (Option-cases (sort_changes response.changes ([], []))) [
        | inl bad ↦ absurd (ground arith)
        | inr (found, ok) ↦
            let sorted = sort_changes-Sorted rows response.changes ([], []) found current tt ok in
            subst leads
              {x = record {
                replace_overlay = false;
                upserts = found.0;
                deletes = found.1;
                new_state = state';
              }}
              (ground arith)
              (part found.0 found.1 state' (ground arith) sorted.nodup
                (λ k. sorted.upserts k ∙ (unfold Dict.get in refl))
                (λ k. ground (arith, sorted.deletes k)))
      ]
    ]
