-- ===== src/Overlay/Total.antt =====
-- When the check before a plan goes through: `check_staleness_before_plan` of
-- queueserver_service/manager/config_service_coordinator.py.
use ophyd_service.Prelude.{
  String, ◌≡◌, refl, Bool, true, Option, some, List, [], ◌∷◌, arith, is_some, All, Bool-cases,
  Option-cases, inl, inr,
}
use ophyd_service.Dict
use ophyd_service.Dict.{Dict, NodupKeys}
use ophyd_service.Registry.{DeviceInstantiationSpec}
use ophyd_service.RegistryStore.{DeviceRegistryStore}
use ophyd_service.RegistryStore.Feed.{ChangesSince, DeviceChange, get_changes_since}
use ophyd_service.Overlay.{
  Client, ReWorker, StalenessPlan, ConfigServiceState, stage, commit, refresh_lists,
  command_update_device_overlay_handler, run_staleness_plan, accept_overlay, build_staleness_plan,
  fetch_staleness_plan, check_staleness_before_plan,
}
use ophyd_service.Overlay.Specs.{has_row_spec, sort_changes-total}
use ophyd_service.Overlay.Plan.{has_spec}
use ophyd_service.Overlay.Answer.{changes-has_spec}

build_staleness_plan-total :
    (response : ChangesSince) (epoch : String)
    → All (λ (change : DeviceChange). has_spec change.op ≡ true) response.changes
    → is_some (build_staleness_plan response epoch) ≡ true
unfolding build_staleness_plan
build_staleness_plan-total response epoch h =
    let (found, ok) = sort_changes-total response.changes ([], []) h in ground arith

fetch_staleness_plan-total :
    (response : ChangesSince) (specs : Dict DeviceInstantiationSpec) (state : ConfigServiceState)
    → All (λ (change : DeviceChange). has_spec change.op ≡ true) response.changes
    → (plan : StalenessPlan) × (fetch_staleness_plan (some response) (some specs) state ≡ some plan)
unfolding fetch_staleness_plan
fetch_staleness_plan-total response specs state h =
    elim (Option-cases (build_staleness_plan response state.epoch)) [
      | inl bad ↦ absurd (ground (arith, build_staleness_plan-total response state.epoch h))
      | inr (plan, ok) ↦ elim (Bool-cases plan.replace_overlay) [
        | inl whole ↦ (record plan { upserts = specs }, ground arith)
        | inr part ↦ (plan, ground arith)
      ]
    ]

module _ {D : Type 0} (instantiate : DeviceInstantiationSpec → Option D)
    (refresh : ReWorker D → Option Bool)
    (builds : (spec : DeviceInstantiationSpec) → is_some (instantiate spec) ≡ true)
    (lists : (w : ReWorker D) → is_some (refresh w) ≡ true) where
  stage-total :
      (upserts : Dict DeviceInstantiationSpec) → is_some (stage instantiate upserts) ≡ true
  unfolding stage
  stage-total [] = refl
  stage-total ((name, spec) ∷ upserts) = ground (arith, builds spec, stage-total upserts)

  refresh_lists-total : (w : ReWorker D) → (refresh_lists refresh w).1 ≡ true
  unfolding refresh_lists
  refresh_lists-total w = ground (arith, lists w)

  command-total :
      (upserts : Dict DeviceInstantiationSpec) (deletes : List String) (replace : Bool)
      (w : ReWorker D) (namespace : Dict D)
      → w.re_idle ≡ true
      → w.re_namespace ≡ some namespace
      → (command_update_device_overlay_handler instantiate refresh upserts deletes replace w).1
        ≡ true
  unfolding command_update_device_overlay_handler
  command-total upserts deletes replace w namespace idle space =
      elim (Option-cases (stage instantiate upserts)) [
        | inl bad ↦ absurd (ground (arith, stage-total upserts))
        | inr (staged, ok) ↦
            ground (arith, refresh_lists-total (commit upserts deletes replace staged namespace w))
      ]

  -- If every device of the registry has a specification, all of them can be instantiated, the lists
  -- can be refreshed and reloaded, and the worker is idle with its namespace loaded, then the check
  -- before a plan raises no error, whatever the cursor, the epoch and the changes are.
  pub check-total :
      (s : DeviceRegistryStore) (specs : Dict DeviceInstantiationSpec) (c : Client D)
      (namespace : Dict D)
      → ((k : String) → has_row_spec (Dict.get s.device_registry k) ≡ true)
      → c.worker.re_idle ≡ true
      → c.worker.re_namespace ≡ some namespace
      → (check_staleness_before_plan instantiate refresh true
          (some (get_changes_since c.state.cursor s))
          (some specs)
          true
          c).1
        ≡ true
  unfolding check_staleness_before_plan run_staleness_plan accept_overlay
  check-total s specs c namespace rows idle space =
      let (plan, fetched) =
        fetch_staleness_plan-total (get_changes_since c.state.cursor s) specs c.state
          (changes-has_spec c.state.cursor s rows) in
      ground (
        arith,
        fetched,
        command-total plan.upserts plan.deletes plan.replace_overlay c.worker namespace,
      )
