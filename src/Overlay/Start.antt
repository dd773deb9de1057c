-- ===== src/Overlay/Start.antt =====
-- The start of an environment: `prefetch_registry` and `sync_on_env_open` of
-- queueserver_service/manager/config_service_coordinator.py, with the worker's start between them.
use ophyd_service.Prelude.{
  String, ◌≡◌, ◌∙◌, Bool, true, false, Option, none, some, List, [], arith, eq_iff, member,
  Option-cases, inl, inr,
}
use ophyd_service.Dict
use ophyd_service.Dict.{Dict, NodupKeys}
use ophyd_service.Registry.{DeviceInstantiationSpec}
use ophyd_service.RegistryStore.{DeviceRegistryStore}
use ophyd_service.RegistryStore.Feed.{get_changes_since, max_id, epoch_of}
use ophyd_service.RegistryStore.Latest.{Bounded}
use ophyd_service.RegistryStore.Events.{Event, run, current-Follows}
use ophyd_service.Overlay.{
  Client, ReWorker, ConfigServiceState, stage, is_noop, run_staleness_plan, start_worker,
  captured_state, is_empty, build_staleness_plan, fetch_staleness_plan, check_staleness_before_plan,
  sort_changes,
}
use ophyd_service.Overlay.Plan.{wanted}
use ophyd_service.Overlay.Worker.{
  Overlaid, device_in, member-keys, get-assign_all, stage-get, stage-contains, stage-NodupKeys,
}
use ophyd_service.Overlay.Current.{AreActive, Tracks}

captured-cursor :
    (s : DeviceRegistryStore)
    → (captured_state (get_changes_since 0 s)).cursor ≡ max_id s.device_audit_log
unfolding get_changes_since captured_state
captured-cursor s = ground arith

captured-epoch :
    (s : DeviceRegistryStore)
    → (captured_state (get_changes_since 0 s)).epoch
      ≡ epoch_of (Dict.get s.registry_metadata "seeded")
unfolding get_changes_since captured_state
captured-epoch s = ground arith

-- There is nothing to do for a client that has the current version.
current-plan :
    (s : DeviceRegistryStore) (specs : Option (Dict DeviceInstantiationSpec))
    (state : ConfigServiceState)
    → state.cursor ≡ max_id s.device_audit_log
    → state.epoch ≡ epoch_of (Dict.get s.registry_metadata "seeded")
    → fetch_staleness_plan (some (get_changes_since state.cursor s)) specs state
      ≡ some (record { replace_overlay = false; upserts = []; deletes = []; new_state = state })
unfolding fetch_staleness_plan build_staleness_plan get_changes_since sort_changes
current-plan s specs state cursor epoch =
    ground (arith, eq_iff (epoch_of (Dict.get s.registry_metadata "seeded")) state.epoch)

module _ {D : Type 0} (instantiate : DeviceInstantiationSpec → Option D)
    (refresh : ReWorker D → Option Bool) where
  check-current :
      (s : DeviceRegistryStore) (specs : Option (Dict DeviceInstantiationSpec)) (reload : Bool)
      (c : Client D)
      → c.state ≡ captured_state (get_changes_since 0 s)
      → check_staleness_before_plan instantiate refresh true
          (some (get_changes_since c.state.cursor s))
          specs
          reload
          c
        ≡ (c, true)
  unfolding check_staleness_before_plan run_staleness_plan is_noop is_empty
  check-current s specs reload c e =
      let cursor : c.state.cursor ≡ max_id s.device_audit_log = rw e (captured-cursor s) in
      let epoch : c.state.epoch ≡ epoch_of (Dict.get s.registry_metadata "seeded") =
        rw e (captured-epoch s) in
      ground (arith, current-plan s specs c.state cursor epoch)

  started-names :
      (specs : Dict DeviceInstantiationSpec) (profile : Dict D) (w : ReWorker D) (k : String)
      → start_worker instantiate specs profile ≡ some w
      → member k w.overlay_names ≡ Dict.contains specs k
  unfolding start_worker
  started-names specs profile w k e = elim (Option-cases (stage instantiate specs)) [
    | inl bad ↦ absurd (ground arith)
    | inr (staged, ok) ↦ ground (arith, member-keys k specs)
  ]

  start-Overlaid :
      (specs : Dict DeviceInstantiationSpec) (profile : Dict D) (w : ReWorker D) (k : String)
      (want : Option DeviceInstantiationSpec)
      → NodupKeys specs
      → Dict.get specs k ≡ want
      → start_worker instantiate specs profile ≡ some w
      → Overlaid profile instantiate w k want
  unfolding start_worker
  start-Overlaid specs profile w k none n e start = elim (Option-cases (stage instantiate specs)) [
    | inl bad ↦ absurd (ground arith)
    | inr (staged, ok) ↦ (
      ground (arith, started-names specs profile w k start),
      inr (
          ground (
            arith,
            get-assign_all staged profile k (stage-NodupKeys instantiate specs staged ok n),
            stage-contains instantiate specs staged k ok,
          )),
    )
  ]
  start-Overlaid specs profile w k (some spec) n e start =
      elim (Option-cases (stage instantiate specs)) [
        | inl bad ↦ absurd (ground arith)
        | inr (staged, ok) ↦ (
          ground (arith, started-names specs profile w k start),
          ground (
            arith,
            get-assign_all staged profile k (stage-NodupKeys instantiate specs staged ok n),
            stage-get instantiate specs staged k ok,
            stage-contains instantiate specs staged k ok,
          ),
        )
      ]

  -- If the registry does not change while the worker starts, then the worker has the devices of the
  -- registry, and the cursor stands where the checks before the plans need it.
  pub start-Tracks :
      (s : DeviceRegistryStore) (specs : Dict DeviceInstantiationSpec) (profile : Dict D)
      (c : Client D)
      → Bounded s.last_id s.device_audit_log
      → AreActive s.device_registry specs
      → start_worker instantiate specs profile ≡ some c.worker
      → c.state ≡ captured_state (get_changes_since 0 s)
      → Tracks profile instantiate c s.device_registry s
  start-Tracks s specs profile c bounded active start captured =
      let newest : c.state.cursor ≡ max_id s.device_audit_log = rw captured (captured-cursor s) in
      record {
        follows = rw newest (current-Follows s bounded);
        overlaid = λ k star.
            start-Overlaid specs profile c.worker k (wanted s.device_registry k) active.nodup
              (active.active k) start;
      }

  -- A change of the registry while the worker starts is lost. Let the specifications be fetched from
  -- the tables `s`, the worker start with them, and the cursor be captured after some events. If a
  -- device was active in `s`, and the events deleted or disabled it, then the check before a plan,
  -- with no further events, changes nothing, and the worker still has the device, in its overlay and in
  -- its namespace.
  pub start_misses_changes :
      (s : DeviceRegistryStore) (events : List Event) (specs : Dict DeviceInstantiationSpec)
      (profile : Dict D) (c : Client D) (answer : Option (Dict DeviceInstantiationSpec))
      (reload : Bool) (k : String) (spec : DeviceInstantiationSpec)
      → AreActive s.device_registry specs
      → start_worker instantiate specs profile ≡ some c.worker
      → c.state ≡ captured_state (get_changes_since 0 (run events s))
      → wanted s.device_registry k ≡ some spec
      → wanted (run events s).device_registry k ≡ none
      → (check_staleness_before_plan instantiate refresh true
            (some (get_changes_since c.state.cursor (run events s)))
            answer
            reload
            c
          ≡ (c, true))
        × (member k c.worker.overlay_names ≡ true)
        × (device_in c.worker.re_namespace k ≡ instantiate spec)
        × ¬ Overlaid profile instantiate c.worker k (wanted (run events s).device_registry k)
  start_misses_changes s events specs profile c answer reload k spec active start captured had has =
      let names : member k c.worker.overlay_names ≡ true =
        ground (arith, started-names specs profile c.worker k start, active.active k) in
      (
        check-current (run events s) answer reload c captured,
        names,
        (start-Overlaid specs profile c.worker k (some spec) active.nodup (active.active k ∙ had)
            start).1,
        rw has (λ absent. absurd (ground (arith, names, absent.0))),
      )
