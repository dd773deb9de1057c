-- ===== src/Overlay/Current.antt =====
-- After the check before a plan the devices of the worker are those of the registry:
-- `check_staleness_before_plan` of queueserver_service/manager/config_service_coordinator.py.
use mathlib.Core.Path.{subst}
use ophyd_service.Prelude.{
  ℕ, String, ◌≡◌, refl, ap, ◌∙◌, sym, Bool, true, false, ◌||◌, not, Option, none, some,
  if◌then◌else◌, List, [], arith, ◌==◌, Bool-cases, Option-cases, ◌⊎◌, inl, inr,
}
use ophyd_service.Dict
use ophyd_service.Dict.{Dict, NodupKeys}
use ophyd_service.Registry.{DeviceInstantiationSpec}
use ophyd_service.RegistryStore.{DeviceRow, DeviceRegistryStore}
use ophyd_service.RegistryStore.Feed.{ChangesSince, get_changes_since, max_id}
use ophyd_service.RegistryStore.Latest.{touched}
use ophyd_service.RegistryStore.Events.{Event, run, Follows, current-Follows}
use ophyd_service.RegistryStore.Events.Upkeep.{run-Follows}
use ophyd_service.Overlay.{
  Client, ReWorker, StalenessPlan, ConfigServiceState, run_staleness_plan, build_staleness_plan,
  fetch_staleness_plan, check_staleness_before_plan, sort_changes,
}
use ophyd_service.Overlay.Plan.{wanted, row_spec}
use ophyd_service.Overlay.Worker.{Overlaid}
use ophyd_service.Overlay.Answer.{
  Leads, changes-or-kept, changes-AreCurrent, fetch_staleness_plan-Leads,
}
use ophyd_service.Overlay.Command.{
  run-outcome, committed-Overlaid, noop-Overlaid, unchanged-Overlaid,
}

-- The answer of `/devices/instantiation`: the active specifications of the rows.
pub record AreActive (rows : Dict DeviceRow) (specs : Dict DeviceInstantiationSpec) : Type 0 where
  pub nodup : NodupKeys specs
  pub active : (k : String) → Dict.get specs k ≡ wanted rows k

-- The worker has the devices of the table `base`, which the tables `s` come from, over those of the
-- profile.
pub record Tracks {D : Type 0} (profile : Dict D) (instantiate : DeviceInstantiationSpec → Option D)
    (c : Client D) (base : Dict DeviceRow) (s : DeviceRegistryStore) : Type 0 where
  pub follows : Follows c.state.cursor base s
  pub overlaid :
      (k : String) → k == "*" ≡ false → Overlaid profile instantiate c.worker k (wanted base k)

module _ {D : Type 0} (profile : Dict D) (instantiate : DeviceInstantiationSpec → Option D)
    (refresh : ReWorker D → Option Bool) where
  new_cursor :
      (response : ChangesSince) (specs : Dict DeviceInstantiationSpec) (state : ConfigServiceState)
      (plan : StalenessPlan)
      → fetch_staleness_plan (some response) (some specs) state ≡ some plan
      → plan.new_state.cursor ≡ response.current_version
  unfolding fetch_staleness_plan build_staleness_plan
  new_cursor response specs state plan e =
      elim (Bool-cases (response.reset_occurred || not (response.service_epoch == state.epoch))) [
        | inl replace ↦ ground arith
        | inr same ↦ elim (Option-cases (sort_changes response.changes ([], []))) [
          | inl bad ↦ absurd (ground arith)
          | inr (found, ok) ↦ ground arith
        ]
      ]

  advance-Follows :
      (since since' : ℕ) (base : Dict DeviceRow) (s : DeviceRegistryStore)
      → Follows since base s
      → (since' ≡ since) ⊎ (since' ≡ (get_changes_since since s).current_version)
      → Follows since' s.device_registry s
  unfolding get_changes_since
  advance-Follows since since' base s f (inl e) = rw e (record {
    bounded = f.bounded;
    newer = f.newer;
    settled = f.settled;
    kept = λ k star calm quiet. refl;
  })
  advance-Follows since since' base s f (inr e) =
      let newest : since' ≡ max_id s.device_audit_log = ground arith in
      rw newest (current-Follows s f.bounded)

  -- An unanswered request for the specifications is no error if they are not needed.
  answered :
      (response : ChangesSince) (specs : Dict DeviceInstantiationSpec)
      (answer : Option (Dict DeviceInstantiationSpec)) (state : ConfigServiceState)
      (plan : StalenessPlan)
      → (answer ≡ none) ⊎ (answer ≡ some specs)
      → fetch_staleness_plan (some response) answer state ≡ some plan
      → fetch_staleness_plan (some response) (some specs) state ≡ some plan
  unfolding fetch_staleness_plan
  answered response specs answer state plan (inr given) e = rw given at e
  answered response specs answer state plan (inl missing) e =
      elim (Option-cases (build_staleness_plan response state.epoch)) [
        | inl bad ↦ absurd (ground arith)
        | inr (found, ok) ↦ elim (Bool-cases found.replace_overlay) [
          | inl whole ↦ absurd (ground arith)
          | inr part ↦ ground arith
        ]
      ]

  module _ (base : Dict DeviceRow) (s : DeviceRegistryStore) (specs : Dict DeviceInstantiationSpec)
      (plan : StalenessPlan) (c : Client D) (tracks : Tracks profile instantiate c base s)
      (answer : AreActive s.device_registry specs)
      (fetched : fetch_staleness_plan
          (some (get_changes_since c.state.cursor s))
          (some specs)
          c.state
        ≡ some plan) where
    leads :
        Leads s.device_registry
          (λ k. touched k (get_changes_since c.state.cursor s).changes)
          (not (get_changes_since c.state.cursor s).reset_occurred)
          plan
    leads =
        fetch_staleness_plan-Leads s.device_registry (get_changes_since c.state.cursor s) specs
          c.state plan (changes-AreCurrent c.state.cursor base s tracks.follows) answer.nodup
          answer.active fetched

    untouched :
        (k : String)
        → k == "*" ≡ false
        → not (get_changes_since c.state.cursor s).reset_occurred ≡ true
        → (touched k (get_changes_since c.state.cursor s).changes ≡ true)
          ⊎ Overlaid profile instantiate c.worker k (wanted s.device_registry k)
    unfolding wanted
    untouched k star calm =
        elim (changes-or-kept c.state.cursor base s k tracks.follows star (ground arith)) [
          | inl named ↦ inl named
          | inr kept ↦ inr (
              subst (Overlaid profile instantiate c.worker k) (ap row_spec (sym kept))
                (unfold wanted in tracks.overlaid k star))
        ]

    cursor-Follows :
        (state : ConfigServiceState)
        → (state ≡ c.state) ⊎ (state ≡ plan.new_state)
        → Follows state.cursor s.device_registry s
    cursor-Follows state moved =
        advance-Follows c.state.cursor state.cursor base s tracks.follows (elim moved [
          | inl old ↦ inl (ap (λ (st : ConfigServiceState). st.cursor) old)
          | inr new ↦ inr (
              ap (λ (st : ConfigServiceState). st.cursor) new
              ∙ new_cursor (get_changes_since c.state.cursor s) specs c.state plan fetched)
        ])

    -- A plan that is run brings the worker up to date, or raises an error and leaves it as it was.
    pub outcome-Tracks :
        (reload : Bool)
        → let r = run_staleness_plan instantiate refresh reload c (some plan) in
          Tracks profile instantiate r.0 s.device_registry s
          ⊎ ((r.1 ≡ false) × Tracks profile instantiate r.0 base s)
    outcome-Tracks reload =
        let r = run_staleness_plan instantiate refresh reload c (some plan) in
        let calm = not (get_changes_since c.state.cursor s).reset_occurred in
        let t = λ (k : String). touched k (get_changes_since c.state.cursor s).changes in
        elim (run-outcome profile instantiate refresh reload plan c) [
          | inr (committed, moved) ↦ inl (record {
            follows = cursor-Follows r.0.state moved;
            overlaid = λ k star.
                committed-Overlaid profile instantiate refresh s.device_registry t calm plan
                  c.worker r.0.worker k (wanted base k) leads committed (tracks.overlaid k star)
                  (untouched k star);
          })
          | inl (worker, state, inr noop) ↦ inl (record {
            follows = cursor-Follows r.0.state (inl state);
            overlaid = λ k star.
                unchanged-Overlaid profile instantiate refresh c.worker r.0.worker k
                  (wanted s.device_registry k) worker
                  (noop-Overlaid profile instantiate refresh s.device_registry t calm plan c.worker
                    k leads noop (untouched k star));
          })
          | inl (worker, state, inl error) ↦ inr (
            error,
            record {
              follows =
                  subst (λ (st : ConfigServiceState). Follows st.cursor base s) (sym state)
                    tracks.follows;
              overlaid = λ k star.
                  unchanged-Overlaid profile instantiate refresh c.worker r.0.worker k
                    (wanted base k) worker (tracks.overlaid k star);
            },
          )
        ]

  -- What a check leaves, whether or not its two requests are answered.
  pub check-outcome :
      (base : Dict DeviceRow) (s : DeviceRegistryStore) (events : List Event)
      (specs : Dict DeviceInstantiationSpec) (heard heard' reload : Bool) (c : Client D)
      → Tracks profile instantiate c base s
      → AreActive (run events s).device_registry specs
      → let r =
          check_staleness_before_plan instantiate refresh true
            (if heard then some (get_changes_since c.state.cursor (run events s)) else none)
            (if heard' then some specs else none)
            reload
            c in
        Tracks profile instantiate r.0 (run events s).device_registry (run events s)
        ⊎ ((r.1 ≡ false) × Tracks profile instantiate r.0 base (run events s))
  unfolding check_staleness_before_plan
  check-outcome base s events specs heard heard' reload c tracks answer =
      let t = run events s in
      let tracks' : Tracks profile instantiate c base t = record {
        follows = run-Follows c.state.cursor base events s tracks.follows;
        overlaid = tracks.overlaid;
      } in
      let given = if heard' then some specs else none in
      let given_is : (given ≡ none) ⊎ (given ≡ some specs) = elim (Bool-cases heard') [
        | inl e ↦ inr (rw e refl)
        | inr e ↦ inl (rw e refl)
      ] in
      elim (Bool-cases heard) [
        | inr lost ↦
            rw lost (inr (unfold fetch_staleness_plan run_staleness_plan in (refl, tracks')))
        | inl arrived ↦
            rw arrived
              (elim (Option-cases
                (fetch_staleness_plan (some (get_changes_since c.state.cursor t)) given c.state)) [
                  | inl bad ↦ rw bad (inr (unfold run_staleness_plan in (refl, tracks')))
                  | inr (plan, fetched) ↦ rw fetched (
                      outcome-Tracks base t specs plan c tracks' answer
                        (answered (get_changes_since c.state.cursor t) specs given c.state plan
                          given_is fetched)
                        reload)
                ])
      ]

  -- Let the worker have had the devices of the registry at some time, over those of the profile, and
  -- let then the registry change by any events. If the check before a plan raises no error, and the
  -- registry does not change between its two requests, then the worker has, for every name but "*",
  -- what the registry has now: the device of the specification, in its namespace, if the registry has
  -- an active one; otherwise no device in the overlay, and in the namespace none under that name but
  -- the one that the profile put there. And the cursor stands where the next check needs it.
  pub check-Tracks :
      (base : Dict DeviceRow) (s : DeviceRegistryStore) (events : List Event)
      (specs : Dict DeviceInstantiationSpec) (reload : Bool) (c c' : Client D)
      → Tracks profile instantiate c base s
      → AreActive (run events s).device_registry specs
      → check_staleness_before_plan instantiate refresh true
          (some (get_changes_since c.state.cursor (run events s)))
          (some specs)
          reload
          c
        ≡ (c', true)
      → Tracks profile instantiate c' (run events s).device_registry (run events s)
  check-Tracks base s events specs reload c c' tracks answer e =
      let t = run events s in
      elim (check-outcome base s events specs true true reload c tracks answer) [
        | inl up_to_date ↦
            subst (λ (r : Client D × Bool). Tracks profile instantiate r.0 t.device_registry t) e
              up_to_date
        | inr (error, _) ↦ absurd (ground (arith, sym error ∙ ap (λ (r : Client D × Bool). r.1) e))
      ]
