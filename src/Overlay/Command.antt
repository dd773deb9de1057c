-- ===== src/Overlay/Command.antt =====
-- What an accepted overlay command does to the worker: `_command_update_device_overlay_handler` of
-- queueserver_service/manager/worker.py under `check_staleness_before_plan` of
-- config_service_coordinator.py.
use mathlib.Core.Path.{subst}
use ophyd_service.Prelude.{
  String, ◌≡◌, refl, sym, Bool, true, false, Option, none, some, List, [], ◌∷◌, arith, member,
  Bool-cases, Option-cases, ◌⊎◌, inl, inr,
}
use ophyd_service.Dict
use ophyd_service.Dict.{Dict, NodupKeys}
use ophyd_service.Registry.{DeviceInstantiationSpec}
use ophyd_service.RegistryStore.{DeviceRow}
use ophyd_service.Overlay.{
  Client, ReWorker, StalenessPlan, ConfigServiceState, stage, commit, refresh_lists, is_noop,
  is_empty, accept_overlay, command_update_device_overlay_handler, run_staleness_plan,
}
use ophyd_service.Overlay.Plan.{wanted}
use ophyd_service.Overlay.Worker.{Overlaid, commit-replaced, commit-updated}
use ophyd_service.Overlay.Answer.{Leads, whole, part}

nothing-get {ℓ} : {V : Type ℓ} (d : Dict V) (k : String) → is_empty d ≡ true → Dict.get d k ≡ none
unfolding is_empty Dict.get
nothing-get [] k e = refl
nothing-get (x ∷ d) k e = absurd (ground arith)

nothing-member : (xs : List String) (k : String) → is_empty xs ≡ true → member k xs ≡ false
unfolding is_empty
nothing-member [] k e = refl
nothing-member (x ∷ xs) k e = absurd (ground arith)

module _ {D : Type 0} (profile : Dict D) (instantiate : DeviceInstantiationSpec → Option D)
    (refresh : ReWorker D → Option Bool) where
  -- The worker has committed: every device was staged.
  abbrev pub HasCommitted :
      Dict DeviceInstantiationSpec → List String → Bool → ReWorker D → ReWorker D → Type 0
  HasCommitted upserts deletes replace w w' =
      (namespace : Dict D) × (staged : Dict D) × (w.re_namespace ≡ some namespace)
      × (stage instantiate upserts ≡ some staged)
      × (w'.overlay_names ≡ (commit upserts deletes replace staged namespace w).overlay_names)
      × (w'.re_namespace ≡ (commit upserts deletes replace staged namespace w).re_namespace)

  -- A command is refused with nothing changed, or the worker commits.
  command-outcome :
      (upserts : Dict DeviceInstantiationSpec) (deletes : List String) (replace : Bool)
      (w : ReWorker D)
      → (command_update_device_overlay_handler instantiate refresh upserts deletes replace w
          ≡ (w, false))
        ⊎ HasCommitted upserts deletes replace w
            (command_update_device_overlay_handler instantiate refresh upserts deletes replace w).0
  unfolding command_update_device_overlay_handler refresh_lists
  command-outcome upserts deletes replace w = elim (Bool-cases w.re_idle) [
    | inr busy ↦ inl (ground arith)
    | inl idle ↦ elim (Option-cases w.re_namespace) [
      | inl none_yet ↦ inl (ground arith)
      | inr (namespace, space) ↦ elim (Option-cases (stage instantiate upserts)) [
        | inl bad ↦ inl (ground arith)
        | inr (staged, ok) ↦ inr (namespace, staged, space, ok, ground arith, ground arith)
      ]
    ]
  ]

  pub Overlaid-same :
      (w w' : ReWorker D) (k : String) (want : Option DeviceInstantiationSpec)
      → w'.overlay_names ≡ w.overlay_names
      → w'.re_namespace ≡ w.re_namespace
      → Overlaid profile instantiate w k want
      → Overlaid profile instantiate w' k want
  Overlaid-same w w' k none names space o = (rw names o.0, rw space o.1)
  Overlaid-same w w' k (some spec) names space o = (rw names o.0, rw space o.1)

  pub committed-Overlaid :
      (rows : Dict DeviceRow) (t : String → Bool) (settled : Bool) (plan : StalenessPlan)
      (w w' : ReWorker D) (k : String) (had : Option DeviceInstantiationSpec)
      → Leads rows t settled plan
      → HasCommitted plan.upserts plan.deletes plan.replace_overlay w w'
      → Overlaid profile instantiate w k had
      → (settled ≡ true → (t k ≡ true) ⊎ Overlaid profile instantiate w k (wanted rows k))
      → Overlaid profile instantiate w' k (wanted rows k)
  committed-Overlaid rows t settled _ w w' k had (whole upserts state n full)
        (namespace, staged, space, ok, names, space') before old =
      Overlaid-same (commit upserts [] true staged namespace w) w' k (wanted rows k) names space' (
        commit-replaced profile instantiate w namespace staged upserts n ok space k had
          (wanted rows k) before (full k))
  committed-Overlaid rows t settled _ w w' k had (part upserts deletes state calm n gets drops)
        (namespace, staged, space, ok, names, space') before old =
      Overlaid-same (commit upserts deletes false staged namespace w) w' k (wanted rows k) names
        space'
        (commit-updated profile instantiate w namespace staged upserts n ok space deletes k
          (wanted rows k) (t k) (gets k) (drops k) (old calm))

  pub noop-Overlaid :
      (rows : Dict DeviceRow) (t : String → Bool) (settled : Bool) (plan : StalenessPlan)
      (w : ReWorker D) (k : String)
      → Leads rows t settled plan
      → is_noop plan ≡ true
      → (settled ≡ true → (t k ≡ true) ⊎ Overlaid profile instantiate w k (wanted rows k))
      → Overlaid profile instantiate w k (wanted rows k)
  unfolding is_noop
  noop-Overlaid rows t settled _ w k (whole upserts state n full) e old = absurd (ground arith)
  noop-Overlaid rows t settled _ w k (part upserts deletes state calm n gets drops) e old =
      elim (old calm) [
        | inr same ↦ same
        | inl named ↦
            absurd
              (ground (arith, gets k, drops k, nothing-get upserts k, nothing-member deletes k))
      ]

  accept_overlay-worker :
      (new_state old_state : ConfigServiceState) (reload : Bool) (r : ReWorker D × Bool)
      → ((accept_overlay new_state reload old_state r).0.worker ≡ r.0)
        × (((accept_overlay new_state reload old_state r).0.state ≡ old_state)
            ⊎ ((accept_overlay new_state reload old_state r).0.state ≡ new_state))
  unfolding accept_overlay
  accept_overlay-worker new_state old_state reload (w, true) = (refl, inr refl)
  accept_overlay-worker new_state old_state reload (w, false) = (refl, inl refl)

  accept_overlay-refused :
      (new_state old_state : ConfigServiceState) (reload : Bool) (r : ReWorker D × Bool)
      (w : ReWorker D)
      → r ≡ (w, false)
      → ((accept_overlay new_state reload old_state r).0.worker ≡ w)
        × ((accept_overlay new_state reload old_state r).0.state ≡ old_state)
        × ((accept_overlay new_state reload old_state r).1 ≡ false)
  unfolding accept_overlay
  accept_overlay-refused new_state old_state reload r w e =
      subst
        (λ x.
          ((accept_overlay new_state reload old_state x).0.worker ≡ w)
          × ((accept_overlay new_state reload old_state x).0.state ≡ old_state)
          × ((accept_overlay new_state reload old_state x).1 ≡ false))
        (sym e) (refl, refl, refl)

  -- A plan that is run leaves the client as it was, without an error only if the plan is empty; or the
  -- worker has committed it.
  pub run-outcome :
      (reload : Bool) (plan : StalenessPlan) (c : Client D)
      → let r = run_staleness_plan instantiate refresh reload c (some plan) in
        ((r.0.worker ≡ c.worker) × (r.0.state ≡ c.state) × ((r.1 ≡ false) ⊎ (is_noop plan ≡ true)))
        ⊎ (HasCommitted plan.upserts plan.deletes plan.replace_overlay c.worker r.0.worker
            × ((r.0.state ≡ c.state) ⊎ (r.0.state ≡ plan.new_state)))
  unfolding run_staleness_plan
  run-outcome reload plan c = elim (Bool-cases (is_noop plan)) [
    | inl noop ↦ rw noop (inl (refl, refl, inr refl))
    | inr change ↦
        let r =
          command_update_device_overlay_handler instantiate refresh plan.upserts plan.deletes
            plan.replace_overlay c.worker in
        let a = accept_overlay-worker plan.new_state c.state reload r in
        rw change (elim (command-outcome plan.upserts plan.deletes plan.replace_overlay c.worker) [
          | inl refused ↦
              let x = accept_overlay-refused plan.new_state c.state reload r c.worker refused in
              inl (x.0, x.1, inl x.2)
          | inr committed ↦ inr (
            subst (HasCommitted plan.upserts plan.deletes plan.replace_overlay c.worker) (sym a.0)
                committed,
            a.1,
          )
        ])
  ]

  pub unchanged-Overlaid :
      (w w' : ReWorker D) (k : String) (want : Option DeviceInstantiationSpec)
      → w' ≡ w
      → Overlaid profile instantiate w k want
      → Overlaid profile instantiate w' k want
  unchanged-Overlaid w w' k want e o = subst (λ v. Overlaid profile instantiate v k want) (sym e) o
