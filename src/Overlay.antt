-- ===== src/Overlay.antt =====
-- How the queue server keeps the devices of its worker in step with the registry, before each plan:
-- queueserver_service/manager/config_service.py (`build_staleness_plan`, `fetch_staleness_plan`),
-- config_service_coordinator.py (`check_staleness_before_plan`) and worker.py
-- (`_command_update_device_overlay_handler`).
mod Plan
mod Specs
mod Worker
mod Answer
mod Command
pub mod Current
pub mod Total
pub mod Retried
pub mod Start
mod Tests
use ophyd_service.Prelude.{
  ℕ, String, ◌≡◌, Bool, true, false, ◌&&◌, ◌||◌, not, Option, none, some, List, [], ◌∷◌, ◌++◌, ◌==◌,
  if◌then◌else◌, member,
}
use ophyd_service.Dict
use ophyd_service.Dict.{Dict}
use ophyd_service.Registry.{DeviceInstantiationSpec}
use ophyd_service.RegistryStore.Feed.{ChangesSince, DeviceChange, ChangeOp, deleted, upserted}

pub record ConfigServiceState : Type 0 where
  pub cursor : ℕ
  pub epoch : String

pub record StalenessPlan : Type 0 where
  pub replace_overlay : Bool
  pub upserts : Dict DeviceInstantiationSpec
  pub deletes : List String
  pub new_state : ConfigServiceState

is_empty {ℓ} : {A : Type ℓ} → List A → Bool
is_empty [] = true
is_empty (x ∷ xs) = false

pub is_noop : StalenessPlan → Bool
unfolding is_empty
is_noop plan = not plan.replace_overlay && (is_empty plan.upserts && is_empty plan.deletes)

-- One turn of the loop over the changes: a device that was disabled is a deletion. `none` is a
-- ConfigServiceProtocolError, for a change without a specification.
pub sort_change :
    String
    → ChangeOp
    → Dict DeviceInstantiationSpec × List String
    → Option (Dict DeviceInstantiationSpec × List String)
sort_change name deleted (upserts, deletes) = some (upserts, deletes ++ name ∷ [])
sort_change name (upserted metadata none) (upserts, deletes) = none
sort_change name (upserted metadata (some spec)) (upserts, deletes) =
    if spec.active
    then some (Dict.insert upserts name spec, deletes)
    else some (upserts, deletes ++ name ∷ [])

pub sort_changes :
    List DeviceChange
    → Dict DeviceInstantiationSpec × List String
    → Option (Dict DeviceInstantiationSpec × List String)
unfolding sort_change
sort_changes [] found = some found
sort_changes (change ∷ changes) found = elim (sort_change change.device_name change.op found) [
  | none ↦ none
  | some more ↦ sort_changes changes more
]

pub build_staleness_plan : ChangesSince → String → Option StalenessPlan
unfolding sort_changes
build_staleness_plan response saved_epoch =
    let new_state : ConfigServiceState = record {
      cursor = response.current_version;
      epoch = response.service_epoch;
    } in
    if response.reset_occurred || not (response.service_epoch == saved_epoch)
    then some (record { replace_overlay = true; upserts = []; deletes = []; new_state = new_state })
    else elim (sort_changes response.changes ([], [])) [
      | none ↦ none
      | some found ↦ some (record {
        replace_overlay = false;
        upserts = found.0;
        deletes = found.1;
        new_state = new_state;
      })
    ]

-- The answers of the service are arguments: `none` is an error of the request.
pub fetch_staleness_plan :
    Option ChangesSince
    → Option (Dict DeviceInstantiationSpec)
    → ConfigServiceState
    → Option StalenessPlan
unfolding build_staleness_plan
fetch_staleness_plan none specs state = none
fetch_staleness_plan (some response) specs state =
    elim (build_staleness_plan response state.epoch) [
      | none ↦ none
      | some plan ↦
          if plan.replace_overlay
          then elim specs [ none ↦ none | some full ↦ some (record plan { upserts = full }) ]
          else some plan
    ]

-- Of a set only the membership is read.
pub difference : List String → List String → List String
difference [] ys = []
difference (x ∷ xs) ys = let rest = difference xs ys in if member x ys then rest else x ∷ rest

pub record ReWorker (D : Type 0) : Type 0 where
  pub re_idle : Bool  -- `re_state in ("idle", None)`
  pub re_namespace : Option (Dict D)
  pub overlay_names : List String  -- a set
  pub lists_changed : Bool

pub record Client (D : Type 0) : Type 0 where
  pub state : ConfigServiceState
  pub worker : ReWorker D

pub overlay_names_after :
    Dict DeviceInstantiationSpec → List String → Bool → List String → List String
unfolding difference
overlay_names_after upserts deletes replace names =
    if replace then Dict.keys upserts else difference (names ++ Dict.keys upserts) deletes

module _ {D : Type 0} where
  -- `{name: instantiate_device_from_spec(spec) for …}`; `none` is an exception.
  pub stage : (DeviceInstantiationSpec → Option D) → Dict DeviceInstantiationSpec → Option (Dict D)
  stage instantiate [] = some []
  stage instantiate ((name, spec) ∷ upserts) = elim (instantiate spec) [
    | none ↦ none
    | some device ↦ elim (stage instantiate upserts) [
      | none ↦ none
      | some staged ↦ some ((name, device) ∷ staged)
    ]
  ]

  pub pop_all : List String → Dict D → Dict D
  pop_all [] namespace = namespace
  pop_all (name ∷ names) namespace = pop_all names (Dict.remove namespace name)

  pub assign_all : Dict D → Dict D → Dict D
  assign_all [] namespace = namespace
  assign_all ((name, device) ∷ staged) namespace =
      assign_all staged (Dict.insert namespace name device)

  -- What the handler writes once every device is staged.
  pub commit :
      Dict DeviceInstantiationSpec → List String → Bool → Dict D → Dict D → ReWorker D → ReWorker D
  unfolding pop_all assign_all difference overlay_names_after
  commit upserts deletes replace staged namespace w =
      let names = w.overlay_names in
      let implicit_deletes = if replace then difference names (Dict.keys upserts) else [] in
      record w {
        re_namespace =
            some (pop_all deletes (assign_all staged (pop_all implicit_deletes namespace)));
        overlay_names = overlay_names_after upserts deletes replace names;
      }

  -- `_refresh_lists_from_nspace` tells whether the lists changed; `none` is an exception.
  pub refresh_lists : (ReWorker D → Option Bool) → ReWorker D → ReWorker D × Bool
  refresh_lists refresh w = elim (refresh w) [
    | none ↦ (w, false)
    | some changed ↦ (if changed then record w { lists_changed = true } else w, true)
  ]

  -- With the new worker: was the command accepted?
  pub command_update_device_overlay_handler :
      (DeviceInstantiationSpec → Option D)
      → (ReWorker D → Option Bool)
      → Dict DeviceInstantiationSpec
      → List String
      → Bool
      → ReWorker D
      → ReWorker D × Bool
  unfolding stage commit refresh_lists
  command_update_device_overlay_handler instantiate refresh upserts deletes replace w =
      if not w.re_idle then (w, false) else elim w.re_namespace [
        | none ↦ (w, false)
        | some namespace ↦ elim (stage instantiate upserts) [
          | none ↦ (w, false)
          | some staged ↦ refresh_lists refresh (commit upserts deletes replace staged namespace w)
        ]
      ]

  -- The manager keeps the new state only if the worker accepts; then it reloads the lists.
  pub accept_overlay :
      ConfigServiceState → Bool → ConfigServiceState → ReWorker D × Bool → Client D × Bool
  accept_overlay new_state reload old_state (w, true) =
      (record { state = new_state; worker = w }, reload)
  accept_overlay new_state reload old_state (w, false) =
      (record { state = old_state; worker = w }, false)

  pub run_staleness_plan :
      (DeviceInstantiationSpec → Option D)
      → (ReWorker D → Option Bool)
      → Bool
      → Client D
      → Option StalenessPlan
      → Client D × Bool
  unfolding is_noop command_update_device_overlay_handler accept_overlay
  run_staleness_plan instantiate refresh reload c none = (c, false)
  run_staleness_plan instantiate refresh reload c (some plan) =
      if is_noop plan
      then (c, true)
      else accept_overlay plan.new_state reload c.state (
          command_update_device_overlay_handler instantiate refresh plan.upserts plan.deletes
            plan.replace_overlay c.worker)

  -- `false` is a raised error: the plan does not start. `reload` is the answer of
  -- `reload_lists_from_worker`.
  pub check_staleness_before_plan :
      (DeviceInstantiationSpec → Option D)
      → (ReWorker D → Option Bool)
      → Bool
      → Option ChangesSince
      → Option (Dict DeviceInstantiationSpec)
      → Bool
      → Client D
      → Client D × Bool
  unfolding fetch_staleness_plan run_staleness_plan
  check_staleness_before_plan instantiate refresh enabled response specs reload c =
      if not enabled
      then (c, true)
      else run_staleness_plan instantiate refresh reload c
          (fetch_staleness_plan response specs c.state)

  -- The worker's start: the specifications that were fetched before are put over the devices of the
  -- profile. `none` is a failed start.
  pub start_worker :
      (DeviceInstantiationSpec → Option D)
      → Dict DeviceInstantiationSpec
      → Dict D
      → Option (ReWorker D)
  unfolding stage assign_all
  start_worker instantiate device_specs profile = elim (stage instantiate device_specs) [
    | none ↦ none
    | some staged ↦ some (record {
      re_idle = true;
      re_namespace = some (assign_all staged profile);
      overlay_names = Dict.keys device_specs;
      lists_changed = false;
    })
  ]

-- What `sync_devices_on_env_open` keeps of the answer of `get_changes_since(0)`.
pub captured_state : ChangesSince → ConfigServiceState
captured_state changes = record { cursor = changes.current_version; epoch = changes.service_epoch }
