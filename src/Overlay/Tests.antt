-- ===== src/Overlay/Tests.antt =====
-- Witnesses and tests for the overlay of the registry's devices.
use ophyd_service.Prelude.{
  ℕ, String, ◌≡◌, refl, Bool, true, false, Option, none, some, List, [], ◌∷◌, arith, eq_iff,
  if◌then◌else◌, member, eqb, ◌==◌, Bool-cases, inl, inr,
}
use ophyd_service.Dict
use ophyd_service.Dict.{Dict}
use ophyd_service.Registry.{DeviceMetadata, DeviceInstantiationSpec, DeviceRegistry, empty}
use ophyd_service.RegistryStore.{
  DeviceRegistryStore, append_audit, seed_from_registry, save_device, delete_device, log_lock_event,
}
use ophyd_service.RegistryStore.Feed.{get_changes_since}
use ophyd_service.RegistryStore.Events.{
  Event, disable, add, write, delete, seed, lock_event, lock, run, apply,
}
use ophyd_service.Overlay.{
  Client, ReWorker, check_staleness_before_plan, captured_state, start_worker,
}
use ophyd_service.Overlay.Plan.{wanted}
use ophyd_service.Overlay.Worker.{Overlaid, device_in}
use ophyd_service.Overlay.Current.{AreActive, Tracks, check-Tracks}
use ophyd_service.Overlay.Retried.{Attempt}
use ophyd_service.Overlay.Start.{start-Tracks, start_misses_changes}

abbrev device : String → DeviceMetadata
device name = record {
  name = name;
  device_label = "motor";
  ophyd_class = "EpicsMotor";
  is_movable = true;
  is_flyable = false;
  is_readable = true;
  pvs = [];
  labels = [];
}

abbrev spec : String → Bool → DeviceInstantiationSpec
spec name active = record { name = name; device_class = "ophyd.EpicsMotor"; active = active }

abbrev str : ℕ → String
str n = if eqb n 1 then "1.0" else "5.0"

-- Two motors, seeded from the profile.
abbrev profile_registry : DeviceRegistry
profile_registry = record empty {
  devices = ("m1", device "m1") ∷ ("m2", device "m2") ∷ [];
  instantiation_specs = ("m1", spec "m1" true) ∷ ("m2", spec "m2" true) ∷ [];
}

abbrev seeded : DeviceRegistryStore
seeded =
    run (seed str profile_registry 1 ∷ [])
      (record { device_registry = []; device_audit_log = []; last_id = 0; registry_metadata = [] })

-- The first motor is disabled, the second deleted, and a third added.
abbrev edits : List Event
edits =
    write disable "m1" (device "m1") (some (spec "m1" false)) none 2
    ∷ delete "m2" none 3
    ∷ lock_event lock ("m3" ∷ []) none 3
    ∷ write add "m3" (device "m3") (some (spec "m3" true)) none 4
    ∷ []

abbrev edited : DeviceRegistryStore
edited = run edits seeded

abbrev specs : Dict DeviceInstantiationSpec
specs = ("m1", spec "m1" true) ∷ ("m2", spec "m2" true) ∷ []

-- The profile has a device of its own.
abbrev profile : Dict DeviceInstantiationSpec
profile = ("det", spec "det" true) ∷ []

-- A device is represented by its specification.
abbrev refresh : ReWorker DeviceInstantiationSpec → Option Bool
refresh w = some true

abbrev started : ReWorker DeviceInstantiationSpec
started = record {
  re_idle = true;
  re_namespace =
      some (("det", spec "det" true) ∷ ("m1", spec "m1" true) ∷ ("m2", spec "m2" true) ∷ []);
  overlay_names = "m1" ∷ "m2" ∷ [];
  lists_changed = false;
}

started_is : start_worker some specs profile ≡ some started
unfolding start_worker Dict.insert Dict.keys
started_is = refl

abbrev client : Client DeviceInstantiationSpec
client = record { state = record { cursor = 2; epoch = "1.0" }; worker = started }

abbrev checked : Client DeviceInstantiationSpec
checked = record {
  state = record { cursor = 6; epoch = "1.0" };
  worker = record {
    re_idle = true;
    re_namespace = some (("det", spec "det" true) ∷ ("m3", spec "m3" true) ∷ []);
    overlay_names = "m3" ∷ [];
    lists_changed = true;
  };
}

specs-AreActive : AreActive seeded.device_registry specs
unfolding run apply seed_from_registry append_audit wanted Dict.get Dict.insert
specs-AreActive = record {
  nodup = (refl, (refl, tt));
  active = λ k. elim (Bool-cases ("m1" == k)) [
    | inl first ↦ rw first refl
    | inr other ↦ elim (Bool-cases ("m2" == k)) [
      | inl second ↦ rw (other, second) refl
      | inr neither ↦ rw (other, neither) refl
    ]
  ];
}

edited-AreActive : AreActive edited.device_registry (("m3", spec "m3" true) ∷ [])
unfolding run apply seed_from_registry save_device delete_device log_lock_event append_audit wanted
    Dict.get Dict.insert Dict.remove
edited-AreActive = record {
  nodup = (refl, tt);
  active = λ k. elim (Bool-cases ("m1" == k)) [
    | inl first ↦ rw (← ((eq_iff "m1" k).0 first)) refl
    | inr other ↦ elim (Bool-cases ("m3" == k)) [
      | inl third ↦ rw (other, third) refl
      | inr neither ↦ rw (other, neither) refl
    ]
  ];
}

start-Tracks_example : Tracks profile some client seeded.device_registry seeded
unfolding run apply seed_from_registry append_audit get_changes_since captured_state start_worker
    Dict.get Dict.insert Dict.keys
start-Tracks_example =
    start-Tracks some refresh seeded specs profile client (omega arith, (omega arith, tt))
      specs-AreActive refl refl

check_runs :
    check_staleness_before_plan some refresh true
      (some (get_changes_since 2 edited))
      (some (("m3", spec "m3" true) ∷ []))
      true
      client
    ≡ (checked, true)
unfolding check_staleness_before_plan run apply seed_from_registry save_device delete_device
    log_lock_event get_changes_since Dict.get Dict.insert Dict.remove Dict.keys
check_runs = refl

check-Tracks_example : Tracks profile some checked edited.device_registry edited
check-Tracks_example =
    check-Tracks profile some refresh seeded.device_registry seeded edits
      (("m3", spec "m3" true) ∷ []) true client checked start-Tracks_example edited-AreActive
      check_runs

-- After the first check the lists cannot be reloaded, and the second check gets no answer.
abbrev attempts : List Attempt
attempts =
    record {
      events = write disable "m1" (device "m1") (some (spec "m1" false)) none 2 ∷ [];
      changes_answered = true;
      specs_answered = true;
      specs = ("m2", spec "m2" true) ∷ [];
      reload = false;
    }
    ∷ record {
      events = delete "m2" none 3 ∷ [];
      changes_answered = false;
      specs_answered = true;
      specs = [];
      reload = true;
    }
    ∷ []

abbrev later_edits : List Event
later_edits =
    lock_event lock ("m3" ∷ []) none 3
    ∷ write add "m3" (device "m3") (some (spec "m3" true)) none 4
    ∷ []

abbrev late : Client DeviceInstantiationSpec
late = record { state = record { cursor = 6; epoch = "1.0" }; worker = started }

start_misses_changes_example :
    (check_staleness_before_plan some refresh true
        (some (get_changes_since 6 edited))
        none
        true
        late
      ≡ (late, true))
    × (member "m1" started.overlay_names ≡ true)
    × (device_in started.re_namespace "m1" ≡ some (spec "m1" true))
    × ¬ Overlaid profile some started "m1" (wanted edited.device_registry "m1")
unfolding run apply seed_from_registry save_device delete_device log_lock_event append_audit
    get_changes_since captured_state start_worker wanted Dict.get Dict.insert Dict.remove Dict.keys
start_misses_changes_example =
    start_misses_changes some refresh seeded edits specs profile late none true "m1"
      (spec "m1" true) specs-AreActive refl refl refl refl
