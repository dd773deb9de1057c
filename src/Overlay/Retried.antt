-- ===== src/Overlay/Retried.antt =====
-- Checks before plans that are tried again: `check_staleness_before_plan` of
-- queueserver_service/manager/config_service_coordinator.py.
use ophyd_service.Prelude.{Bool, true, Option, none, some, List, [], ◌∷◌, if◌then◌else◌}
use ophyd_service.Dict
use ophyd_service.Dict.{Dict}
use ophyd_service.Registry.{DeviceInstantiationSpec}
use ophyd_service.RegistryStore.{DeviceRegistryStore}
use ophyd_service.RegistryStore.Feed.{get_changes_since}
use ophyd_service.RegistryStore.Events.{Event, run}
use ophyd_service.Overlay.{Client, ReWorker, check_staleness_before_plan}
use ophyd_service.Overlay.Current.{AreActive}

-- A check, after some events of the registry: are its requests answered, and with which
-- specifications, and can the lists be reloaded?
pub record Attempt : Type 0 where
  pub events : List Event
  pub changes_answered : Bool
  pub specs_answered : Bool
  pub specs : Dict DeviceInstantiationSpec
  pub reload : Bool

abbrev pub store_after : List Attempt → DeviceRegistryStore → DeviceRegistryStore
store_after [] s = s
store_after (attempt ∷ attempts) s = store_after attempts (run attempt.events s)

-- The specifications of every attempt are those of the registry at its time.
abbrev pub AllActive : List Attempt → DeviceRegistryStore → Type 0
AllActive [] s = Unit
AllActive (attempt ∷ attempts) s =
    AreActive (run attempt.events s).device_registry attempt.specs
    × AllActive attempts (run attempt.events s)

module _ {D : Type 0} (profile : Dict D) (instantiate : DeviceInstantiationSpec → Option D)
    (refresh : ReWorker D → Option Bool) where
  -- The client after the attempts, with or without errors.
  abbrev pub client_after : List Attempt → DeviceRegistryStore → Client D → Client D
  client_after [] s c = c
  client_after (attempt ∷ attempts) s c =
      client_after attempts (run attempt.events s)
        (check_staleness_before_plan instantiate refresh true
          (if attempt.changes_answered
            then some (get_changes_since c.state.cursor (run attempt.events s))
            else none)
          (if attempt.specs_answered then some attempt.specs else none) attempt.reload c).0
