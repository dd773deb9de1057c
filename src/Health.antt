-- ===== src/Health.antt =====
-- The health of PVs: configuration_service/pv_health_manager.py, with the record and its state of
-- configuration_service/models.py. Each coroutine holds one `asyncio.Lock`, so it is one function; the
-- time is an argument.
mod Tests
pub mod Counting
use ophyd_service.Prelude.{
  ℕ, zero, suc, ◌+◌, String, Bool, true, false, Option, none, some, List, [], ◌∷◌, if◌then◌else◌,
  length, eqb, ltb, is_some,
}
use ophyd_service.Dict
use ophyd_service.Dict.{Dict}

pub data PvHealthState : Type 0 where
  healthy degraded unresponsive : PvHealthState

pub record PvHealthRecord : Type 0 where
  pub pv_name : String
  pub consecutive_failures : ℕ
  pub last_failure_at : Option ℕ
  pub last_failure_message : Option String
  pub last_success_at : Option ℕ

abbrev pub unresponsive_threshold : ℕ
unresponsive_threshold = 3

unfoldable pub state : PvHealthRecord → PvHealthState
state r =
    if eqb r.consecutive_failures 0
    then healthy
    else if ltb r.consecutive_failures unresponsive_threshold
    then degraded
    else unresponsive

-- `_records`
abbrev pub Records : Type 0
Records = Dict PvHealthRecord

abbrev pub failures_of : Option PvHealthRecord → ℕ
failures_of none = 0
failures_of (some r) = r.consecutive_failures

abbrev pub success_of : Option PvHealthRecord → Option ℕ
success_of none = none
success_of (some r) = r.last_success_at

-- The record that a failure leaves in place of the one there was, if any.
abbrev pub failed : String → Option String → ℕ → Option PvHealthRecord → PvHealthRecord
failed pv message now existing = record {
  pv_name = pv;
  consecutive_failures = failures_of existing + 1;
  last_failure_at = some now;
  last_failure_message = message;
  last_success_at = success_of existing;
}

unfoldable pub record_failure : Records → String → Option String → ℕ → Records × PvHealthRecord
record_failure records pv message now =
    let r = failed pv message now (Dict.get records pv) in (Dict.insert records pv r, r)

-- The record that a success leaves in place of the one there was.
abbrev pub recovered : String → ℕ → PvHealthRecord → PvHealthRecord
recovered pv now existing = record {
  pv_name = pv;
  consecutive_failures = 0;
  last_failure_at = existing.last_failure_at;
  last_failure_message = existing.last_failure_message;
  last_success_at = some now;
}

-- A PV that has never failed gets a record that is not stored.
unfoldable pub record_success : Records → String → ℕ → Records × PvHealthRecord
record_success records pv now = elim (Dict.get records pv) [
  | none ↦ (
    records,
    record {
      pv_name = pv;
      consecutive_failures = 0;
      last_failure_at = none;
      last_failure_message = none;
      last_success_at = some now;
    },
  )
  | some existing ↦ let r = recovered pv now existing in (Dict.insert records pv r, r)
]

unfoldable pub get_health : Records → String → Option PvHealthRecord
get_health records pv = Dict.get records pv

unfoldable pub clear : Records → String → Records × Bool
clear records pv = (Dict.remove records pv, is_some (Dict.get records pv))

unfoldable pub clear_all : Records → Records × ℕ
clear_all records = ([], length records)

pub record PvHealthStateCounts : Type 0 where
  pub healthy_pvs : ℕ
  pub degraded_pvs : ℕ
  pub unresponsive_pvs : ℕ

abbrev pub count_state : PvHealthState → PvHealthStateCounts → PvHealthStateCounts
count_state healthy c = record c { healthy_pvs = c.healthy_pvs + 1 }
count_state degraded c = record c { degraded_pvs = c.degraded_pvs + 1 }
count_state unresponsive c = record c { unresponsive_pvs = c.unresponsive_pvs + 1 }

-- The order in which the records are counted does not matter.
unfoldable pub stats : Records → PvHealthStateCounts
stats [] = record { healthy_pvs = 0; degraded_pvs = 0; unresponsive_pvs = 0 }
stats ((pv, r) ∷ records) = count_state (state r) (stats records)

unfoldable pub tracked_pvs : PvHealthStateCounts → ℕ
tracked_pvs c = c.healthy_pvs + c.degraded_pvs + c.unresponsive_pvs

-- What is reported to the manager, in the order in which it holds its lock.
pub data Report : Type 0 where
  failure : String → Option String → ℕ → Report
  success : String → ℕ → Report
  reset : String → Report
  reset_all : Report

unfoldable pub report : Records → Report → Records
report records (failure pv message now) = (record_failure records pv message now).0
report records (success pv now) = (record_success records pv now).0
report records (reset pv) = (clear records pv).0
report records reset_all = (clear_all records).0

unfoldable pub report_all : Records → List Report → Records
report_all records [] = records
report_all records (r ∷ rs) = report_all (report records r) rs
