-- ===== src/Health/Tests.antt =====
-- Tests of the health records (configuration_service/pv_health_manager.py).
use ophyd_service.Prelude.{◌≡◌, refl, none, some, List, [], ◌∷◌, length}
use ophyd_service.Dict
use ophyd_service.Health.{
  Records, Report, failure, success, get_health, report, report_all, record_failure, record_success,
}
use ophyd_service.Health.Counting.{count_of, report_all-counts}

-- Two failures after a success.
abbrev reports : List Report
reports =
    failure "X" none 1 ∷ success "X" 2 ∷ failure "X" (some "timeout") 3 ∷ failure "X" none 4 ∷ []

report_all-counts_example : count_of (get_health (report_all [] reports) "X") ≡ some 2
report_all-counts_example = report_all-counts reports "X"

abbrev records : Records
records = report_all [] reports

one_tracked : length records ≡ 1
unfolding report_all report record_failure record_success Dict.get Dict.insert
one_tracked = refl
