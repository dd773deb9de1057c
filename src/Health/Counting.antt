-- ===== src/Health/Counting.antt =====
-- What the records of configuration_service/pv_health_manager.py count.
use ophyd_service.Prelude.{
  ℕ, suc, ◌+◌, String, ◌≡◌, refl, sym, ap, ◌∙◌, true, Option, none, some, List, [], ◌∷◌,
  if◌then◌else◌, length, ◌==◌, eq_iff, arith, inl, inr, Option-cases,
}
use ophyd_service.Dict
use ophyd_service.Dict.{Dict, get-insert, get-remove}
use ophyd_service.Health.{
  PvHealthRecord, PvHealthState, healthy, degraded, unresponsive, state, Records, failed, recovered,
  stats, count_state, tracked_pvs, PvHealthStateCounts, record_failure, record_success, get_health,
  clear, clear_all, Report, failure, success, reset, reset_all, report, report_all,
}

-- What a PV has come to by a report: `none` before its first failure, and then the number of failures
-- since the last success.
abbrev pub counted : String → Option ℕ → Report → Option ℕ
counted pv none (failure p message now) = if p == pv then some 1 else none
counted pv (some n) (failure p message now) = if p == pv then some (n + 1) else some n
counted pv none (success p now) = none
counted pv (some n) (success p now) = if p == pv then some 0 else some n
counted pv c (reset p) = if p == pv then none else c
counted pv c reset_all = none

abbrev pub count_all : String → Option ℕ → List Report → Option ℕ
count_all pv c [] = c
count_all pv c (r ∷ rs) = count_all pv (counted pv c r) rs

-- The count that the manager has for a PV.
abbrev pub count_of : Option PvHealthRecord → Option ℕ
count_of none = none
count_of (some r) = some r.consecutive_failures

-- A PV without a record counts for nothing.
kept : (d : Records) (p pv : String) → Dict.get d p ≡ none → p == pv ≡ true → Dict.get d pv ≡ none
kept d p pv n e = rw (sym ((eq_iff p pv).0 e)) n

known :
    (d : Records) (p pv : String) (x : PvHealthRecord)
    → Dict.get d p ≡ some x
    → p == pv ≡ true
    → Dict.get d pv ≡ some x
known d p pv x n e = rw (sym ((eq_iff p pv).0 e)) n

count_of-report :
    (d : Records) (r : Report) (pv : String)
    → count_of (get_health (report d r) pv) ≡ counted pv (count_of (get_health d pv)) r
unfolding report get_health record_failure record_success clear clear_all Dict.get
count_of-report d (failure p message now) pv = elim (Option-cases (Dict.get d pv)) [
  | inl n ↦ ground (arith, n, get-insert d p (failed p message now (Dict.get d p)) pv, eq_iff p pv)
  | inr (x, e) ↦
      ground (arith, e, get-insert d p (failed p message now (Dict.get d p)) pv, eq_iff p pv)
]
count_of-report d (success p now) pv = elim (Option-cases (Dict.get d p)) [
  | inl n ↦ ground (arith, n, eq_iff p pv, kept d p pv n)
  | inr (x, e) ↦
      ground (arith, e, eq_iff p pv, get-insert d p (recovered p now x) pv, known d p pv x e)
]
count_of-report d (reset p) pv = ground (arith, get-remove d p pv)
count_of-report d reset_all pv = refl

counts_from :
    (d : Records) (rs : List Report) (pv : String)
    → count_of (get_health (report_all d rs) pv) ≡ count_all pv (count_of (get_health d pv)) rs
unfolding report_all
counts_from d [] pv = refl
counts_from d (r ∷ rs) pv =
    counts_from (report d r) rs pv ∙ ap (λ c. count_all pv c rs) (count_of-report d r pv)

-- After any sequence of reports to a new manager, a PV has a record exactly if it has failed since it
-- was last reset, and the record counts its failures since its last success.
pub report_all-counts :
    (rs : List Report) (pv : String)
    → count_of (get_health (report_all [] rs) pv) ≡ count_all pv none rs
unfolding get_health Dict.get
report_all-counts rs pv = counts_from [] rs pv

tracked_pvs-count_state :
    (st : PvHealthState) (c : PvHealthStateCounts)
    → tracked_pvs (count_state st c) ≡ suc (tracked_pvs c)
unfolding tracked_pvs
tracked_pvs-count_state healthy c = omega arith
tracked_pvs-count_state degraded c = omega arith
tracked_pvs-count_state unresponsive c = omega arith

-- The statistics count every PV that has a record once, whatever its state.
pub tracked_pvs-stats : (records : Records) → tracked_pvs (stats records) ≡ length records
unfolding stats
tracked_pvs-stats [] = unfold tracked_pvs in refl
tracked_pvs-stats ((pv, r) ∷ records) =
    tracked_pvs-count_state (state r) (stats records) ∙ ap suc (tracked_pvs-stats records)
