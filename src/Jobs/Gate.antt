-- ===== src/Jobs/Gate.antt =====
-- The operations on the jobs of the web interface, each of which runs under
-- `web_apply_condition` or the lock of the scan jobs.
pub mod Laws
pub mod Exclusion
use wudup.Prelude.{
  ℕ, ◌+◌, Text, Bool, true, false, ◌||◌, not, Option, none, some, List, [], ◌∷◌, ◌++◌, text_eq,
  if◌then◌else◌,
}
use wudup.Prelude.Dict.{Dict, lookup, put, pop}
use wudup.Jobs.Status.{JobStatus, queued, any_active, register_job, prune_jobs}
use wudup.Jobs.Model.{
  ProgressStatus, UpdaterProgressEvent, WebApplyJobProgressEvent, WebApplyJob, WebSecurityScanJob,
  AppState, apply_status, scan_status, new_scan_job, new_job,
}

-- The messages of `_active_mutation_error_unlocked`.
pub data MutationError : Type 0 where
  apply_job_running self_update_running container_restart_running security_scan_running :
      MutationError

unfoldable pub active_security_scan_error : AppState → Option MutationError
active_security_scan_error state =
    if any_active scan_status state.web_security_scan_jobs then some security_scan_running else none

unfoldable pub active_mutation_error : AppState → Bool → Option MutationError
active_mutation_error state include_security_scan_jobs =
    if any_active apply_status state.web_apply_jobs
    then some apply_job_running
    else if state.web_self_update_running
    then some self_update_running
    else if state.web_container_restart_running
    then some container_restart_running
    else if not include_security_scan_jobs
    then none
    else active_security_scan_error state

-- `_reserve_mutation_state`: `reserve` returns the new state, or the error that it raises.
abbrev pub reserve_with :
    Option MutationError
    → (AppState → Option MutationError × AppState)
    → AppState
    → Option MutationError × AppState
reserve_with (some e) reserve state = (some e, state)
reserve_with none reserve state = reserve state

reserve_mutation_state :
    (AppState → Option MutationError × AppState) → Bool → AppState → Option MutationError × AppState
reserve_mutation_state reserve include_security_scan_jobs state =
    reserve_with (active_mutation_error state include_security_scan_jobs) reserve state

pub reserve_self_update : AppState → Option MutationError × AppState
reserve_self_update =
    reserve_mutation_state (λ state. (none, record state { web_self_update_running = true })) true

pub release_self_update : AppState → AppState
release_self_update state = record state { web_self_update_running = false }

pub reserve_container_restart : AppState → Option MutationError × AppState
reserve_container_restart =
    reserve_mutation_state (λ state. (none, record state { web_container_restart_running = true }))
      true

pub release_container_restart : AppState → AppState
release_container_restart state = record state { web_container_restart_running = false }

-- `reserve_scan_job` of `api_refresh_security_scans`
reserve_scan_job : Text → AppState → Option MutationError × AppState
reserve_scan_job id state =
    if any_active scan_status state.web_security_scan_jobs
    then (some security_scan_running, state)
    else (
      none,
      record state {
        web_security_scan_jobs =
            prune_jobs scan_status (put state.web_security_scan_jobs id (new_scan_job id));
      },
    )

-- The reservation of a scan. A job that the executor does not take is dropped, and the executor's
-- own error is raised again.
pub refresh_security_scans : Text → Bool → AppState → Option MutationError × AppState
refresh_security_scans id submitted state =
    let (error, reserved) = reserve_mutation_state (reserve_scan_job id) false state in
    if submitted then (error, reserved) else elim error [
      | some e ↦ (some e, reserved)
      | none ↦ (
        none,
        record reserved { web_security_scan_jobs = pop reserved.web_security_scan_jobs id },
      )
    ]

-- `_submit_apply_job_state` behind its gate: a job that the executor does not take is deleted again.
enqueue : Text → List ℕ → Bool → AppState → Option MutationError × AppState
enqueue id selected_line_numbers submitted state =
    let jobs =
      register_job apply_status state.web_apply_jobs id (new_job id selected_line_numbers) in
    (none, record state { web_apply_jobs = if submitted then jobs else pop jobs id })

pub submit_apply_job : Text → List ℕ → Bool → AppState → Option MutationError × AppState
submit_apply_job id selected_line_numbers submitted =
    reserve_mutation_state (enqueue id selected_line_numbers submitted) true

-- The fields that the workers set by `_update_apply_job`.
pub data JobChange : Type 0 where
  set_status : JobStatus → JobChange
  set_run_id : Option ℕ → JobChange
  set_log_file : Text → JobChange
  set_started_at : Text → JobChange
  set_finished_at : Text → JobChange
  set_error : Text → JobChange

apply_change : WebApplyJob → JobChange → WebApplyJob
apply_change job (set_status s) = record job { status = s }
apply_change job (set_run_id r) = record job { run_id = r }
apply_change job (set_log_file f) = record job { log_file = f }
apply_change job (set_started_at t) = record job { started_at = some t }
apply_change job (set_finished_at t) = record job { finished_at = some t }
apply_change job (set_error e) = record job { error = e }

apply_changes : WebApplyJob → List JobChange → WebApplyJob
apply_changes job [] = job
apply_changes job (change ∷ changes) = apply_changes (apply_change job change) changes

pub changed : WebApplyJob → List JobChange → WebApplyJob
changed job changes =
    let job' = apply_changes job changes in record job' { version = job'.version + 1 }

pub update_apply_job : Dict Text WebApplyJob → Text → List JobChange → Dict Text WebApplyJob
update_apply_job jobs id changes = elim (lookup jobs id) [
  | none ↦ jobs
  | some job ↦ put jobs id (changed job changes)
]

-- A status that is no progress status is shown as running.
progress_event : Text → UpdaterProgressEvent → WebApplyJobProgressEvent
progress_event now event = record {
  phase = event.phase;
  status = elim event.status [ none ↦ ProgressStatus.running | some s ↦ s ];
  message = event.message;
  created_at = now;
  stack = event.stack;
  services = event.services;
  line_numbers = event.line_numbers;
}

pub append_apply_job_progress :
    Dict Text WebApplyJob → Text → Text → UpdaterProgressEvent → Dict Text WebApplyJob
append_apply_job_progress jobs id now event = elim (lookup jobs id) [
  | none ↦ jobs
  | some job ↦ put jobs id (record job { progress = job.progress ++ progress_event now event ∷ [] })
]

-- The fields that the worker of a scan sets by `_update_job`, without the result.
pub data ScanChange : Type 0 where
  set_status : JobStatus → ScanChange
  set_total_count : ℕ → ScanChange
  set_completed_count : ℕ → ScanChange
  set_error : Text → ScanChange

apply_scan_change : WebSecurityScanJob → ScanChange → WebSecurityScanJob
apply_scan_change job (set_status s) = record job { status = s }
apply_scan_change job (set_total_count n) = record job { total_count = n }
apply_scan_change job (set_completed_count n) = record job { completed_count = n }
apply_scan_change job (set_error e) = record job { error = e }

scan_changed : WebSecurityScanJob → List ScanChange → WebSecurityScanJob
scan_changed job [] = job
scan_changed job (change ∷ changes) = scan_changed (apply_scan_change job change) changes

pub update_scan_job :
    Dict Text WebSecurityScanJob → Text → List ScanChange → Dict Text WebSecurityScanJob
update_scan_job jobs id changes = elim (lookup jobs id) [
  | none ↦ jobs
  | some job ↦ prune_jobs scan_status (put jobs id (scan_changed job changes))
]
