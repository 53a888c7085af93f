-- ===== src/Jobs/Gate/Exclusion.antt =====
-- The steps of the web application that touch the gate, as a relation on its state, and the
-- exclusion that the gate gives: of the apply jobs, the scans, the self-update and the container
-- restarts at most one is active.
pub mod Laws
use wudup.Prelude.{ℕ, ◌+◌, Text, text_eq, ◌≡◌, Bool, true, Option, some, List, if◌then◌else◌}
use wudup.Prelude.Dict.{lookup}
use wudup.Jobs.Status.{is_active, active_count}
use wudup.Jobs.Model.{
  UpdaterProgressEvent, WebApplyJob, WebSecurityScanJob, AppState, apply_status, scan_status,
  initial,
}
use wudup.Jobs.Gate.{
  JobChange, ScanChange, reserve_self_update, release_self_update, reserve_container_restart,
  release_container_restart, refresh_security_scans, submit_apply_job, update_apply_job,
  append_apply_job_progress, update_scan_job,
}

pub data Step : AppState → AppState → Type 0 where
  submitted :
      (id : Text) (lines : List ℕ) (taken : Bool) (s : AppState)
      → Step s (submit_apply_job id lines taken s).1
  scans_refreshed :
      (id : Text) (taken : Bool) (s : AppState) → Step s (refresh_security_scans id taken s).1
  self_update_reserved : (s : AppState) → Step s (reserve_self_update s).1
  self_update_released : (s : AppState) → Step s (release_self_update s)
  restart_reserved : (s : AppState) → Step s (reserve_container_restart s).1
  restart_released : (s : AppState) → Step s (release_container_restart s)
  -- A worker updates its own job while that is active.
  job_updated :
      (id : Text) (changes : List JobChange) (job : WebApplyJob) (s : AppState)
      → lookup s.web_apply_jobs id ≡ some job
      → is_active job.status ≡ true
      → Step s (record s { web_apply_jobs = update_apply_job s.web_apply_jobs id changes })
  progress_appended :
      (id now : Text) (event : UpdaterProgressEvent) (s : AppState)
      → Step s
          (record s { web_apply_jobs = append_apply_job_progress s.web_apply_jobs id now event })
  scan_updated :
      (id : Text) (changes : List ScanChange) (job : WebSecurityScanJob) (s : AppState)
      → lookup s.web_security_scan_jobs id ≡ some job
      → is_active job.status ≡ true
      → Step s (record s {
        web_security_scan_jobs = update_scan_job s.web_security_scan_jobs id changes;
      })

pub data Reach : AppState → Type 0 where
  start : Reach initial
  next : {s s' : AppState} → Reach s → Step s s' → Reach s'

-- The mutations that are under way.
pub mutations : AppState → ℕ
mutations s =
    active_count apply_status s.web_apply_jobs
    + (if s.web_self_update_running then 1 else 0)
    + (if s.web_container_restart_running then 1 else 0)
    + active_count scan_status s.web_security_scan_jobs
