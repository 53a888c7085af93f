-- ===== src/Jobs/Model.antt =====
-- The data of the jobs and the state that they share (src/wudup/web_models.py and
-- `initialize_apply_job_state` of src/wudup/web_job_registry.py).
use wudup.Prelude.{ℕ, Text, Bool, false, Option, none, List, [], text_eq}
use wudup.Prelude.Dict.{Dict}
use wudup.Jobs.Status.{JobStatus, queued}

pub data ProgressStatus : Type 0 where
  running success failure skipped : ProgressStatus

-- `UpdaterProgressEvent`: its status is any text.
pub record UpdaterProgressEvent : Type 0 where
  pub phase : Text
  pub status : Option ProgressStatus
  pub message : Text
  pub stack : Text
  pub services : List Text
  pub line_numbers : List ℕ

pub record WebApplyJobProgressEvent : Type 0 where
  pub phase : Text
  pub status : ProgressStatus
  pub message : Text
  pub created_at : Text
  pub stack : Text
  pub services : List Text
  pub line_numbers : List ℕ

pub record WebApplyJob : Type 0 where
  pub id : Text
  pub status : JobStatus
  pub selected_line_numbers : List ℕ
  pub version : ℕ
  pub run_id : Option ℕ
  pub log_file : Text
  pub started_at : Option Text
  pub finished_at : Option Text
  pub error : Text
  pub progress : List WebApplyJobProgressEvent

pub record WebSecurityScanJob : Type 0 where
  pub id : Text
  pub status : JobStatus
  pub total_count : ℕ
  pub completed_count : ℕ
  pub error : Text

pub record AppState : Type 0 where
  pub web_apply_jobs : Dict Text WebApplyJob
  pub web_self_update_running : Bool
  pub web_container_restart_running : Bool
  pub web_security_scan_jobs : Dict Text WebSecurityScanJob

-- `initialize_apply_job_state`, with no scan job yet.
abbrev pub initial : AppState
initial = record {
  web_apply_jobs = [];
  web_self_update_running = false;
  web_container_restart_running = false;
  web_security_scan_jobs = [];
}

abbrev pub apply_status : WebApplyJob → JobStatus
apply_status job = job.status

abbrev pub scan_status : WebSecurityScanJob → JobStatus
scan_status job = job.status

-- The jobs as they are submitted.
unfoldable pub new_scan_job : Text → WebSecurityScanJob
new_scan_job id = record {
  id = id;
  status = queued;
  total_count = 0;
  completed_count = 0;
  error = [];
}

unfoldable pub new_job : Text → List ℕ → WebApplyJob
new_job id selected_line_numbers = record {
  id = id;
  status = queued;
  selected_line_numbers = selected_line_numbers;
  version = 0;
  run_id = none;
  log_file = [];
  started_at = none;
  finished_at = none;
  error = [];
  progress = [];
}
