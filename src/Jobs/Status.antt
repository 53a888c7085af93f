-- ===== src/Jobs/Status.antt =====
-- Job states, and the eviction of finished jobs, for apply jobs and scan jobs alike.
pub mod Eviction
use wudup.Prelude.{
  ℕ, zero, suc, ◌+◌, ◌-◌, Text, Bool, true, false, ◌||◌, List, [], ◌∷◌, text_eq, if◌then◌else◌,
  length,
}
use wudup.Prelude.Dict.{Dict, pop, put}

pub data JobStatus : Type 0 where
  queued running success failure : JobStatus

-- `status in {"queued", "running"}`
abbrev pub is_active : JobStatus → Bool
is_active queued = true
is_active running = true
is_active success = false
is_active failure = false

-- `status in TERMINAL_APPLY_JOB_STATUSES`
abbrev pub is_terminal : JobStatus → Bool
is_terminal queued = false
is_terminal running = false
is_terminal success = true
is_terminal failure = true

module _ {J : Type 0} (status_of : J → JobStatus) where
  unfoldable pub active_count : Dict Text J → ℕ
  active_count [] = 0
  active_count ((id, job) ∷ jobs) = active_count jobs + (if is_active (status_of job) then 1 else 0)

  -- `any(job.status in {"queued", "running"} for job in jobs.values())`
  unfoldable pub any_active : Dict Text J → Bool
  any_active [] = false
  any_active ((id, job) ∷ jobs) = is_active (status_of job) || any_active jobs

  -- The finished jobs, the oldest first.
  pub terminal_ids : Dict Text J → List Text
  terminal_ids [] = []
  terminal_ids ((id, job) ∷ jobs) =
      let rest = terminal_ids jobs in if is_terminal (status_of job) then id ∷ rest else rest

-- `for job_id in ids[:n]: jobs.pop(job_id, None)`
pub pop_first {ℓ} : {J : Type ℓ} → ℕ → List Text → Dict Text J → Dict Text J
pop_first zero ids jobs = jobs
pop_first (suc n) [] jobs = jobs
pop_first (suc n) (id ∷ ids) jobs = pop_first n ids (pop jobs id)

pub job_limit : ℕ
job_limit = 20

module _ {J : Type 0} (status_of : J → JobStatus) where
  -- `_register_apply_job_unlocked`
  pub register_job : Dict Text J → Text → J → Dict Text J
  register_job jobs id job =
      put (pop_first (length jobs + 1 - job_limit) (terminal_ids status_of jobs) jobs) id job

  -- `_prune_security_scan_jobs_unlocked` with its default `keep`
  pub prune_jobs : Dict Text J → Dict Text J
  prune_jobs jobs = pop_first (length jobs - job_limit) (terminal_ids status_of jobs) jobs
