-- ===== src/Jobs/Tests.antt =====
-- Runs of the jobs on concrete states.
use wudup.Prelude.{
  ℕ, ◌≤◌, ◌+◌, max, Text, text_eq, codes, ◌≡◌, ap, refl, true, none, some, List, [], ◌∷◌, arith,
  length,
}
use wudup.Prelude.Dict.{Dict, lookup}
use wudup.Jobs.Status.{running, success, active_count, any_active, register_job, job_limit}
use wudup.Jobs.Status.Eviction.{register_job-bound, register_job-keeps}
use wudup.Jobs.Model.{
  WebApplyJob, WebSecurityScanJob, AppState, apply_status, initial, new_job, new_scan_job,
}
use wudup.Jobs.Gate.{
  active_security_scan_error, apply_job_running, active_mutation_error, submit_apply_job, JobChange,
  set_status,
}
use wudup.Jobs.Gate.Exclusion.{submitted, start, next, mutations}
use wudup.Jobs.Gate.Exclusion.Laws.{Reach-mutations}

abbrev lines : List ℕ
lines = 3 ∷ 5 ∷ []

abbrev started : WebApplyJob
started = record (new_job (codes "a") lines) { status = running }

abbrev done : WebApplyJob
done = record (new_job (codes "b") []) { status = success }

abbrev jobs : Dict Text WebApplyJob
jobs = (codes "a", started) ∷ (codes "b", done) ∷ []

abbrev busy : AppState
busy = record initial { web_apply_jobs = jobs }

busy_gate : active_mutation_error busy true ≡ some apply_job_running
unfolding active_mutation_error any_active
busy_gate = refl

idle_gate : active_mutation_error initial true ≡ none
unfolding active_mutation_error any_active active_security_scan_error
idle_gate = refl

abbrev finish : List JobChange
finish = set_status success ∷ []

register_job-bound_example :
    length (register_job apply_status jobs (codes "cc") (new_job (codes "cc") lines))
    ≤ max job_limit (active_count apply_status jobs + 1)
register_job-bound_example =
    register_job-bound apply_status jobs (codes "cc") (new_job (codes "cc") lines)
      (refl, (refl, tt))

register_job-keeps_example :
    lookup (register_job apply_status jobs (codes "cc") (new_job (codes "cc") lines)) (codes "a")
    ≡ some started
register_job-keeps_example =
    register_job-keeps apply_status jobs (codes "cc") (codes "a") (new_job (codes "cc") lines)
      started (refl, (refl, tt)) (λ e. omega (arith, ap (length {0}) e)) refl refl

abbrev scans : Dict Text WebSecurityScanJob
scans = (codes "s", new_scan_job (codes "s")) ∷ []

abbrev one_submitted : AppState
one_submitted = (submit_apply_job (codes "a") lines true initial).1

Reach-mutations_example : mutations one_submitted ≤ 1
Reach-mutations_example =
    Reach-mutations one_submitted (next start (submitted (codes "a") lines true initial))
