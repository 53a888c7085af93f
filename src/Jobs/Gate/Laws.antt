-- ===== src/Jobs/Gate/Laws.antt =====
-- What the operations do on each of their branches.
use wudup.Prelude.{
  ℕ, ◌+◌, Text, ◌≡◌, refl, ap, inl, inr, Bool, true, false, none, some, List, [], ◌∷◌, arith,
  text_eq, ◌==◌, if◌then◌else◌, Option-cases, beq_refl,
}
use wudup.Prelude.Dict.{Dict, lookup, lookup-put, lookup-pop}
use wudup.Jobs.Model.{AppState, WebApplyJob}
use wudup.Jobs.Gate.{
  new_job, apply_status, register_job, MutationError, active_mutation_error, submit_apply_job,
  reserve_mutation_state, enqueue, update_apply_job, apply_change, apply_changes, JobChange,
  set_status, set_run_id, set_log_file, set_started_at, set_finished_at, set_error, changed,
  reserve_with,
}

-- The error of a submission is the error of the gate, scan jobs included.
pub submit_apply_job-error :
    (id : Text) (lines : List ℕ) (submitted : Bool) (state : AppState)
    → (submit_apply_job id lines submitted state).0 ≡ active_mutation_error state true
unfolding submit_apply_job reserve_mutation_state enqueue
submit_apply_job-error id lines submitted state =
    elim (Option-cases (active_mutation_error state true)) [
      | inl e ↦ rw (e, reserve_with) refl
      | inr (x, e) ↦ rw (e, reserve_with) refl
    ]

-- Where the gate has an error, a submission changes nothing.
pub submit_apply_job-refused :
    (id : Text) (lines : List ℕ) (submitted : Bool) (state : AppState) (error : MutationError)
    → active_mutation_error state true ≡ some error
    → submit_apply_job id lines submitted state ≡ (some error, state)
unfolding submit_apply_job reserve_mutation_state
submit_apply_job-refused id lines submitted state error e = rw (e, reserve_with) refl

-- Where the gate has no error, a job that the executor does not take is not registered.
pub submit_apply_job-dropped :
    (id : Text) (lines : List ℕ) (state : AppState)
    → active_mutation_error state true ≡ none
    → lookup (submit_apply_job id lines false state).1.web_apply_jobs id ≡ none
unfolding submit_apply_job reserve_mutation_state enqueue
submit_apply_job-dropped id lines state e =
    let jobs = register_job apply_status state.web_apply_jobs id (new_job id lines) in
    rw (e, reserve_with) (ground (arith, lookup-pop jobs id id, beq_refl id))

version-apply_changes :
    (job : WebApplyJob) (changes : List JobChange)
    → (apply_changes job changes).version ≡ job.version
unfolding apply_changes apply_change
version-apply_changes job [] = refl
version-apply_changes job (set_status s ∷ changes) =
    version-apply_changes (record job { status = s }) changes
version-apply_changes job (set_run_id r ∷ changes) =
    version-apply_changes (record job { run_id = r }) changes
version-apply_changes job (set_log_file f ∷ changes) =
    version-apply_changes (record job { log_file = f }) changes
version-apply_changes job (set_started_at t ∷ changes) =
    version-apply_changes (record job { started_at = some t }) changes
version-apply_changes job (set_finished_at t ∷ changes) =
    version-apply_changes (record job { finished_at = some t }) changes
version-apply_changes job (set_error e ∷ changes) =
    version-apply_changes (record job { error = e }) changes

progress-apply_changes :
    (job : WebApplyJob) (changes : List JobChange)
    → (apply_changes job changes).progress ≡ job.progress
unfolding apply_changes apply_change
progress-apply_changes job [] = refl
progress-apply_changes job (set_status s ∷ changes) =
    progress-apply_changes (record job { status = s }) changes
progress-apply_changes job (set_run_id r ∷ changes) =
    progress-apply_changes (record job { run_id = r }) changes
progress-apply_changes job (set_log_file f ∷ changes) =
    progress-apply_changes (record job { log_file = f }) changes
progress-apply_changes job (set_started_at t ∷ changes) =
    progress-apply_changes (record job { started_at = some t }) changes
progress-apply_changes job (set_finished_at t ∷ changes) =
    progress-apply_changes (record job { finished_at = some t }) changes
progress-apply_changes job (set_error e ∷ changes) =
    progress-apply_changes (record job { error = e }) changes

-- An update of a registered job makes its version one greater and keeps its progress, and changes no
-- other job.
pub update_apply_job_lem :
    (jobs : Dict Text WebApplyJob) (id other : Text) (job : WebApplyJob) (changes : List JobChange)
    → lookup jobs id ≡ some job
    → ((changed job changes).version ≡ job.version + 1)
      × ((changed job changes).progress ≡ job.progress)
      × (lookup (update_apply_job jobs id changes) other
          ≡ (if id == other then some (changed job changes) else lookup jobs other))
unfolding update_apply_job changed
update_apply_job_lem jobs id other job changes e = (
  ap (λ (v : ℕ). v + 1) (version-apply_changes job changes),
  progress-apply_changes job changes,
  rw (update_apply_job, e) (lookup-put jobs id other (changed job changes)),
)
