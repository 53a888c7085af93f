-- ===== src/Jobs/Gate/Exclusion/Laws.antt =====
-- At most one mutation is under way in every state that the application reaches.
use wudup.Prelude.{
  ℕ, ◌+◌, ◌≤◌, Text, ◌++◌, ◌∷◌, [], text_eq, ◌≡◌, refl, Bool, true, false, none, some, List, inl,
  inr, arith, Option-cases,
}
use wudup.Prelude.Dict.{put, pop}
use wudup.Jobs.Status.{is_active, active_count, register_job}
use wudup.Jobs.Model.{AppState, apply_status, scan_status, new_job, new_scan_job}
use wudup.Jobs.Gate.{
  scan_changed, progress_event, changed, WebSecurityScanJob, WebApplyJob, lookup,
  release_container_restart, ScanChange, UpdaterProgressEvent, JobChange, release_self_update,
  append_apply_job_progress, update_apply_job, update_scan_job, active_mutation_error,
  active_security_scan_error, reserve_mutation_state, reserve_with, enqueue, submit_apply_job,
  reserve_self_update, reserve_container_restart, reserve_scan_job, refresh_security_scans,
}
use wudup.Jobs.Gate.Exclusion.{
  is_active, reserve_container_restart, reserve_self_update, submit_apply_job, Step, submitted,
  scans_refreshed, self_update_reserved, self_update_released, restart_reserved, restart_released,
  job_updated, progress_appended, scan_updated, Reach, start, next, mutations,
}
use wudup.Jobs.Status.Eviction.{
  any_active-count, active_count-put, active_count-replace, active_count-same, active_count-pop,
  register_job-count, prune_jobs-count,
}

-- A submission that the gate admits comes to a state with no other mutation.
no_mutation : (s : AppState) → active_mutation_error s true ≡ none → mutations s ≡ 0
unfolding mutations active_mutation_error active_security_scan_error
no_mutation s h = ground (
  arith,
  any_active-count apply_status s.web_apply_jobs,
  any_active-count scan_status s.web_security_scan_jobs,
)

enqueue-mutations :
    (id : Text) (lines : List ℕ) (taken : Bool) (s : AppState)
    → mutations (enqueue id lines taken s).1 ≤ mutations s + 1
unfolding enqueue mutations
enqueue-mutations id lines taken s =
    let jobs = register_job apply_status s.web_apply_jobs id (new_job id lines) in
    ground (
      arith,
      register_job-count apply_status s.web_apply_jobs id (new_job id lines),
      active_count-pop apply_status jobs id,
    )

submit_apply_job-mutations :
    (id : Text) (lines : List ℕ) (taken : Bool) (s : AppState)
    → mutations s ≤ 1
    → mutations (submit_apply_job id lines taken s).1 ≤ 1
unfolding submit_apply_job reserve_mutation_state
submit_apply_job-mutations id lines taken s h = elim (Option-cases (active_mutation_error s true)) [
  | inl e ↦
      rw (e, reserve_with) (omega (arith, enqueue-mutations id lines taken s, no_mutation s e))
  | inr (x, e) ↦ rw (e, reserve_with) h
]

reserve_self_update-mutations :
    (s : AppState) → mutations s ≤ 1 → mutations (reserve_self_update s).1 ≤ 1
unfolding reserve_self_update reserve_mutation_state mutations
reserve_self_update-mutations s h = elim (Option-cases (active_mutation_error s true)) [
  | inl e ↦ rw (e, reserve_with) (ground (arith, no_mutation s e))
  | inr (x, e) ↦ rw (e, reserve_with) h
]

reserve_container_restart-mutations :
    (s : AppState) → mutations s ≤ 1 → mutations (reserve_container_restart s).1 ≤ 1
unfolding reserve_container_restart reserve_mutation_state mutations
reserve_container_restart-mutations s h = elim (Option-cases (active_mutation_error s true)) [
  | inl e ↦ rw (e, reserve_with) (ground (arith, no_mutation s e))
  | inr (x, e) ↦ rw (e, reserve_with) h
]

-- The gate of a scan has no error where there is no other mutation than scans.
no_other :
    (s : AppState)
    → active_mutation_error s false ≡ none
    → mutations s ≡ active_count scan_status s.web_security_scan_jobs
unfolding mutations active_mutation_error
no_other s h = ground (arith, any_active-count apply_status s.web_apply_jobs)

reserve_scan_job-mutations :
    (id : Text) (s : AppState)
    → active_mutation_error s false ≡ none
    → mutations s ≤ 1
    → mutations (reserve_scan_job id s).1 ≤ 1
unfolding reserve_scan_job mutations
reserve_scan_job-mutations id s e h = ground (
  arith,
  no_other s e,
  any_active-count scan_status s.web_security_scan_jobs,
  prune_jobs-count scan_status (put s.web_security_scan_jobs id (new_scan_job id)),
  active_count-put scan_status s.web_security_scan_jobs id (new_scan_job id),
)

drop_scan-mutations :
    (id : Text) (s : AppState)
    → mutations (record s { web_security_scan_jobs = pop s.web_security_scan_jobs id })
      ≤ mutations s
unfolding mutations
drop_scan-mutations id s = omega (arith, active_count-pop scan_status s.web_security_scan_jobs id)

refresh_security_scans-mutations :
    (id : Text) (taken : Bool) (s : AppState)
    → mutations s ≤ 1
    → mutations (refresh_security_scans id taken s).1 ≤ 1
unfolding refresh_security_scans reserve_mutation_state
refresh_security_scans-mutations id taken s h =
    elim (Option-cases (active_mutation_error s false)) [
      | inl e ↦
          rw (e, reserve_with)
            (ground (
              arith,
              reserve_scan_job-mutations id s e h,
              drop_scan-mutations id (reserve_scan_job id s).1,
            ))
      | inr (x, e) ↦ rw (e, reserve_with) (ground (arith, h))
    ]

update_apply_job-mutations :
    (id : Text) (changes : List JobChange) (job : WebApplyJob) (s : AppState)
    → lookup s.web_apply_jobs id ≡ some job
    → is_active job.status ≡ true
    → mutations (record s { web_apply_jobs = update_apply_job s.web_apply_jobs id changes })
      ≤ mutations s
unfolding mutations update_apply_job
update_apply_job-mutations id changes job s e act =
    rw (update_apply_job, e)
      (omega (
        arith,
        active_count-replace apply_status s.web_apply_jobs id job (changed job changes) e act,
      ))

append_apply_job_progress-mutations :
    (id now : Text) (event : UpdaterProgressEvent) (s : AppState)
    → mutations
        (record s { web_apply_jobs = append_apply_job_progress s.web_apply_jobs id now event })
      ≡ mutations s
unfolding mutations append_apply_job_progress
append_apply_job_progress-mutations id now event s =
    elim (Option-cases (lookup s.web_apply_jobs id)) [
      | inl e ↦ rw (append_apply_job_progress, e) refl
      | inr (job, e) ↦
          rw (append_apply_job_progress, e)
            (omega (
              arith,
              active_count-same apply_status s.web_apply_jobs id job
                  (record job { progress = job.progress ++ progress_event now event ∷ [] }) e refl,
            ))
    ]

update_scan_job-mutations :
    (id : Text) (changes : List ScanChange) (job : WebSecurityScanJob) (s : AppState)
    → lookup s.web_security_scan_jobs id ≡ some job
    → is_active job.status ≡ true
    → mutations
        (record s { web_security_scan_jobs = update_scan_job s.web_security_scan_jobs id changes })
      ≤ mutations s
unfolding mutations update_scan_job
update_scan_job-mutations id changes job s e act =
    let jobs = s.web_security_scan_jobs in
    rw (update_scan_job, e)
      (omega (
        arith,
        active_count-replace scan_status jobs id job (scan_changed job changes) e act,
        prune_jobs-count scan_status (put jobs id (scan_changed job changes)),
      ))

release-mutations :
    (s : AppState)
    → (mutations (release_self_update s) ≤ mutations s)
      × (mutations (release_container_restart s) ≤ mutations s)
unfolding mutations release_self_update release_container_restart
release-mutations s = ground arith

Step-mutations : {s s' : AppState} → Step s s' → mutations s ≤ 1 → mutations s' ≤ 1
Step-mutations (submitted id lines taken s) h = submit_apply_job-mutations id lines taken s h
Step-mutations (scans_refreshed id taken s) h = refresh_security_scans-mutations id taken s h
Step-mutations (self_update_reserved s) h = reserve_self_update-mutations s h
Step-mutations (self_update_released s) h = omega (arith, (release-mutations s).0)
Step-mutations (restart_reserved s) h = reserve_container_restart-mutations s h
Step-mutations (restart_released s) h = omega (arith, (release-mutations s).1)
Step-mutations (job_updated id changes job s e act) h =
    omega (arith, update_apply_job-mutations id changes job s e act)
Step-mutations (progress_appended id now event s) h =
    omega (arith, append_apply_job_progress-mutations id now event s)
Step-mutations (scan_updated id changes job s e act) h =
    omega (arith, update_scan_job-mutations id changes job s e act)

-- In every state that the steps reach from the initial one at most one mutation is under way: at
-- most one of the apply jobs, the scans, the self-update and the container restart is active.
pub Reach-mutations : (s : AppState) → Reach s → mutations s ≤ 1
unfolding mutations active_count
Reach-mutations s r = reached r
  where
    reached : {s : AppState} → Reach s → mutations s ≤ 1
    reached start = omega arith
    reached (next r step) = Step-mutations step (reached r)
