-- ===== src/Jobs/Status/Eviction.antt =====
-- Eviction keeps every active job, and bounds the number of jobs.
use wudup.Prelude.{
  min, ℕ, zero, suc, ◌+◌, ◌-◌, ◌≤◌, max, Text, ◌≡◌, ◌≢◌, refl, inl, inr, true, false, some, List,
  [], ◌∷◌, arith, text_eq, if◌then◌else◌, length, text_beq_iff, Bool-cases, beq_ne,
}
use wudup.Prelude.Dict.{
  Dict, lookup, put, pop, has_key, IsKeyed, lookup-put, lookup-pop, pop-IsKeyed, pop-missing,
  length-pop, length-put,
}
use wudup.Jobs.Status.{
  JobStatus, is_active, is_terminal, active_count, any_active, terminal_ids, pop_first, job_limit,
  register_job, prune_jobs,
}

terminal-inactive : (s : JobStatus) → is_terminal s ≡ true → is_active s ≡ false
terminal-inactive s h = ground arith

module _ {J : Type 0} (status_of : J → JobStatus) where
  pub any_active-count :
      (jobs : Dict Text J) → any_active status_of jobs ≡ false → active_count status_of jobs ≡ 0
  unfolding any_active active_count
  any_active-count [] h = refl
  any_active-count ((id, job) ∷ jobs) h = ground (arith, any_active-count jobs)

  pub active_count-put :
      (jobs : Dict Text J) (id : Text) (job : J)
      → active_count status_of (put jobs id job)
        ≤ active_count status_of jobs + (if is_active (status_of job) then 1 else 0)
  unfolding active_count
  active_count-put [] id job = omega arith
  active_count-put ((i, old) ∷ jobs) id job = ground (arith, active_count-put jobs id job)

  -- A job that replaces an active one adds none.
  pub active_count-replace :
      (jobs : Dict Text J) (id : Text) (old job : J)
      → lookup jobs id ≡ some old
      → is_active (status_of old) ≡ true
      → active_count status_of (put jobs id job) ≤ active_count status_of jobs
  unfolding active_count
  active_count-replace [] id old job h act = cc
  active_count-replace ((i, other) ∷ jobs) id old job h act =
      ground (arith, active_count-replace jobs id old job)

  -- A job of the same status changes no count.
  pub active_count-same :
      (jobs : Dict Text J) (id : Text) (old job : J)
      → lookup jobs id ≡ some old
      → status_of job ≡ status_of old
      → active_count status_of (put jobs id job) ≡ active_count status_of jobs
  unfolding active_count
  active_count-same [] id old job h same = cc
  active_count-same ((i, other) ∷ jobs) id old job h same =
      ground (arith, active_count-same jobs id old job, same)

  pub active_count-pop :
      (jobs : Dict Text J) (id : Text)
      → active_count status_of (pop jobs id) ≤ active_count status_of jobs
  unfolding active_count
  active_count-pop [] id = omega arith
  active_count-pop ((i, job) ∷ jobs) id = ground (arith, active_count-pop jobs id)

  active_count-pop_first :
      (n : ℕ) (ids : List Text) (jobs : Dict Text J)
      → active_count status_of (pop_first n ids jobs) ≤ active_count status_of jobs
  unfolding pop_first
  active_count-pop_first zero ids jobs = omega arith
  active_count-pop_first (suc n) [] jobs = omega arith
  active_count-pop_first (suc n) (id ∷ ids) jobs =
      omega (arith, active_count-pop_first n ids (pop jobs id), active_count-pop jobs id)

  pub register_job-count :
      (jobs : Dict Text J) (id : Text) (job : J)
      → active_count status_of (register_job status_of jobs id job)
        ≤ active_count status_of jobs + (if is_active (status_of job) then 1 else 0)
  unfolding register_job
  register_job-count jobs id job =
      let n = length jobs + 1 - job_limit in
      let ids = terminal_ids status_of jobs in
      omega
        (arith, active_count-put (pop_first n ids jobs) id job, active_count-pop_first n ids jobs)

  pub prune_jobs-count :
      (jobs : Dict Text J)
      → active_count status_of (prune_jobs status_of jobs) ≤ active_count status_of jobs
  unfolding prune_jobs
  prune_jobs-count jobs =
      active_count-pop_first (length jobs - job_limit) (terminal_ids status_of jobs) jobs

  -- The first finished job is one of the jobs, and without it the others stay finished.
  head-has_key :
      (jobs : Dict Text J) (id : Text) (ids : List Text)
      → terminal_ids status_of jobs ≡ id ∷ ids
      → has_key jobs id ≡ true
  unfolding terminal_ids
  head-has_key [] id ids h = cc
  head-has_key ((i, job) ∷ jobs) id ids h =
      ground (arith, head-has_key jobs id ids, text_beq_iff i id)

  terminal_ids-pop :
      (jobs : Dict Text J) (id : Text) (ids : List Text)
      → IsKeyed jobs
      → terminal_ids status_of jobs ≡ id ∷ ids
      → terminal_ids status_of (pop jobs id) ≡ ids
  unfolding terminal_ids
  terminal_ids-pop [] id ids k h = cc
  terminal_ids-pop ((i, job) ∷ jobs) id ids (fresh, k) h =
      elim (Bool-cases (is_terminal (status_of job))) [
        | inl t ↦ ground (arith, pop-missing jobs id, text_beq_iff i id, text_beq_iff id i)
        | inr f ↦
            ground
              (arith, terminal_ids-pop jobs id ids k, head-has_key jobs id ids, text_beq_iff i id)
      ]

  length-active-terminal :
      (jobs : Dict Text J)
      → length jobs ≡ active_count status_of jobs + length (terminal_ids status_of jobs)
  unfolding active_count terminal_ids
  length-active-terminal [] = omega arith
  length-active-terminal ((i, job) ∷ jobs) = ground (arith, length-active-terminal jobs)

  pub pop_first-IsKeyed :
      (n : ℕ) (ids : List Text) (jobs : Dict Text J) → IsKeyed jobs → IsKeyed (pop_first n ids jobs)
  unfolding pop_first
  pop_first-IsKeyed zero ids jobs k = k
  pop_first-IsKeyed (suc n) [] jobs k = k
  pop_first-IsKeyed (suc n) (id ∷ ids) jobs k =
      pop_first-IsKeyed n ids (pop jobs id) (pop-IsKeyed jobs id k)

  length-pop_first :
      (n : ℕ) (ids : List Text) (jobs : Dict Text J)
      → IsKeyed jobs
      → terminal_ids status_of jobs ≡ ids
      → length (pop_first n ids jobs) + min n (length ids) ≤ length jobs
  unfolding pop_first
  length-pop_first zero ids jobs k e = omega arith
  length-pop_first (suc n) [] jobs k e = omega arith
  length-pop_first (suc n) (id ∷ ids) jobs k e = omega (
    arith,
    length-pop_first n ids (pop jobs id) (pop-IsKeyed jobs id k) (terminal_ids-pop jobs id ids k e),
    length-pop jobs id (head-has_key jobs id ids e),
  )

  -- Registering a job in a dictionary with distinct keys leaves at most `job_limit` jobs, or the
  -- active ones and the new one where those are more.
  pub register_job-bound :
      (jobs : Dict Text J) (id : Text) (job : J)
      → IsKeyed jobs
      → length (register_job status_of jobs id job)
        ≤ max job_limit (active_count status_of jobs + 1)
  unfolding register_job job_limit
  register_job-bound jobs id job k =
      let ids = terminal_ids status_of jobs in
      let n = length jobs + 1 - 20 in
      omega (
        arith,
        length-put (pop_first n ids jobs) id job,
        length-pop_first n ids jobs k refl,
        length-active-terminal jobs,
      )

  -- Pruning a dictionary with distinct keys leaves at most `job_limit` jobs, or the active ones where
  -- those are more.
  pub prune_jobs-bound :
      (jobs : Dict Text J)
      → IsKeyed jobs
      → length (prune_jobs status_of jobs) ≤ max job_limit (active_count status_of jobs)
  unfolding prune_jobs job_limit
  prune_jobs-bound jobs k =
      let ids = terminal_ids status_of jobs in
      let n = length jobs - 20 in
      omega (arith, length-pop_first n ids jobs k refl, length-active-terminal jobs)

  -- The first finished job is not active.
  head-inactive :
      (jobs : Dict Text J) (id : Text) (ids : List Text) (job : J)
      → IsKeyed jobs
      → terminal_ids status_of jobs ≡ id ∷ ids
      → lookup jobs id ≡ some job
      → is_active (status_of job) ≡ false
  unfolding terminal_ids
  head-inactive [] id ids job k h e = cc
  head-inactive ((i, other) ∷ jobs) id ids job (fresh, k) h e =
      elim (Bool-cases (is_terminal (status_of other))) [
        | inl t ↦ ground (arith, text_beq_iff i id, terminal-inactive (status_of other))
        | inr f ↦
            ground
              (arith, head-inactive jobs id ids job k, head-has_key jobs id ids, text_beq_iff i id)
      ]

  pop_first-keeps :
      (n : ℕ) (ids : List Text) (jobs : Dict Text J) (id : Text) (job : J)
      → IsKeyed jobs
      → terminal_ids status_of jobs ≡ ids
      → lookup jobs id ≡ some job
      → is_active (status_of job) ≡ true
      → lookup (pop_first n ids jobs) id ≡ some job
  unfolding pop_first
  pop_first-keeps zero ids jobs id job k e h act = h
  pop_first-keeps (suc n) [] jobs id job k e h act = h
  pop_first-keeps (suc n) (i ∷ ids) jobs id job k e h act =
      pop_first-keeps n ids (pop jobs i) id job (pop-IsKeyed jobs i k)
        (terminal_ids-pop jobs i ids k e)
        (ground (arith, lookup-pop jobs i id, text_beq_iff i id, head-inactive jobs i ids job k e))
        act

  -- Registering a job in a dictionary with distinct keys keeps every other job that is active.
  pub register_job-keeps :
      (jobs : Dict Text J) (id other : Text) (job kept : J)
      → IsKeyed jobs
      → id ≢ other
      → lookup jobs other ≡ some kept
      → is_active (status_of kept) ≡ true
      → lookup (register_job status_of jobs id job) other ≡ some kept
  unfolding register_job
  register_job-keeps jobs id other job kept k ne h act =
      let n = length jobs + 1 - job_limit in
      let ids = terminal_ids status_of jobs in
      ground (
        arith,
        lookup-put (pop_first n ids jobs) id other job,
        beq_ne ne,
        pop_first-keeps n ids jobs other kept k refl h act,
      )
