-- ===== src/Lifecycle/Rollback.antt =====
-- The way back: the rollback after a failure, the restoration after an abort, and the end of the
-- backup (src/wudup/updater_lifecycle_rewrite.py).
use wudup.Prelude.{
  Text, text_eq, Bool, true, false, not, ◌&&◌, ◌||◌, Option, none, some, List, [], ◌∷◌,
  if◌then◌else◌,
}
use wudup.Matching.Lines.{StackStatus, is_success}
use wudup.Lifecycle.Run.{
  Outcome, done, raised, compose_error, os_error, StackRun, UpResult, RollbackResult,
  restored_and_healthy, restored_and_stopped, manual_review_required, Env, M, ◌>>=◌, ◌>>◌, pure,
  ask, get, modify, attempt, failure, is_empty, is_none,
}
use wudup.Lifecycle.Persistence.{restore_compose_backup}

-- A step that is taken where there is something to do.
abbrev pub unless_empty : {A : Type 0} → List Text → A → M A → M A
unless_empty [] a m = pure a
unless_empty (x ∷ xs) a m = m

module _ (env : Env) where
  unfoldable pub no_result : UpResult
  no_result = record { ok = true; wait_handled = false }

  -- `_restore_tag_update_services`
  unfoldable pub restore_tag_update_services : List Text → List Text → M Bool
  restore_tag_update_services active stopped =
      unless_empty stopped no_result (ask (env.rollback_up_no_start stopped)) >>= λ no_start.
      unless_empty active no_result (ask (env.rollback_up active)) >>= λ up.
      (if no_start.ok && up.ok && not (is_empty stopped)
        then ask (env.rollback_verify_stopped stopped)
        else pure no_start)
      >>= λ verified.
          if verified.ok && up.ok && not (is_empty active)
          then (if up.wait_handled then pure true else ask (env.rollback_health active))
          else pure (verified.ok && up.ok)

  -- Nothing is restored where nothing was written.
  unfoldable pub restore_written : List Text → Text → M (Unit {0})
  restore_written [] backup = pure tt
  restore_written (newest ∷ older) backup =
      restore_compose_backup env backup newest env.rollback_replace env.rollback_sync >>= λ durable.
      modify (λ s. record s { compose_restored = durable })

  unfoldable pub rollback_result : StackRun → Bool → M RollbackResult
  rollback_result s false = pure manual_review_required
  rollback_result s true =
      modify (λ t. record t { runtime_after = some (s.running_services, s.stopped_services) })
      >> pure (if is_empty s.running_services then restored_and_stopped else restored_and_healthy)

  unfoldable pub roll_back : Text → M RollbackResult
  roll_back backup = get >>= λ s.
      restore_written s.compose_written_hashes backup
      >> modify (λ t. record t { runtime_after = none })
      >> restore_tag_update_services s.running_services s.stopped_services
      >>= rollback_result s

  -- A Compose or file error leaves the rollback to the operator; any other goes on.
  unfoldable pub rollback_outcome : Outcome RollbackResult → M RollbackResult
  rollback_outcome (done r) = pure r
  rollback_outcome (raised compose_error) = pure manual_review_required
  rollback_outcome (raised os_error) = pure manual_review_required
  rollback_outcome (raised e) = ask (raised e)

  -- A file error of the incident log is logged only.
  unfoldable pub incident_logged : Outcome (Unit {0}) → M (Unit {0})
  incident_logged (done _) = pure tt
  incident_logged (raised os_error) = pure tt
  incident_logged (raised e) = ask (raised e)

  unfoldable pub failure_from : Option Text → Bool → Text → Text → M StackStatus
  failure_from none health_known reason phase = pure (failure reason)
  failure_from (some backup) health_known reason phase =
      (if health_known then pure tt else ask env.health_details)
      >> attempt (roll_back backup)
      >>= rollback_outcome
      >>= λ result.
          modify (λ s. record s {
            failures =
                record { phase = phase; reason = reason; rollback = some result } ∷ s.failures;
          })
          >> incident_logged env.incident_log
          >> pure (failure reason)

  -- `_handle_compose_rewrite_failure`, whose `_handle_tag_update_failure` tests the backup again.
  -- The details of the containers' health are asked for where they are not known.
  unfoldable pub handle_compose_rewrite_failure : Bool → Text → Text → M StackStatus
  handle_compose_rewrite_failure health_known reason phase =
      get >>= λ s. failure_from s.compose_backup health_known reason phase

  -- A Compose or file error of the restoration is logged only.
  unfoldable pub abort_outcome : Outcome Bool → M (Unit {0})
  abort_outcome (done durable) = modify (λ s. record s { compose_restored = durable })
  abort_outcome (raised compose_error) = pure tt
  abort_outcome (raised os_error) = pure tt
  abort_outcome (raised e) = ask (raised e)

  unfoldable pub restore_from : Option Text → List Text → Bool → M (Unit {0})
  restore_from none hashes settled = pure tt
  restore_from (some backup) [] settled = pure tt
  restore_from (some backup) (newest ∷ older) settled =
      if settled
      then pure tt
      else attempt (restore_compose_backup env backup newest env.abort_replace env.abort_sync)
        >>= abort_outcome

  -- `_restore_compose_after_abort`
  unfoldable pub restore_compose_after_abort : M (Unit {0})
  restore_compose_after_abort = get >>= λ s.
      restore_from s.compose_backup s.compose_written_hashes
        (s.compose_restored || s.health_verified)

  unfoldable pub unlinked : Outcome (Unit {0}) → M (Unit {0})
  unlinked (done _) = modify (λ s. record s { compose_backup = none })
  unlinked (raised os_error) = pure tt
  unlinked (raised e) = ask (raised e)

  -- `_discard_compose_backup`: the backup stays where it holds the only copy of the old file.
  unfoldable pub discard_compose_backup : StackStatus → M (Unit {0})
  discard_compose_backup status = get >>= λ s.
      if is_none s.compose_backup
      then pure tt
      else if not (is_success status)
          && not (is_empty s.compose_written_hashes)
          && not s.compose_restored
          && not s.health_verified
      then pure tt
      else unlinked env.unlink_backup
