-- ===== src/Lifecycle/Recreate.antt =====
-- The recreation of the containers and the health gate (src/wudup/updater_lifecycle_recreate.py).
use wudup.Prelude.{
  Text, codes, text_eq, Bool, true, false, not, ◌&&◌, none, some, List, [], ◌∷◌, if◌then◌else◌,
  contains, filter,
}
use wudup.Matching.Lines.{StackStatus}
use wudup.Lifecycle.Run.{
  Outcome, done, raised, command_error, UpdateMode, live, pause, stop, StackRun, UpResult,
  StopResult, Env, M, ◌>>=◌, ◌>>◌, pure, ask, get, modify, attempt, failure, success, is_empty,
  is_none, compose_rewrite_applied, record_failure,
}
use wudup.Lifecycle.Rollback.{handle_compose_rewrite_failure}

-- `running_stop_services or running_services`
unfoldable pub services_to_stop : StackRun → List Text
services_to_stop s =
    let running = filter (λ x. contains s.running_services x) s.stop_services in
    if is_empty running then s.running_services else running

-- Only a failed stop counts: a failed pause is logged.
unfoldable pub is_stop : UpdateMode → Bool
is_stop stop = true
is_stop mode = false

-- The result of an up that did not happen.
unfoldable pub idle : UpResult
idle = record { ok = true; wait_handled = false }

module _ (env : Env) where
  -- A failure is rolled back where the Compose file was rewritten, and recorded otherwise.
  unfoldable pub rewritten_or : Bool → Text → Text → M StackStatus → M StackStatus
  rewritten_or health_known reason phase otherwise = get >>= λ s.
      if compose_rewrite_applied s && not (is_none s.compose_backup)
      then handle_compose_rewrite_failure env health_known reason phase
      else otherwise

  unfoldable pub stop_failure : UpdateMode → Outcome (Unit {0}) → M StopResult
  stop_failure mode (done _) = pure (record { failed = false })
  stop_failure mode (raised command_error) = pure (record { failed = is_stop mode })
  stop_failure mode (raised e) = ask (raised e)

  unfoldable pub prepare : UpdateMode → List Text → M StopResult
  prepare mode [] = pure (record { failed = false })
  prepare live (s ∷ services) = pure (record { failed = false })
  prepare pause (s ∷ services) =
      attempt (ask (env.stop_or_pause (s ∷ services))) >>= stop_failure pause
  prepare stop (s ∷ services) =
      attempt (ask (env.stop_or_pause (s ∷ services))) >>= stop_failure stop

  unfoldable pub prepare_for_recreate : M StopResult
  prepare_for_recreate = get >>= λ s. prepare env.mode (services_to_stop s)

  -- `_unpause_after_recreate`: the status of a failure, or else the result of the up.
  pub data Unpaused : Type 0 where
    ended : StackStatus → Unpaused
    unpaused_up : UpResult → Unpaused

  unfoldable pub unpause_outcome : UpResult → Outcome (Unit {0}) → M Unpaused
  unpause_outcome up (done _) = pure (unpaused_up (record up { wait_handled = false }))
  unpause_outcome up (raised command_error) =
      rewritten_or false (codes "unpause-failed") (codes "unpause") (
        ask env.health_details
        >> record_failure (codes "unpause") (codes "unpause-failed")
        >> pure (failure (codes "unpause-failed")))
      >>= λ status. pure (ended status)
  unpause_outcome up (raised e) = ask (raised e)

  unfoldable pub unpause_for : UpdateMode → List Text → UpResult → M Unpaused
  unpause_for pause (s ∷ services) up =
      attempt (ask (env.unpause (s ∷ services))) >>= unpause_outcome up
  unpause_for mode services up = pure (unpaused_up up)

  unfoldable pub unpause_after_recreate : UpResult → M Unpaused
  unpause_after_recreate up = get >>= λ s. unpause_for env.mode s.running_services up

  unfoldable pub start_outcome : Outcome (Unit {0}) → M (Unit {0})
  start_outcome (done _) = pure tt
  start_outcome (raised command_error) = pure tt
  start_outcome (raised e) = ask (raised e)

  unfoldable pub start_for : UpdateMode → List Text → M (Unit {0})
  start_for stop (s ∷ services) = attempt (ask (env.start (s ∷ services))) >>= start_outcome
  start_for mode services = pure tt

  -- `_restart_services_stopped_for_update`, without its note.
  unfoldable pub restart_services_stopped_for_update : M (Unit {0})
  restart_services_stopped_for_update = get >>= λ s. start_for env.mode (services_to_stop s)

  unfoldable pub up_failed : StopResult → Bool → M StackStatus
  up_failed stopped restart =
      rewritten_or true
        (if stopped.failed then codes "down-failed" else codes "up-or-health-failed")
        (if stopped.failed then codes "stop" else codes "up")
        ((if restart then restart_services_stopped_for_update else pure tt)
          >> (if stopped.failed
              then (ask env.health_details >> record_failure (codes "stop") (codes "down-failed"))
              else pure tt)
          >> record_failure (codes "up") (codes "up-or-health-failed")
          >> pure (failure (codes "up-or-health-failed")))

  unfoldable pub up_failed_after : StopResult → Bool → Unpaused → M StackStatus
  up_failed_after stopped restart (ended status) = pure status
  up_failed_after stopped restart (unpaused_up up) = up_failed stopped restart

  -- `_handle_compose_up_failure`
  unfoldable pub handle_compose_up_failure : StopResult → UpResult → Bool → Bool → M StackStatus
  handle_compose_up_failure stopped up prepared restart =
      (if prepared then unpause_after_recreate up else pure (unpaused_up up))
      >>= up_failed_after stopped (prepared && restart)

  -- The end behind a passed health gate.
  unfoldable pub health_passed : StopResult → M StackStatus
  health_passed stopped =
      if stopped.failed
      then rewritten_or false (codes "down-failed") (codes "stop") (
          ask env.health_details
          >> record_failure (codes "stop") (codes "down-failed")
          >> pure (failure (codes "down-failed")))
      else (modify (λ s. record s {
        health_verified = true;
        runtime_after = some (s.running_services, s.stopped_services);
      })
          >> pure (success (codes "updated")))

  unfoldable pub health_checked : StopResult → Bool → M StackStatus
  health_checked stopped true = health_passed stopped
  health_checked stopped false =
      ask env.health_details
      >> rewritten_or true (codes "health-failed") (codes "health") (
          record_failure (codes "health") (codes "health-failed")
          >> pure (failure (codes "health-failed")))

  unfoldable pub finish_for : List Text → StopResult → UpResult → M StackStatus
  finish_for [] stopped up =
      modify (λ s. record s { health_verified = true }) >> pure (success (codes "updated"))
  finish_for (s ∷ services) stopped up =
      (if up.wait_handled then pure true else ask (env.wait_for_health (s ∷ services)))
      >>= health_checked stopped

  -- `_finish_health_after_recreate`
  unfoldable pub finish_health_after_recreate : StopResult → Unpaused → M StackStatus
  finish_health_after_recreate stopped (ended status) = pure status
  finish_health_after_recreate stopped (unpaused_up up) =
      get >>= λ s. finish_for s.running_services stopped up

  unfoldable pub kept_stopped : StopResult → UpResult → UpResult → M StackStatus
  kept_stopped stopped up verified =
      if not verified.ok
      then handle_compose_up_failure stopped verified true false
      else (unpause_after_recreate up >>= finish_health_after_recreate stopped)

  unfoldable pub brought_up : StopResult → UpResult → M StackStatus
  brought_up stopped up =
      if not up.ok
      then handle_compose_up_failure stopped up true true
      else (get >>= λ s.
          (if is_empty s.stopped_services
            then pure idle
            else ask (env.verify_stopped s.stopped_services))
          >>= kept_stopped stopped up)

  unfoldable pub recreate_running : UpResult → M StackStatus
  recreate_running no_start =
      if not no_start.ok
      then handle_compose_up_failure (record { failed = false }) no_start false true
      else (prepare_for_recreate >>= λ stopped. get >>= λ s.
          (if is_empty s.running_services then pure idle else ask (env.up s.running_services))
          >>= brought_up stopped)

  unfoldable pub recreate_and_verify_stack : M StackStatus
  recreate_and_verify_stack = modify (λ s. record s { runtime_after = none }) >> get >>= λ s.
      (if is_empty s.stopped_services then pure idle else ask (env.up_no_start s.stopped_services))
      >>= recreate_running
