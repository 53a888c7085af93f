-- ===== src/Lifecycle/Update.antt =====
-- `_update_stack` behind its built state (src/wudup/updater_lifecycle.py).
use wudup.Prelude.{codes, Option, none, some, List, [], ◌∷◌}
use wudup.Matching.Lines.{StackStatus}
use wudup.Lifecycle.Run.{
  interrupted, Outcome, done, raised, Env, M, ◌>>=◌, ◌>>◌, pure, ask, attempt, failure,
}
use wudup.Lifecycle.Rollback.{restore_compose_after_abort, discard_compose_backup}
use wudup.Lifecycle.Rewrite.{
  apply_tag_updates, apply_digest_pin_updates, apply_digest_unpin_updates,
}
use wudup.Lifecycle.Pull.{pull_and_verify_images, finish_pull_phase}
use wudup.Lifecycle.Recreate.{recreate_and_verify_stack}

module _ (env : Env) where
  -- The loop over the steps: the first status ends it.
  unfoldable pub after_step : M StackStatus → Option StackStatus → M StackStatus
  after_step rest (some status) = pure status
  after_step rest none = rest

  unfoldable pub run_steps : List (M (Option StackStatus)) → M StackStatus → M StackStatus
  run_steps [] last = last
  run_steps (step ∷ steps) last = step >>= after_step (run_steps steps last)

  unfoldable pub run_stack_update_steps : M StackStatus
  run_stack_update_steps =
      run_steps
        (apply_tag_updates env
          ∷ apply_digest_unpin_updates env
          ∷ pull_and_verify_images env
          ∷ apply_digest_pin_updates env
          ∷ finish_pull_phase env
          ∷ [])
        (recreate_and_verify_stack env)

  -- `contextlib.suppress(Exception)`
  unfoldable pub suppressed : Outcome (Unit {0}) → M (Unit {0})
  suppressed (raised interrupted) = ask (raised interrupted)
  suppressed o = pure tt

  -- Whatever stops the steps restores the file, ends with the backup, and goes on.
  unfoldable pub update_outcome : Outcome StackStatus → M StackStatus
  update_outcome (done status) = discard_compose_backup env status >> pure status
  update_outcome (raised e) =
      attempt (restore_compose_after_abort env)
      >>= suppressed
      >> attempt (discard_compose_backup env (failure (codes "unexpected-error")))
      >>= suppressed
      >> ask (raised e)

  unfoldable pub update_stack : M StackStatus
  update_stack = attempt run_stack_update_steps >>= update_outcome
