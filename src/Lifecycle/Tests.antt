-- ===== src/Lifecycle/Tests.antt =====
-- Runs of the update of one stack: a new tag is written, and the health gate fails, passes, or is
-- interrupted.
use wudup.Prelude.{codes, text_eq, ◌≡◌, ◌⊎◌, refl, Bool, true, false, none, some, [], ◌∷◌}
use wudup.Matching.Lines.{is_success}
use wudup.Lifecycle.Run.{
  Outcome, done, raised, interrupted, live, StackRun, Rewriting, UpResult, Env, failure, success,
  ◌>>=◌, pure, ask, get, modify, attempt, is_empty, is_none, compose_rewrite_applied,
  record_failure,
}
use wudup.Lifecycle.Persistence.{
  synced, atomic_replace, restore_compose_backup, backed_up, ensure_from, ensure_compose_backup,
  expected_from, expected_compose_hash,
}
use wudup.Lifecycle.Rollback.{
  no_result, restore_tag_update_services, restore_written, rollback_result, roll_back,
  rollback_outcome, incident_logged, failure_from, handle_compose_rewrite_failure, abort_outcome,
  restore_from, restore_compose_after_abort, unlinked, discard_compose_backup,
}
use wudup.Lifecycle.Rewrite.{
  write_rendering, apply_rewriting, write_tags, apply_compose_tag_updates, report, way_back,
  reported, validated, refreshed, refresh, tag_names, pin_names, unpin_names, tags_applied, pinned,
  pins_applied, unpins_applied, with_backup, rewrite_for, apply_tag_updates,
  apply_digest_pin_updates, apply_digest_unpin_updates,
}
use wudup.Lifecycle.Pull.{
  add_unique, by_image_id, by_repository, or_entry, entry_for, change_of, updated_images, selected,
  pull_failure, pins_checked, digests_checked, pulled, pull_and_verify_images, unfinished,
  find_unfinished_update, update_needed, finish_pull_phase,
}
use wudup.Lifecycle.Recreate.{
  services_to_stop, is_stop, idle, rewritten_or, stop_failure, prepare, prepare_for_recreate,
  unpause_outcome, unpause_for, unpause_after_recreate, start_outcome, start_for,
  restart_services_stopped_for_update, up_failed, up_failed_after, handle_compose_up_failure,
  health_passed, health_checked, finish_for, finish_health_after_recreate, kept_stopped, brought_up,
  recreate_running, recreate_and_verify_stack,
}
use wudup.Lifecycle.Update.{
  after_step, run_steps, run_stack_update_steps, suppressed, update_outcome, update_stack,
}
use wudup.Lifecycle.Safety.{IsVerified}
use wudup.Lifecycle.Safety.Laws.{
  IsFresh, update_stack-keeps, update_stack-failure, update_stack-raised, update_stack-success,
}

abbrev up : Outcome UpResult
up = done (record { ok = true; wait_handled = false })

abbrev rewriting : Rewriting
rewriting = record {
  render = λ t. done (codes "nginx:2", codes "nginx:2" ∷ []);
  replace = done tt;
  sync = done tt;
  refreshed = done (some (codes "nginx:2" ∷ []));
  valid = done true;
}

-- The health gate is a parameter of the runs.
abbrev env : Outcome Bool → Env
env health = record {
  hash = λ t. t;
  mode = live;
  backup = done tt;
  unlink_backup = done tt;
  tags = rewriting;
  pins = rewriting;
  unpins = rewriting;
  pull = done tt;
  image_state = λ images. done [];
  digests_reached = done true;
  digest_failure_reason = [];
  pins_verified = done true;
  container_images = λ services. done ([], [], []);
  up_no_start = λ services. up;
  stop_or_pause = λ services. done tt;
  up = λ services. up;
  verify_stopped = λ services. up;
  unpause = λ services. done tt;
  start = λ services. done tt;
  wait_for_health = λ services. health;
  health_details = done tt;
  rollback_replace = done tt;
  rollback_sync = done tt;
  rollback_up_no_start = λ services. up;
  rollback_up = λ services. up;
  rollback_verify_stopped = λ services. up;
  rollback_health = λ services. done true;
  incident_log = done tt;
  abort_replace = done tt;
  abort_sync = done tt;
}

abbrev fresh : StackRun
fresh = record {
  compose = codes "nginx:1";
  compose_backup = none;
  compose_written_hashes = [];
  compose_restored = false;
  health_verified = false;
  applied_tags = [];
  applied_digest_pins = [];
  applied_digest_unpins = [];
  compose_tag_updates = codes "web" ∷ [];
  digest_pin_updates = [];
  digest_unpin_updates = [];
  running_services = codes "web" ∷ [];
  stopped_services = [];
  start_failed_services = [];
  stop_services = codes "web" ∷ [];
  targets = none;
  images = codes "nginx:1" ∷ [];
  before = [];
  after = [];
  failures = [];
  runtime_after = none;
}

fresh-IsFresh : IsFresh fresh
fresh-IsFresh = (refl, refl, refl, refl, refl, refl, refl)

unhealthy_run :
    update_stack (env (done false)) fresh
    ≡ (done (failure (codes "health-failed")), (update_stack (env (done false)) fresh).1)
unfolding ◌>>=◌ pure ask get modify attempt is_empty is_none compose_rewrite_applied record_failure
    synced atomic_replace restore_compose_backup backed_up ensure_from ensure_compose_backup
    expected_from expected_compose_hash no_result restore_tag_update_services restore_written
    rollback_result roll_back rollback_outcome incident_logged failure_from
    handle_compose_rewrite_failure abort_outcome restore_from restore_compose_after_abort unlinked
    discard_compose_backup write_rendering apply_rewriting write_tags apply_compose_tag_updates
    report way_back reported validated refreshed refresh tag_names pin_names unpin_names
    tags_applied pinned pins_applied unpins_applied with_backup rewrite_for apply_tag_updates
    apply_digest_pin_updates apply_digest_unpin_updates add_unique by_image_id by_repository
    or_entry entry_for change_of updated_images selected pull_failure pins_checked digests_checked
    pulled pull_and_verify_images unfinished find_unfinished_update update_needed finish_pull_phase
    services_to_stop is_stop idle rewritten_or stop_failure prepare prepare_for_recreate
    unpause_outcome unpause_for unpause_after_recreate start_outcome start_for
    restart_services_stopped_for_update up_failed up_failed_after handle_compose_up_failure
    health_passed health_checked finish_for finish_health_after_recreate kept_stopped brought_up
    recreate_running recreate_and_verify_stack after_step run_steps run_stack_update_steps
    suppressed update_outcome update_stack is_success
unhealthy_run = refl

healthy_run :
    update_stack (env (done true)) fresh
    ≡ (done (success (codes "updated")), (update_stack (env (done true)) fresh).1)
unfolding ◌>>=◌ pure ask get modify attempt is_empty is_none compose_rewrite_applied record_failure
    synced atomic_replace restore_compose_backup backed_up ensure_from ensure_compose_backup
    expected_from expected_compose_hash no_result restore_tag_update_services restore_written
    rollback_result roll_back rollback_outcome incident_logged failure_from
    handle_compose_rewrite_failure abort_outcome restore_from restore_compose_after_abort unlinked
    discard_compose_backup write_rendering apply_rewriting write_tags apply_compose_tag_updates
    report way_back reported validated refreshed refresh tag_names pin_names unpin_names
    tags_applied pinned pins_applied unpins_applied with_backup rewrite_for apply_tag_updates
    apply_digest_pin_updates apply_digest_unpin_updates add_unique by_image_id by_repository
    or_entry entry_for change_of updated_images selected pull_failure pins_checked digests_checked
    pulled pull_and_verify_images unfinished find_unfinished_update update_needed finish_pull_phase
    services_to_stop is_stop idle rewritten_or stop_failure prepare prepare_for_recreate
    unpause_outcome unpause_for unpause_after_recreate start_outcome start_for
    restart_services_stopped_for_update up_failed up_failed_after handle_compose_up_failure
    health_passed health_checked finish_for finish_health_after_recreate kept_stopped brought_up
    recreate_running recreate_and_verify_stack after_step run_steps run_stack_update_steps
    suppressed update_outcome update_stack is_success
healthy_run = refl

interrupted_run :
    update_stack (env (raised interrupted)) fresh
    ≡ (raised interrupted, (update_stack (env (raised interrupted)) fresh).1)
unfolding ◌>>=◌ pure ask get modify attempt is_empty is_none compose_rewrite_applied record_failure
    synced atomic_replace restore_compose_backup backed_up ensure_from ensure_compose_backup
    expected_from expected_compose_hash no_result restore_tag_update_services restore_written
    rollback_result roll_back rollback_outcome incident_logged failure_from
    handle_compose_rewrite_failure abort_outcome restore_from restore_compose_after_abort unlinked
    discard_compose_backup write_rendering apply_rewriting write_tags apply_compose_tag_updates
    report way_back reported validated refreshed refresh tag_names pin_names unpin_names
    tags_applied pinned pins_applied unpins_applied with_backup rewrite_for apply_tag_updates
    apply_digest_pin_updates apply_digest_unpin_updates add_unique by_image_id by_repository
    or_entry entry_for change_of updated_images selected pull_failure pins_checked digests_checked
    pulled pull_and_verify_images unfinished find_unfinished_update update_needed finish_pull_phase
    services_to_stop is_stop idle rewritten_or stop_failure prepare prepare_for_recreate
    unpause_outcome unpause_for unpause_after_recreate start_outcome start_for
    restart_services_stopped_for_update up_failed up_failed_after handle_compose_up_failure
    health_passed health_checked finish_for finish_health_after_recreate kept_stopped brought_up
    recreate_running recreate_and_verify_stack after_step run_steps run_stack_update_steps
    suppressed update_outcome update_stack is_success
interrupted_run = refl

-- The new file stays behind the passed gate, and the backup is gone.
healthy_run-compose : (update_stack (env (done true)) fresh).1.compose ≡ codes "nginx:2"
unfolding ◌>>=◌ pure ask get modify attempt is_empty is_none compose_rewrite_applied record_failure
    synced atomic_replace restore_compose_backup backed_up ensure_from ensure_compose_backup
    expected_from expected_compose_hash no_result restore_tag_update_services restore_written
    rollback_result roll_back rollback_outcome incident_logged failure_from
    handle_compose_rewrite_failure abort_outcome restore_from restore_compose_after_abort unlinked
    discard_compose_backup write_rendering apply_rewriting write_tags apply_compose_tag_updates
    report way_back reported validated refreshed refresh tag_names pin_names unpin_names
    tags_applied pinned pins_applied unpins_applied with_backup rewrite_for apply_tag_updates
    apply_digest_pin_updates apply_digest_unpin_updates add_unique by_image_id by_repository
    or_entry entry_for change_of updated_images selected pull_failure pins_checked digests_checked
    pulled pull_and_verify_images unfinished find_unfinished_update update_needed finish_pull_phase
    services_to_stop is_stop idle rewritten_or stop_failure prepare prepare_for_recreate
    unpause_outcome unpause_for unpause_after_recreate start_outcome start_for
    restart_services_stopped_for_update up_failed up_failed_after handle_compose_up_failure
    health_passed health_checked finish_for finish_health_after_recreate kept_stopped brought_up
    recreate_running recreate_and_verify_stack after_step run_steps run_stack_update_steps
    suppressed update_outcome update_stack is_success
healthy_run-compose = refl

is_failure : is_success (failure (codes "health-failed")) ≡ false
unfolding is_success
is_failure = refl

is_updated : is_success (success (codes "updated")) ≡ true
unfolding is_success
is_updated = refl

update_stack-keeps_example :
    ((update_stack (env (done false)) fresh).1.compose ≡ codes "nginx:1")
    ⊎ (((update_stack (env (done false)) fresh).1.compose_backup ≡ some (codes "nginx:1"))
        ⊎ IsVerified (env (done false)) (update_stack (env (done false)) fresh).1)
update_stack-keeps_example = update_stack-keeps (env (done false)) fresh fresh-IsFresh

update_stack-failure_example : (update_stack (env (done false)) fresh).1.compose ≡ codes "nginx:1"
update_stack-failure_example =
    update_stack-failure (env (done false)) fresh (update_stack (env (done false)) fresh).1
      (failure (codes "health-failed")) fresh-IsFresh refl unhealthy_run is_failure

update_stack-raised_example :
    ((update_stack (env (raised interrupted)) fresh).1.compose ≡ codes "nginx:1")
    ⊎ IsVerified (env (raised interrupted)) (update_stack (env (raised interrupted)) fresh).1
update_stack-raised_example =
    update_stack-raised (env (raised interrupted)) fresh
      (update_stack (env (raised interrupted)) fresh).1 interrupted fresh-IsFresh refl
      interrupted_run

update_stack-success_example :
    ((update_stack (env (done true)) fresh).1.compose ≡ codes "nginx:1")
    ⊎ IsVerified (env (done true)) (update_stack (env (done true)) fresh).1
update_stack-success_example =
    update_stack-success (env (done true)) fresh (update_stack (env (done true)) fresh).1
      (success (codes "updated")) fresh-IsFresh healthy_run is_updated
