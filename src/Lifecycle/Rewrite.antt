-- ===== src/Lifecycle/Rewrite.antt =====
-- The three rewrites of the Compose file (src/wudup/updater_lifecycle_rewrite.py): tags, digest pins
-- and the removal of digest pins.
use wudup.Prelude.{
  Text, codes, text_eq, Bool, true, false, not, ◌&&◌, Option, none, some, List, [], ◌∷◌,
  if◌then◌else◌,
}
use wudup.Matching.Lines.{StackStatus}
use wudup.Lifecycle.Run.{
  Outcome, done, raised, compose_error, os_error, Rewriting, Env, M, ◌>>=◌, ◌>>◌, pure, ask, get,
  modify, attempt, failure, is_empty, is_none, compose_rewrite_applied, record_failure,
}
use wudup.Lifecycle.Persistence.{atomic_replace, ensure_compose_backup, expected_compose_hash}
use wudup.Lifecycle.Rollback.{handle_compose_rewrite_failure}

-- The reasons and the phases of a rewrite.
pub record Names : Type 0 where
  pub failed : Text
  pub phase : Text
  pub refresh_failed : Text
  pub refresh_phase : Text
  pub validation_failed : Text
  pub validation_phase : Text

module _ (env : Env) where
  -- What stands in the file is rendered and written under the hash that is expected.
  unfoldable pub write_rendering : Rewriting → Text × List Text → M (List Text)
  write_rendering rewriting (rendered, applied) = get >>= λ s.
      atomic_replace env rendered (expected_compose_hash env s) true rewriting.replace
        rewriting.sync
      >> pure applied

  -- `apply_compose_digest_pins` and `apply_compose_digest_unpins`
  unfoldable pub apply_rewriting : Rewriting → M (List Text)
  apply_rewriting rewriting =
      get >>= λ s. ask (rewriting.render s.compose) >>= write_rendering rewriting

  unfoldable pub write_tags : Rewriting → Text × List Text → M (List Text)
  write_tags rewriting (rendered, applied) =
      if is_empty applied then pure [] else write_rendering rewriting (rendered, applied)

  -- `apply_compose_tag_updates` of src/wudup/compose_rewrite.py. Where an update applies nowhere it writes
  -- nothing; with tag streams the rendering raises there.
  unfoldable pub apply_compose_tag_updates : Rewriting → M (List Text)
  apply_compose_tag_updates rewriting =
      get >>= λ s. ask (rewriting.render s.compose) >>= write_tags rewriting

  unfoldable pub report : Names → M (Option StackStatus)
  report names = record_failure names.phase names.failed >> pure (some (failure names.failed))

  unfoldable pub way_back : Text → Text → M (Option StackStatus)
  way_back reason phase =
      handle_compose_rewrite_failure env false reason phase >>= λ s. pure (some s)

  -- A failure before the file is written is reported, any other is rolled back.
  unfoldable pub reported : Names → M (Option StackStatus)
  reported names = get >>= λ s.
      if compose_rewrite_applied s && not (is_none s.compose_backup)
      then way_back names.failed names.phase
      else report names

  unfoldable pub validated : Names → List Text → Bool → M (Option StackStatus)
  validated names images true = modify (λ s. record s { images = images }) >> pure none
  validated names images false = way_back names.validation_failed names.validation_phase

  unfoldable pub refreshed : Names → Rewriting → Option (List Text) → M (Option StackStatus)
  refreshed names rewriting none = way_back names.refresh_failed names.refresh_phase
  refreshed names rewriting (some images) = ask rewriting.valid >>= validated names images

  -- The refreshed stack is validated before the update goes on.
  unfoldable pub refresh : Names → Rewriting → M (Option StackStatus)
  refresh names rewriting = ask rewriting.refreshed >>= refreshed names rewriting

  unfoldable pub tag_names : Names
  tag_names = record {
    failed = codes "compose-tag-rewrite-failed";
    phase = codes "compose-tag-rewrite";
    refresh_failed = codes "compose-refresh-failed";
    refresh_phase = codes "compose-refresh";
    validation_failed = codes "compose-tag-validation-failed";
    validation_phase = codes "compose-tag-validation";
  }

  unfoldable pub pin_names : Names
  pin_names = record {
    failed = codes "compose-digest-pin-failed";
    phase = codes "compose-digest-pin";
    refresh_failed = codes "compose-digest-pin-refresh-failed";
    refresh_phase = codes "compose-digest-pin";
    validation_failed = codes "compose-digest-pin-validation-failed";
    validation_phase = codes "compose-digest-pin";
  }

  unfoldable pub unpin_names : Names
  unpin_names = record {
    failed = codes "compose-digest-unpin-failed";
    phase = codes "compose-digest-unpin";
    refresh_failed = codes "compose-digest-unpin-refresh-failed";
    refresh_phase = codes "compose-digest-unpin";
    validation_failed = codes "compose-digest-unpin-validation-failed";
    validation_phase = codes "compose-digest-unpin";
  }

  -- Nothing rewritten is reported without a rollback for tags: nothing was written then.
  unfoldable pub tags_applied : Outcome (List Text) → M (Option StackStatus)
  tags_applied (done []) = report tag_names
  tags_applied (done (t ∷ tags)) =
      modify (λ s. record s { applied_tags = t ∷ tags }) >> refresh tag_names env.tags
  tags_applied (raised compose_error) = reported tag_names
  tags_applied (raised os_error) = reported tag_names
  tags_applied (raised e) = ask (raised e)

  -- The images are read again behind the pins.
  unfoldable pub pinned : Option StackStatus → M (Option StackStatus)
  pinned (some status) = pure (some status)
  pinned none = get >>= λ s. ask (env.image_state s.images) >>= λ after.
      modify (λ t. record t { after = after }) >> pure none

  unfoldable pub pins_applied : Outcome (List Text) → M (Option StackStatus)
  pins_applied (done []) = reported pin_names
  pins_applied (done (p ∷ pins)) =
      modify (λ s. record s { applied_digest_pins = p ∷ pins })
      >> refresh pin_names env.pins
      >>= pinned
  pins_applied (raised compose_error) = reported pin_names
  pins_applied (raised os_error) = reported pin_names
  pins_applied (raised e) = ask (raised e)

  unfoldable pub unpins_applied : Outcome (List Text) → M (Option StackStatus)
  unpins_applied (done []) = reported unpin_names
  unpins_applied (done (u ∷ unpins)) =
      modify (λ s. record s { applied_digest_unpins = u ∷ unpins })
      >> refresh unpin_names env.unpins
  unpins_applied (raised compose_error) = reported unpin_names
  unpins_applied (raised os_error) = reported unpin_names
  unpins_applied (raised e) = ask (raised e)

  -- A rewrite with updates, behind the backup.
  unfoldable pub with_backup : M (Option StackStatus) → Option StackStatus → M (Option StackStatus)
  with_backup m (some status) = pure (some status)
  with_backup m none = m

  unfoldable pub rewrite_for : List Text → M (Option StackStatus) → M (Option StackStatus)
  rewrite_for [] m = pure none
  rewrite_for (u ∷ updates) m = ensure_compose_backup env >>= with_backup m

  unfoldable pub apply_tag_updates : M (Option StackStatus)
  apply_tag_updates = get >>= λ s.
      rewrite_for s.compose_tag_updates
        (attempt (apply_compose_tag_updates env.tags) >>= tags_applied)

  unfoldable pub apply_digest_pin_updates : M (Option StackStatus)
  apply_digest_pin_updates = get >>= λ s.
      rewrite_for s.digest_pin_updates (attempt (apply_rewriting env.pins) >>= pins_applied)

  unfoldable pub apply_digest_unpin_updates : M (Option StackStatus)
  apply_digest_unpin_updates = get >>= λ s.
      rewrite_for s.digest_unpin_updates (attempt (apply_rewriting env.unpins) >>= unpins_applied)
