-- ===== src/Lifecycle/Pull.antt =====
-- The pull of the images and what it shows (src/wudup/updater_lifecycle.py).
use wudup.Prelude.{
  Text, codes, text_eq, ◌==◌, Bool, true, false, not, ◌&&◌, ◌||◌, Option, none, some, List, [], ◌∷◌,
  ◌++◌, filter, contains, if◌then◌else◌,
}
use wudup.Prelude.Dict.{Dict, lookup, put, has_key}
use wudup.Images.{image_repo_ref}
use wudup.Matching.Lines.{StackStatus}
use wudup.Lifecycle.Run.{
  Outcome, done, raised, command_error, StackRun, ImageState, Env, M, ◌>>=◌, ◌>>◌, pure, ask, get,
  modify, attempt, failure, success, is_empty, is_none, compose_rewrite_applied, record_failure,
}
use wudup.Lifecycle.Rollback.{handle_compose_rewrite_failure}

-- An entry of `after`, where no other has the same key.
abbrev pub Entry : Type 0
Entry = Text × ImageState

unfoldable pub add_unique : Dict Text (Option Entry) → Text → Entry → Dict Text (Option Entry)
add_unique found key entry = put found key (if has_key found key then none else some entry)

unfoldable pub by_image_id :
    Dict Text (Option Entry) → Dict Text ImageState → Dict Text (Option Entry)
by_image_id found [] = found
by_image_id found ((image, state) ∷ after) =
    by_image_id
      (if state.image_id == [] then found else add_unique found state.image_id (image, state)) after

unfoldable pub by_repository :
    Dict Text (Option Entry) → Dict Text ImageState → Dict Text (Option Entry)
by_repository found [] = found
by_repository found ((image, state) ∷ after) =
    by_repository (add_unique found (image_repo_ref image) (image, state)) after

unfoldable pub or_entry : Option Entry → Option (Option Entry) → Option Entry
or_entry (some e) other = some e
or_entry none none = none
or_entry none (some other) = other

-- The entry behind an image: its own, the only one with its image id, or with its repository.
unfoldable pub entry_for : Dict Text ImageState → Text → ImageState → Option Entry
entry_for after image old =
    let own : Option Entry = elim (lookup after image) [
      | none ↦ none
      | some new ↦ some (image, new)
    ] in
    or_entry
      (or_entry own
        (if old.image_id == [] then none else lookup (by_image_id [] after) old.image_id))
      (lookup (by_repository [] after) (image_repo_ref image))

unfoldable pub change_of : Text → ImageState → Option Entry → List Entry
change_of image old none = []
change_of image old (some (new_image, new)) =
    if not (new.image_id == []) && (not (old.image_id == new.image_id) || not (image == new_image))
    then (image, new) ∷ []
    else []

unfoldable pub updated_images : Dict Text ImageState → Dict Text ImageState → List Entry
updated_images [] after = []
updated_images ((image, old) ∷ before) after =
    change_of image old (entry_for after image old) ++ updated_images before after

-- The services among the targets, all where there are none by name.
unfoldable pub selected : Option (List Text) → List Text → List Text
selected none services = services
selected (some targets) services = filter (λ s. contains targets s) services

module _ (env : Env) where
  -- A failure of the pull is rolled back where the Compose file was rewritten.
  unfoldable pub pull_failure : Text → Text → M (Option StackStatus)
  pull_failure reason phase = get >>= λ s.
      if compose_rewrite_applied s && not (is_none s.compose_backup)
      then (handle_compose_rewrite_failure env false reason phase >>= λ status. pure (some status))
      else (ask env.health_details >> record_failure phase reason >> pure (some (failure reason)))

  unfoldable pub pins_checked : Bool → M (Option StackStatus)
  pins_checked true = pure none
  pins_checked false = pull_failure (codes "digest-pin-verification-failed") (codes "digest")

  unfoldable pub digests_checked : Bool → M (Option StackStatus)
  digests_checked false = pull_failure env.digest_failure_reason (codes "digest")
  digests_checked true = get >>= λ s.
      if is_empty s.digest_pin_updates then pure none else (ask env.pins_verified >>= pins_checked)

  unfoldable pub pulled : Outcome (Unit {0}) → M (Option StackStatus)
  pulled (done _) = get >>= λ s. ask (env.image_state s.images) >>= λ after.
      modify (λ t. record t { after = after }) >> ask env.digests_reached >>= digests_checked
  pulled (raised command_error) = pull_failure (codes "pull-failed") (codes "pull")
  pulled (raised e) = ask (raised e)

  unfoldable pub pull_and_verify_images : M (Option StackStatus)
  pull_and_verify_images = attempt (ask env.pull) >>= pulled

  -- `_find_unfinished_update` behind the check of the containers.
  unfoldable pub unfinished : List Text × List Text × List Text → M (Option StackStatus)
  unfinished (unverified, missing, behind) =
      if not (is_empty unverified) || not (is_empty missing)
      then (record_failure (codes "recreate") (codes "runtime-image-unverified")
          >> pure (some (failure (codes "runtime-image-unverified"))))
      else if is_empty behind
      then pure (some (success (codes "already-current")))
      else pure none

  unfoldable pub find_unfinished_update : M (Option StackStatus)
  find_unfinished_update = get >>= λ s.
      let services = selected s.targets (s.running_services ++ s.stopped_services) in
      if is_empty services
      then pure (some (success (codes "already-current")))
      else (ask (env.container_images services) >>= unfinished)

  unfoldable pub update_needed : StackRun → Bool
  update_needed s =
      not (is_empty s.applied_tags)
      || not (is_empty s.applied_digest_pins)
      || not (is_empty s.applied_digest_unpins)
      || not (is_empty (updated_images s.before s.after))
      || not (is_empty s.start_failed_services)

  unfoldable pub finish_pull_phase : M (Option StackStatus)
  finish_pull_phase = get >>= λ s. if update_needed s then pure none else find_unfinished_update
