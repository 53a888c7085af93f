-- ===== src/Lifecycle/Safety/Pulls.antt =====
-- The pull keeps what the rewrites have left, and nothing rewritten counts as up to date.
use wudup.Prelude.{
  Text, text_eq, ◌≡◌, refl, ◌⊎◌, inl, inr, Bool, true, false, not, ◌&&◌, ◌||◌, ◌++◌, Option, List,
}
use wudup.Matching.Lines.{StackStatus, is_success}
use wudup.Lifecycle.Run.{
  done, raised, Raised, compose_error, os_error, command_error, unexpected, interrupted, StackRun,
  Env, M, is_empty, record_failure,
}
use wudup.Lifecycle.Rules.{
  Ends, Ends-pure, Ends-raised, Ends-ask, Ends-bind, Ends-attempt, Ends-get, Ends-modify,
  Ends-assoc, Ends-if, Ends-ask_bind,
}
use wudup.Lifecycle.Safety.{IsClean, IsDirty, IsAny, IsOpen, IsStepped, IsRolledBack}
use wudup.Lifecycle.Safety.Back.{handle_compose_rewrite_failure-Ends}
use wudup.Lifecycle.Safety.Write.{Ends-rewritten}
use wudup.Lifecycle.Safety.Rewrites.{IsOpen-IsAny}
use wudup.Lifecycle.Pull.{
  updated_images, selected, pull_failure, pins_checked, digests_checked, pulled,
  pull_and_verify_images, unfinished, find_unfinished_update, update_needed, finish_pull_phase,
}

-- What has been applied is an update.
any_applied :
    (a b c x y : Bool) → (a && (b && c)) ≡ false → (not a || not b || not c || x || y) ≡ true
any_applied false b c x y e = refl
any_applied true false c x y e = refl
any_applied true true false x y e = refl
any_applied true true true x y e = cc

module _ (env : Env) (original : Text) where
  abbrev Steps : M (Option StackStatus) → StackRun → Type 0
  Steps m s = Ends m s (IsStepped env original) (IsAny env original)

  pub IsOpen-cases :
      (s : StackRun) → IsOpen env original s → IsClean env original s ⊎ IsDirty env original s
  IsOpen-cases s (inl c) = inl c
  IsOpen-cases s (inr d) = inr d.0

  pull_failure-Ends :
      (reason phase : Text) (s : StackRun)
      → IsOpen env original s
      → Steps (pull_failure env reason phase) s
  unfolding pull_failure record_failure
  pull_failure-Ends reason phase s p = Ends-get _ (
      Ends-rewritten env original _ _ (IsOpen-cases s p)
        (λ d.
          Ends-bind (λ status t. (is_success status ≡ false) × IsRolledBack env original t)
            (handle_compose_rewrite_failure-Ends env original false reason phase s d)
            (λ status t q. Ends-pure _ (inr (inl q))))
        (λ c.
          Ends-assoc _ _ _ (
            Ends-ask_bind env.health_details (λ _. Ends-modify _ _ (Ends-pure _ (inl c))) (inl c))))

  pins_checked-Ends :
      (verified : Bool) (s : StackRun) → IsOpen env original s → Steps (pins_checked env verified) s
  unfolding pins_checked
  pins_checked-Ends true s p = Ends-pure _ p
  pins_checked-Ends false s p = pull_failure-Ends _ _ s p

  digests_checked-Ends :
      (reached : Bool) (s : StackRun)
      → IsOpen env original s
      → Steps (digests_checked env reached) s
  unfolding digests_checked
  digests_checked-Ends false s p = pull_failure-Ends _ _ s p
  digests_checked-Ends true s p = Ends-get _ (
      Ends-if (is_empty s.digest_pin_updates) (λ _. Ends-pure _ p)
        (λ _.
          Ends-ask_bind env.pins_verified (λ verified. pins_checked-Ends verified s p)
            (IsOpen-IsAny env original s p)))

  pull_done-Ends :
      (x : Unit {0}) (s : StackRun) → IsOpen env original s → Steps (pulled env (done x)) s
  unfolding pulled
  pull_done-Ends x s p = Ends-get _ (
      Ends-ask_bind (env.image_state s.images)
        (λ after. Ends-assoc _ _ _ (
          Ends-modify _ _ (
            Ends-ask_bind env.digests_reached (λ reached. digests_checked-Ends reached _ p)
              (IsOpen-IsAny env original s p))))
        (IsOpen-IsAny env original s p))

  pull_raised-Ends :
      (e : Raised) (s : StackRun) → IsOpen env original s → Steps (pulled env (raised e)) s
  unfolding pulled
  pull_raised-Ends compose_error s p = Ends-raised _ (IsOpen-IsAny env original s p)
  pull_raised-Ends os_error s p = Ends-raised _ (IsOpen-IsAny env original s p)
  pull_raised-Ends command_error s p = pull_failure-Ends _ _ s p
  pull_raised-Ends unexpected s p = Ends-raised _ (IsOpen-IsAny env original s p)
  pull_raised-Ends interrupted s p = Ends-raised _ (IsOpen-IsAny env original s p)

  pub pull_and_verify_images-Ends :
      (s : StackRun) → IsOpen env original s → Steps (pull_and_verify_images env) s
  unfolding pull_and_verify_images
  pull_and_verify_images-Ends s p =
      Ends-attempt (λ _. IsOpen env original) (IsOpen env original) _ (Ends-ask env.pull (λ _. p) p)
        pull_done-Ends pull_raised-Ends

  unfinished-Ends :
      (images : List Text × List Text × List Text) (s : StackRun)
      → IsClean env original s
      → Steps (unfinished env images) s
  unfolding unfinished record_failure
  unfinished-Ends (unverified, missing, behind) s c =
      Ends-if (not (is_empty unverified) || not (is_empty missing))
        (λ _. Ends-modify _ _ (Ends-pure _ (inl c)))
        (λ _. Ends-if (is_empty behind) (λ _. Ends-pure _ (inl c)) (λ _. Ends-pure _ (inl c)))

  find_unfinished_update-Ends :
      (s : StackRun) → IsClean env original s → Steps (find_unfinished_update env) s
  unfolding find_unfinished_update
  find_unfinished_update-Ends s c =
      let services = selected s.targets (s.running_services ++ s.stopped_services) in
      Ends-get _ (
        Ends-if (is_empty services) (λ _. Ends-pure _ (inl c))
          (λ _.
            Ends-ask_bind (env.container_images services) (λ images. unfinished-Ends images s c)
              (inl c)))

  update_needed-IsOpen :
      (s : StackRun) → IsOpen env original s → update_needed env s ≡ false → IsClean env original s
  unfolding update_needed
  update_needed-IsOpen s (inl c) e = c
  update_needed-IsOpen s (inr (d, a)) e =
      let t : update_needed env s ≡ true =
        any_applied (is_empty s.applied_tags) (is_empty s.applied_digest_pins)
          (is_empty s.applied_digest_unpins) (not (is_empty (updated_images s.before s.after)))
          (not (is_empty s.start_failed_services)) a in
      cc

  pub finish_pull_phase-Ends :
      (s : StackRun) → IsOpen env original s → Steps (finish_pull_phase env) s
  unfolding finish_pull_phase
  finish_pull_phase-Ends s p = Ends-get _ (
      Ends-if (update_needed env s) (λ _. Ends-pure _ p)
        (λ e. find_unfinished_update-Ends s (update_needed-IsOpen s p e)))
