-- ===== src/Lifecycle/Safety/Laws.antt =====
-- The update of one stack never loses the old Compose file.
use wudup.Prelude.{
  Text, codes, text_eq, ◌≡◌, refl, subst, ◌⊎◌, inl, inr, true, false, Option, none, some, [],
}
use wudup.Matching.Lines.{StackStatus, is_success}
use wudup.Lifecycle.Run.{
  Outcome, done, raised, Raised, compose_error, os_error, command_error, unexpected, interrupted,
  StackRun, Env, M, failure,
}
use wudup.Lifecycle.Update.{
  after_step, run_steps, run_stack_update_steps, suppressed, update_outcome, update_stack,
}
use wudup.Lifecycle.Rules.{Post, Ends, Ends-pure, Ends-raised, Ends-bind, Ends-attempt, Ends-assoc}
use wudup.Lifecycle.Safety.{IsClean, IsAny, IsOpen, IsClosed, IsStepped, IsVerified}
use wudup.Lifecycle.Safety.Rewrites.{
  apply_tag_updates-Ends, apply_digest_pin_updates-Ends, apply_digest_unpin_updates-Ends,
}
use wudup.Lifecycle.Safety.Pulls.{IsOpen-cases, pull_and_verify_images-Ends, finish_pull_phase-Ends}
use wudup.Lifecycle.Safety.Recreates.{recreate_and_verify_stack-Ends}
use wudup.Lifecycle.Safety.Ends.{
  IsSettled, IsAborted, IsFinished, restore_compose_after_abort-Ends, status_end-Ends,
  abort_end-Ends,
}

module _ (env : Env) (original : Text) where
  abbrev Closes : M StackStatus → StackRun → Type 0
  Closes m s = Ends m s (IsClosed env original) (IsAny env original)

  after_step-Ends :
      (rest : M StackStatus)
      → ((t : StackRun) → IsOpen env original t → Closes rest t)
      → (status : Option StackStatus) (s : StackRun) → IsStepped env original status s
      → Closes (after_step env rest status) s
  unfolding after_step
  after_step-Ends rest h (some status) s p = Ends-pure _ p
  after_step-Ends rest h none s p = h s p

  run_stack_update_steps-Ends :
      (s : StackRun) → IsClean env original s → Closes (run_stack_update_steps env) s
  unfolding run_stack_update_steps run_steps
  run_stack_update_steps-Ends s c =
      Ends-bind (IsStepped env original) (apply_tag_updates-Ends env original s c) (
        after_step-Ends _ λ t1 p1.
          Ends-bind (IsStepped env original) (apply_digest_unpin_updates-Ends env original t1 p1) (
            after_step-Ends _ λ t2 p2.
              Ends-bind (IsStepped env original) (pull_and_verify_images-Ends env original t2 p2) (
                after_step-Ends _ λ t3 p3.
                  Ends-bind (IsStepped env original)
                    (apply_digest_pin_updates-Ends env original t3 p3)
                    (after_step-Ends _ λ t4 p4.
                      Ends-bind (IsStepped env original) (finish_pull_phase-Ends env original t4 p4)
                        (after_step-Ends _ λ t5 p5.
                          recreate_and_verify_stack-Ends env original t5
                            (IsOpen-cases env original t5 p5))))))

  suppressed_raised-Ends :
      (P E : StackRun → Type 0) (e : Raised) (s : StackRun)
      → P s
      → E s
      → Ends (suppressed env (raised e)) s (λ _ t. P t) E
  unfolding suppressed
  suppressed_raised-Ends P E compose_error s p q = Ends-pure _ p
  suppressed_raised-Ends P E os_error s p q = Ends-pure _ p
  suppressed_raised-Ends P E command_error s p q = Ends-pure _ p
  suppressed_raised-Ends P E unexpected s p q = Ends-pure _ p
  suppressed_raised-Ends P E interrupted s p q = Ends-raised _ q

  suppressed_done-Ends :
      (P E : StackRun → Type 0) (x : Unit {0}) (s : StackRun)
      → P s
      → Ends (suppressed env (done x)) s (λ _ t. P t) E
  unfolding suppressed
  suppressed_done-Ends P E x s p = Ends-pure _ p

  IsSettled-IsAborted : (s : StackRun) → IsSettled env original s → IsAborted env original s
  IsSettled-IsAborted s (inl c) = inl c
  IsSettled-IsAborted s (inr (inl (d, n))) = inr (inl (d.0, n))
  IsSettled-IsAborted s (inr (inr v)) = inr (inr v)

  status_outcome-Ends :
      (status : StackStatus) (s : StackRun)
      → IsClosed env original status s
      → Ends (update_outcome env (done status)) s (IsFinished env original) (IsAborted env original)
  unfolding update_outcome
  status_outcome-Ends status s p =
      Ends-bind (λ _ t. IsFinished env original status t) (status_end-Ends env original status s p)
        (λ _ t q. Ends-pure _ q)

  raise_outcome-Ends :
      (e : Raised) (s : StackRun)
      → IsAny env original s
      → Ends (update_outcome env (raised e)) s (IsFinished env original) (IsAborted env original)
  unfolding update_outcome is_success
  raise_outcome-Ends e s p = Ends-assoc _ _ _ (
      Ends-assoc _ _ _ (
        Ends-bind (λ _. IsSettled env original)
          (Ends-attempt (λ _. IsSettled env original) (IsSettled env original) _
            (restore_compose_after_abort-Ends env original s p)
            (suppressed_done-Ends (IsSettled env original) (IsAborted env original))
            (λ x t q.
              suppressed_raised-Ends (IsSettled env original) (IsAborted env original) x t q
                (IsSettled-IsAborted t q)))
          (λ _ t q.
            Ends-attempt (λ _. IsAborted env original) (IsAborted env original) _
              (abort_end-Ends env original (failure (codes "unexpected-error")) t refl q)
              (λ x r a.
                Ends-bind (λ _. IsAborted env original)
                  (suppressed_done-Ends (IsAborted env original) (IsAborted env original) x r a)
                  (λ _ v b. Ends-raised _ b))
              (λ x r a.
                Ends-bind (λ _. IsAborted env original)
                  (suppressed_raised-Ends (IsAborted env original) (IsAborted env original) x r a a)
                  (λ _ v b. Ends-raised _ b)))))

  update_stack-Ends :
      (s : StackRun)
      → IsClean env original s
      → Ends (update_stack env) s (IsFinished env original) (IsAborted env original)
  unfolding update_stack
  update_stack-Ends s c =
      Ends-attempt (IsClosed env original) (IsAny env original) _ (run_stack_update_steps-Ends s c)
        status_outcome-Ends raise_outcome-Ends

-- The state in which the update of a stack starts.
abbrev pub IsFresh : StackRun → Type 0
IsFresh s =
    (s.compose_written_hashes ≡ [])
    × (s.applied_tags ≡ [])
    × (s.applied_digest_pins ≡ [])
    × (s.applied_digest_unpins ≡ [])
    × (s.compose_backup ≡ none)
    × (s.compose_restored ≡ false)
    × (s.health_verified ≡ false)

fresh-Ends :
    (env : Env) (s : StackRun)
    → IsFresh s
    → Post (IsFinished env s.compose) (IsAborted env s.compose) (update_stack env s)
fresh-Ends env s f =
    (update_stack-Ends env s.compose s (refl, f.0, f.1, f.2, f.3, inl f.4, f.5, f.6)).at

module _ (Q : StackStatus → StackRun → Type 0) (E : StackRun → Type 0) where
  Post-done :
      (o : Outcome StackStatus × StackRun) (status : StackStatus) (t : StackRun)
      → o ≡ (done status, t)
      → Post Q E o
      → Q status t
  Post-done o status t e p = subst (Post Q E) e p

  Post-raised :
      (o : Outcome StackStatus × StackRun) (x : Raised) (t : StackRun)
      → o ≡ (raised x, t)
      → Post Q E o
      → E t
  Post-raised o x t e p = subst (Post Q E) e p

kept_by-Post :
    (env : Env) (original : Text) (o : Outcome StackStatus × StackRun)
    → Post (IsFinished env original) (IsAborted env original) o
    → (o.1.compose ≡ original) ⊎ ((o.1.compose_backup ≡ some original) ⊎ IsVerified env o.1)
kept_by-Post env original (done status, t) (inl c) = inl c
kept_by-Post env original (done status, t) (inr (inl p)) = inr (inl p.1)
kept_by-Post env original (done status, t) (inr (inr v)) = inr (inr v.1)
kept_by-Post env original (raised e, t) (inl c) = inl c
kept_by-Post env original (raised e, t) (inr (inl p)) = inr (inl p.0)
kept_by-Post env original (raised e, t) (inr (inr v)) = inr (inr v)

-- Whatever Docker and the file system answer and whatever is raised, behind the update of a stack
-- the Compose file is the old one, or the backup still holds the old one, or the update is verified:
-- its flag is set, and no service is to run, or the wait for the running services answers healthy, or
-- an up of them has succeeded and has waited for their health itself.
pub update_stack-keeps :
    (env : Env) (s : StackRun)
    → IsFresh s
    → ((update_stack env s).1.compose ≡ s.compose)
      ⊎ (((update_stack env s).1.compose_backup ≡ some s.compose)
          ⊎ IsVerified env (update_stack env s).1)
update_stack-keeps env s f = kept_by-Post env s.compose (update_stack env s) (fresh-Ends env s f)

-- Where an update returns a status that is no success and the old file can be put back, the Compose
-- file is the old one.
pub update_stack-failure :
    (env : Env) (s t : StackRun) (status : StackStatus)
    → IsFresh s
    → env.rollback_replace ≡ done tt
    → update_stack env s ≡ (done status, t)
    → is_success status ≡ false
    → t.compose ≡ s.compose
update_stack-failure env s t status f r e n =
    elim (Post-done (IsFinished env s.compose) (IsAborted env s.compose) _ status t e
      (fresh-Ends env s f)) [ inl c ↦ c | inr (inl p) ↦ absurd (p.2 r) | inr (inr p) ↦ cc ]

-- Where an update raises and the restoration can write, the Compose file is the old one, or the update
-- is verified: its flag is set, and no service is to run, or the wait for the running services answers
-- healthy, or an up of them has succeeded and has waited for their health itself.
pub update_stack-raised :
    (env : Env) (s t : StackRun) (x : Raised)
    → IsFresh s
    → env.abort_replace ≡ done tt
    → update_stack env s ≡ (raised x, t)
    → (t.compose ≡ s.compose) ⊎ IsVerified env t
update_stack-raised env s t x f r e =
    elim (Post-raised (IsFinished env s.compose) (IsAborted env s.compose) _ x t e
      (fresh-Ends env s f)) [ inl c ↦ inl c | inr (inl p) ↦ absurd (p.1 r) | inr (inr v) ↦ inr v ]

-- Behind a success the Compose file is the old one, or the update is verified: its flag is set, and no
-- service is to run, or the wait for the running services answers healthy, or an up of them has
-- succeeded and has waited for their health itself.
pub update_stack-success :
    (env : Env) (s t : StackRun) (status : StackStatus)
    → IsFresh s
    → update_stack env s ≡ (done status, t)
    → is_success status ≡ true
    → (t.compose ≡ s.compose) ⊎ IsVerified env t
update_stack-success env s t status f e n =
    elim (Post-done (IsFinished env s.compose) (IsAborted env s.compose) _ status t e
      (fresh-Ends env s f)) [ inl c ↦ inl c | inr (inl p) ↦ cc | inr (inr p) ↦ inr p.1 ]
