-- ===== src/Lifecycle/Safety/Recreates.antt =====
-- The recreation ends in the old file, in a rollback, or in a verified file.
use wudup.Prelude.{
  Text, text_eq, ◌≡◌, ◌∙◌, ap, refl, inl, inr, Bool, true, false, not, ◌&&◌, List, [], ◌∷◌,
  if◌then◌else◌,
}
use wudup.Matching.Lines.{is_success}
use wudup.Lifecycle.Run.{
  Outcome, done, UpResult, StopResult, StackRun, Env, ask, pure, is_empty, record_failure,
}
use wudup.Lifecycle.Rules.{
  Ends, Ends-pure, Ends-bind, Ends-get, Ends-modify, Ends-modified, Ends-assoc, Ends-if,
  Ends-ask_bind, Ends-answered, weaken-Ends,
}
use wudup.Lifecycle.Safety.{IsClean, IsAny, IsGated}
use wudup.Lifecycle.Recreate.{
  services_to_stop, idle, prepare_for_recreate, Unpaused, ended, unpaused_up, up_failed,
  up_failed_after, handle_compose_up_failure, health_passed, health_checked, finish_for,
  finish_health_after_recreate, kept_stopped, brought_up, recreate_running,
  recreate_and_verify_stack,
}
use wudup.Lifecycle.Safety.Calls.{
  Closes, IsLive, IsLive-IsAny, rewritten_or-Ends, detailed-Ends, prepare-Ends, IsUnpaused,
  unpause-Ends, restarted-Ends,
}

is_ok : (ok : Bool) → not ok ≡ false → ok ≡ true
is_ok true e = refl
is_ok false e = cc

idle_waits : idle.wait_handled ≡ false
unfolding idle
idle_waits = refl

module _ (env : Env) (original : Text) where
  up_failed-Ends :
      (stopped : StopResult) (restart : Bool) (s : StackRun)
      → (IsLive env original) s
      → (Closes env original) (up_failed env stopped restart) s
  unfolding up_failed record_failure
  up_failed-Ends stopped restart s p = (rewritten_or-Ends env original) true _ _ _ s p (λ c.
      Ends-assoc _ _ _ (
        Ends-assoc _ _ _ (
          Ends-bind (λ _. IsClean env original)
            (weaken-Ends ((restarted-Ends env original) (IsClean env original) restart s c)
              (λ _ t q. q) (λ t q. inl q))
            (λ _ t d.
              Ends-bind (λ _. IsClean env original)
                (Ends-if stopped.failed
                  (λ _. Ends-ask_bind env.health_details (λ _. Ends-modified _ d) (inl d))
                  (λ _. Ends-pure _ d))
                (λ _ r e. Ends-modify _ _ (Ends-pure _ (inl e)))))))

  up_failed_after-Ends :
      (stopped : StopResult) (restart : Bool) (u : Unpaused env) (s : StackRun)
      → IsUnpaused env original (λ _ _. Unit) u s
      → (Closes env original) (up_failed_after env stopped restart u) s
  unfolding up_failed_after
  up_failed_after-Ends stopped restart (ended status) s p = Ends-pure _ p
  up_failed_after-Ends stopped restart (unpaused_up up) s p = up_failed-Ends stopped restart s p.0

  handle_compose_up_failure-Ends :
      (stopped : StopResult) (up : UpResult) (prepared restart : Bool) (s : StackRun)
      → (IsLive env original) s
      → (Closes env original) (handle_compose_up_failure env stopped up prepared restart) s
  unfolding handle_compose_up_failure
  handle_compose_up_failure-Ends stopped up prepared restart s p =
      Ends-bind (IsUnpaused env original (λ _ _. Unit))
        (Ends-if prepared (λ _. unpause-Ends env original (λ _ _. Unit) up s (λ _ _ _. tt) (p, tt))
          (λ _. Ends-pure _ (p, tt)))
        (up_failed_after-Ends stopped (prepared && restart))

  health_passed-Ends :
      (stopped : StopResult) (s : StackRun)
      → IsLive env original s
      → IsGated env s
      → (Closes env original) (health_passed env stopped) s
  unfolding health_passed is_success
  health_passed-Ends stopped s p g =
      Ends-if stopped.failed
        (λ _.
          (rewritten_or-Ends env original) false _ _ _ s p ((detailed-Ends env original) _ _ _ s))
        (λ _. Ends-modify _ _ (Ends-pure _ (inr (inr (refl, (refl, g))))))

  health_checked-Ends :
      (stopped : StopResult) (healthy : Bool) (s : StackRun)
      → IsLive env original s × (healthy ≡ true → IsGated env s)
      → (Closes env original) (health_checked env stopped healthy) s
  unfolding health_checked record_failure
  health_checked-Ends stopped true s (p, g) = health_passed-Ends stopped s p (g refl)
  health_checked-Ends stopped false s (p, g) =
      Ends-ask_bind env.health_details
        (λ _.
          (rewritten_or-Ends env original) true _ _ _ s p
            (λ c. Ends-modify _ _ (Ends-pure _ (inl c))))
        ((IsLive-IsAny env original) s p)

  -- An up of the running services, where it has waited for their health.
  abbrev IsCalled : UpResult → StackRun → Type 0
  IsCalled up s = up.wait_handled ≡ true → env.up s.running_services ≡ done up

  -- The same of an up that has succeeded.
  abbrev IsUp : UpResult → StackRun → Type 0
  IsUp up s = up.wait_handled ≡ true → (env.up s.running_services ≡ done up) × (up.ok ≡ true)

  finish_for-Ends :
      (services : List Text) (stopped : StopResult) (up : UpResult) (s : StackRun)
      → s.running_services ≡ services
      → IsLive env original s × IsUp up s
      → (Closes env original) (finish_for env services stopped up) s
  unfolding finish_for is_success
  finish_for-Ends [] stopped up s e p =
      Ends-modify _ _ (Ends-pure _ (inr (inr (refl, (refl, inl e)))))
  finish_for-Ends (x ∷ services) stopped up s e (p, k) =
      Ends-bind (λ healthy t. IsLive env original t × (healthy ≡ true → IsGated env t))
        (Ends-if up.wait_handled
          (λ h. Ends-pure _ (p, λ _. let (c, o) = k h in inr (inr (up, (c, o, h)))))
          (λ _.
            Ends-answered (env.wait_for_health (x ∷ services))
              (λ healthy w. (p, λ h. inr (inl (ap env.wait_for_health e ∙ (w ∙ ap done h)))))
              ((IsLive-IsAny env original) s p)))
        (health_checked-Ends stopped)

  finish_health-Ends :
      (stopped : StopResult) (u : Unpaused env) (s : StackRun)
      → IsUnpaused env original IsUp u s
      → (Closes env original) (finish_health_after_recreate env stopped u) s
  unfolding finish_health_after_recreate
  finish_health-Ends stopped (ended status) s p = Ends-pure _ p
  finish_health-Ends stopped (unpaused_up up) s p =
      Ends-get _ (finish_for-Ends s.running_services stopped up s refl p)

  kept_stopped-Ends :
      (stopped : StopResult) (up verified : UpResult) (s : StackRun)
      → IsLive env original s × IsUp up s
      → (Closes env original) (kept_stopped env stopped up verified) s
  unfolding kept_stopped
  kept_stopped-Ends stopped up verified s p =
      Ends-if (not verified.ok)
        (λ _. handle_compose_up_failure-Ends stopped verified true false s p.0)
        (λ _.
          Ends-bind (IsUnpaused env original IsUp)
            (unpause-Ends env original IsUp up s (λ _ _ _ h. cc) p) (finish_health-Ends stopped))

  -- A call for the services, where there are some.
  called-Ends :
      (K : UpResult → StackRun → Type 0) (services : List Text) (o : Outcome UpResult)
      (s : StackRun)
      → K idle s
      → ((up : UpResult) → o ≡ done up → K up s)
      → IsLive env original s
      → Ends
          (if is_empty services then pure idle else ask o)
          s
          (λ up t. IsLive env original t × K up t)
          (IsAny env original)
  called-Ends K services o s i k p =
      Ends-if (is_empty services) (λ _. Ends-pure _ (p, i))
        (λ _. Ends-answered o (λ up e. (p, k up e)) ((IsLive-IsAny env original) s p))

  brought_up-Ends :
      (stopped : StopResult) (up : UpResult) (s : StackRun)
      → IsLive env original s × IsCalled up s
      → (Closes env original) (brought_up env stopped up) s
  unfolding brought_up
  brought_up-Ends stopped up s (p, k) =
      Ends-if (not up.ok) (λ _. handle_compose_up_failure-Ends stopped up true true s p)
        (λ ok. Ends-get _ (
          Ends-bind (λ _ t. IsLive env original t × IsUp up t)
            (called-Ends (λ _. IsUp up) s.stopped_services _ s (λ h. (k h, is_ok up.ok ok))
              (λ _ _ h. (k h, is_ok up.ok ok)) p)
            (λ verified. kept_stopped-Ends stopped up verified)))

  recreate_running-Ends :
      (up : UpResult) (s : StackRun)
      → (IsLive env original) s
      → (Closes env original) (recreate_running env up) s
  unfolding recreate_running prepare_for_recreate
  recreate_running-Ends up s p =
      Ends-if (not up.ok) (λ _. handle_compose_up_failure-Ends _ up false true s p)
        (λ _.
          Ends-bind (λ _. (IsLive env original))
            (Ends-get _ (
              weaken-Ends
                ((prepare-Ends env original) (IsLive env original) env.mode (services_to_stop s) s
                  p)
                (λ _ t q. q) (IsLive-IsAny env original)))
            (λ stopped t q. Ends-get _ (
              Ends-bind (λ up r. IsLive env original r × IsCalled up r)
                (called-Ends IsCalled t.running_services _ t (λ h. let w = idle_waits in cc)
                  (λ _ e _. e) q)
                (brought_up-Ends stopped))))

  pub recreate_and_verify_stack-Ends :
      (s : StackRun)
      → (IsLive env original) s
      → (Closes env original) (recreate_and_verify_stack env) s
  unfolding recreate_and_verify_stack
  recreate_and_verify_stack-Ends s p = Ends-assoc _ _ _ (
      Ends-modify _ _ (
        Ends-get _ (
          Ends-bind (λ _ t. IsLive env original t × Unit)
            (called-Ends (λ _ _. Unit) s.stopped_services _ _ tt (λ _ _. tt) p)
            (λ up t q. recreate_running-Ends up t q.0))))
