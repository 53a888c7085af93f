-- ===== src/Lifecycle/Safety/Calls.antt =====
-- The calls around the recreation: each keeps what the rewrites have left, or ends the update.
use wudup.Prelude.{Text, text_eq, ◌⊎◌, inl, inr, Bool, false, List, [], ◌∷◌, if◌then◌else◌}
use wudup.Matching.Lines.{StackStatus}
use wudup.Lifecycle.Run.{
  Outcome, done, raised, Raised, compose_error, os_error, command_error, unexpected, interrupted,
  UpdateMode, live, pause, stop, UpResult, StackRun, Env, M, ask, ◌>>=◌, ◌>>◌, pure, attempt,
  failure, record_failure,
}
use wudup.Lifecycle.Rules.{
  Ends, Ends-pure, Ends-raised, Ends-ask, Ends-bind, Ends-attempt, Ends-get, Ends-modify,
  Ends-assoc, Ends-if, Ends-ask_bind, weaken-Ends,
}
use wudup.Lifecycle.Safety.{IsClean, IsDirty, IsAny, IsClosed}
use wudup.Lifecycle.Safety.Back.{handle_compose_rewrite_failure-Ends}
use wudup.Lifecycle.Safety.Write.{Ends-rewritten}
use wudup.Lifecycle.Recreate.{
  services_to_stop, rewritten_or, stop_failure, prepare, Unpaused, ended, unpaused_up,
  unpause_outcome, unpause_for, unpause_after_recreate, start_outcome, start_for,
  restart_services_stopped_for_update,
}

module _ (env : Env) (original : Text) where
  abbrev pub Closes : M StackStatus → StackRun → Type 0
  Closes m s = Ends m s (IsClosed env original) (IsAny env original)

  abbrev pub IsLive : StackRun → Type 0
  IsLive s = IsClean env original s ⊎ IsDirty env original s

  pub IsLive-IsAny : (s : StackRun) → IsLive s → IsAny env original s
  IsLive-IsAny s (inl c) = inl c
  IsLive-IsAny s (inr d) = inr (inl d)

  pub rewritten_or-Ends :
      (known : Bool) (reason phase : Text) (otherwise : M StackStatus) (s : StackRun)
      → IsLive s
      → (IsClean env original s → Closes otherwise s)
      → Closes (rewritten_or env known reason phase otherwise) s
  unfolding rewritten_or
  rewritten_or-Ends known reason phase otherwise s p h = Ends-get _ (
      Ends-rewritten env original _ _ p
        (λ d.
          weaken-Ends (handle_compose_rewrite_failure-Ends env original known reason phase s d)
            (λ _ t q. inr (inl q)) (λ t q. q))
        h)

  -- A failure with the details of the containers' health.
  pub detailed-Ends :
      (phase reason recorded : Text) (s : StackRun)
      → IsClean env original s
      → Closes (ask env.health_details >> record_failure phase recorded >> pure (failure reason)) s
  unfolding record_failure
  detailed-Ends phase reason recorded s c =
      Ends-assoc _ _ _
        (Ends-ask_bind env.health_details (λ _. Ends-modify _ _ (Ends-pure _ (inl c))) (inl c))

  stop_failure-Ends :
      (P : StackRun → Type 0) (mode : UpdateMode) (o : Outcome (Unit {0})) (s : StackRun)
      → P s
      → Ends (stop_failure env mode o) s (λ _ t. P t) P
  unfolding stop_failure
  stop_failure-Ends P mode (done x) s p = Ends-pure _ p
  stop_failure-Ends P mode (raised command_error) s p = Ends-pure _ p
  stop_failure-Ends P mode (raised compose_error) s p = Ends-raised _ p
  stop_failure-Ends P mode (raised os_error) s p = Ends-raised _ p
  stop_failure-Ends P mode (raised unexpected) s p = Ends-raised _ p
  stop_failure-Ends P mode (raised interrupted) s p = Ends-raised _ p

  asked-Ends :
      (P : StackRun → Type 0) (o : Outcome (Unit {0})) (mode : UpdateMode) (s : StackRun)
      → P s
      → Ends (attempt (ask o) >>= stop_failure env mode) s (λ _ t. P t) P
  asked-Ends P o mode s p =
      Ends-attempt (λ _. P) P _ (Ends-ask o (λ _. p) p) (λ x. stop_failure-Ends P mode (done x))
        (λ e. stop_failure-Ends P mode (raised e))

  pub prepare-Ends :
      (P : StackRun → Type 0) (mode : UpdateMode) (services : List Text) (s : StackRun)
      → P s
      → Ends (prepare env mode services) s (λ _ t. P t) P
  unfolding prepare
  prepare-Ends P mode [] s p = Ends-pure _ p
  prepare-Ends P live (x ∷ services) s p = Ends-pure _ p
  prepare-Ends P pause (x ∷ services) s p = asked-Ends P _ pause s p
  prepare-Ends P stop (x ∷ services) s p = asked-Ends P _ stop s p

  -- What the containers' calls may end in: a status, or the way on with what is known of the up.
  abbrev pub IsUnpaused : (UpResult → StackRun → Type 0) → Unpaused env → StackRun → Type 0
  IsUnpaused K (ended status) s = IsClosed env original status s
  IsUnpaused K (unpaused_up up) s = IsLive s × K up s

  abbrev Unpauses : (UpResult → StackRun → Type 0) → M (Unpaused env) → StackRun → Type 0
  Unpauses K m s = Ends m s (IsUnpaused K) (IsAny env original)

  -- What stays known of an up that has not waited for the health.
  abbrev pub Unwaited : (UpResult → StackRun → Type 0) → Type 0
  Unwaited K = (up : UpResult) (s : StackRun) → K up s → K (record up { wait_handled = false }) s

  unpause_raised-Ends :
      (K : UpResult → StackRun → Type 0) (up : UpResult) (e : Raised) (s : StackRun)
      → IsLive s
      → Unpauses K (unpause_outcome env up (raised e)) s
  unfolding unpause_outcome
  unpause_raised-Ends K up compose_error s p = Ends-raised _ (IsLive-IsAny s p)
  unpause_raised-Ends K up os_error s p = Ends-raised _ (IsLive-IsAny s p)
  unpause_raised-Ends K up command_error s p =
      Ends-bind (IsClosed env original) (rewritten_or-Ends false _ _ _ s p (detailed-Ends _ _ _ s))
        (λ status t q. Ends-pure _ q)
  unpause_raised-Ends K up unexpected s p = Ends-raised _ (IsLive-IsAny s p)
  unpause_raised-Ends K up interrupted s p = Ends-raised _ (IsLive-IsAny s p)

  unpause_done-Ends :
      (K : UpResult → StackRun → Type 0) (up : UpResult) (x : Unit {0}) (s : StackRun)
      → Unwaited K
      → IsLive s × K up s
      → Unpauses K (unpause_outcome env up (done x)) s
  unfolding unpause_outcome
  unpause_done-Ends K up x s h (p, k) = Ends-pure _ (p, h up s k)

  unpause_for-Ends :
      (K : UpResult → StackRun → Type 0) (mode : UpdateMode) (services : List Text) (up : UpResult)
      (s : StackRun)
      → Unwaited K
      → IsLive s × K up s
      → Unpauses K (unpause_for env mode services up) s
  unfolding unpause_for
  unpause_for-Ends K live services up s h p = Ends-pure _ p
  unpause_for-Ends K stop services up s h p = Ends-pure _ p
  unpause_for-Ends K pause [] up s h p = Ends-pure _ p
  unpause_for-Ends K pause (x ∷ services) up s h p =
      Ends-attempt (λ _ t. IsLive t × K up t) IsLive _
        (Ends-ask (env.unpause (x ∷ services)) (λ _. p) p.0) (λ y t. unpause_done-Ends K up y t h)
        (unpause_raised-Ends K up)

  pub unpause-Ends :
      (K : UpResult → StackRun → Type 0) (up : UpResult) (s : StackRun)
      → Unwaited K
      → IsLive s × K up s
      → Unpauses K (unpause_after_recreate env up) s
  unfolding unpause_after_recreate
  unpause-Ends K up s h p = Ends-get _ (unpause_for-Ends K env.mode s.running_services up s h p)

  start_outcome-Ends :
      (P : StackRun → Type 0) (o : Outcome (Unit {0})) (s : StackRun)
      → P s
      → Ends (start_outcome env o) s (λ _ t. P t) P
  unfolding start_outcome
  start_outcome-Ends P (done x) s p = Ends-pure _ p
  start_outcome-Ends P (raised compose_error) s p = Ends-raised _ p
  start_outcome-Ends P (raised os_error) s p = Ends-raised _ p
  start_outcome-Ends P (raised command_error) s p = Ends-pure _ p
  start_outcome-Ends P (raised unexpected) s p = Ends-raised _ p
  start_outcome-Ends P (raised interrupted) s p = Ends-raised _ p

  start_for-Ends :
      (P : StackRun → Type 0) (mode : UpdateMode) (services : List Text) (s : StackRun)
      → P s
      → Ends (start_for env mode services) s (λ _ t. P t) P
  unfolding start_for
  start_for-Ends P live services s p = Ends-pure _ p
  start_for-Ends P pause services s p = Ends-pure _ p
  start_for-Ends P stop [] s p = Ends-pure _ p
  start_for-Ends P stop (x ∷ services) s p =
      Ends-attempt (λ _. P) P _ (Ends-ask (env.start (x ∷ services)) (λ _. p) p)
        (λ y. start_outcome-Ends P (done y)) (λ e. start_outcome-Ends P (raised e))

  pub restarted-Ends :
      (P : StackRun → Type 0) (restart : Bool) (s : StackRun)
      → P s
      → Ends (if restart then restart_services_stopped_for_update env else pure tt) s (λ _ t. P t) P
  unfolding restart_services_stopped_for_update
  restarted-Ends P restart s p =
      Ends-if restart (λ _. Ends-get _ (start_for-Ends P env.mode (services_to_stop s) s p))
        (λ _. Ends-pure _ p)
