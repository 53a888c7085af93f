-- ===== src/Lifecycle/Safety/Back.antt =====
-- The rollback of a rewritten file, and its restoration after an abort.
use wudup.Prelude.{
  ◌∙◌, Text, text_eq, ◌≡◌, ◌≢◌, refl, ◌⊎◌, inl, inr, Bool, true, false, Option, none, some, List,
  [], ◌∷◌, beq_refl,
}
use wudup.Matching.Lines.{is_success}
use wudup.Lifecycle.Run.{
  Outcome, done, raised, compose_error, os_error, command_error, unexpected, interrupted, StackRun,
  RollbackResult, Env, modify, ◌>>=◌, ◌>>◌, pure, is_empty, failure,
}
use wudup.Lifecycle.Persistence.{synced, atomic_replace, restore_compose_backup}
use wudup.Lifecycle.Rollback.{
  restore_tag_update_services, restore_written, rollback_result, roll_back, rollback_outcome,
  incident_logged, failure_from, handle_compose_rewrite_failure,
}
use wudup.Lifecycle.Rules.{
  Ends-done_bind, Ends-raised_bind, Ends-modified, Ends, Ends-pure, Ends-raised, Ends-ask,
  Ends-bind, Ends-attempt, Ends-get, Ends-modify, Ends-assoc, Ends-if, weaken-Ends, ends_rules,
}
use wudup.Lifecycle.Safety.{IsDirty, IsBack, IsRolledBack, IsAny}

module _ (env : Env) (original : Text) where
  synced-Ends :
      (P : StackRun → Type 0) (sync : Outcome (Unit {0})) (s : StackRun)
      → P s
      → Ends (synced env false sync) s (λ _ t. P t) P
  unfolding synced
  synced-Ends P (done x) s p = search ends_rules
  synced-Ends P (raised compose_error) s p = search ends_rules
  synced-Ends P (raised os_error) s p = search ends_rules
  synced-Ends P (raised command_error) s p = search ends_rules
  synced-Ends P (raised unexpected) s p = search ends_rules
  synced-Ends P (raised interrupted) s p = search ends_rules

  -- A rewritten file whose hash is the recorded one is replaced by the old file, or not at all.
  pub restore-Ends :
      (replace sync : Outcome (Unit {0})) (s : StackRun)
      → IsDirty env original s
      → Ends
          (restore_compose_backup env original (env.hash s.compose) replace sync)
          s
          (λ _ t. IsBack env original t)
          (λ t. IsBack env original t ⊎ (IsDirty env original t × (replace ≢ done tt)))
  unfolding restore_compose_backup atomic_replace is_empty
  restore-Ends (raised e) sync s d = Ends-assoc _ _ _ (Ends-raised_bind e _ (inr (d, λ x. cc)))
  restore-Ends (done x) sync s (backup, (older, hashes), restored, verified) = Ends-assoc _ _ _ (
      Ends-done_bind x _ (
        Ends-get _ (
          rw (beq_refl (env.hash s.compose)) (
            Ends-modify _ _ (
              weaken-Ends
                (synced-Ends (IsBack env original) sync (record s { compose = original })
                  (refl, backup, rw (hashes, is_empty) refl, verified))
                (λ _ t b. b) (λ t b. inl b))))))

  -- A second restoration leaves the old file in place.
  pub restore_again-Ends :
      (hash : Text) (replace sync : Outcome (Unit {0})) (s : StackRun)
      → IsBack env original s
      → Ends
          (restore_compose_backup env original hash replace sync)
          s
          (λ _ t. IsBack env original t)
          (IsBack env original)
  unfolding restore_compose_backup atomic_replace
  restore_again-Ends hash replace sync s (compose, backup, hashes, verified) =
      let back =
        synced-Ends (IsBack env original) sync (record s { compose = original })
          (refl, backup, hashes, verified) in
      search ends_rules depth 12

  -- The services are restored by calls of the environment alone.
  restore_services-Ends :
      (P : StackRun → Type 0) (active stopped : List Text) (s : StackRun)
      → P s
      → Ends (restore_tag_update_services env active stopped) s (λ _ t. P t) P
  unfolding restore_tag_update_services
  restore_services-Ends P [] [] s p = search ends_rules depth 16
  restore_services-Ends P [] (x ∷ stopped) s p = search ends_rules depth 16
  restore_services-Ends P (y ∷ active) [] s p = search ends_rules depth 16
  restore_services-Ends P (y ∷ active) (x ∷ stopped) s p = search ends_rules depth 16

  rollback_result-Ends :
      (s : StackRun) (ok : Bool) (t : StackRun)
      → IsBack env original t
      → Ends
          (rollback_result env s ok)
          t
          (λ _ r. IsRolledBack env original r)
          (IsRolledBack env original)
  unfolding rollback_result
  rollback_result-Ends s true t b = Ends-modify _ _ (Ends-pure _ (inl b))
  rollback_result-Ends s false t b = Ends-pure _ (inl b)

  restore_written-Ends :
      (written : List Text) (s : StackRun)
      → written ≡ s.compose_written_hashes
      → IsDirty env original s
      → Ends
          (restore_written env written original)
          s
          (λ _ t. IsBack env original t)
          (IsRolledBack env original)
  unfolding restore_written
  restore_written-Ends written s same (backup, (older, hashes), restored, verified) =
      rw (same ∙ hashes, restore_written)
        (Ends-bind (λ _ t. IsBack env original t)
          (restore-Ends env.rollback_replace env.rollback_sync s
            (backup, (older, hashes), restored, verified))
          (λ durable t b. Ends-modified _ b))

  -- The whole rollback of a rewritten file.
  roll_back-Ends :
      (s : StackRun)
      → IsDirty env original s
      → Ends
          (roll_back env original)
          s
          (λ _ t. IsRolledBack env original t)
          (IsRolledBack env original)
  unfolding roll_back
  roll_back-Ends s d = Ends-get _ (
      Ends-assoc _ _ _ (
        Ends-assoc _ _ _ (
          Ends-bind (λ _ t. IsBack env original t)
            (restore_written-Ends s.compose_written_hashes s refl d)
            (λ _ t b. Ends-modify _ _ (
              Ends-bind (λ _ t. IsBack env original t)
                (weaken-Ends
                  (restore_services-Ends (IsBack env original) s.running_services s.stopped_services
                    (record t { runtime_after = none }) b)
                  (λ _ t b. b) (λ t b. inl b))
                (rollback_result-Ends s))))))

  rollback_outcome-Ends :
      (o : Outcome RollbackResult) (s : StackRun)
      → IsRolledBack env original s
      → Ends
          (rollback_outcome env o)
          s
          (λ _ t. IsRolledBack env original t)
          (IsRolledBack env original)
  unfolding rollback_outcome
  rollback_outcome-Ends (done r) s b = Ends-pure _ b
  rollback_outcome-Ends (raised compose_error) s b = Ends-pure _ b
  rollback_outcome-Ends (raised os_error) s b = Ends-pure _ b
  rollback_outcome-Ends (raised command_error) s b = Ends-raised _ b
  rollback_outcome-Ends (raised unexpected) s b = Ends-raised _ b
  rollback_outcome-Ends (raised interrupted) s b = Ends-raised _ b

  incident_logged-Ends :
      (P : StackRun → Type 0) (o : Outcome (Unit {0})) (s : StackRun)
      → P s
      → Ends (incident_logged env o) s (λ _ t. P t) P
  unfolding incident_logged
  incident_logged-Ends P (done x) s p = Ends-pure _ p
  incident_logged-Ends P (raised compose_error) s p = Ends-raised _ p
  incident_logged-Ends P (raised os_error) s p = Ends-pure _ p
  incident_logged-Ends P (raised command_error) s p = Ends-raised _ p
  incident_logged-Ends P (raised unexpected) s p = Ends-raised _ p
  incident_logged-Ends P (raised interrupted) s p = Ends-raised _ p

  IsRolledBack-IsAny : (s : StackRun) → IsRolledBack env original s → IsAny env original s
  IsRolledBack-IsAny s (inl b) = inr (inr (inl b))
  IsRolledBack-IsAny s (inr (d, _)) = inr (inl d)

  -- The failure is recorded and logged behind the rollback.
  answered-Ends :
      (phase reason : Text) (o : Outcome RollbackResult) (s : StackRun)
      → IsRolledBack env original s
      → Ends
          (rollback_outcome env o >>= λ result.
            modify (λ t. record t {
              failures =
                  record { phase = phase; reason = reason; rollback = some result } ∷ t.failures;
            })
            >> incident_logged env env.incident_log
            >> pure (failure reason))
          s
          (λ status t. (is_success status ≡ false) × IsRolledBack env original t)
          (IsAny env original)
  unfolding is_success
  answered-Ends phase reason o s b =
      Ends-bind (λ _ r. IsRolledBack env original r)
        (weaken-Ends (rollback_outcome-Ends o s b) (λ _ r x. x) IsRolledBack-IsAny)
        (λ result r x. Ends-assoc _ _ _ (
          Ends-modify _ _ (
            Ends-bind (λ _ q. IsRolledBack env original q)
              (weaken-Ends (incident_logged-Ends (IsRolledBack env original) env.incident_log _ x)
                (λ _ q y. y) IsRolledBack-IsAny)
              (λ _ q y. Ends-pure _ (refl, y)))))

  -- A failure of a rewritten file ends as a failure behind the rollback.
  failure_from-Ends :
      (backup : Option Text) (known : Bool) (reason phase : Text) (s : StackRun)
      → backup ≡ some original
      → IsDirty env original s
      → Ends
          (failure_from env backup known reason phase)
          s
          (λ status t. (is_success status ≡ false) × IsRolledBack env original t)
          (IsAny env original)
  unfolding failure_from
  failure_from-Ends backup known reason phase s same d =
      rw (same, failure_from)
        (Ends-assoc _ _ _ (
          Ends-assoc _ _ _ (
            Ends-bind (λ _ t. IsDirty env original t)
              (Ends-if known (λ _. Ends-pure _ d)
                (λ _. Ends-ask env.health_details (λ _. d) (inr (inl d))))
              (λ _ t e.
                Ends-attempt (λ _ r. IsRolledBack env original r) (IsRolledBack env original) _
                  (roll_back-Ends t e) (λ r. answered-Ends phase reason (done r))
                  (λ x. answered-Ends phase reason (raised x))))))

  pub handle_compose_rewrite_failure-Ends :
      (known : Bool) (reason phase : Text) (s : StackRun)
      → IsDirty env original s
      → Ends
          (handle_compose_rewrite_failure env known reason phase)
          s
          (λ status t. (is_success status ≡ false) × IsRolledBack env original t)
          (IsAny env original)
  unfolding handle_compose_rewrite_failure
  handle_compose_rewrite_failure-Ends known reason phase s d =
      Ends-get _ (failure_from-Ends s.compose_backup known reason phase s d.0 d)
