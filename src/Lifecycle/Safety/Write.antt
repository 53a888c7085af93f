-- ===== src/Lifecycle/Safety/Write.antt =====
-- The backup and the replacement of the Compose file: the old file is behind each of them.
use wudup.Prelude.{
  ap, Text, text_eq, ◌≡◌, refl, ◌⊎◌, inl, inr, true, false, not, ◌&&◌, Option, none, some, List, [],
  ◌∷◌, if◌then◌else◌, beq_refl,
}
use wudup.Matching.Lines.{StackStatus, is_success}
use wudup.Lifecycle.Run.{
  Outcome, done, raised, compose_error, os_error, command_error, unexpected, interrupted, StackRun,
  Rewriting, Env, M, is_empty, is_none, compose_rewrite_applied, record_failure,
}
use wudup.Lifecycle.Persistence.{
  synced, atomic_replace, backed_up, ensure_from, expected_from, expected_compose_hash,
}
use wudup.Lifecycle.Rewrite.{
  write_rendering, apply_rewriting, write_tags, apply_compose_tag_updates,
}
use wudup.Lifecycle.Rules.{
  Ends, Ends-pure, Ends-raised, Ends-bind, Ends-get, Ends-modify, Ends-assoc, Ends-if,
  Ends-ask_bind, weaken-Ends, ends_rules,
}
use wudup.Lifecycle.Safety.{IsClean, IsDirty, IsAny, IsWritable}

module _ (env : Env) (original : Text) where
  -- The backup holds the old file behind `_ensure_compose_backup`.
  abbrev pub IsEnsured : Option StackStatus → StackRun → Type 0
  IsEnsured none s = IsClean env original s × (s.compose_backup ≡ some original)
  IsEnsured (some status) s = (is_success status ≡ false) × IsClean env original s

  backed_up-Ends :
      (o : Outcome (Unit {0})) (s : StackRun)
      → IsClean env original s
      → Ends (backed_up env o) s IsEnsured (IsClean env original)
  unfolding backed_up record_failure is_success
  backed_up-Ends (done x) s c =
      Ends-modify _ _
        (Ends-pure _ ((c.0, c.1, c.2, c.3, c.4, inr (ap some c.0), c.6, c.7), ap some c.0))
  backed_up-Ends (raised compose_error) s c = Ends-raised _ c
  backed_up-Ends (raised os_error) s c = Ends-modify _ _ (Ends-pure _ (refl, c))
  backed_up-Ends (raised command_error) s c = Ends-raised _ c
  backed_up-Ends (raised unexpected) s c = Ends-raised _ c
  backed_up-Ends (raised interrupted) s c = Ends-raised _ c

  synced-Ends :
      (P : StackRun → Type 0) (sync : Outcome (Unit {0})) (s : StackRun)
      → P s
      → Ends (synced env true sync) s (λ _ t. P t) P
  unfolding synced
  synced-Ends P (done x) s p = search ends_rules
  synced-Ends P (raised compose_error) s p = search ends_rules
  synced-Ends P (raised os_error) s p = search ends_rules
  synced-Ends P (raised command_error) s p = search ends_rules
  synced-Ends P (raised unexpected) s p = search ends_rules
  synced-Ends P (raised interrupted) s p = search ends_rules

  pub ensure_from-Ends :
      (backup : Option Text) (s : StackRun)
      → backup ≡ s.compose_backup
      → IsClean env original s
      → Ends (ensure_from env backup) s IsEnsured (IsClean env original)
  unfolding ensure_from
  ensure_from-Ends none s e c = backed_up-Ends env.backup s c
  ensure_from-Ends (some backup) s e c = Ends-pure _ (c, elim c.5 [ inl n ↦ cc | inr b ↦ b ])

  pub ensure_written-Ends :
      (P : StackRun → Type 0) (backup : Option Text) (s : StackRun)
      → backup ≡ some original
      → P s
      → Ends (ensure_from env backup) s (λ status t. (status ≡ none) × P t) P
  unfolding ensure_from
  ensure_written-Ends P none s e p = cc
  ensure_written-Ends P (some backup) s e p = Ends-pure _ (refl, p)

  expected-IsWritable :
      (s : StackRun) → IsWritable env original s → expected_compose_hash env s ≡ env.hash s.compose
  unfolding expected_compose_hash expected_from
  expected-IsWritable s (inl (c, b)) = rw (c.1, b, c.0) refl
  expected-IsWritable s (inr d) = rw d.1.1 refl

  pub IsWritable-IsAny : (s : StackRun) → IsWritable env original s → IsAny env original s
  IsWritable-IsAny s (inl (c, b)) = inl c
  IsWritable-IsAny s (inr d) = inr (inl d)

  kept-IsWritable :
      (s : StackRun)
      → IsWritable env original s
      → (s.compose_backup ≡ some original)
        × (s.compose_restored ≡ false)
        × (s.health_verified ≡ false)
  kept-IsWritable s (inl (c, b)) = (b, c.6, c.7)
  kept-IsWritable s (inr d) = (d.0, d.2, d.3)

  atomic_replace-Ends :
      (rendered expected : Text) (replace sync : Outcome (Unit {0})) (s : StackRun)
      → expected ≡ env.hash s.compose
      → IsWritable env original s
      → Ends
          (atomic_replace env rendered expected true replace sync)
          s
          (λ _ t. IsDirty env original t)
          (IsWritable env original)
  unfolding atomic_replace
  atomic_replace-Ends rendered expected replace sync s e w =
      let kept = kept-IsWritable s w in
      Ends-assoc _ _ _ (
        Ends-ask_bind replace
          (λ _. Ends-get _ (
            rw (e, beq_refl (env.hash s.compose))
              (Ends-modify _ _ (
                weaken-Ends
                  (synced-Ends (IsDirty env original) sync _
                    (kept.0, (s.compose_written_hashes, refl), kept.1, kept.2))
                  (λ _ t d. d) (λ t d. inr d)))))
          w)

  -- What is rendered is written, and the file is a rewritten one behind it.
  write_rendering-Ends :
      (rewriting : Rewriting) (rendering : Text × List Text) (s : StackRun)
      → IsWritable env original s
      → Ends
          (write_rendering env rewriting rendering)
          s
          (λ _ t. IsDirty env original t)
          (IsWritable env original)
  unfolding write_rendering
  write_rendering-Ends rewriting (rendered, applied) s w = Ends-get _ (
      Ends-bind (λ _ t. IsDirty env original t)
        (atomic_replace-Ends rendered _ rewriting.replace rewriting.sync s (expected-IsWritable s w)
          w)
        (λ _ t d. Ends-pure _ d))

  pub apply_rewriting-Ends :
      (rewriting : Rewriting) (s : StackRun)
      → IsWritable env original s
      → Ends
          (apply_rewriting env rewriting)
          s
          (λ _ t. IsDirty env original t)
          (IsWritable env original)
  unfolding apply_rewriting
  apply_rewriting-Ends rewriting s w =
      Ends-get _
        (Ends-ask_bind (rewriting.render s.compose) (λ r. write_rendering-Ends rewriting r s w) w)

  -- Tags that apply nowhere are not written.
  abbrev pub IsTagged : List Text → StackRun → Type 0
  IsTagged [] s = IsClean env original s
  IsTagged (t ∷ tags) s = IsDirty env original s

  write_tags-Ends :
      (rewriting : Rewriting) (rendering : Text × List Text) (s : StackRun)
      → IsClean env original s
      → s.compose_backup ≡ some original
      → Ends (write_tags env rewriting rendering) s IsTagged (IsWritable env original)
  unfolding write_tags is_empty write_rendering
  write_tags-Ends rewriting (rendered, []) s c b = Ends-pure _ c
  write_tags-Ends rewriting (rendered, t ∷ tags) s c b = Ends-get _ (
      Ends-bind (λ _ r. IsDirty env original r)
        (atomic_replace-Ends rendered _ rewriting.replace rewriting.sync s
          (expected-IsWritable s (inl (c, b))) (inl (c, b)))
        (λ _ r d. Ends-pure _ d))

  pub apply_compose_tag_updates-Ends :
      (rewriting : Rewriting) (s : StackRun)
      → IsClean env original s
      → s.compose_backup ≡ some original
      → Ends (apply_compose_tag_updates env rewriting) s IsTagged (IsWritable env original)
  unfolding apply_compose_tag_updates
  apply_compose_tag_updates-Ends rewriting s c b = Ends-get _ (
      Ends-ask_bind (rewriting.render s.compose) (λ r. write_tags-Ends rewriting r s c b)
        (inl (c, b)))

  -- A failure before the file is written is told from any other by what is recorded.
  applied-IsClean :
      (s : StackRun)
      → IsClean env original s
      → (compose_rewrite_applied s && not (is_none s.compose_backup)) ≡ false
  unfolding compose_rewrite_applied is_empty
  applied-IsClean s c = rw (c.1, c.2, c.3, c.4) refl

  applied-IsDirty :
      (s : StackRun)
      → IsDirty env original s
      → (compose_rewrite_applied s && not (is_none s.compose_backup)) ≡ true
  unfolding compose_rewrite_applied is_empty is_none
  applied-IsDirty s d = rw (d.0, d.1.1) refl

  pub Ends-rewritten :
      {A : Type 0} {Q : A → StackRun → Type 0} {E : StackRun → Type 0} (m n : M A) {s : StackRun}
      → IsClean env original s ⊎ IsDirty env original s
      → (IsDirty env original s → Ends m s Q E)
      → (IsClean env original s → Ends n s Q E)
      → Ends (if compose_rewrite_applied s && not (is_none s.compose_backup) then m else n) s Q E
  Ends-rewritten m n {s} (inl c) p q =
      let clean = applied-IsClean s c in
      Ends-if (compose_rewrite_applied s && not (is_none s.compose_backup)) (λ t. cc) (λ _. q c)
  Ends-rewritten m n {s} (inr d) p q =
      let dirty = applied-IsDirty s d in
      Ends-if (compose_rewrite_applied s && not (is_none s.compose_backup)) (λ _. p d) (λ f. cc)
