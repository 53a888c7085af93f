-- ===== src/Lifecycle/Safety/Ends.antt =====
-- The restoration after an abort and the end of the backup.
use wudup.Prelude.{
  Text, ◌≡◌, ◌≢◌, refl, ◌⊎◌, inl, inr, Bool, true, false, not, ◌&&◌, ◌||◌, Option, none, some, List,
  [], ◌∷◌,
}
use wudup.Matching.Lines.{StackStatus, is_success}
use wudup.Lifecycle.Run.{
  is_none, Outcome, done, raised, Raised, compose_error, os_error, command_error, unexpected,
  interrupted, StackRun, Env, is_empty,
}
use wudup.Lifecycle.Rollback.{
  abort_outcome, restore_from, restore_compose_after_abort, unlinked, discard_compose_backup,
}
use wudup.Lifecycle.Rules.{
  Ends, Ends-pure, Ends-raised, Ends-attempt, Ends-get, Ends-modified, Ends-if, weaken-Ends,
}
use wudup.Lifecycle.Safety.{IsDirty, IsBack, IsVerified, IsAny, IsClosed}
use wudup.Lifecycle.Safety.Back.{restore-Ends, restore_again-Ends}

keeps_backup :
    (succeeded : Bool) (hashes : List Text) (restored verified : Bool) (newest : Text)
    (older : List Text)
    → succeeded ≡ false
    → hashes ≡ newest ∷ older
    → restored ≡ false
    → verified ≡ false
    → (not succeeded && not (is_empty hashes) && not restored && not verified) ≡ true
unfolding is_empty
keeps_backup succeeded hashes restored verified newest older f h r v = rw (f, h, r, v) refl

unsettled :
    {restored verified : Bool}
    → restored ≡ false
    → verified ≡ false
    → (restored || verified) ≡ false
unsettled r v = rw (r, v) refl

settled_by : (restored verified : Bool) → verified ≡ true → (restored || verified) ≡ true
settled_by false verified v = v
settled_by true verified v = refl

module _ (env : Env) (original : Text) where
  -- The file is the old one, or could not be restored, or has been verified.
  abbrev pub IsSettled : StackRun → Type 0
  IsSettled s =
      (s.compose ≡ original)
      ⊎ ((IsDirty env original s × (env.abort_replace ≢ done tt)) ⊎ IsVerified env s)

  -- The same without what the end of the backup may drop.
  abbrev pub IsAborted : StackRun → Type 0
  IsAborted s =
      (s.compose ≡ original)
      ⊎ (((s.compose_backup ≡ some original) × (env.abort_replace ≢ done tt)) ⊎ IsVerified env s)

  abbrev pub IsFinished : StackStatus → StackRun → Type 0
  IsFinished status s =
      (s.compose ≡ original)
      ⊎ (((is_success status ≡ false)
            × (s.compose_backup ≡ some original)
            × (env.rollback_replace ≢ done tt))
          ⊎ ((is_success status ≡ true) × IsVerified env s))

  -- A restoration that has raised is only logged, or goes on.
  abort_raised-Ends :
      (P : StackRun → Type 0) (e : Raised) (s : StackRun)
      → P s
      → Ends (abort_outcome env (raised e)) s (λ _ t. P t) P
  unfolding abort_outcome
  abort_raised-Ends P compose_error s p = Ends-pure _ p
  abort_raised-Ends P os_error s p = Ends-pure _ p
  abort_raised-Ends P command_error s p = Ends-raised _ p
  abort_raised-Ends P unexpected s p = Ends-raised _ p
  abort_raised-Ends P interrupted s p = Ends-raised _ p

  abort_done-Ends :
      (durable : Bool) (s : StackRun)
      → IsBack env original s
      → Ends (abort_outcome env (done durable)) s (λ _ t. IsSettled t) IsSettled
  unfolding abort_outcome
  abort_done-Ends durable s b = Ends-modified _ (inl b.0)

  -- Nothing has been written, or all is settled.
  idle-Ends :
      (backup : Option Text) (hashes : List Text) (settled : Bool) (s : StackRun)
      → (hashes ≡ []) ⊎ (settled ≡ true)
      → IsSettled s
      → Ends (restore_from env backup hashes settled) s (λ _ t. IsSettled t) IsSettled
  unfolding restore_from
  idle-Ends none hashes settled s h p = Ends-pure _ p
  idle-Ends (some backup) [] settled s h p = Ends-pure _ p
  idle-Ends (some backup) (x ∷ hashes) true s h p = Ends-pure _ p
  idle-Ends (some backup) (x ∷ hashes) false s (inl e) p = cc
  idle-Ends (some backup) (x ∷ hashes) false s (inr e) p = cc

  dirty-Ends :
      (backup : Option Text) (hashes : List Text) (settled : Bool) (older : List Text)
      (s : StackRun)
      → settled ≡ false
      → backup ≡ some original
      → hashes ≡ env.hash s.compose ∷ older
      → IsDirty env original s
      → Ends (restore_from env backup hashes settled) s (λ _ t. IsSettled t) IsSettled
  unfolding restore_from
  dirty-Ends backup hashes settled older s k b h d =
      rw (k, b, h, restore_from)
        (Ends-attempt (λ _ t. IsBack env original t)
          (λ t. IsBack env original t ⊎ (IsDirty env original t × (env.abort_replace ≢ done tt))) _
          (restore-Ends env original env.abort_replace env.abort_sync s d) abort_done-Ends
          (λ e t p.
            abort_raised-Ends IsSettled e t (elim p [ inl x ↦ inl x.0 | inr x ↦ inr (inl x) ])))

  back-Ends :
      (backup : Option Text) (hashes : List Text) (settled : Bool) (s : StackRun)
      → backup ≡ some original
      → IsBack env original s
      → Ends (restore_from env backup hashes settled) s (λ _ t. IsSettled t) IsSettled
  unfolding restore_from
  back-Ends backup [] settled s e b = rw (e, restore_from) (Ends-pure _ (inl b.0))
  back-Ends backup (x ∷ hashes) settled s e b =
      rw (e, restore_from)
        (Ends-if settled (λ _. Ends-pure _ (inl b.0))
          (λ _.
            Ends-attempt (λ _ t. IsBack env original t) (IsBack env original) _
              (restore_again-Ends env original x env.abort_replace env.abort_sync s b)
              abort_done-Ends (λ y t p. abort_raised-Ends IsSettled y t (inl p.0))))

  pub restore_compose_after_abort-Ends :
      (s : StackRun)
      → IsAny env original s
      → Ends (restore_compose_after_abort env) s (λ _ t. IsSettled t) IsSettled
  unfolding restore_compose_after_abort
  restore_compose_after_abort-Ends s p = Ends-get _ (elim p [
    | inl c ↦ idle-Ends _ _ _ s (inl c.1) (inl c.0)
    | inr (inl d) ↦ dirty-Ends _ _ _ d.1.0 s (unsettled d.2 d.3) d.0 d.1.1 d
    | inr (inr (inl b)) ↦ back-Ends _ _ _ s b.1 b
    | inr (inr (inr v)) ↦ idle-Ends _ _ _ s (inr (settled_by _ _ v.0)) (inr (inr v))
  ])

  unlinked-Ends :
      (P : StackRun → Type 0) (o : Outcome (Unit {0})) (s : StackRun)
      → ((backup : Option Text) → P (record s { compose_backup = backup }))
      → Ends (unlinked env o) s (λ _ t. P t) P
  unfolding unlinked
  unlinked-Ends P (done x) s p = Ends-modified _ (p none)
  unlinked-Ends P (raised compose_error) s p = Ends-raised _ (p s.compose_backup)
  unlinked-Ends P (raised os_error) s p = Ends-pure _ (p s.compose_backup)
  unlinked-Ends P (raised command_error) s p = Ends-raised _ (p s.compose_backup)
  unlinked-Ends P (raised unexpected) s p = Ends-raised _ (p s.compose_backup)
  unlinked-Ends P (raised interrupted) s p = Ends-raised _ (p s.compose_backup)

  -- What does not depend on the backup stays.
  pub discard-Ends :
      (P : StackRun → Type 0) (status : StackStatus) (s : StackRun)
      → ((backup : Option Text) → P (record s { compose_backup = backup }))
      → Ends (discard_compose_backup env status) s (λ _ t. P t) P
  unfolding discard_compose_backup
  discard-Ends P status s p = Ends-get _ (
      Ends-if (is_none s.compose_backup) (λ _. Ends-pure _ (p s.compose_backup))
        (λ _.
          Ends-if
            (not (is_success status)
              && not (is_empty s.compose_written_hashes)
              && not s.compose_restored
              && not s.health_verified)
            (λ _. Ends-pure _ (p s.compose_backup)) (λ _. unlinked-Ends P env.unlink_backup s p)))

  -- The only copy of the old file stays.
  pub discard_dirty-Ends :
      (P E : StackRun → Type 0) (status : StackStatus) (s : StackRun)
      → is_success status ≡ false
      → IsDirty env original s
      → P s
      → Ends (discard_compose_backup env status) s (λ _ t. P t) E
  unfolding discard_compose_backup
  discard_dirty-Ends P E status s f d p =
      let keep =
        keeps_backup (is_success status) s.compose_written_hashes s.compose_restored
          s.health_verified _ d.1.0 f d.1.1 d.2 d.3 in
      Ends-get _ (
        Ends-if (is_none s.compose_backup) (λ _. Ends-pure _ p)
          (λ _.
            Ends-if
              (not (is_success status)
                && not (is_empty s.compose_written_hashes)
                && not s.compose_restored
                && not s.health_verified)
              (λ _. Ends-pure _ p) (λ e. cc)))

  -- The end of the backup behind a status.
  pub status_end-Ends :
      (status : StackStatus) (s : StackRun)
      → IsClosed env original status s
      → Ends (discard_compose_backup env status) s (λ _ t. IsFinished status t) IsAborted
  status_end-Ends status s (inl c) =
      weaken-Ends (discard-Ends (λ t. t.compose ≡ original) status s (λ _. c.0)) (λ _ t p. inl p)
        (λ t p. inl p)
  status_end-Ends status s (inr (inl (f, inl b))) =
      weaken-Ends (discard-Ends (λ t. t.compose ≡ original) status s (λ _. b.0)) (λ _ t p. inl p)
        (λ t p. inl p)
  status_end-Ends status s (inr (inl (f, inr (d, n)))) =
      discard_dirty-Ends (IsFinished status) IsAborted status s f d (inr (inl (f, d.0, n)))
  status_end-Ends status s (inr (inr (t, v))) =
      weaken-Ends (discard-Ends (IsVerified env) status s (λ _. v)) (λ _ r p. inr (inr (t, p)))
        (λ r p. inr (inr p))

  -- The end of the backup behind an abort.
  pub abort_end-Ends :
      (status : StackStatus) (s : StackRun)
      → is_success status ≡ false
      → IsSettled s
      → Ends (discard_compose_backup env status) s (λ _ t. IsAborted t) IsAborted
  abort_end-Ends status s f (inl c) =
      weaken-Ends (discard-Ends (λ t. t.compose ≡ original) status s (λ _. c)) (λ _ t p. inl p)
        (λ t p. inl p)
  abort_end-Ends status s f (inr (inl (d, n))) =
      discard_dirty-Ends IsAborted IsAborted status s f d (inr (inl (d.0, n)))
  abort_end-Ends status s f (inr (inr v)) =
      weaken-Ends (discard-Ends (IsVerified env) status s (λ _. v)) (λ _ t p. inr (inr p))
        (λ t p. inr (inr p))
