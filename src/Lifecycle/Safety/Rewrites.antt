-- ===== src/Lifecycle/Safety/Rewrites.antt =====
-- The three rewrites of the Compose file: each leaves the file, rewrites it behind the backup, or
-- rolls it back.
use wudup.Prelude.{
  Text, text_eq, ◌≡◌, refl, ◌⊎◌, inl, inr, Bool, true, false, ◌&&◌, Option, none, some, List, [],
  ◌∷◌,
}
use wudup.Matching.Lines.{StackStatus, is_success}
use wudup.Lifecycle.Run.{
  done, raised, Raised, compose_error, os_error, command_error, unexpected, interrupted, StackRun,
  Rewriting, Env, M, is_empty, record_failure,
}
use wudup.Lifecycle.Persistence.{ensure_compose_backup}
use wudup.Lifecycle.Rewrite.{
  Names, report, way_back, reported, validated, refreshed, refresh, tags_applied, pinned,
  pins_applied, unpins_applied, with_backup, rewrite_for, apply_tag_updates,
  apply_digest_pin_updates, apply_digest_unpin_updates,
}
use wudup.Lifecycle.Rules.{
  Ends, Ends-pure, Ends-raised, Ends-bind, Ends-attempt, Ends-get, Ends-modify, Ends-assoc,
  Ends-ask_bind, weaken-Ends,
}
use wudup.Lifecycle.Safety.{IsRolledBack, IsClean, IsDirty, IsAny, IsOpen, IsStepped, IsWritable}
use wudup.Lifecycle.Safety.Back.{handle_compose_rewrite_failure-Ends}
use wudup.Lifecycle.Safety.Write.{
  IsEnsured, IsTagged, ensure_from-Ends, ensure_written-Ends, IsWritable-IsAny,
  apply_rewriting-Ends, apply_compose_tag_updates-Ends, Ends-rewritten,
}

and_false : (b : Bool) {c : Bool} → c ≡ false → (b && c) ≡ false
and_false true e = e
and_false false e = refl

module _ (env : Env) (original : Text) where
  abbrev Steps : M (Option StackStatus) → StackRun → Type 0
  Steps m s = Ends m s (IsStepped env original) (IsAny env original)

  pub IsOpen-IsAny : (s : StackRun) → IsOpen env original s → IsAny env original s
  IsOpen-IsAny s (inl c) = inl c
  IsOpen-IsAny s (inr d) = inr (inl d.0)

  report-Ends : (names : Names) (s : StackRun) → IsClean env original s → Steps (report env names) s
  unfolding report record_failure
  report-Ends names s c = Ends-modify _ _ (Ends-pure _ (inl c))

  way_back-Ends :
      (reason phase : Text) (s : StackRun)
      → IsDirty env original s
      → Steps (way_back env reason phase) s
  unfolding way_back
  way_back-Ends reason phase s d =
      Ends-bind (λ status t. (is_success status ≡ false) × IsRolledBack env original t)
        (handle_compose_rewrite_failure-Ends env original false reason phase s d)
        (λ status t p. Ends-pure _ (inr (inl p)))

  IsWritable-cases :
      (s : StackRun) → IsWritable env original s → IsClean env original s ⊎ IsDirty env original s
  IsWritable-cases s (inl c) = inl c.0
  IsWritable-cases s (inr d) = inr d

  reported-Ends :
      (names : Names) (s : StackRun) → IsWritable env original s → Steps (reported env names) s
  unfolding reported
  reported-Ends names s w = Ends-get _ (
      Ends-rewritten env original _ _ (IsWritable-cases s w) (way_back-Ends _ _ s)
        (report-Ends names s))

  abbrev IsApplied : StackRun → Type 0
  IsApplied s =
      (is_empty s.applied_tags
        && (is_empty s.applied_digest_pins && is_empty s.applied_digest_unpins))
      ≡ false

  validated-Ends :
      (names : Names) (images : List Text) (valid : Bool) (s : StackRun)
      → IsDirty env original s
      → IsApplied s
      → Steps (validated env names images valid) s
  unfolding validated
  validated-Ends names images true s d a = Ends-modify _ _ (Ends-pure _ (inr (d, a)))
  validated-Ends names images false s d a = way_back-Ends _ _ s d

  refreshed-Ends :
      (names : Names) (rewriting : Rewriting) (images : Option (List Text)) (s : StackRun)
      → IsDirty env original s
      → IsApplied s
      → Steps (refreshed env names rewriting images) s
  unfolding refreshed
  refreshed-Ends names rewriting none s d a = way_back-Ends _ _ s d
  refreshed-Ends names rewriting (some images) s d a =
      Ends-ask_bind rewriting.valid (λ valid. validated-Ends names images valid s d a) (inr (inl d))

  refresh-Ends :
      (names : Names) (rewriting : Rewriting) (s : StackRun)
      → IsDirty env original s
      → IsApplied s
      → Steps (refresh env names rewriting) s
  unfolding refresh
  refresh-Ends names rewriting s d a =
      Ends-ask_bind rewriting.refreshed (λ images. refreshed-Ends names rewriting images s d a)
        (inr (inl d))

  tags_applied-Ends :
      (tags : List Text) (s : StackRun)
      → IsTagged env original tags s
      → Steps (tags_applied env (done tags)) s
  unfolding tags_applied is_empty
  tags_applied-Ends [] s c = report-Ends _ s c
  tags_applied-Ends (t ∷ tags) s d = Ends-modify _ _ (refresh-Ends _ _ _ d refl)

  tags_raised-Ends :
      (e : Raised) (s : StackRun)
      → IsWritable env original s
      → Steps (tags_applied env (raised e)) s
  unfolding tags_applied
  tags_raised-Ends compose_error s w = reported-Ends _ s w
  tags_raised-Ends os_error s w = reported-Ends _ s w
  tags_raised-Ends command_error s w = Ends-raised _ (IsWritable-IsAny env original s w)
  tags_raised-Ends unexpected s w = Ends-raised _ (IsWritable-IsAny env original s w)
  tags_raised-Ends interrupted s w = Ends-raised _ (IsWritable-IsAny env original s w)

  pinned-Ends :
      (status : Option StackStatus) (s : StackRun)
      → IsStepped env original status s
      → Steps (pinned env status) s
  unfolding pinned
  pinned-Ends (some status) s p = Ends-pure _ p
  pinned-Ends none s p = Ends-get _ (
      Ends-ask_bind (env.image_state s.images) (λ after. Ends-modify _ _ (Ends-pure _ p))
        (IsOpen-IsAny s p))

  pins_applied-Ends :
      (pins : List Text) (s : StackRun)
      → IsDirty env original s
      → Steps (pins_applied env (done pins)) s
  unfolding pins_applied is_empty
  pins_applied-Ends [] s d = reported-Ends _ s (inr d)
  pins_applied-Ends (p ∷ pins) s d = Ends-assoc _ _ _ (
      Ends-modify _ _ (
        Ends-bind (IsStepped env original)
          (refresh-Ends _ _ _ d (and_false (is_empty s.applied_tags) refl)) pinned-Ends))

  pins_raised-Ends :
      (e : Raised) (s : StackRun)
      → IsWritable env original s
      → Steps (pins_applied env (raised e)) s
  unfolding pins_applied
  pins_raised-Ends compose_error s w = reported-Ends _ s w
  pins_raised-Ends os_error s w = reported-Ends _ s w
  pins_raised-Ends command_error s w = Ends-raised _ (IsWritable-IsAny env original s w)
  pins_raised-Ends unexpected s w = Ends-raised _ (IsWritable-IsAny env original s w)
  pins_raised-Ends interrupted s w = Ends-raised _ (IsWritable-IsAny env original s w)

  unpins_applied-Ends :
      (unpins : List Text) (s : StackRun)
      → IsDirty env original s
      → Steps (unpins_applied env (done unpins)) s
  unfolding unpins_applied is_empty
  unpins_applied-Ends [] s d = reported-Ends _ s (inr d)
  unpins_applied-Ends (u ∷ unpins) s d = Ends-modify _ _ (
      refresh-Ends _ _ _ d
        (and_false (is_empty s.applied_tags) (and_false (is_empty s.applied_digest_pins) refl)))

  unpins_raised-Ends :
      (e : Raised) (s : StackRun)
      → IsWritable env original s
      → Steps (unpins_applied env (raised e)) s
  unfolding unpins_applied
  unpins_raised-Ends compose_error s w = reported-Ends _ s w
  unpins_raised-Ends os_error s w = reported-Ends _ s w
  unpins_raised-Ends command_error s w = Ends-raised _ (IsWritable-IsAny env original s w)
  unpins_raised-Ends unexpected s w = Ends-raised _ (IsWritable-IsAny env original s w)
  unpins_raised-Ends interrupted s w = Ends-raised _ (IsWritable-IsAny env original s w)

  ensured-Ends :
      (m : M (Option StackStatus))
      → ((t : StackRun) → IsClean env original t → t.compose_backup ≡ some original → Steps m t)
      → (status : Option StackStatus) (s : StackRun) → IsEnsured env original status s
      → Steps (with_backup env m status) s
  unfolding with_backup
  ensured-Ends m h (some status) s p = Ends-pure _ (inl p.1)
  ensured-Ends m h none s p = h s p.0 p.1

  -- A rewrite that the backup does not stop goes on where the backup is there.
  clean_rewrite-Ends :
      (updates : List Text) (m : M (Option StackStatus)) (s : StackRun)
      → IsClean env original s
      → ((t : StackRun) → IsClean env original t → t.compose_backup ≡ some original → Steps m t)
      → Steps (rewrite_for env updates m) s
  unfolding rewrite_for ensure_compose_backup
  clean_rewrite-Ends [] m s c h = Ends-pure _ (inl c)
  clean_rewrite-Ends (u ∷ updates) m s c h =
      Ends-bind (IsEnsured env original)
        (Ends-get _ (
          weaken-Ends (ensure_from-Ends env original s.compose_backup s refl c) (λ _ t p. p)
            (λ t p. inl p)))
        (ensured-Ends m h)

  open_rewrite-Ends :
      (updates : List Text) (m : M (Option StackStatus)) (s : StackRun)
      → IsOpen env original s
      → ((t : StackRun) → IsWritable env original t → Steps m t)
      → Steps (rewrite_for env updates m) s
  unfolding rewrite_for ensure_compose_backup with_backup
  open_rewrite-Ends updates m s (inl c) h =
      clean_rewrite-Ends updates m s c (λ t k b. h t (inl (k, b)))
  open_rewrite-Ends [] m s (inr d) h = Ends-pure _ (inr d)
  open_rewrite-Ends (u ∷ updates) m s (inr d) h =
      Ends-bind (λ status t. (status ≡ none) × IsDirty env original t)
        (Ends-get _ (
          weaken-Ends
            (ensure_written-Ends env original (IsDirty env original) s.compose_backup s d.0.0 d.0)
            (λ _ t p. p) (λ t p. inr (inl p))))
        (λ status t p. rw (p.0, with_backup) (h t (inr p.1)))

  pub apply_tag_updates-Ends :
      (s : StackRun) → IsClean env original s → Steps (apply_tag_updates env) s
  unfolding apply_tag_updates
  apply_tag_updates-Ends s c = Ends-get _ (
      clean_rewrite-Ends _ _ s c (λ t k b.
        Ends-attempt (IsTagged env original) (IsWritable env original) _
          (apply_compose_tag_updates-Ends env original env.tags t k b) tags_applied-Ends
          tags_raised-Ends))

  pub apply_digest_pin_updates-Ends :
      (s : StackRun) → IsOpen env original s → Steps (apply_digest_pin_updates env) s
  unfolding apply_digest_pin_updates
  apply_digest_pin_updates-Ends s p = Ends-get _ (
      open_rewrite-Ends _ _ s p (λ t w.
        Ends-attempt (λ _. IsDirty env original) (IsWritable env original) _
          (apply_rewriting-Ends env original env.pins t w) pins_applied-Ends pins_raised-Ends))

  pub apply_digest_unpin_updates-Ends :
      (s : StackRun) → IsOpen env original s → Steps (apply_digest_unpin_updates env) s
  unfolding apply_digest_unpin_updates
  apply_digest_unpin_updates-Ends s p = Ends-get _ (
      open_rewrite-Ends _ _ s p (λ t w.
        Ends-attempt (λ _. IsDirty env original) (IsWritable env original) _
          (apply_rewriting-Ends env original env.unpins t w) unpins_applied-Ends
          unpins_raised-Ends))
