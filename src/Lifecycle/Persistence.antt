-- ===== src/Lifecycle/Persistence.antt =====
-- The backup of the Compose file and its guarded replacement (src/wudup/compose_persistence.py).
-- The file is that of the state: nobody else writes it during the run.
use wudup.Prelude.{
  Text, codes, text_eq, ◌==◌, Bool, true, false, not, Option, none, some, List, [], ◌∷◌,
  if◌then◌else◌,
}
use wudup.Matching.Lines.{StackStatus}
use wudup.Lifecycle.Run.{
  Outcome, done, raised, compose_error, os_error, StackRun, Env, M, ◌>>=◌, ◌>>◌, pure, ask, get,
  modify, failure, record_failure,
}

module _ (env : Env) where
  -- `_sync_replaced_compose`: where there is a way back a failed sync is an error, else `false`.
  unfoldable pub synced : Bool → Outcome (Unit {0}) → M Bool
  synced can_roll_back (done _) = pure true
  synced can_roll_back (raised os_error) =
      if can_roll_back then ask (raised compose_error) else pure false
  synced can_roll_back (raised e) = ask (raised e)

  -- `_atomic_replace_compose`: the content is written under the expected hash, and the hash of the new
  -- content is recorded before the sync where the caller keeps hashes.
  unfoldable pub atomic_replace :
      Text → Text → Bool → Outcome (Unit {0}) → Outcome (Unit {0}) → M Bool
  atomic_replace rendered expected_hash tracks replace sync = ask replace >> get >>= λ s.
      if not (env.hash s.compose == expected_hash)
      then ask (raised compose_error)
      else (modify (λ t. record t {
        compose = rendered;
        compose_written_hashes =
            if tracks
            then env.hash rendered ∷ t.compose_written_hashes
            else t.compose_written_hashes;
      })
          >> synced tracks sync)

  -- `restore_compose_backup`
  unfoldable pub restore_compose_backup :
      Text → Text → Outcome (Unit {0}) → Outcome (Unit {0}) → M Bool
  restore_compose_backup backup expected_hash replace sync =
      atomic_replace backup expected_hash false replace sync

  unfoldable pub backed_up : Outcome (Unit {0}) → M (Option StackStatus)
  backed_up (done _) = modify (λ s. record s { compose_backup = some s.compose }) >> pure none
  backed_up (raised os_error) =
      record_failure (codes "compose-backup") (codes "compose-backup-failed")
      >> pure (some (failure (codes "compose-backup-failed")))
  backed_up (raised e) = ask (raised e)

  unfoldable pub ensure_from : Option Text → M (Option StackStatus)
  ensure_from (some backup) = pure none
  ensure_from none = backed_up env.backup

  -- `_ensure_compose_backup`
  unfoldable pub ensure_compose_backup : M (Option StackStatus)
  ensure_compose_backup = get >>= λ s. ensure_from s.compose_backup

  unfoldable pub expected_from : List Text → Option Text → Text
  expected_from (newest ∷ older) backup = newest
  expected_from [] (some backup) = env.hash backup
  expected_from [] none = []

  -- `_expected_compose_hash`; its assertion that there is a backup holds where it is called.
  unfoldable pub expected_compose_hash : StackRun → Text
  expected_compose_hash s = expected_from s.compose_written_hashes s.compose_backup
