-- ===== src/Lifecycle/Safety.antt =====
-- Where the old Compose file is at every point of an update: the states that a run goes through, and
-- what a program ends in.
pub mod Back
pub mod Write
pub mod Rewrites
pub mod Pulls
pub mod Calls
pub mod Recreates
pub mod Ends
pub mod Laws
use wudup.Prelude.{Text, ◌≡◌, ◌≢◌, ◌⊎◌, true, false, ◌&&◌, Option, none, some, List, [], ◌∷◌}
use wudup.Matching.Lines.{StackStatus, is_success}
use wudup.Lifecycle.Run.{done, UpResult, StackRun, Env, is_empty}

module _ (env : Env) where
  -- The end of the health gate: no service is to run, or the wait answers that the running services are
  -- healthy, or an up of them has succeeded and has waited for their health itself.
  abbrev pub IsGated : StackRun → Type 0
  IsGated s =
      (s.running_services ≡ [])
      ⊎ ((env.wait_for_health s.running_services ≡ done true)
          ⊎ ((up : UpResult) × ((env.up s.running_services ≡ done up)
                × (up.ok ≡ true)
                × (up.wait_handled ≡ true))))

  -- The flag of the verification is set behind the health gate.
  abbrev pub IsVerified : StackRun → Type 0
  IsVerified s = (s.health_verified ≡ true) × IsGated s

module _ (env : Env) (original : Text) where
  abbrev pub IsBackedUp : StackRun → Type 0
  IsBackedUp s = (s.compose_backup ≡ none) ⊎ (s.compose_backup ≡ some original)

  -- Nothing has been written.
  abbrev pub IsClean : StackRun → Type 0
  IsClean s =
      (s.compose ≡ original)
      × (s.compose_written_hashes ≡ [])
      × (s.applied_tags ≡ [])
      × (s.applied_digest_pins ≡ [])
      × (s.applied_digest_unpins ≡ [])
      × IsBackedUp s
      × (s.compose_restored ≡ false)
      × (s.health_verified ≡ false)

  -- The file has been rewritten: its hash is recorded, and the backup holds the old file.
  abbrev pub IsDirty : StackRun → Type 0
  IsDirty s =
      (s.compose_backup ≡ some original)
      × ((older : List Text) × (s.compose_written_hashes ≡ env.hash s.compose ∷ older))
      × (s.compose_restored ≡ false)
      × (s.health_verified ≡ false)

  -- The old file is back.
  abbrev pub IsBack : StackRun → Type 0
  IsBack s =
      (s.compose ≡ original)
      × (s.compose_backup ≡ some original)
      × (is_empty s.compose_written_hashes ≡ false)
      × (s.health_verified ≡ false)

  -- Rolled back, or still rewritten where the old file could not be put back.
  abbrev pub IsRolledBack : StackRun → Type 0
  IsRolledBack s = IsBack s ⊎ (IsDirty s × (env.rollback_replace ≢ done tt))

  abbrev pub IsAny : StackRun → Type 0
  IsAny s = IsClean s ⊎ (IsDirty s ⊎ (IsBack s ⊎ IsVerified env s))

  -- The file is the old one behind the backup, or has been rewritten already.
  abbrev pub IsWritable : StackRun → Type 0
  IsWritable s = (IsClean s × (s.compose_backup ≡ some original)) ⊎ IsDirty s

  -- Between the steps a rewritten file has something applied.
  abbrev pub IsOpen : StackRun → Type 0
  IsOpen s =
      IsClean s
      ⊎ (IsDirty s
          × ((is_empty s.applied_tags
                && (is_empty s.applied_digest_pins && is_empty s.applied_digest_unpins))
              ≡ false))

  -- What a status ends in.
  abbrev pub IsClosed : StackStatus → StackRun → Type 0
  IsClosed status s =
      IsClean s
      ⊎ (((is_success status ≡ false) × IsRolledBack s)
          ⊎ ((is_success status ≡ true) × IsVerified env s))

  -- What a step ends in: the next step, or a status.
  abbrev pub IsStepped : Option StackStatus → StackRun → Type 0
  IsStepped none s = IsOpen s
  IsStepped (some status) s = IsClosed status s
