-- ===== src/Lifecycle/Run.antt =====
-- The state of the update of one stack (`_StackUpdateState`, with the Compose file and what the
-- runner records), what the environment answers, and programs over both.
use wudup.Prelude.{
  Text, codes, text_eq, Bool, true, false, not, ◌||◌, Option, none, some, List, [], ◌∷◌,
}
use wudup.Prelude.Dict.{Dict}
use wudup.Matching.Lines.{StackStatus}

-- `ComposeTagRewriteError`, `OSError`, `CommandError`, any other exception, and what is no `Exception`,
-- such as an interrupt.
pub data Raised : Type 0 where
  compose_error os_error command_error unexpected interrupted : Raised

pub data Outcome (A : Type 0) : Type 0 where
  done : A → Outcome A
  raised : Raised → Outcome A

pub data UpdateMode : Type 0 where
  live pause stop : UpdateMode

pub record ImageState : Type 0 where
  pub image_id : Text
  pub digest : Text

pub record UpResult : Type 0 where
  pub ok : Bool
  pub wait_handled : Bool

-- `_StopResult`: whether the stop before the recreation failed.
pub record StopResult : Type 0 where
  pub failed : Bool

pub data RollbackResult : Type 0 where
  restored_and_healthy restored_and_stopped manual_review_required : RollbackResult

-- The fields of a failure record that are followed here.
pub record Failure : Type 0 where
  pub phase : Text
  pub reason : Text
  pub rollback : Option RollbackResult

pub record StackRun : Type 0 where
  -- The Compose file and its backup.
  pub compose : Text
  pub compose_backup : Option Text
  -- The newest first.
  pub compose_written_hashes : List Text
  pub compose_restored : Bool
  pub health_verified : Bool
  pub applied_tags : List Text
  pub applied_digest_pins : List Text
  pub applied_digest_unpins : List Text
  pub compose_tag_updates : List Text
  pub digest_pin_updates : List Text
  pub digest_unpin_updates : List Text
  pub running_services : List Text
  pub stopped_services : List Text
  pub start_failed_services : List Text
  pub stop_services : List Text
  -- `_update_services` of the matches.
  pub targets : Option (List Text)
  pub images : List Text
  pub before : Dict Text ImageState
  pub after : Dict Text ImageState
  pub failures : List Failure
  -- `stack_runtime_states_after` of this stack.
  pub runtime_after : Option (List Text × List Text)

-- One rewrite of the Compose file: the rendered text with what it applies, the replacement of the
-- file, the sync of its folder, and the check of the refreshed stack.
pub record Rewriting : Type 0 where
  pub render : Text → Outcome (Text × List Text)
  pub replace : Outcome (Unit {0})
  pub sync : Outcome (Unit {0})
  pub refreshed : Outcome (Option (List Text))
  pub valid : Outcome Bool

-- What Docker and the file system answer, call by call.
pub record Env : Type 0 where
  pub hash : Text → Text
  pub mode : UpdateMode
  pub backup : Outcome (Unit {0})
  pub unlink_backup : Outcome (Unit {0})
  pub tags : Rewriting
  pub pins : Rewriting
  pub unpins : Rewriting
  pub pull : Outcome (Unit {0})
  pub image_state : List Text → Outcome (Dict Text ImageState)
  pub digests_reached : Outcome Bool
  pub digest_failure_reason : Text
  pub pins_verified : Outcome Bool
  -- The services whose containers are unverified, missing, or behind the pulled image.
  pub container_images : List Text → Outcome (List Text × List Text × List Text)
  pub up_no_start : List Text → Outcome UpResult
  pub stop_or_pause : List Text → Outcome (Unit {0})
  pub up : List Text → Outcome UpResult
  pub verify_stopped : List Text → Outcome UpResult
  pub unpause : List Text → Outcome (Unit {0})
  pub start : List Text → Outcome (Unit {0})
  pub wait_for_health : List Text → Outcome Bool
  pub health_details : Outcome (Unit {0})
  -- The same calls on the way back.
  pub rollback_replace : Outcome (Unit {0})
  pub rollback_sync : Outcome (Unit {0})
  pub rollback_up_no_start : List Text → Outcome UpResult
  pub rollback_up : List Text → Outcome UpResult
  pub rollback_verify_stopped : List Text → Outcome UpResult
  pub rollback_health : List Text → Outcome Bool
  pub incident_log : Outcome (Unit {0})
  pub abort_replace : Outcome (Unit {0})
  pub abort_sync : Outcome (Unit {0})

-- A program reads and writes the state; what it has written stays written when it raises.
abbrev pub M : Type 0 → Type 0
M A = StackRun → Outcome A × StackRun

abbrev pub after_outcome : {A B : Type 0} → (A → M B) → Outcome A × StackRun → Outcome B × StackRun
after_outcome f (done a, s) = f a s
after_outcome f (raised e, s) = (raised e, s)

infixl 5 ◌>>=◌ ◌>>◌
unfoldable pub ◌>>=◌ : {A B : Type 0} → M A → (A → M B) → M B
◌>>=◌ m f s = after_outcome f (m s)

abbrev pub ◌>>◌ : {A B : Type 0} → M A → M B → M B
m >> k = m >>= λ _. k

unfoldable pub pure : {A : Type 0} → A → M A
pure a s = (done a, s)

-- A call of the environment.
unfoldable pub ask : {A : Type 0} → Outcome A → M A
ask o s = (o, s)

unfoldable pub get : M StackRun
get s = (done s, s)

unfoldable pub modify : (StackRun → StackRun) → M (Unit {0})
modify f s = (done tt, f s)

-- `try`: the outcome itself, for the handlers.
unfoldable pub attempt : {A : Type 0} → M A → M (Outcome A)
attempt m s = (done (m s).0, (m s).1)

abbrev pub failure : Text → StackStatus
failure reason = record { status = codes "failure"; reason = reason }

abbrev pub success : Text → StackStatus
success reason = record { status = codes "success"; reason = reason }

unfoldable pub is_empty {ℓ} : {A : Type ℓ} → List A → Bool
is_empty [] = true
is_empty (x ∷ xs) = false

unfoldable pub is_none {ℓ} : {A : Type ℓ} → Option A → Bool
is_none none = true
is_none (some a) = false

-- `compose_rewrite_applied`
unfoldable pub compose_rewrite_applied : StackRun → Bool
compose_rewrite_applied s =
    not (is_empty s.compose_written_hashes)
    || not (is_empty s.applied_tags)
    || not (is_empty s.applied_digest_pins)
    || not (is_empty s.applied_digest_unpins)

-- `_record_failure`
unfoldable pub record_failure : Text → Text → M (Unit {0})
record_failure phase reason = modify (λ s. record s {
  failures = record { phase = phase; reason = reason; rollback = none } ∷ s.failures;
})
