-- ===== src/Locks.antt =====
-- The lock of the update file, a directory beside it (src/wudup/locks.py).
pub mod Clients
mod Laws
mod Tests
use wudup.Prelude.{
  ℕ, zero, suc, ◌+◌, Text, Bool, true, false, Option, none, some, leb, if◌then◌else◌,
}
use wudup.LineSpecs.{is_number, int_from}

-- A timeout as it is given: a whole number from 0 on, one below 0, or any other value as text.
pub data TimeoutValue : Type 0 where
  whole : ℕ → TimeoutValue
  below_zero : TimeoutValue
  other : Text → TimeoutValue

-- `WudLockError` is `none`. `\d+` in ASCII is the number of `LineSpecs`.
unfoldable pub parse_lock_timeout : TimeoutValue → Option ℕ
parse_lock_timeout (whole n) = some n
parse_lock_timeout below_zero = none
parse_lock_timeout (other text) = if is_number text then some (int_from 0 text) else none

pub record DirectoryLock : Type 0 where
  pub timeout_seconds : TimeoutValue
  pub held : Bool

pub data Outcome : Type 0 where
  taken timed_out invalid_timeout : Outcome

-- What an acquisition ends in: the outcome, the lock, and the seconds that it slept.
pub record Acquired : Type 0 where
  pub outcome : Outcome
  pub lock : DirectoryLock
  pub waited : ℕ

-- The loop, with the answer of `mkdir` to each attempt, and fuel.
unfoldable pub acquire_loop : ℕ → (ℕ → Bool) → DirectoryLock → ℕ → ℕ → Option Acquired
acquire_loop zero mkdir lock timeout waited = none
acquire_loop (suc fuel) mkdir lock timeout waited =
    let rest = acquire_loop fuel mkdir lock timeout (waited + 1) in
    if mkdir waited
    then some (record { outcome = taken; lock = record lock { held = true }; waited = waited })
    else if leb timeout waited
    then some (record { outcome = timed_out; lock = lock; waited = waited })
    else rest

unfoldable pub acquire_from : (ℕ → Bool) → DirectoryLock → Option ℕ → Option Acquired
acquire_from mkdir lock none = some (record { outcome = invalid_timeout; lock = lock; waited = 0 })
acquire_from mkdir lock (some timeout) =
    if lock.held
    then some (record { outcome = taken; lock = lock; waited = 0 })
    else acquire_loop (timeout + 1) mkdir lock timeout 0

unfoldable pub acquire : (ℕ → Bool) → DirectoryLock → Option Acquired
acquire mkdir lock = acquire_from mkdir lock (parse_lock_timeout lock.timeout_seconds)
