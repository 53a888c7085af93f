-- ===== src/Logins.antt =====
-- The throttle of logins (src/wudup/web_auth.py). Each operation runs under the lock of the throttle
-- and is one step. Times are numbers of ticks, 60 of which are the cooldown; a difference of times is
-- compared as a sum.
pub mod Steps
mod Laws
pub mod Safety
mod Bounds
mod Tests
use wudup.Prelude.{
  ℕ, zero, suc, ◌+◌, ◌-◌, Text, text_eq, nat_eq, ◌==◌, Bool, true, false, not, ◌&&◌, ◌||◌, Option,
  none, some, List, [], ◌∷◌, leb, ltb, length, filter, if◌then◌else◌, Testable, pair_eq,
}
use wudup.Prelude.Dict.{Dict, lookup, get_or, put, pop}

abbrev pub login_throttle_max_failures : ℕ
login_throttle_max_failures = 5

abbrev pub login_throttle_cooldown_seconds : ℕ
login_throttle_cooldown_seconds = 60

abbrev pub login_throttle_max_entries : ℕ
login_throttle_max_entries = 1024

abbrev pub login_throttle_max_client_entries : ℕ
login_throttle_max_client_entries = 1024

pub record LoginThrottleEntry : Type 0 where
  pub failures : ℕ
  pub first_failed_at : ℕ
  pub last_failed_at : ℕ
  pub locked_until : ℕ

unfoldable pub failures_of : Option LoginThrottleEntry → ℕ
failures_of none = 0
failures_of (some entry) = entry.failures

unfoldable pub is_locked : ℕ → Option LoginThrottleEntry → Bool
is_locked now none = false
is_locked now (some entry) = ltb now entry.locked_until

unfoldable pub login_attempts_exhausted : Option LoginThrottleEntry → ℕ → ℕ → Bool
login_attempts_exhausted entry pending now =
    is_locked now entry || leb login_throttle_max_failures (failures_of entry + pending)

-- The lock of an entry that has reached the limit.
unfoldable pub locked_at : ℕ → LoginThrottleEntry → LoginThrottleEntry
locked_at now entry = record entry {
  locked_until =
      if leb login_throttle_max_failures entry.failures
      then now + login_throttle_cooldown_seconds
      else entry.locked_until;
}

unfoldable pub first_failure : ℕ → LoginThrottleEntry
first_failure now =
    locked_at now
      (record { failures = 1; first_failed_at = now; last_failed_at = now; locked_until = 0 })

unfoldable pub next_failure : ℕ → LoginThrottleEntry → LoginThrottleEntry
next_failure now entry =
    locked_at now (record entry { failures = entry.failures + 1; last_failed_at = now })

-- `min` by the last and the first failure.
unfoldable pub is_older : LoginThrottleEntry → LoginThrottleEntry → Bool
is_older a b =
    ltb a.last_failed_at b.last_failed_at
    || a.last_failed_at == b.last_failed_at && ltb a.first_failed_at b.first_failed_at

-- Both throttles, by user and address or by address alone.
module _ {K : Type 0} ⦃t : Testable K⦄ where
  unfoldable pub prune_items :
      ℕ → Dict K LoginThrottleEntry → Dict K LoginThrottleEntry → Dict K LoginThrottleEntry
  prune_items now [] throttle = throttle
  prune_items now ((key, entry) ∷ items) throttle = prune_items now items (
      if leb (entry.last_failed_at + login_throttle_cooldown_seconds) now
      then pop throttle key
      else throttle)

  unfoldable pub prune_login_throttle : ℕ → Dict K LoginThrottleEntry → Dict K LoginThrottleEntry
  prune_login_throttle now throttle = prune_items now throttle throttle

  unfoldable pub oldest_key : K → LoginThrottleEntry → Dict K LoginThrottleEntry → K
  oldest_key key entry [] = key
  oldest_key key entry ((k, e) ∷ items) =
      let this = oldest_key k e items in
      let that = oldest_key key entry items in if is_older e entry then this else that

  unfoldable pub evict_from :
      Dict K LoginThrottleEntry → Dict K LoginThrottleEntry → Option (Dict K LoginThrottleEntry)
  evict_from throttle [] = none
  evict_from throttle ((key, entry) ∷ items) = some (pop throttle (oldest_key key entry items))

  -- `none` where nothing can be evicted.
  unfoldable pub evict_login_throttle_entry :
      ℕ → Bool → Dict K LoginThrottleEntry → Option (Dict K LoginThrottleEntry)
  evict_login_throttle_entry now preserve_locked throttle =
      evict_from throttle
        (filter (λ item. not preserve_locked || leb item.1.locked_until now) throttle)

  unfoldable pub evicted_or :
      Dict K LoginThrottleEntry → Option (Dict K LoginThrottleEntry) → Dict K LoginThrottleEntry
  evicted_or throttle none = throttle
  evicted_or throttle (some evicted) = evicted

  unfoldable pub client_failure_from :
      ℕ → K → Dict K LoginThrottleEntry → Option LoginThrottleEntry → Dict K LoginThrottleEntry
  client_failure_from now key throttle (some entry) = put throttle key (next_failure now entry)
  client_failure_from now key throttle none =
      let room =
        if leb login_throttle_max_client_entries (length throttle)
        then evicted_or throttle (evict_login_throttle_entry now false throttle)
        else throttle in
      put room key (first_failure now)

  unfoldable pub record_login_client_failure :
      ℕ → K → Dict K LoginThrottleEntry → Dict K LoginThrottleEntry
  record_login_client_failure now key throttle =
      client_failure_from now key throttle (lookup throttle key)

  -- Where the throttle is full of locked entries the failure is not recorded.
  unfoldable pub put_evicted :
      ℕ
      → K
      → Dict K LoginThrottleEntry
      → Option (Dict K LoginThrottleEntry)
      → Dict K LoginThrottleEntry
  put_evicted now key throttle none = throttle
  put_evicted now key throttle (some evicted) = put evicted key (first_failure now)

  unfoldable pub user_failure_from :
      ℕ → K → Dict K LoginThrottleEntry → Option LoginThrottleEntry → Dict K LoginThrottleEntry
  user_failure_from now key throttle (some entry) = put throttle key (next_failure now entry)
  user_failure_from now key throttle none =
      if leb login_throttle_max_entries (length throttle)
      then put_evicted now key throttle (evict_login_throttle_entry now true throttle)
      else put throttle key (first_failure now)

  unfoldable pub decremented : Dict K ℕ → K → ℕ → Dict K ℕ
  decremented pending key zero = pop pending key
  decremented pending key (suc n) = put pending key (suc n)

  -- `_decrement_pending`
  unfoldable pub decrement_pending : Dict K ℕ → K → Dict K ℕ
  decrement_pending pending key = decremented pending key (get_or pending key 0 - 1)

-- `_login_throttle_key`: the folded name of the user and the address of the client.
abbrev pub Key : Type 0
Key = Text × Text

pub record LoginState : Type 0 where
  pub throttle : Dict Key LoginThrottleEntry
  pub client_throttle : Dict Text LoginThrottleEntry
  pub pending : Dict Key ℕ
  pub client_pending : Dict Text ℕ

unfoldable pub pruned : ℕ → LoginState → LoginState
pruned now s = record s {
  throttle = prune_login_throttle now s.throttle;
  client_throttle = prune_login_throttle now s.client_throttle;
}

unfoldable pub is_exhausted : Key → ℕ → LoginState → Bool
is_exhausted key now s =
    login_attempts_exhausted (lookup s.throttle key) (get_or s.pending key 0) now
    || login_attempts_exhausted (lookup s.client_throttle key.1) (get_or s.client_pending key.1 0)
        now

-- `_reserve_login_attempt`
unfoldable pub reserve_login_attempt : Key → ℕ → LoginState → Bool × LoginState
reserve_login_attempt key now state =
    let s = pruned now state in
    if is_exhausted key now s then (false, s) else (
      true,
      record s {
        pending = put s.pending key (get_or s.pending key 0 + 1);
        client_pending = put s.client_pending key.1 (get_or s.client_pending key.1 0 + 1);
      },
    )

-- `_release_login_attempt`
unfoldable pub release_login_attempt : Key → LoginState → LoginState
release_login_attempt key s = record s {
  pending = decrement_pending s.pending key;
  client_pending = decrement_pending s.client_pending key.1;
}

-- `_record_login_failure`
unfoldable pub record_login_failure : Key → ℕ → LoginState → LoginState
record_login_failure key now state =
    let s = pruned now state in
    record s {
      client_throttle = record_login_client_failure now key.1 s.client_throttle;
      throttle = user_failure_from now key s.throttle (lookup s.throttle key);
    }

-- `_clear_login_throttle`
unfoldable pub clear_login_throttle : Key → LoginState → LoginState
clear_login_throttle key s = record s {
  throttle = pop s.throttle key;
  client_throttle = pop s.client_throttle key.1;
}
