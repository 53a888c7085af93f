-- ===== src/Locks/Laws.antt =====
-- The acquisition ends, and with what.
use wudup.Prelude.{ℕ, zero, suc, ◌+◌, ◌≤◌, ◌<◌, arith, ◌≡◌, Bool, true, false, some}
use native.Mathlib.Decide.{ℕ_discrete}
use wudup.Locks.{
  DirectoryLock, taken, timed_out, acquire_loop, acquire_from, acquire, parse_lock_timeout,
}

module _ (mkdir : ℕ → Bool) (lock : DirectoryLock) (timeout : ℕ) where
  acquire_loop-taken :
      (fuel waited n : ℕ)
      → waited ≤ n
      → n ≤ timeout
      → n < waited + fuel
      → ((i : ℕ) → waited ≤ i → i < n → mkdir i ≡ false)
      → mkdir n ≡ true
      → acquire_loop fuel mkdir lock timeout waited
        ≡ some (record { outcome = taken; lock = record lock { held = true }; waited = n })
  unfolding acquire_loop
  acquire_loop-taken zero waited n a b c busy free = absurd (omega arith)
  acquire_loop-taken (suc fuel) waited n a b c busy free = elim (ℕ_discrete waited n) [
    | yes t ↦ ground (arith, free)
    | no f ↦ ground (
      arith,
      busy waited,
      acquire_loop-taken fuel (waited + 1) n (omega arith) b (omega arith)
          (λ i p q. busy i (omega arith) q) free,
    )
  ]

  acquire_loop-timed_out :
      (fuel waited : ℕ)
      → waited ≤ timeout
      → timeout < waited + fuel
      → ((i : ℕ) → waited ≤ i → i ≤ timeout → mkdir i ≡ false)
      → acquire_loop fuel mkdir lock timeout waited
        ≡ some (record { outcome = timed_out; lock = lock; waited = timeout })
  unfolding acquire_loop
  acquire_loop-timed_out zero waited a c busy = absurd (omega arith)
  acquire_loop-timed_out (suc fuel) waited a c busy = elim (ℕ_discrete waited timeout) [
    | yes t ↦ ground (arith, busy waited)
    | no f ↦ ground (
      arith,
      busy waited,
      acquire_loop-timed_out fuel (waited + 1) (omega arith) (omega arith)
          (λ i p q. busy i (omega arith) q),
    )
  ]

-- Where the lock is free, the timeout is a number and no earlier attempt succeeds, the acquisition
-- takes the lock at the first attempt within the timeout at which `mkdir` succeeds, and sleeps once
-- for each attempt before it.
pub acquire-taken :
    (mkdir : ℕ → Bool) (lock : DirectoryLock) (timeout n : ℕ)
    → parse_lock_timeout lock.timeout_seconds ≡ some timeout
    → lock.held ≡ false
    → n ≤ timeout
    → ((i : ℕ) → i < n → mkdir i ≡ false)
    → mkdir n ≡ true
    → acquire mkdir lock
      ≡ some (record { outcome = taken; lock = record lock { held = true }; waited = n })
unfolding acquire acquire_from
acquire-taken mkdir lock timeout n e h b busy free =
    rw (e, acquire_from)
      (ground (
        arith,
        h,
        acquire_loop-taken mkdir lock timeout (timeout + 1) 0 n (omega arith) b (omega arith)
            (λ i p q. busy i q) free,
      ))

-- Where the lock is free, the timeout is a number and no attempt within it succeeds, the acquisition
-- times out behind as many sleeps as the timeout has seconds, and the lock is not held.
pub acquire-timed_out :
    (mkdir : ℕ → Bool) (lock : DirectoryLock) (timeout : ℕ)
    → parse_lock_timeout lock.timeout_seconds ≡ some timeout
    → lock.held ≡ false
    → ((i : ℕ) → i ≤ timeout → mkdir i ≡ false)
    → acquire mkdir lock ≡ some (record { outcome = timed_out; lock = lock; waited = timeout })
unfolding acquire acquire_from
acquire-timed_out mkdir lock timeout e h busy =
    rw (e, acquire_from)
      (ground (
        arith,
        h,
        acquire_loop-timed_out mkdir lock timeout (timeout + 1) 0 (omega arith) (omega arith)
            (λ i p q. busy i q),
      ))
