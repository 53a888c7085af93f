-- ===== src/Locks/Tests.antt =====
-- Runs of the lock and of two clients.
use wudup.Prelude.{
  ℕ, Text, ◌≡◌, refl, ◌<◌, Bool, true, false, some, List, [], ◌∷◌, arith, nat_eq, ◌==◌,
}
use wudup.Locks.{whole, DirectoryLock, taken, timed_out, parse_lock_timeout, acquire}
use wudup.Locks.Laws.{acquire-taken, acquire-timed_out}
use wudup.Locks.Clients.{
  has_read, move, step_from, client_step, run_clients, rewrites, writers, initial_world,
  rewrite_all, is_inside,
}
use wudup.Locks.Clients.Safety.{run_clients-exclusive}
use wudup.Locks.Clients.Refinement.{run_clients-refines}

abbrev lock : DirectoryLock
lock = record { timeout_seconds = whole 30; held = false }

-- The third attempt succeeds.
abbrev third : ℕ → Bool
third i = i == 2

abbrev busy : ℕ → Bool
busy i = false

parse_whole : parse_lock_timeout (whole 30) ≡ some 30
unfolding parse_lock_timeout
parse_whole = refl

third_attempt : (i : ℕ) → i < 2 → third i ≡ false
third_attempt i h = ground arith

acquire-taken_example :
    acquire third lock
    ≡ some (record { outcome = taken; lock = record lock { held = true }; waited = 2 })
acquire-taken_example =
    acquire-taken third lock 30 2 parse_whole refl (omega arith) third_attempt refl

acquire-timed_out_example :
    acquire busy lock ≡ some (record { outcome = timed_out; lock = lock; waited = 30 })
acquire-timed_out_example = acquire-timed_out busy lock 30 parse_whole refl (λ i h. refl)

abbrev add_line : ℕ → List Text → List Text
add_line i lines = (i ∷ []) ∷ lines

-- Client 1 tries while client 0 is inside, and rewrites behind it.
abbrev events : List (ℕ × Bool)
events =
    (0, true)
    ∷ (1, true)
    ∷ (0, true)
    ∷ (0, true)
    ∷ (1, true)
    ∷ (0, true)
    ∷ (1, true)
    ∷ (1, true)
    ∷ (1, true)
    ∷ (1, true)
    ∷ []

events-writers : writers add_line (initial_world []) events ≡ 0 ∷ 1 ∷ []
unfolding writers initial_world client_step step_from move rewrites
events-writers = refl

run_clients-exclusive_example :
    let w = run_clients add_line (initial_world []) events in
    (is_inside (w.place 0) ≡ true → is_inside (w.place 1) ≡ true → ◌≡◌ {A = ℕ} 0 1)
    × ((text : Text) → w.place 0 ≡ has_read text → text ≡ w.file)
run_clients-exclusive_example = run_clients-exclusive add_line [] events 0 1

run_clients-refines_example :
    (run_clients add_line (initial_world []) events).file
    ≡ rewrite_all add_line (writers add_line (initial_world []) events) []
run_clients-refines_example = run_clients-refines add_line [] events
