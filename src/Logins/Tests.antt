-- ===== src/Logins/Tests.antt =====
-- A user fails once at the login.
use wudup.Prelude.{
  ◌+◌, ◌≤◌, codes, text_eq, pair_eq, ◌≡◌, refl, true, [], ◌∷◌, count, length, arith,
}
use wudup.Logins.{
  Key, failures_of, is_locked, login_attempts_exhausted, locked_at, first_failure, prune_items,
  prune_login_throttle, client_failure_from, record_login_client_failure, pruned, is_exhausted,
  reserve_login_attempt, record_login_failure,
}
use wudup.Logins.Laws.{failures_at}
use wudup.Logins.Steps.{Server, reserved, failed, Reach, start, later, started}
use wudup.Logins.Bounds.{record_login_failure-length}
use wudup.Logins.Safety.{Reach-failures}

abbrev key : Key
key = (codes "admin", codes "10.0.0.9")

reserved_first : (reserve_login_attempt key 100 started.login).0 ≡ true
unfolding reserve_login_attempt is_exhausted pruned prune_login_throttle prune_items
    login_attempts_exhausted is_locked failures_of
reserved_first = refl

-- The server behind the reservation, and behind the failure.
abbrev reserved_server : Server
reserved_server = record {
  login = (reserve_login_attempt key 100 started.login).1;
  checking = key ∷ [];
  closing = [];
}

abbrev failed_server : Server
failed_server = record {
  login = record_login_failure key 101 reserved_server.login;
  checking = [];
  closing = key ∷ [];
}

failed_server-Reach : Reach failed_server
failed_server-Reach =
    later (later start (reserved key 100 reserved_first)) (failed key 101 [] [] refl)

one_failure : failures_at failed_server.login.client_throttle (codes "10.0.0.9") ≡ 1
unfolding reserve_login_attempt is_exhausted pruned prune_login_throttle prune_items
    login_attempts_exhausted is_locked failures_of record_login_failure record_login_client_failure
    client_failure_from first_failure locked_at
one_failure = refl

Reach-failures_example :
    (failures_at failed_server.login.throttle key + count key [] ≤ 5)
    × (failures_at failed_server.login.client_throttle key.1 + count key.1 [] ≤ 5)
Reach-failures_example = Reach-failures failed_server-Reach key

none_yet : length reserved_server.login.throttle ≤ 1024
unfolding reserve_login_attempt is_exhausted pruned prune_login_throttle prune_items
    login_attempts_exhausted is_locked failures_of
none_yet = omega arith

none_for_client : length reserved_server.login.client_throttle ≤ 1024
unfolding reserve_login_attempt is_exhausted pruned prune_login_throttle prune_items
    login_attempts_exhausted is_locked failures_of
none_for_client = omega arith

record_login_failure-length_example :
    (length (record_login_failure key 101 reserved_server.login).throttle ≤ 1024)
    × (length (record_login_failure key 101 reserved_server.login).client_throttle ≤ 1024)
record_login_failure-length_example =
    record_login_failure-length key 101 reserved_server.login none_yet none_for_client
