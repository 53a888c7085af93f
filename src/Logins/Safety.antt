-- ===== src/Logins/Safety.antt =====
-- Recorded failures and attempts whose password is being checked stay within the limit together.
use wudup.Prelude.{
  ℕ, ◌+◌, ◌≤◌, arith, Text, text_eq, ◌==◌, ◌≡◌, refl, ap, subst, inl, inr, Bool, true, false, ◌||◌,
  Option, List, [], ◌∷◌, ◌++◌, count, count-append, if◌then◌else◌, Testable, pair_eq, Bool-cases,
}
use wudup.Prelude.Dict.{Dict, lookup, get_or, put, get_or-put}
use wudup.Logins.{
  Key, login_throttle_max_failures, LoginThrottleEntry, LoginState, failures_of,
  login_attempts_exhausted, prune_login_throttle, decrement_pending, pruned, is_exhausted,
  reserve_login_attempt, release_login_attempt, record_login_failure, clear_login_throttle,
}
use wudup.Logins.Laws.{
  failures_at, pop-failures, prune-failures, user_from-failures, record_client-failures,
  decrement_pending-get_or,
}
use wudup.Logins.Steps.{
  Server, Step, reserved, refused, failed, succeeded, raised, released, Reach, start, later,
}

exhausted-failures :
    (o : Option LoginThrottleEntry) (pending now : ℕ)
    → login_attempts_exhausted o pending now ≡ false
    → failures_of o + pending + 1 ≤ login_throttle_max_failures
unfolding login_attempts_exhausted
exhausted-failures o pending now h = ground arith

-- One throttle with its attempts: those that are checked, and those before their release.
module _ {K : Type 0} ⦃t : Testable K⦄ where
  pub record IsWithin (throttle : Dict K LoginThrottleEntry) (pending : Dict K ℕ)
      (checking closing : List K) : Type 0 where
    pub within : (k : K) → failures_at throttle k + count k checking ≤ login_throttle_max_failures
    pub counted : (k : K) → get_or pending k 0 ≡ count k checking + count k closing

  -- A throttle that holds no more than before.
  shrink-IsWithin :
      (d e : Dict K LoginThrottleEntry) (p : Dict K ℕ) (checking closing : List K)
      → ((k : K) → failures_at e k ≤ failures_at d k)
      → IsWithin d p checking closing
      → IsWithin e p checking closing
  shrink-IsWithin d e p checking closing h w = record {
    within = λ k. omega (arith, h k, w.within k);
    counted = w.counted;
  }

  -- An attempt is reserved where the limit is not reached.
  reserve-IsWithin :
      (d : Dict K LoginThrottleEntry) (p : Dict K ℕ) (checking closing : List K) (key : K) (now : ℕ)
      → login_attempts_exhausted (lookup d key) (get_or p key 0) now ≡ false
      → IsWithin d p checking closing
      → IsWithin d (put p key (get_or p key 0 + 1)) (key ∷ checking) closing
  reserve-IsWithin d p checking closing key now h w = record {
    within = λ k. ground (
      arith,
      exhausted-failures (lookup d key) (get_or p key 0) now h,
      w.within k,
      w.counted key,
      t.test_iff key k,
    );
    counted = λ k.
        ground (arith, get_or-put p key k (get_or p key 0 + 1) 0, w.counted k, t.test_iff key k);
  }

  count-middle :
      (k key : K) (before after : List K)
      → count k (before ++ key ∷ after) ≡ count k (before ++ after) + (if key == k then 1 else 0)
  count-middle k key before after =
      omega (arith, count-append k before (key ∷ after), count-append k before after)

  -- The check of an attempt ends with at most one failure more.
  checked-IsWithin :
      (d e : Dict K LoginThrottleEntry) (p : Dict K ℕ) (before after closing : List K) (key : K)
      → ((k : K) → failures_at e k ≤ failures_at d k + (if key == k then 1 else 0))
      → IsWithin d p (before ++ key ∷ after) closing
      → IsWithin e p (before ++ after) (key ∷ closing)
  checked-IsWithin d e p before after closing key h w = record {
    within = λ k. omega (arith, h k, w.within k, count-middle k key before after);
    counted = λ k. omega (arith, w.counted k, count-middle k key before after);
  }

  release-IsWithin :
      (d : Dict K LoginThrottleEntry) (p : Dict K ℕ) (checking before after : List K) (key : K)
      → IsWithin d p checking (before ++ key ∷ after)
      → IsWithin d (decrement_pending p key) checking (before ++ after)
  release-IsWithin d p checking before after key w = record {
    within = w.within;
    counted = λ k.
        ground
          (arith, decrement_pending-get_or p key k, w.counted k, count-middle k key before after);
  }

abbrev pub addresses : List Key → List Text
addresses [] = []
addresses (key ∷ keys) = key.1 ∷ addresses keys

addresses-append :
    (keys others : List Key) → addresses (keys ++ others) ≡ addresses keys ++ addresses others
addresses-append [] others = refl
addresses-append (key ∷ keys) others = ap (λ r. key.1 ∷ r) (addresses-append keys others)

pub record IsSafe (s : LoginState) (checking closing : List Key) : Type 0 where
  pub users : IsWithin s.throttle s.pending checking closing
  pub clients : IsWithin s.client_throttle s.client_pending (addresses checking) (addresses closing)

pruned-IsSafe :
    (s : LoginState) (checking closing : List Key) (now : ℕ)
    → IsSafe s checking closing
    → IsSafe (pruned now s) checking closing
unfolding pruned
pruned-IsSafe s checking closing now h = record {
  users = shrink-IsWithin _ _ _ _ _ (prune-failures now s.throttle) h.users;
  clients = shrink-IsWithin _ _ _ _ _ (prune-failures now s.client_throttle) h.clients;
}

or_false : (a b : Bool) → (a || b) ≡ false → (a ≡ false) × (b ≡ false)
or_false false b h = (refl, h)
or_false true b h = cc

-- Where an attempt is not exhausted it is counted.
accepted-IsSafe :
    (s : LoginState) (checking closing : List Key) (key : Key) (now : ℕ)
    → is_exhausted key now s ≡ false
    → IsSafe s checking closing
    → IsSafe
        (record s {
          pending = put s.pending key (get_or s.pending key 0 + 1);
          client_pending = put s.client_pending key.1 (get_or s.client_pending key.1 0 + 1);
        })
        (key ∷ checking)
        closing
unfolding is_exhausted
accepted-IsSafe s checking closing key now h w =
    let free = or_false _ _ h in
    record {
      users = reserve-IsWithin _ _ _ _ key now free.0 w.users;
      clients = reserve-IsWithin _ _ _ _ key.1 now free.1 w.clients;
    }

reserved-IsSafe :
    (s : LoginState) (checking closing : List Key) (key : Key) (now : ℕ)
    → (reserve_login_attempt key now s).0 ≡ true
    → IsSafe s checking closing
    → IsSafe (reserve_login_attempt key now s).1 (key ∷ checking) closing
unfolding reserve_login_attempt
reserved-IsSafe s checking closing key now h w =
    elim (Bool-cases (is_exhausted key now (pruned now s))) [
      | inl t ↦ let e : (reserve_login_attempt key now s).0 ≡ false = rw t refl in cc
      | inr f ↦ rw f (
          accepted-IsSafe (pruned now s) checking closing key now f
            (pruned-IsSafe s checking closing now w))
    ]

refused-IsSafe :
    (s : LoginState) (checking closing : List Key) (key : Key) (now : ℕ)
    → (reserve_login_attempt key now s).0 ≡ false
    → IsSafe s checking closing
    → IsSafe (reserve_login_attempt key now s).1 checking closing
unfolding reserve_login_attempt
refused-IsSafe s checking closing key now h w =
    elim (Bool-cases (is_exhausted key now (pruned now s))) [
      | inl t ↦ rw t (pruned-IsSafe s checking closing now w)
      | inr f ↦ let e : (reserve_login_attempt key now s).0 ≡ true = rw f refl in cc
    ]

-- The check of an attempt ends where each throttle holds at most one failure more.
checked-IsSafe :
    (s r : LoginState) (key : Key) (before after closing : List Key)
    → r.pending ≡ s.pending
    → r.client_pending ≡ s.client_pending
    → ((k : Key)
        → failures_at r.throttle k ≤ failures_at s.throttle k + (if key == k then 1 else 0))
    → ((a : Text)
        → failures_at r.client_throttle a
          ≤ failures_at s.client_throttle a + (if key.1 == a then 1 else 0))
    → IsSafe s (before ++ key ∷ after) closing
    → IsSafe r (before ++ after) (key ∷ closing)
checked-IsSafe s r key before after closing p q u c w = record {
  users =
      rw p (checked-IsWithin s.throttle r.throttle s.pending before after closing key u w.users);
  clients =
      rw (q, addresses-append before after)
        (checked-IsWithin s.client_throttle r.client_throttle s.client_pending (addresses before)
          (addresses after) (addresses closing) key.1 c
          (rw⁻¹ (addresses-append before (key ∷ after)) w.clients));
}

failed-IsSafe :
    (s : LoginState) (key : Key) (now : ℕ) (before after closing : List Key)
    → IsSafe s (before ++ key ∷ after) closing
    → IsSafe (record_login_failure key now s) (before ++ after) (key ∷ closing)
unfolding record_login_failure pruned
failed-IsSafe s key now before after closing w =
    checked-IsSafe s _ key before after closing refl refl
      (λ k. omega (
        arith,
        user_from-failures now key (prune_login_throttle now s.throttle)
            (lookup (prune_login_throttle now s.throttle) key) k refl,
        prune-failures now s.throttle k,
      ))
      (λ a. omega (
        arith,
        record_client-failures now key.1 (prune_login_throttle now s.client_throttle) a,
        prune-failures now s.client_throttle a,
      ))
      w

succeeded-IsSafe :
    (s : LoginState) (key : Key) (before after closing : List Key)
    → IsSafe s (before ++ key ∷ after) closing
    → IsSafe (clear_login_throttle key s) (before ++ after) (key ∷ closing)
unfolding clear_login_throttle
succeeded-IsSafe s key before after closing w =
    checked-IsSafe s _ key before after closing refl refl
      (λ k. omega (arith, pop-failures s.throttle key k))
      (λ a. omega (arith, pop-failures s.client_throttle key.1 a)) w

released-IsSafe :
    (s : LoginState) (key : Key) (checking before after : List Key)
    → IsSafe s checking (before ++ key ∷ after)
    → IsSafe (release_login_attempt key s) checking (before ++ after)
unfolding release_login_attempt
released-IsSafe s key checking before after w = record {
  users = release-IsWithin s.throttle s.pending checking before after key w.users;
  clients = rw (addresses-append before after) (
      release-IsWithin s.client_throttle s.client_pending (addresses checking) (addresses before)
        (addresses after) key.1 (rw⁻¹ (addresses-append before (key ∷ after)) w.clients));
}

Step-IsSafe :
    {s r : Server}
    → Step s r
    → IsSafe s.login s.checking s.closing
    → IsSafe r.login r.checking r.closing
Step-IsSafe {s} (reserved key now ok) h = reserved-IsSafe s.login s.checking s.closing key now ok h
Step-IsSafe {s} (refused key now e) h = refused-IsSafe s.login s.checking s.closing key now e h
Step-IsSafe {s} (failed key now before after e) h =
    failed-IsSafe s.login key now before after s.closing
      (subst (λ c. IsSafe s.login c s.closing) e h)
Step-IsSafe {s} (succeeded key before after e) h =
    succeeded-IsSafe s.login key before after s.closing
      (subst (λ c. IsSafe s.login c s.closing) e h)
Step-IsSafe {s} (raised key before after e) h =
    checked-IsSafe s.login s.login key before after s.closing refl refl (λ k. omega arith)
      (λ a. omega arith) (subst (λ c. IsSafe s.login c s.closing) e h)
Step-IsSafe {s} (released key before after e) h =
    released-IsSafe s.login key s.checking before after
      (subst (λ c. IsSafe s.login s.checking c) e h)

Reach-IsSafe : {s : Server} → Reach s → IsSafe s.login s.checking s.closing
unfolding failures_of
Reach-IsSafe start = record {
  users = record { within = λ k. omega arith; counted = λ k. refl };
  clients = record { within = λ k. omega arith; counted = λ k. refl };
}
Reach-IsSafe (later r step) = Step-IsSafe step (Reach-IsSafe r)

-- In every state that the logins of a server reach, the failures that are recorded for a user at an
-- address and the attempts for them whose password is being checked are five at most together, and so
-- are those for an address.
pub Reach-failures :
    {s : Server}
    → Reach s
    → (key : Key)
    → (failures_at s.login.throttle key + count key s.checking ≤ 5)
      × (failures_at s.login.client_throttle key.1 + count key.1 (addresses s.checking) ≤ 5)
Reach-failures r key = let h = Reach-IsSafe r in (h.users.within key, h.clients.within key.1)
