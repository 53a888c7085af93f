-- ===== src/Logins/Laws.antt =====
-- Failures and attempts in flight never exceed the limit.
use wudup.Prelude.{
  ℕ, zero, suc, ◌+◌, ◌-◌, ◌≤◌, arith, text_eq, ◌==◌, ◌≡◌, refl, subst, inl, inr, Option, none, some,
  [], ◌∷◌, leb, length, if◌then◌else◌, Testable, pair_eq, Bool-cases,
}
use wudup.Prelude.Dict.{Dict, lookup, get_or, put, pop, lookup-put, lookup-pop, get_or-put}
use wudup.Logins.{
  login_throttle_max_client_entries, login_throttle_max_entries, login_throttle_cooldown_seconds,
  LoginThrottleEntry, failures_of, locked_at, first_failure, next_failure, prune_items,
  prune_login_throttle, oldest_key, evict_from, evict_login_throttle_entry, evicted_or,
  client_failure_from, record_login_client_failure, put_evicted, user_failure_from, decremented,
  decrement_pending,
}

module _ {K : Type 0} ⦃t : Testable K⦄ where
  -- The failures that a throttle holds against a key.
  abbrev pub failures_at : Dict K LoginThrottleEntry → K → ℕ
  failures_at d k = failures_of (lookup d k)

  pub pop-failures :
      (d : Dict K LoginThrottleEntry) (k j : K) → failures_at (pop d k) j ≤ failures_at d j
  unfolding failures_of
  pop-failures d k j = ground (arith, lookup-pop d k j)

  prune_items-failures :
      (now : ℕ) (items d : Dict K LoginThrottleEntry) (j : K)
      → failures_at (prune_items now items d) j ≤ failures_at d j
  unfolding prune_items
  prune_items-failures now [] d j = omega arith
  prune_items-failures now ((k, e) ∷ items) d j =
      elim (Bool-cases (leb (e.last_failed_at + login_throttle_cooldown_seconds) now)) [
        | inl x ↦
            rw x (omega (arith, prune_items-failures now items (pop d k) j, pop-failures d k j))
        | inr x ↦ rw x (prune_items-failures now items d j)
      ]

  pub prune-failures :
      (now : ℕ) (d : Dict K LoginThrottleEntry) (j : K)
      → failures_at (prune_login_throttle now d) j ≤ failures_at d j
  unfolding prune_login_throttle
  prune-failures now d j = prune_items-failures now d d j

  put-failures :
      (d : Dict K LoginThrottleEntry) (k j : K) (e : LoginThrottleEntry)
      → failures_at (put d k e) j ≡ (if k == j then e.failures else failures_at d j)
  unfolding failures_of
  put-failures d k j e = ground (arith, lookup-put d k j e)

  evict-failures :
      (d items e : Dict K LoginThrottleEntry) (j : K)
      → evict_from d items ≡ some e
      → failures_at e j ≤ failures_at d j
  unfolding evict_from
  evict-failures d [] e j h = cc
  evict-failures d ((k, x) ∷ items) e j h =
      let q : pop d (oldest_key k x items) ≡ e = cc in
      subst (λ r. failures_at r j ≤ failures_at d j) q (pop-failures d (oldest_key k x items) j)

  next-failures :
      (now : ℕ) (d : Dict K LoginThrottleEntry) (k j : K) (e : LoginThrottleEntry)
      → lookup d k ≡ some e
      → failures_at (put d k (next_failure now e)) j ≤ failures_at d j + (if k == j then 1 else 0)
  unfolding next_failure locked_at failures_of
  next-failures now d k j e h =
      ground (arith, put-failures d k j (next_failure now e), h, t.test_iff k j)

  first-failures :
      (now : ℕ) (d c : Dict K LoginThrottleEntry) (k j : K)
      → failures_at c j ≤ failures_at d j
      → failures_at (put c k (first_failure now)) j ≤ failures_at d j + (if k == j then 1 else 0)
  unfolding first_failure locked_at
  first-failures now d c k j h = ground (arith, put-failures c k j (first_failure now), h)

  evicted_or-failures :
      (d : Dict K LoginThrottleEntry) (o : Option (Dict K LoginThrottleEntry)) (j : K)
      → ((e : Dict K LoginThrottleEntry) → o ≡ some e → failures_at e j ≤ failures_at d j)
      → failures_at (evicted_or d o) j ≤ failures_at d j
  unfolding evicted_or
  evicted_or-failures d none j h = omega arith
  evicted_or-failures d (some e) j h = h e refl

  client_from-failures :
      (now : ℕ) (k : K) (d : Dict K LoginThrottleEntry) (o : Option LoginThrottleEntry) (j : K)
      → lookup d k ≡ o
      → failures_at (client_failure_from now k d o) j ≤ failures_at d j + (if k == j then 1 else 0)
  unfolding client_failure_from evict_login_throttle_entry
  client_from-failures now k d (some e) j h = next-failures now d k j e h
  client_from-failures now k d none j h =
      first-failures now d _ k j
        (elim (Bool-cases (leb login_throttle_max_client_entries (length d))) [
          | inl x ↦ rw x (evicted_or-failures d _ j (λ e. evict-failures d _ e j))
          | inr x ↦ rw x (omega arith)
        ])

  put_evicted-failures :
      (now : ℕ) (k : K) (d : Dict K LoginThrottleEntry) (o : Option (Dict K LoginThrottleEntry))
      (j : K)
      → ((e : Dict K LoginThrottleEntry) → o ≡ some e → failures_at e j ≤ failures_at d j)
      → failures_at (put_evicted now k d o) j ≤ failures_at d j + (if k == j then 1 else 0)
  unfolding put_evicted
  put_evicted-failures now k d none j h = omega arith
  put_evicted-failures now k d (some e) j h = first-failures now d e k j (h e refl)

  pub user_from-failures :
      (now : ℕ) (k : K) (d : Dict K LoginThrottleEntry) (o : Option LoginThrottleEntry) (j : K)
      → lookup d k ≡ o
      → failures_at (user_failure_from now k d o) j ≤ failures_at d j + (if k == j then 1 else 0)
  unfolding user_failure_from evict_login_throttle_entry
  user_from-failures now k d (some e) j h = next-failures now d k j e h
  user_from-failures now k d none j h =
      elim (Bool-cases (leb login_throttle_max_entries (length d))) [
        | inl x ↦ rw x (put_evicted-failures now k d _ j (λ e. evict-failures d _ e j))
        | inr x ↦ rw x (first-failures now d d k j (omega arith))
      ]

  pub record_client-failures :
      (now : ℕ) (k : K) (d : Dict K LoginThrottleEntry) (j : K)
      → failures_at (record_login_client_failure now k d) j
        ≤ failures_at d j + (if k == j then 1 else 0)
  unfolding record_login_client_failure
  record_client-failures now k d j = client_from-failures now k d (lookup d k) j refl

  get_or-pop :
      (d : Dict K ℕ) (k j : K) → get_or (pop d k) j 0 ≡ (if k == j then 0 else get_or d j 0)
  get_or-pop [] k j = ground arith
  get_or-pop ((i, w) ∷ d) k j =
      ground (arith, t.test_iff k j, t.test_iff i k, t.test_iff i j, get_or-pop d k j)

  decremented-get_or :
      (p : Dict K ℕ) (k j : K) (n : ℕ)
      → get_or (decremented p k n) j 0 ≡ (if k == j then n else get_or p j 0)
  unfolding decremented
  decremented-get_or p k j zero = get_or-pop p k j
  decremented-get_or p k j (suc n) = get_or-put p k j (suc n) 0

  pub decrement_pending-get_or :
      (p : Dict K ℕ) (k j : K)
      → get_or (decrement_pending p k) j 0 ≡ get_or p j 0 - (if k == j then 1 else 0)
  unfolding decrement_pending
  decrement_pending-get_or p k j =
      ground (arith, decremented-get_or p k j (get_or p k 0 - 1), t.test_iff k j)
