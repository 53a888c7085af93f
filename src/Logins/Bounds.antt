-- ===== src/Logins/Bounds.antt =====
-- The throttles stay within their sizes.
use wudup.Prelude.{
  ℕ, ◌+◌, ◌≤◌, arith, text_eq, ◌≡◌, refl, subst, inl, inr, Bool, true, false, not, ◌||◌, Option,
  none, some, [], ◌∷◌, leb, length, filter, All, Testable, pair_eq, Bool-cases, beq_refl,
}
use wudup.Prelude.Dict.{Dict, lookup, put, pop, has_key, length-put, length-pop}
use wudup.Logins.{
  Key, login_throttle_max_entries, login_throttle_max_client_entries, LoginThrottleEntry,
  LoginState, first_failure, next_failure, prune_items, prune_login_throttle, is_older, oldest_key,
  evict_from, evict_login_throttle_entry, evicted_or, client_failure_from,
  record_login_client_failure, put_evicted, user_failure_from, pruned, record_login_failure,
}

module _ {K : Type 0} ⦃t : Testable K⦄ where
  length-put_present :
      (d : Dict K LoginThrottleEntry) (k : K) (e v : LoginThrottleEntry)
      → lookup d k ≡ some e
      → length (put d k v) ≡ length d
  length-put_present [] k e v h = cc
  length-put_present ((i, w) ∷ d) k e v h = ground (arith, length-put_present d k e v)

  length-pop_any : (d : Dict K LoginThrottleEntry) (k : K) → length (pop d k) ≤ length d
  length-pop_any [] k = omega arith
  length-pop_any ((i, w) ∷ d) k = ground (arith, length-pop_any d k)

  prune_items-length :
      (now : ℕ) (items d : Dict K LoginThrottleEntry) → length (prune_items now items d) ≤ length d
  unfolding prune_items
  prune_items-length now [] d = omega arith
  prune_items-length now ((k, e) ∷ items) d = elim (Bool-cases (leb (e.last_failed_at + 60) now)) [
    | inl x ↦ rw x (omega (arith, prune_items-length now items (pop d k), length-pop_any d k))
    | inr x ↦ rw x (prune_items-length now items d)
  ]

  -- The items are items of the dictionary.
  abbrev AreItems : Dict K LoginThrottleEntry → Dict K LoginThrottleEntry → Type 0
  AreItems d items = All (λ item. has_key d item.0 ≡ true) items

  cons-AreItems :
      (x : K × LoginThrottleEntry) (d items : Dict K LoginThrottleEntry)
      → AreItems d items
      → AreItems (x ∷ d) items
  cons-AreItems x d [] h = tt
  cons-AreItems x d (i ∷ items) (p, h) = (ground (arith, p), cons-AreItems x d items h)

  own-AreItems : (d : Dict K LoginThrottleEntry) → AreItems d d
  own-AreItems [] = tt
  own-AreItems ((k, e) ∷ d) = (rw (beq_refl k) refl, cons-AreItems (k, e) d d (own-AreItems d))

  filter-AreItems :
      (f : K × LoginThrottleEntry → Bool) (d items : Dict K LoginThrottleEntry)
      → AreItems d items
      → AreItems d (filter f items)
  filter-AreItems f d [] h = tt
  filter-AreItems f d (i ∷ items) (p, h) = elim (Bool-cases (f i)) [
    | inl x ↦ rw x (p, filter-AreItems f d items h)
    | inr x ↦ rw x (filter-AreItems f d items h)
  ]

  oldest_key-has_key :
      (d : Dict K LoginThrottleEntry) (k : K) (e : LoginThrottleEntry)
      (items : Dict K LoginThrottleEntry)
      → has_key d k ≡ true
      → AreItems d items
      → has_key d (oldest_key k e items) ≡ true
  unfolding oldest_key
  oldest_key-has_key d k e [] p h = p
  oldest_key-has_key d k e ((j, x) ∷ items) p (q, h) = elim (Bool-cases (is_older x e)) [
    | inl y ↦ rw y (oldest_key-has_key d j x items q h)
    | inr y ↦ rw y (oldest_key-has_key d k e items p h)
  ]

  evict_from-length :
      (d items e : Dict K LoginThrottleEntry)
      → AreItems d items
      → evict_from d items ≡ some e
      → length e + 1 ≤ length d
  unfolding evict_from
  evict_from-length d [] e h o = cc
  evict_from-length d ((k, x) ∷ items) e (p, h) o =
      let q : pop d (oldest_key k x items) ≡ e = cc in
      subst (λ r. length r + 1 ≤ length d) q
        (length-pop d (oldest_key k x items) (oldest_key-has_key d k x items p h))

  -- Where no entry is kept for its lock, one is evicted.
  evict_from-any :
      (now : ℕ) (d : Dict K LoginThrottleEntry)
      → 1 ≤ length d
      → length (evicted_or d (evict_login_throttle_entry now false d)) + 1 ≤ length d
  unfolding evict_login_throttle_entry evicted_or evict_from
  evict_from-any now [] h = absurd (omega arith)
  evict_from-any now ((k, x) ∷ items) h =
      let f = λ (item : K × LoginThrottleEntry). not false || leb item.1.locked_until now in
      length-pop ((k, x) ∷ items) (oldest_key k x (filter f items)) (
        oldest_key-has_key ((k, x) ∷ items) k x (filter f items) (own-AreItems ((k, x) ∷ items)).0 (
          filter-AreItems f ((k, x) ∷ items) items
            (cons-AreItems (k, x) items items (own-AreItems items))))

  client_from-length :
      (now : ℕ) (k : K) (d : Dict K LoginThrottleEntry) (o : Option LoginThrottleEntry)
      → lookup d k ≡ o
      → length d ≤ login_throttle_max_client_entries
      → length (client_failure_from now k d o) ≤ login_throttle_max_client_entries
  unfolding client_failure_from
  client_from-length now k d (some e) h b =
      omega (arith, length-put_present d k e (next_failure now e) h)
  client_from-length now k d none h b =
      elim (Bool-cases (leb login_throttle_max_client_entries (length d))) [
        | inl x ↦ rw x (
            ground (
              arith,
              evict_from-any now d,
              length-put (evicted_or d (evict_login_throttle_entry now false d)) k
                  (first_failure now),
            ))
        | inr x ↦ rw x (ground (arith, length-put d k (first_failure now)))
      ]

  put_evicted-length :
      (now : ℕ) (k : K) (d : Dict K LoginThrottleEntry) (o : Option (Dict K LoginThrottleEntry))
      (n : ℕ)
      → length d ≤ n
      → ((e : Dict K LoginThrottleEntry) → o ≡ some e → length e + 1 ≤ length d)
      → length (put_evicted now k d o) ≤ n
  unfolding put_evicted
  put_evicted-length now k d none n b h = b
  put_evicted-length now k d (some e) n b h =
      omega (arith, h e refl, length-put e k (first_failure now))

  user_from-length :
      (now : ℕ) (k : K) (d : Dict K LoginThrottleEntry) (o : Option LoginThrottleEntry)
      → lookup d k ≡ o
      → length d ≤ login_throttle_max_entries
      → length (user_failure_from now k d o) ≤ login_throttle_max_entries
  unfolding user_failure_from evict_login_throttle_entry
  user_from-length now k d (some e) h b =
      omega (arith, length-put_present d k e (next_failure now e) h)
  user_from-length now k d none h b =
      elim (Bool-cases (leb login_throttle_max_entries (length d))) [
        | inl x ↦ rw x (
            put_evicted-length now k d _ login_throttle_max_entries b
              (λ e. evict_from-length d _ e (filter-AreItems _ d d (own-AreItems d))))
        | inr x ↦ rw x (ground (arith, length-put d k (first_failure now)))
      ]

-- A failure keeps each throttle within 1024 entries: where there is no room an entry is evicted, or
-- the failure of a user is not recorded.
pub record_login_failure-length :
    (key : Key) (now : ℕ) (s : LoginState)
    → length s.throttle ≤ 1024
    → length s.client_throttle ≤ 1024
    → (length (record_login_failure key now s).throttle ≤ 1024)
      × (length (record_login_failure key now s).client_throttle ≤ 1024)
unfolding record_login_failure pruned record_login_client_failure prune_login_throttle
record_login_failure-length key now s b c = (
  user_from-length now key (prune_items now s.throttle s.throttle) _ refl
      (omega (arith, b, prune_items-length now s.throttle s.throttle)),
  client_from-length now key.1 (prune_items now s.client_throttle s.client_throttle) _ refl
      (omega (arith, c, prune_items-length now s.client_throttle s.client_throttle)),
)
