-- ===== src/Lifecycle/Health/Wait.antt =====
-- The wait for the health of the services ends.
use wudup.Prelude.{
  ℕ, zero, suc, ◌+◌, ◌≤◌, ◌<◌, arith, ◌≡◌, refl, ◌⊎◌, inl, inr, Bool, true, false, some, leb,
  Bool-cases, subst,
}
use native.Mathlib.Decide.{ℕ_discrete}
use wudup.Lifecycle.Health.{wait_for_health}

module _ (gate : ℕ → Bool) (elapsed : ℕ → ℕ) (max_wait : ℕ) where
  -- The round at which a wait ends: none before it passes the gate or is late, and it passes or is late.
  pub record IsLast (round : ℕ) (result : Bool) (n : ℕ) : Type 0 where
    pub from : round ≤ n
    pub passed : gate n ≡ result
    pub shut : (i : ℕ) → round ≤ i → i < n → gate i ≡ false
    pub early : (i : ℕ) → round ≤ i → i < n → elapsed i < max_wait
    pub over : (result ≡ true) ⊎ (max_wait ≤ elapsed n)

  here-IsLast :
      (round : ℕ)
      → (gate round ≡ true) ⊎ (max_wait ≤ elapsed round)
      → IsLast round (gate round) round
  here-IsLast round h = record {
    from = omega arith;
    passed = refl;
    shut = λ i p q. absurd (omega arith);
    early = λ i p q. absurd (omega arith);
    over = h;
  }

  later-IsLast :
      (round n : ℕ) (result : Bool)
      → gate round ≡ false
      → elapsed round < max_wait
      → IsLast (round + 1) result n
      → IsLast round result n
  later-IsLast round n result f e l = record {
    from = omega (arith, l.from);
    passed = l.passed;
    shut = λ i p q. ground (arith, f, l.shut i);
    early = λ i p q. elim (ℕ_discrete round i) [
      | yes t ↦ subst (λ j. elapsed j < max_wait) t e
      | no ne ↦ l.early i (omega (arith, ne)) q
    ];
    over = l.over;
  }

  wait-from :
      (fuel round : ℕ)
      → ((i : ℕ) → i ≤ elapsed i)
      → round ≤ max_wait
      → max_wait < round + fuel
      → (result : Bool) × ((n : ℕ) × ((wait_for_health gate elapsed max_wait fuel round
              ≡ some result)
            × IsLast round result n))
  unfolding wait_for_health
  wait-from zero round grows a b = absurd (omega arith)
  wait-from (suc fuel) round grows a b = elim (Bool-cases (gate round)) [
    | inl t ↦ (gate round, (round, (rw t refl, here-IsLast round (inl t))))
    | inr f ↦ elim (Bool-cases (leb max_wait (elapsed round))) [
      | inl late ↦
          (gate round, (round, (rw (f, late) refl, here-IsLast round (inr (ground arith)))))
      | inr early ↦
          let e : elapsed round < max_wait = ground arith in
          let (result, (n, (w, l))) =
            wait-from fuel (round + 1) grows (omega (arith, grows round)) (omega arith) in
          (result, (n, (rw (f, early) w, later-IsLast round n result f e l)))
    ]
  ]

-- Where each round takes a second at least, the wait ends, and it ends at the first round that passes
-- the gate or is not before the deadline; its result is whether that round passes.
pub wait_for_health_lem :
    (gate : ℕ → Bool) (elapsed : ℕ → ℕ) (max_wait : ℕ)
    → ((i : ℕ) → i ≤ elapsed i)
    → (result : Bool) × ((n : ℕ) × ((wait_for_health gate elapsed max_wait (max_wait + 1) 0
            ≡ some result)
          × IsLast gate elapsed max_wait 0 result n))
wait_for_health_lem gate elapsed max_wait grows =
    wait-from gate elapsed max_wait (max_wait + 1) 0 grows (omega arith) (omega arith)
