-- ===== src/Matching/Network/Visit.antt =====
-- What a visit makes of its variables, and that it ends.
pub mod Expanded
use wudup.Prelude.{
  contains-append, zero, suc, sym, ap, ℕ, ◌<◌, subst, refl, Option, some, count, count-append,
  eq_of_beq, ◌⊎◌, ◌+◌, ◌≤◌, Text, text_eq, nat_eq, ◌==◌, ◌≡◌, inl, inr, true, false, List, [], ◌∷◌,
  contains, length, arith, if◌then◌else◌, Bool-cases, text_beq_iff, beq_refl, ◌++◌, Bool, ◌∙◌, ◌↔◌,
}
use wudup.Prelude.Dict.{Dict}
use wudup.Matching.Network.{
  Bool, Expansion, all_consumers, consumers_of, enter, expand_network_mode_services, leave,
  network_mode_consumers, remove_first, result, start, suc, visit, visit_each,
}

-- The names of a list that are not seen yet.
unseen : List Text → List Text → ℕ
unseen [] seen = 0
unseen (x ∷ xs) seen = unseen xs seen + (if contains seen x then 0 else 1)

unseen-subset :
    (xs a b : List Text)
    → ((x : Text) → contains a x ≡ true → contains b x ≡ true)
    → unseen xs b ≤ unseen xs a
unfolding unseen
unseen-subset [] a b h = omega arith
unseen-subset (x ∷ xs) a b h = ground (arith, unseen-subset xs a b h, h x)

unseen-cons : (xs : List Text) (s : Text) (seen : List Text) → unseen xs (s ∷ seen) ≤ unseen xs seen
unfolding unseen
unseen-cons [] s seen = omega arith
unseen-cons (x ∷ xs) s seen = ground (arith, unseen-cons xs s seen)

-- A name that is seen now is one less to see.
unseen-new :
    (xs : List Text) (s : Text) (seen : List Text)
    → contains xs s ≡ true
    → contains seen s ≡ false
    → unseen xs (s ∷ seen) + 1 ≤ unseen xs seen
unfolding unseen
unseen-new [] s seen h new = cc
unseen-new (x ∷ xs) s seen h new = elim (Bool-cases (x == s)) [
  | inl t ↦
      let e : x ≡ s = ground (arith, t, text_beq_iff x s) in
      rw e (ground (arith, unseen-cons xs s seen, beq_refl s))
  | inr f ↦
      ground
        (arith, f, unseen-new xs s seen, unseen-cons xs s seen, text_beq_iff s x, text_beq_iff x s)
]

unseen-length : (xs seen : List Text) → unseen xs seen ≤ length xs
unfolding unseen
unseen-length [] seen = omega arith
unseen-length (x ∷ xs) seen = ground (arith, unseen-length xs seen)

module _ (consumers : Dict Text (List Text)) where
  -- The services that depend on a list of services, over any number of steps.
  pub data Reaches (roots : List Text) : Text → Type 0 where
    root : {x : Text} → contains roots x ≡ true → Reaches roots x
    step :
        {x y : Text}
        → Reaches roots x
        → contains (consumers_of consumers x) y ≡ true
        → Reaches roots y

  Reaches-bind :
      {roots others : List Text} {x : Text}
      → ((r : Text) → contains roots r ≡ true → Reaches others r)
      → Reaches roots x
      → Reaches others x
  Reaches-bind f (root {x} h) = f x h
  Reaches-bind f (step {x} {y} r h) = step (Reaches-bind f r) h

  -- What is being visited is seen.
  IsWithin : Expansion → Type 0
  IsWithin st = (x : Text) → contains st.visiting x ≡ true → contains st.seen x ≡ true

  -- Each name that is seen stands exactly once in the result.
  IsTidy : Expansion → Type 0
  IsTidy st = (x : Text) → count x st.expanded ≡ (if contains st.seen x then 1 else 0)

  -- What a visit of the roots makes of the variables.
  record Extends (roots : List Text) (st st' : Expansion) : Type 0 where
    keeps : (x : Text) → contains st.seen x ≡ true → contains st'.seen x ≡ true
    reached : (x : Text) → contains roots x ≡ true → contains st'.seen x ≡ true
    closed :
        (x y : Text)
        → contains st'.seen x ≡ true
        → contains st.seen x ≡ false
        → contains (consumers_of consumers x) y ≡ true
        → contains st'.seen y ≡ true
    sound : (x : Text) → contains st'.seen x ≡ true → (contains st.seen x ≡ true) ⊎ Reaches roots x
    tidy : IsTidy st → IsTidy st'
    within : IsWithin st → IsWithin st'

  Extends-nil : (st : Expansion) → Extends [] st st
  Extends-nil st = record {
    keeps = λ x h. h;
    reached = λ x h. cc;
    closed = λ x y h n c. cc;
    sound = λ x h. inl h;
    tidy = λ h. h;
    within = λ h. h;
  }

  -- A service that is seen already.
  Extends-seen : (s : Text) (st : Expansion) → contains st.seen s ≡ true → Extends (s ∷ []) st st
  Extends-seen s st seen = record {
    keeps = λ x h. h;
    reached = λ x h. ground (arith, text_beq_iff s x, h, seen);
    closed = λ x y h n c. cc;
    sound = λ x h. inl h;
    tidy = λ h. h;
    within = λ h. h;
  }

  Extends-cons :
      (s : Text) (ss : List Text) (st mid st' : Expansion)
      → Extends (s ∷ []) st mid
      → Extends ss mid st'
      → Extends (s ∷ ss) st st'
  Extends-cons s ss st mid st' a b = record {
    keeps = λ x h. b.keeps x (a.keeps x h);
    reached = λ x h. elim (Bool-cases (s == x)) [
      | inl t ↦ b.keeps x (a.reached x (ground (arith, t)))
      | inr f ↦ b.reached x (ground (arith, f, h))
    ];
    closed = λ x y h n c. elim (Bool-cases (contains mid.seen x)) [
      | inl t ↦ b.keeps y (a.closed x y t n c)
      | inr f ↦ b.closed x y h f c
    ];
    sound = λ x h. elim (b.sound x h) [
      | inl m ↦ elim (a.sound x m) [
        | inl o ↦ inl o
        | inr r ↦ inr (Reaches-bind (λ y g. root (ground (arith, g))) r)
      ]
      | inr r ↦ inr (Reaches-bind (λ y g. root (ground (arith, g))) r)
    ];
    tidy = λ h. b.tidy (a.tidy h);
    within = λ h. b.within (a.within h);
  }

  contains-remove_first :
      (xs : List Text) (s x : Text) → contains (remove_first s xs) x ≡ true → contains xs x ≡ true
  unfolding remove_first
  contains-remove_first [] s x h = h
  contains-remove_first (y ∷ xs) s x h = ground (arith, contains-remove_first xs s x)

  -- A visit of the consumers, with the service entered before.
  Extends-visit :
      (s : Text) (st mid : Expansion)
      → contains st.seen s ≡ false
      → Extends (consumers_of consumers s) (enter consumers s st) mid
      → Extends (s ∷ []) st (record mid { visiting = remove_first s mid.visiting })
  unfolding enter IsTidy IsWithin
  Extends-visit s st mid new e = record {
    keeps = λ x h. e.keeps x (ground (arith, h));
    reached = λ x h. e.keeps x (ground (arith, h));
    closed = λ x y h n c. elim (Bool-cases (s == x)) [
      | inl t ↦
          e.reached y
            (subst (λ z. contains (consumers_of consumers z) y ≡ true) (sym (eq_of_beq s x t)) c)
      | inr f ↦ e.closed x y h (ground (arith, f, n)) c
    ];
    sound = λ x h. elim (e.sound x h) [
      | inl m ↦ elim (Bool-cases (s == x)) [
        | inl t ↦ inr (root (ground (arith, t)))
        | inr f ↦ inl (ground (arith, f, m))
      ]
      | inr r ↦ inr (Reaches-bind (λ y g. step (root {x = s} (ground (arith, beq_refl s))) g) r)
    ];
    tidy = λ h.
        e.tidy (λ x. ground (arith, h x, count-append x st.expanded (s ∷ []), eq_of_beq s x, new));
    within = λ h x g.
        e.within (λ y k. ground (arith, k, h y)) x (contains-remove_first mid.visiting s x g);
  }

  -- What a visit does: it has a result, which extends the variables.
  Visits : (Expansion → Option Expansion) → List Text → Expansion → Type 0
  Visits v roots st = (st' : Expansion) × (v st ≡ some st') × Extends roots st st'

  visit_each-Visits :
      (names : List Text) (fuel : ℕ) (v : Text → Expansion → Option Expansion)
      → ((s : Text) (st : Expansion)
          → contains names s ≡ true
          → unseen names st.seen < fuel
          → IsWithin st
          → Visits (v s) (s ∷ []) st)
      → (ss : List Text) (st : Expansion)
      → ((x : Text) → contains ss x ≡ true → contains names x ≡ true)
      → unseen names st.seen < fuel
      → IsWithin st
      → Visits (visit_each v ss) ss st
  unfolding visit_each Visits
  visit_each-Visits names fuel v one [] st known enough w = (st, refl, Extends-nil st)
  visit_each-Visits names fuel v one (s ∷ ss) st known enough w =
      let (mid, e, a) = one s st (known s (ground (arith, beq_refl s))) enough w in
      let (st', e', b) =
        visit_each-Visits names fuel v one ss mid (λ x h. known x (ground (arith, h)))
          (omega (arith, unseen-subset names st.seen mid.seen a.keeps)) (a.within w) in
      (st', rw (visit_each, e) e', Extends-cons s ss st mid st' a b)

  enter-IsWithin : (s : Text) (st : Expansion) → IsWithin st → IsWithin (enter consumers s st)
  unfolding IsWithin enter
  enter-IsWithin s st w x h = ground (arith, h, w x)

  visit-Visits :
      (names : List Text)
      → ((x y : Text) → contains (consumers_of consumers x) y ≡ true → contains names y ≡ true)
      → (fuel : ℕ) (s : Text) (st : Expansion) → contains names s ≡ true
      → unseen names st.seen < fuel
      → IsWithin st
      → Visits (visit consumers fuel s) (s ∷ []) st
  unfolding visit Visits leave
  visit-Visits names all zero s st known enough w = absurd (omega arith)
  visit-Visits names all (suc fuel) s st known enough w = elim (Bool-cases (contains st.seen s)) [
    | inl t ↦ (st, rw (visit, t) refl, Extends-seen s st t)
    | inr f ↦ elim (Bool-cases (contains st.visiting s)) [
      | inl t ↦ (st, rw (visit, f, t) refl, Extends-seen s st (unfold IsWithin in w s t))
      | inr g ↦
          let (mid, e, a) =
            visit_each-Visits names fuel (visit consumers fuel) (visit-Visits names all fuel)
              (consumers_of consumers s) (enter consumers s st) (all s)
              (unfold enter in omega (arith, unseen-new names s st.seen known f))
              (enter-IsWithin s st w) in
          (
            record mid { visiting = remove_first s mid.visiting },
            rw (visit, f, g, e, leave) refl,
            Extends-visit s st mid f a,
          )
    ]
  ]
