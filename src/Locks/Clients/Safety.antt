-- ===== src/Locks/Clients/Safety.antt =====
-- At most one client is inside, and what it has read is the file.
use wudup.Prelude.{
  ℕ, Text, ◌≡◌, refl, sym, ◌∙◌, Bool, true, false, not, List, [], ◌∷◌, nat_eq, ◌==◌, if◌then◌else◌,
  beq_refl, eq_of_beq, Bool-cases, subst, inl, inr, ap, ◌⊎◌,
}
use wudup.Locks.Clients.{
  Place, outside, holding, leaving, has_read, World, move, step_from, client_step, run_clients,
  initial_world, is_inside,
}

pub record IsLocked (w : World) : Type 0 where
  pub alone : (i j : ℕ) → is_inside (w.place i) ≡ true → is_inside (w.place j) ≡ true → i ≡ j
  pub locked : (i : ℕ) → is_inside (w.place i) ≡ true → w.directory ≡ true
  pub current : (i : ℕ) (text : Text) → w.place i ≡ has_read text → text ≡ w.file

pub initial_world-IsLocked : (file : Text) → IsLocked (initial_world file)
unfolding initial_world is_inside
initial_world-IsLocked file = record {
  alone = λ i j p q. cc;
  locked = λ i p. cc;
  current = λ i text e. cc;
}

move_cases :
    (place : ℕ → Place) (i : ℕ) (p : Place) (j : ℕ)
    → ((j ≡ i) × (move place i p j ≡ p)) ⊎ (((j == i) ≡ false) × (move place i p j ≡ place j))
unfolding move
move_cases place i p j = elim (Bool-cases (j == i)) [
  | inl t ↦ inl (eq_of_beq j i t, rw t refl)
  | inr f ↦ inr (f, rw f refl)
]

-- Whoever is inside behind a move is the one that has moved.
is_moved :
    (w : World) (i : ℕ) (p : Place)
    → ((j : ℕ) → (j == i) ≡ false → is_inside (w.place j) ≡ false)
    → (j : ℕ) → is_inside (move w.place i p j) ≡ true
    → j ≡ i
is_moved w i p only j a = elim (move_cases w.place i p j) [
  | inl (e, m) ↦ e
  | inr (f, m) ↦ let o = only j f in cc
]

-- Where all others are outside, a client moves where the directory and the file go with its place.
moved-IsLocked :
    (w : World) (i : ℕ) (p : Place) (directory : Bool) (file : Text)
    → ((j : ℕ) → (j == i) ≡ false → is_inside (w.place j) ≡ false)
    → (is_inside p ≡ true → directory ≡ true)
    → ((text : Text) → p ≡ has_read text → text ≡ file)
    → IsLocked (record { directory = directory; file = file; place = move w.place i p })
unfolding is_inside
moved-IsLocked w i p directory file only d c = record {
  alone = λ j k a b. is_moved w i p only j a ∙ sym (is_moved w i p only k b);
  locked = λ j a.
      d (elim (move_cases w.place i p j) [ inl (e, m) ↦ cc | inr (f, m) ↦ let o = only j f in cc ]);
  current = λ j text a. elim (move_cases w.place i p j) [
    | inl (e, m) ↦ c text (sym m ∙ a)
    | inr (f, m) ↦ let o = only j f in cc
  ];
}

-- Nobody else is inside where nobody is, or where the client itself is.
only_inside :
    (w : World) (i : ℕ)
    → IsLocked w
    → (w.directory ≡ false) ⊎ (is_inside (w.place i) ≡ true)
    → (j : ℕ) → (j == i) ≡ false
    → is_inside (w.place j) ≡ false
only_inside w i l h j ne = elim (Bool-cases (is_inside (w.place j))) [
  | inl t ↦ elim h [
    | inl free ↦ let k = l.locked j t in cc
    | inr me ↦ let k = l.alone j i t me in let b = beq_refl i in cc
  ]
  | inr f ↦ f
]

module _ (transform : ℕ → List Text → List Text) where
  step_from-IsLocked :
      (w : World) (i : ℕ) (ok : Bool) (p : Place)
      → w.place i ≡ p
      → IsLocked w
      → IsLocked (step_from transform w i ok p)
  unfolding step_from is_inside
  step_from-IsLocked w i false outside e l = l
  step_from-IsLocked w i true outside e l =
      let after = λ (b : Bool).
        if not b then record w { directory = true; place = move w.place i holding } else w in
      elim (Bool-cases w.directory) [
        | inl t ↦ subst (λ b. IsLocked (after b)) (sym t) l
        | inr f ↦
            subst (λ b. IsLocked (after b)) (sym f)
              (moved-IsLocked w i holding true w.file (only_inside w i l (inl f)) (λ _. refl)
                (λ text r. cc))
      ]
  step_from-IsLocked w i true holding e l =
      moved-IsLocked w i (has_read w.file) w.directory w.file
        (only_inside w i l (inr (ap is_inside e))) (λ _. l.locked i (ap is_inside e)) (λ text r. cc)
  step_from-IsLocked w i false holding e l =
      moved-IsLocked w i leaving w.directory w.file (only_inside w i l (inr (ap is_inside e)))
        (λ _. l.locked i (ap is_inside e)) (λ text r. cc)
  step_from-IsLocked w i ok (has_read text) e l =
      moved-IsLocked w i leaving w.directory _ (only_inside w i l (inr (ap is_inside e)))
        (λ _. l.locked i (ap is_inside e)) (λ t r. cc)
  step_from-IsLocked w i ok leaving e l =
      moved-IsLocked w i outside _ w.file (only_inside w i l (inr (ap is_inside e))) (λ o. cc)
        (λ t r. cc)

  pub client_step-IsLocked :
      (w : World) (i : ℕ) (ok : Bool) → IsLocked w → IsLocked (client_step transform w i ok)
  unfolding client_step
  client_step-IsLocked w i ok l = step_from-IsLocked w i ok (w.place i) refl l

  run_clients-IsLocked :
      (w : World) (events : List (ℕ × Bool))
      → IsLocked w
      → IsLocked (run_clients transform w events)
  unfolding run_clients
  run_clients-IsLocked w [] l = l
  run_clients-IsLocked w ((i, ok) ∷ events) l =
      run_clients-IsLocked (client_step transform w i ok) events (client_step-IsLocked w i ok l)

  -- However the system calls of the clients follow each other and whichever of them fail, at most one
  -- client is inside the lock at a time, and what it has read is the text of the file.
  pub run_clients-exclusive :
      (file : Text) (events : List (ℕ × Bool)) (i j : ℕ)
      → let w = run_clients transform (initial_world file) events in
        (is_inside (w.place i) ≡ true → is_inside (w.place j) ≡ true → i ≡ j)
        × ((text : Text) → w.place i ≡ has_read text → text ≡ w.file)
  run_clients-exclusive file events i j =
      let l = run_clients-IsLocked (initial_world file) events (initial_world-IsLocked file) in
      (l.alone i j, l.current i)
