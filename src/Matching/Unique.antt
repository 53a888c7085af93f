-- ===== src/Matching/Unique.antt =====
-- `_ordered_unique` and `_unique_matches`: of the elements with one key the first stays.
use wudup.Matching.Lines.{Match}
use wudup.Prelude.{
  contains-count, ℕ, nat_eq, pair_eq, refl, ap, sym, ◌∙◌, subst, Text, text_eq, Testable, ◌==◌, ◌≡◌,
  Option, none, some, List, [], ◌∷◌, map, arith, if◌then◌else◌, contains, count,
}

map_id : (xs : List Text) → map (λ (s : Text). s) xs ≡ xs
map_id [] = refl
map_id (x ∷ xs) = ap (λ l. x ∷ l) (map_id xs)

module _ {A K : Type 0} ⦃t : Testable K⦄ (key : A → K) where
  -- The loop, from the keys that it has seen.
  unfoldable pub unique_loop : List K → List A → List A
  unique_loop seen [] = []
  unique_loop seen (x ∷ xs) =
      let rest = unique_loop (if contains seen (key x) then seen else key x ∷ seen) xs in
      if contains seen (key x) then rest else x ∷ rest

  unfoldable pub unique_by : List A → List A
  unique_by xs = unique_loop [] xs

  -- The first element with a key.
  pub first_by : K → List A → Option A
  first_by k [] = none
  first_by k (x ∷ xs) = if key x == k then some x else first_by k xs

  unique_loop-count :
      (seen : List K) (xs : List A) (k : K)
      → count k (map key (unique_loop seen xs))
        ≡ (if contains seen k then 0 else if contains (map key xs) k then 1 else 0)
  unfolding unique_loop
  unique_loop-count seen [] k = ground arith
  unique_loop-count seen (x ∷ xs) k = ground (
    arith,
    unique_loop-count seen xs k,
    unique_loop-count (key x ∷ seen) xs k,
    t.test_iff (key x) k,
  )

  unique_loop-first :
      (seen : List K) (xs : List A) (k : K)
      → first_by k (unique_loop seen xs) ≡ (if contains seen k then none else first_by k xs)
  unfolding unique_loop first_by
  unique_loop-first seen [] k = ground arith
  unique_loop-first seen (x ∷ xs) k = ground (
    arith,
    unique_loop-first seen xs k,
    unique_loop-first (key x ∷ seen) xs k,
    t.test_iff (key x) k,
  )

  -- Each key of the elements stands exactly once in the result, and the first element with it is the
  -- same; no other key stands in the result.
  pub unique_by_lem :
      (xs : List A) (k : K)
      → (count k (map key (unique_by xs)) ≡ (if contains (map key xs) k then 1 else 0))
        × (first_by k (unique_by xs) ≡ first_by k xs)
  unfolding unique_by
  unique_by_lem xs k = (unique_loop-count [] xs k, unique_loop-first [] xs k)

-- `_ordered_unique`
unfoldable pub ordered_unique : List Text → List Text
ordered_unique = unique_by (λ (s : Text). s)

abbrev pub match_key : Match → ℕ × (ℕ × (Text × (Text × Text)))
match_key m = (m.stack.index, (m.target.line_no, (m.resolved, (m.compose_image, m.service))))

instance abbrev pub match_key_eq : Testable (ℕ × (ℕ × (Text × (Text × Text))))
match_key_eq =
    pair_eq ⦃s = nat_eq⦄
      ⦃t = pair_eq ⦃s = nat_eq⦄
        ⦃t = pair_eq ⦃s = text_eq⦄ ⦃t = pair_eq ⦃s = text_eq⦄ ⦃t = text_eq⦄⦄⦄⦄

pub unique_matches : List Match → List Match
unique_matches = unique_by match_key

-- Each name of the services stands exactly once in the result, and no other name does.
pub ordered_unique-count :
    (services : List Text) (s : Text)
    → count s (ordered_unique services) ≡ (if contains services s then 1 else 0)
unfolding ordered_unique
ordered_unique-count services s =
    subst (λ l. count s (unique_by (λ (r : Text). r) services) ≡ (if contains l s then 1 else 0))
      (map_id services)
      (sym (ap (count s) (map_id (unique_by (λ (r : Text). r) services)))
        ∙ (unique_by_lem (λ (r : Text). r) services s).0)

pub contains-ordered_unique :
    (services : List Text) (s : Text) → contains (ordered_unique services) s ≡ contains services s
contains-ordered_unique services s =
    ground (arith, contains-count (ordered_unique services) s, ordered_unique-count services s)

-- Of the matches with one stack, line, image and service exactly one stays, and it is the first.
pub unique_matches_lem :
    (ms : List Match) (k : ℕ × (ℕ × (Text × (Text × Text))))
    → (count k (map match_key (unique_matches ms))
        ≡ (if contains (map match_key ms) k then 1 else 0))
      × (first_by match_key k (unique_matches ms) ≡ first_by match_key k ms)
unfolding unique_matches
unique_matches_lem ms k = unique_by_lem match_key ms k
