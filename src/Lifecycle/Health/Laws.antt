-- ===== src/Lifecycle/Health/Laws.antt =====
-- The gate passes exactly if every selected service is healthy.
use wudup.Prelude.{
  Text, text_eq, ◌==◌, ◌≡◌, refl, sym, ◌∙◌, inl, inr, Bool, true, false, ◌&&◌, Option, none, some,
  List, [], ◌∷◌, ◌++◌, contains, all, arith, Bool-cases, eq_of_beq,
}
use wudup.Matching.Unique.{ordered_unique, unique_by, unique_loop}
use wudup.Lifecycle.Run.{is_empty}
use wudup.Lifecycle.Health.{
  RunningContainers, extend_new, add_service, running_loop, running_service_containers,
  container_is_ok, health_gate_passed, service_is_ok,
}

both : (a b : Bool) → ((a && b) && a) ≡ (a && b)
both true true = refl
both true false = refl
both false b = refl

empty-append : (xs : List Text) (x : Text) → is_empty (xs ++ x ∷ []) ≡ false
unfolding is_empty
empty-append [] x = refl
empty-append (y ∷ xs) x = refl

contains-empty : (xs : List Text) (x : Text) → contains xs x ≡ true → is_empty xs ≡ false
unfolding is_empty
contains-empty [] x h = cc
contains-empty (y ∷ xs) x h = refl

module _ (p : Text → Bool) where
  all-contains : (xs : List Text) (x : Text) → contains xs x ≡ true → (all p xs && p x) ≡ all p xs
  all-contains [] x h = cc
  all-contains (y ∷ xs) x h = elim (Bool-cases (y == x)) [
    | inl t ↦ let e : y ≡ x = eq_of_beq y x t in rw⁻¹ e (both (p y) (all p xs))
    | inr f ↦
        let k : contains xs x ≡ true = sym (rw f refl) ∙ h in ground (arith, all-contains xs x k)
  ]

  all-append : (xs ys : List Text) → all p (xs ++ ys) ≡ (all p xs && all p ys)
  all-append [] ys = refl
  all-append (x ∷ xs) ys = ground (arith, all-append xs ys)

  extend_new-all :
      (cids others : List Text) → all p (extend_new cids others) ≡ (all p cids && all p others)
  unfolding extend_new
  extend_new-all cids [] = ground arith
  extend_new-all cids (cid ∷ others) = elim (Bool-cases (contains cids cid)) [
    | inl t ↦ rw t (ground (arith, extend_new-all cids others, all-contains cids cid t))
    | inr f ↦
        rw f (ground (arith, extend_new-all (cids ++ cid ∷ []) others, all-append cids (cid ∷ [])))
  ]

  unique_loop-all :
      (seen xs : List Text)
      → (all p seen && all p (unique_loop (λ (s : Text). s) seen xs)) ≡ (all p seen && all p xs)
  unfolding unique_loop
  unique_loop-all seen [] = refl
  unique_loop-all seen (x ∷ xs) = elim (Bool-cases (contains seen x)) [
    | inl t ↦ rw t (ground (arith, unique_loop-all seen xs, all-contains seen x t))
    | inr f ↦ rw f (ground (arith, unique_loop-all (x ∷ seen) xs))
  ]

extend_new-empty :
    (cids others : List Text) → is_empty cids ≡ false → is_empty (extend_new cids others) ≡ false
unfolding extend_new
extend_new-empty cids [] h = h
extend_new-empty cids (cid ∷ others) h = elim (Bool-cases (contains cids cid)) [
  | inl t ↦ rw t (extend_new-empty cids others h)
  | inr f ↦ rw f (extend_new-empty (cids ++ cid ∷ []) others (empty-append cids cid))
]

add_service-empty :
    (service : Text) (o : Option (List Text)) (found : RunningContainers)
    → is_empty found.cids ≡ false
    → is_empty (add_service service o found).cids ≡ false
unfolding add_service
add_service-empty service none found h = h
add_service-empty service (some []) found h = h
add_service-empty service (some (cid ∷ cids)) found h = extend_new-empty found.cids (cid ∷ cids) h

module _ (ps : Text → Option (List Text)) (summary : Text → Text) where
  -- All that is found is healthy.
  abbrev is_healthy : RunningContainers → Bool
  is_healthy found =
      is_empty found.missing && (is_empty found.failed && all (container_is_ok summary) found.cids)

  add_service-healthy :
      (service : Text) (o : Option (List Text)) (found : RunningContainers)
      → is_healthy (add_service service o found) ≡ (is_healthy found && service_is_ok summary o)
  unfolding add_service service_is_ok
  add_service-healthy service none found = rw (empty-append found.failed service) (ground arith)
  add_service-healthy service (some []) found =
      rw (empty-append found.missing service) (ground arith)
  add_service-healthy service (some (cid ∷ cids)) found =
      ground (arith, extend_new-all (container_is_ok summary) found.cids (cid ∷ cids))

  -- A healthy service has a container.
  ok_service-empty :
      (service : Text) (o : Option (List Text)) (found : RunningContainers)
      → service_is_ok summary o ≡ true
      → is_empty (add_service service o found).cids ≡ false
  unfolding add_service service_is_ok extend_new
  ok_service-empty service none found h = cc
  ok_service-empty service (some []) found h = cc
  ok_service-empty service (some (cid ∷ cids)) found h =
      elim (Bool-cases (contains found.cids cid)) [
        | inl t ↦ rw t (extend_new-empty found.cids cids (contains-empty found.cids cid t))
        | inr f ↦
            rw f (extend_new-empty (found.cids ++ cid ∷ []) cids (empty-append found.cids cid))
      ]

  running_loop-healthy :
      (services : List Text) (found : RunningContainers)
      → is_healthy (running_loop ps services found)
        ≡ (is_healthy found && all (λ s. service_is_ok summary (ps s)) services)
  unfolding running_loop
  running_loop-healthy [] found = ground arith
  running_loop-healthy (s ∷ services) found = ground (
    arith,
    running_loop-healthy services (add_service s (ps s) found),
    add_service-healthy s (ps s) found,
  )

  running_loop-empty :
      (services : List Text) (found : RunningContainers)
      → is_empty found.cids ≡ false
      → is_empty (running_loop ps services found).cids ≡ false
  unfolding running_loop
  running_loop-empty [] found h = h
  running_loop-empty (s ∷ services) found h =
      running_loop-empty services (add_service s (ps s) found) (add_service-empty s (ps s) found h)

  gate-loop :
      (s : Text) (services : List Text) (found : RunningContainers)
      → health_gate_passed summary (running_loop ps (s ∷ services) found)
        ≡ is_healthy (running_loop ps (s ∷ services) found)
  unfolding health_gate_passed running_loop
  gate-loop s services found = elim (Bool-cases (service_is_ok summary (ps s))) [
    | inl t ↦
        rw
          (running_loop-empty services (add_service s (ps s) found)
            (ok_service-empty s (ps s) found t))
          refl
    | inr f ↦ ground (
      arith,
      running_loop-healthy services (add_service s (ps s) found),
      add_service-healthy s (ps s) found,
      f,
    )
  ]

  -- Where services are selected, the health gate passes exactly if the lookup of each of them gives
  -- containers and all of these are healthy.
  pub health_gate_passed_lem :
      (whole : Option (List Text)) (service : Text) (services : List Text)
      → health_gate_passed summary (running_service_containers ps whole (service ∷ services))
        ≡ all (λ s. service_is_ok summary (ps s)) (service ∷ services)
  unfolding running_service_containers ordered_unique unique_by unique_loop is_empty
  health_gate_passed_lem whole service services =
      let p = λ (s : Text). service_is_ok summary (ps s) in
      let rest = unique_loop (λ (s : Text). s) (service ∷ []) services in
      let none_yet : RunningContainers = record { cids = []; missing = []; failed = [] } in
      gate-loop service rest none_yet
      ∙ running_loop-healthy (service ∷ rest) none_yet
      ∙ ground (arith, unique_loop-all p (service ∷ []) services)
