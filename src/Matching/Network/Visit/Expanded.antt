-- ===== src/Matching/Network/Visit/Expanded.antt =====
-- The expansion ends, and holds exactly the services that depend on the selected ones.
use wudup.Prelude.{
  contains-count, contains-append, ap, refl, some, count, ◌+◌, ◌≤◌, Text, text_eq, nat_eq, ◌≡◌, inl,
  inr, true, List, [], ◌∷◌, contains, length, arith, ◌++◌, Bool, ◌∙◌, ◌↔◌,
}
use wudup.Prelude.Dict.{Dict}
use wudup.Matching.Network.{
  Bool, Expansion, all_consumers, consumers_of, expand_network_mode_services,
  network_mode_consumers, result, start, visit,
}
use wudup.Matching.Network.Visit.{
  unseen-length, Reaches, root, step, IsWithin, IsTidy, Extends, Visits, visit_each-Visits,
  visit-Visits,
}

all_consumers-contains :
    (d : Dict Text (List Text)) (x y : Text)
    → contains (consumers_of d x) y ≡ true
    → contains (all_consumers d) y ≡ true
unfolding consumers_of all_consumers
all_consumers-contains [] x y h = cc
all_consumers-contains ((k, v) ∷ d) x y h =
    ground (arith, contains-append v (all_consumers d) y, all_consumers-contains d x y)

-- The visit of the selected services, from the start.
whole_visit :
    (services : List Text) (providers : Dict Text Text)
    → (st : Expansion) × (expand_network_mode_services services providers
        ≡ some (st.expanded, st.uses_network_provider))
      × Extends (network_mode_consumers providers) services start st
unfolding expand_network_mode_services result start IsWithin Visits
whole_visit services providers =
    let consumers = network_mode_consumers providers in
    let names = services ++ all_consumers consumers in
    let (st, e, a) =
      visit_each-Visits consumers names (length names + 1) (visit consumers (length names + 1))
        (visit-Visits consumers names
          (λ x y h. ground (
            arith,
            contains-append services (all_consumers consumers) y,
            all_consumers-contains consumers x y h,
          ))
          (length names + 1))
        services start
        (λ x h. ground (arith, h, contains-append services (all_consumers consumers) x))
        (omega (arith, unseen-length names [])) (λ x h. cc) in
    (st, rw (expand_network_mode_services, e) refl, a)

start-IsTidy : (consumers : Dict Text (List Text)) → IsTidy consumers start
unfolding IsTidy start
start-IsTidy consumers x = refl

module _ (services : List Text) (providers : Dict Text Text) where
  -- The result of the expansion.
  expanded_names :
      (r : List Text × Bool)
      → expand_network_mode_services services providers ≡ some r
      → (st : Expansion) × (r.0 ≡ st.expanded)
        × Extends (network_mode_consumers providers) services start st
  expanded_names r e =
      let (st, e', a) = whole_visit services providers in (st, ground (arith, e, e'), a)

  seen-expanded :
      (st : Expansion) (a : Extends (network_mode_consumers providers) services start st) (x : Text)
      → contains st.expanded x ≡ contains st.seen x
  unfolding IsTidy
  seen-expanded st a x = ground (
    arith,
    contains-count st.expanded x,
    a.tidy (start-IsTidy (network_mode_consumers providers)) x,
  )

  only_reached :
      (st : Expansion) (a : Extends (network_mode_consumers providers) services start st) (x : Text)
      → contains st.seen x ≡ true
      → Reaches (network_mode_consumers providers) services x
  unfolding start
  only_reached st a x h = elim (a.sound x h) [ inl n ↦ absurd (ground (arith, n)) | inr r ↦ r ]

  all_reached :
      (st : Expansion) (a : Extends (network_mode_consumers providers) services start st) (x : Text)
      → Reaches (network_mode_consumers providers) services x
      → contains st.seen x ≡ true
  unfolding start
  all_reached st a x (root h) = a.reached x h
  all_reached st a z (step {x} {y} r h) = a.closed x y (all_reached st a x r) refl h

  -- A name stands in a result of the expansion exactly if the selected services reach it over the
  -- services that share the network of others.
  pub expand_network_mode_services-IsReached :
      (r : List Text × Bool) (x : Text)
      → expand_network_mode_services services providers ≡ some r
      → (contains r.0 x ≡ true) ↔ Reaches (network_mode_consumers providers) services x
  expand_network_mode_services-IsReached r x e =
      let (st, names, a) = expanded_names r e in
      rw (ap (λ l. contains l x) names ∙ seen-expanded st a x)
        (only_reached st a x, all_reached st a x)

  -- No name stands twice in a result of the expansion.
  pub expand_network_mode_services-once :
      (r : List Text × Bool) (x : Text)
      → expand_network_mode_services services providers ≡ some r
      → count x r.0 ≤ 1
  unfolding IsTidy
  expand_network_mode_services-once r x e =
      let (st, names, a) = expanded_names r e in
      rw names (ground (arith, a.tidy (start-IsTidy (network_mode_consumers providers)) x))

-- The expansion has a result: its fuel is enough.
pub expand_network_mode_services-total :
    (services : List Text) (providers : Dict Text Text)
    → (r : List Text × Bool) × (expand_network_mode_services services providers ≡ some r)
expand_network_mode_services-total services providers =
    let (st, e, a) = whole_visit services providers in ((st.expanded, st.uses_network_provider), e)
