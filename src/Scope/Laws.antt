-- ===== src/Scope/Laws.antt =====
-- What the scope of an update promises to the services.
use wudup.Prelude.{
  ◌⊎◌, ◌==◌, Text, text_eq, ◌≡◌, refl, sym, ap, ◌∙◌, subst, inl, inr, Bool, true, false, Option,
  none, some, List, [], ◌++◌, contains, arith, Bool-cases, contains-append,
}
use wudup.Prelude.Unicode.{Unicode}
use wudup.Matching.Lines.{Match}
use wudup.Matching.Unique.{contains-ordered_unique}
use wudup.Matching.Network.{
  ServiceImage, network_mode_providers, network_mode_consumers, expand_network_mode_services,
}
use wudup.Matching.Network.Visit.{Reaches}
use wudup.Matching.Network.Visit.Expanded.{
  expand_network_mode_services-IsReached, expand_network_mode_services-total,
}
use wudup.Scope.{
  Outcome, done, raised, ◌>>=◌, UpdateScope, Docker, update_services, stack_recreate_label_cid,
  stack_stop_services, missing_network_mode_providers, lifecycle_services, service_scope, expansion,
  scope_of, update_scope,
}

bind-done :
    {A B : Type 0} (m : Outcome A) (f : A → Outcome B) (b : B)
    → (m >>= f) ≡ done b
    → (a : A) × (m ≡ done a) × (f a ≡ done b)
bind-done (done a) f b e = (a, refl, e)
bind-done (raised x) f b e = cc

from_done {ℓ} : {A : Type ℓ} → A → Outcome A → A
from_done other (done a) = a
from_done other (raised e) = other

done-injective : {A : Type 0} (a b : A) → done a ≡ done b → a ≡ b
unfolding from_done
done-injective a b e = ap (from_done a) e

module _ (u : Unicode) (docker : Docker) (strict : Bool) where
  -- The outcome of a service scope: it pulls the services, and starts either the whole stack or the
  -- given services.
  IsScope : List Text → List Text → UpdateScope → Type 0
  IsScope services lifecycle scope =
      (scope.pull_services ≡ some services)
      × ((scope.services ≡ none) ⊎ (scope.services ≡ some lifecycle))

  whole_stack-IsScope :
      (services lifecycle : List Text) (cid : Text) (scope : UpdateScope)
      → (stack_stop_services u docker strict >>= λ stack_stop. done (record {
        services = none;
        pull_services = some services;
        stack_reason = cid;
        stop_services = stack_stop;
        force_recreate = false;
        up_no_deps = true;
      }))
        ≡ done scope
      → IsScope services lifecycle scope
  unfolding IsScope
  whole_stack-IsScope services lifecycle cid scope e =
      let (stop, e1, e2) = bind-done (stack_stop_services u docker strict) _ scope e in
      let same = done-injective _ scope e2 in
      (
        sym (ap (λ (s : UpdateScope). s.pull_services) same),
        inl (sym (ap (λ (s : UpdateScope). s.services) same)),
      )

  service_scope-IsScope :
      (services expanded missing : List Text) (uses : Bool) (scope : UpdateScope)
      → service_scope u docker strict services (expanded, uses) missing ≡ done scope
      → IsScope services (lifecycle_services u docker strict missing expanded) scope
  unfolding service_scope
  service_scope-IsScope services expanded missing uses scope e =
      let lifecycle = lifecycle_services u docker strict missing expanded in
      let (cid, e1, e2) =
        bind-done (stack_recreate_label_cid u docker strict lifecycle) _ scope e in
      elim (Bool-cases (cid == [])) [
        | inl t ↦
            let same = done-injective _ scope (rw t at e2) in
            unfold IsScope in
            (
              sym (ap (λ (s : UpdateScope). s.pull_services) same),
              inr (sym (ap (λ (s : UpdateScope). s.services) same)),
            )
        | inr f ↦ whole_stack-IsScope services lifecycle cid scope (rw f at e2)
      ]

  -- What a scope without a verified one is, for matches with named services.
  scope_of-IsScope :
      (service_images : List ServiceImage) (services : List Text) (scope : UpdateScope)
      → scope_of u docker strict service_images (some services) ≡ done scope
      → (r : List Text × Bool) × (missing : List Text) × (expand_network_mode_services services
            (network_mode_providers u service_images)
          ≡ some r)
        × IsScope services (lifecycle_services u docker strict missing r.0) scope
  unfolding scope_of
  scope_of-IsScope service_images services scope e =
      let providers = network_mode_providers u service_images in
      let (r, total) = expand_network_mode_services-total services providers in
      let (r', e1, e2) =
        bind-done (expansion u docker strict (expand_network_mode_services services providers)) _
          scope e in
      let (missing, e3, e4) =
        bind-done (missing_network_mode_providers u docker strict services providers) _ scope e2 in
      let same : r ≡ r' = done-injective r r' (sym (rw total (unfold expansion in refl)) ∙ e1) in
      (r', missing, total ∙ ap some same, service_scope-IsScope services r'.0 missing r'.1 scope e4)

  lifecycle_services-contains :
      (missing expanded : List Text) (x : Text)
      → contains expanded x ≡ true
      → contains (lifecycle_services u docker strict missing expanded) x ≡ true
  unfolding lifecycle_services
  lifecycle_services-contains missing expanded x h =
      ground
        (arith, contains-ordered_unique (missing ++ expanded) x, contains-append missing expanded x)

  update_scope-unverified :
      (service_images : List ServiceImage) (matches : List Match)
      → update_scope u docker strict none service_images matches
        ≡ scope_of u docker strict service_images (update_services matches)
  unfolding update_scope
  update_scope-unverified service_images matches = elim (Bool-cases strict) [
    | inl t ↦ rw t refl
    | inr f ↦ rw f refl
  ]

  pull_services_of :
      (service_images : List ServiceImage) (named : Option (List Text)) (scope : UpdateScope)
      → scope_of u docker strict service_images named ≡ done scope
      → scope.pull_services ≡ named
  unfolding scope_of IsScope
  pull_services_of service_images none scope e =
      let (stop, e1, e2) = bind-done (stack_stop_services u docker strict) _ scope e in
      sym (ap (λ (s : UpdateScope). s.pull_services) (done-injective _ scope e2))
  pull_services_of service_images (some services) scope e =
      let (r, missing, e1, form) = scope_of-IsScope service_images services scope e in form.0

  started_contains :
      (services missing expanded started : List Text) (scope : UpdateScope) (x : Text)
      → IsScope services (lifecycle_services u docker strict missing expanded) scope
      → scope.services ≡ some started
      → contains expanded x ≡ true
      → contains started x ≡ true
  unfolding IsScope
  started_contains services missing expanded started scope x (pull, inl n) e h =
      ground (arith, n, e)
  started_contains services missing expanded started scope x (pull, inr l) e h =
      let same : lifecycle_services u docker strict missing expanded ≡ started =
        ground (arith, l, e) in
      subst (λ l. contains l x ≡ true) same (lifecycle_services-contains missing expanded x h)

  -- Where there is no verified scope, a scope pulls the services of the matches: all of them where
  -- each match has one, and otherwise none by name.
  pub update_scope-pull_services :
      (service_images : List ServiceImage) (matches : List Match) (scope : UpdateScope)
      → update_scope u docker strict none service_images matches ≡ done scope
      → scope.pull_services ≡ update_services matches
  update_scope-pull_services service_images matches scope e =
      pull_services_of service_images (update_services matches) scope
        (sym (update_scope-unverified service_images matches) ∙ e)

  -- Where there is no verified scope and the scope starts services by name, it starts every service
  -- that the matched services reach over shared networks.
  pub update_scope-closed :
      (service_images : List ServiceImage) (matches : List Match) (services started : List Text)
      (scope : UpdateScope) (x : Text)
      → update_scope u docker strict none service_images matches ≡ done scope
      → update_services matches ≡ some services
      → scope.services ≡ some started
      → Reaches (network_mode_consumers (network_mode_providers u service_images)) services x
      → contains started x ≡ true
  update_scope-closed service_images matches services started scope x e named by_name r =
      let whole = sym (update_scope-unverified service_images matches) ∙ e in
      let (found, missing, expanded, form) =
        scope_of-IsScope service_images services scope
          (subst (λ o. scope_of u docker strict service_images o ≡ done scope) named whole) in
      let reached =
        (expand_network_mode_services-IsReached services (network_mode_providers u service_images)
            found x expanded).1
          r in
      started_contains services missing found.0 started scope x form by_name reached
