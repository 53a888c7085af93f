-- ===== src/Scope/Lenient.antt =====
-- Without `strict` a scope is always found, whatever Docker answers.
use wudup.Prelude.{
  ◌==◌, Text, text_eq, ◌≡◌, refl, ◌||◌, inl, inr, Bool, true, false, not, any, Option, none, some,
  List, [], ◌∷◌, ◌++◌, contains, if◌then◌else◌, Bool-cases,
}
use wudup.Prelude.Dict.{Dict, get_or}
use wudup.Prelude.Unicode.{Unicode}
use wudup.Matching.Lines.{Match}
use wudup.Matching.Network.{ServiceImage, network_mode_providers}
use wudup.Matching.Network.Visit.Expanded.{expand_network_mode_services-total}
use wudup.Scope.{
  reversed, Outcome, done, ◌>>=◌, UpdateScope, Docker, is_empty, update_services, answer,
  label_value_is_true, recreate_label_from, stack_recreate_label_cid, discovered,
  stack_stop_services, missing_from, missing_network_mode_providers, lifecycle_services,
  service_scope, expansion, scope_of, update_scope,
}

abbrev Returns {ℓ} : {A : Type ℓ} → Outcome A → Type ℓ
Returns {A = A} m = (a : A) × (m ≡ done a)

bind-Returns :
    {A B : Type 0} (m : Outcome A) (f : A → Outcome B)
    → Returns m
    → ((a : A) → Returns (f a))
    → Returns (m >>= f)
bind-Returns m f (a, e) h = let (b, e') = h a in (b, rw e e')

answer-Returns : (lines : Option (List Text)) → Returns (answer false lines)
unfolding answer
answer-Returns none = ([], refl)
answer-Returns (some lines) = (lines, refl)

if-Returns :
    {A : Type 0} (b : Bool) (m n : Outcome A) → Returns m → Returns n → Returns (if b then m else n)
if-Returns true m n hm hn = hm
if-Returns false m n hm hn = hn

module _ (u : Unicode) (docker : Docker) where
  recreate_label_from-Returns :
      (cids : List Text) → Returns (recreate_label_from u docker false cids)
  unfolding recreate_label_from
  recreate_label_from-Returns [] = ([], refl)
  recreate_label_from-Returns (cid ∷ cids) =
      bind-Returns (answer false (docker.inspect cid)) _ (answer-Returns (docker.inspect cid))
        (λ values.
          if-Returns (any (label_value_is_true u docker false) values) (done cid)
            (recreate_label_from u docker false cids) (cid, refl)
            (recreate_label_from-Returns cids))

  discovered-Returns :
      (services : Option (List Text)) → Returns (discovered u docker false services)
  unfolding discovered
  discovered-Returns none = (none, refl)
  discovered-Returns (some []) = (none, refl)
  discovered-Returns (some (s ∷ services)) = (some (reversed (s ∷ services)), refl)

  stack_stop_services-Returns : Returns (stack_stop_services u docker false)
  unfolding stack_stop_services
  stack_stop_services-Returns = discovered-Returns docker.config_services

  missing_from-Returns :
      (services : List Text) (providers : Dict Text Text) (missing rest : List Text)
      → Returns (missing_from u docker false services providers missing rest)
  unfolding missing_from
  missing_from-Returns services providers missing [] = (missing, refl)
  missing_from-Returns services providers missing (s ∷ rest) =
      let provider = get_or providers s [] in
      elim (Bool-cases
        (provider == [] || contains services provider || contains missing provider)) [
          | inl t ↦ rw (missing_from, t) (missing_from-Returns services providers missing rest)
          | inr f ↦
              rw (missing_from, f)
                (bind-Returns (answer false (docker.ps (provider ∷ []))) _
                  (answer-Returns (docker.ps (provider ∷ [])))
                  (λ cids.
                    missing_from-Returns services providers
                      (if is_empty cids then missing ++ provider ∷ [] else missing) rest))
        ]

  service_scope-Returns :
      (services : List Text) (r : List Text × Bool) (missing : List Text)
      → Returns (service_scope u docker false services r missing)
  unfolding service_scope stack_recreate_label_cid
  service_scope-Returns services (expanded, uses) missing =
      let lifecycle = lifecycle_services u docker false missing expanded in
      bind-Returns (answer false (docker.ps lifecycle) >>= recreate_label_from u docker false) _
        (bind-Returns (answer false (docker.ps lifecycle)) _ (answer-Returns (docker.ps lifecycle))
          recreate_label_from-Returns)
        (λ cid.
          if-Returns (not (cid == [])) _ _
            (bind-Returns (stack_stop_services u docker false) _ stack_stop_services-Returns
              (λ stop. (_, refl)))
            (_, refl))

  scope_of-Returns :
      (service_images : List ServiceImage) (named : Option (List Text))
      → Returns (scope_of u docker false service_images named)
  unfolding scope_of expansion missing_network_mode_providers
  scope_of-Returns service_images none =
      bind-Returns (stack_stop_services u docker false) _ stack_stop_services-Returns
        (λ stop. (_, refl))
  scope_of-Returns service_images (some services) =
      let providers = network_mode_providers u service_images in
      let (r, total) = expand_network_mode_services-total services providers in
      rw total (
        bind-Returns (missing_from u docker false services providers [] services) _
          (missing_from-Returns services providers [] services) (service_scope-Returns services r))

  -- Without `strict` there is a scope, whatever Docker answers and whichever commands fail.
  pub update_scope-lenient :
      (verified : Option UpdateScope) (service_images : List ServiceImage) (matches : List Match)
      → (scope : UpdateScope) × (update_scope u docker false verified service_images matches
          ≡ done scope)
  unfolding update_scope
  update_scope-lenient none service_images matches =
      scope_of-Returns service_images (update_services matches)
  update_scope-lenient (some scope) service_images matches = (scope, refl)
