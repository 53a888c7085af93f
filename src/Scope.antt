-- ===== src/Scope.antt =====
-- The scope of an update of one stack: which services are pulled, stopped and started again
-- (src/wudup/updater_lifecycle_scope.py and its helpers in src/wudup/updater_matching.py).
pub mod Laws
pub mod Lenient
mod Tests
use wudup.Prelude.{
  ℕ, Text, text_eq, codes, ◌==◌, ◌≡◌, Bool, true, false, not, ◌&&◌, ◌||◌, Option, none, some, List,
  [], ◌∷◌, ◌++◌, map, filter, any, contains, if◌then◌else◌,
}
use wudup.Prelude.Dict.{Dict, get_or}
use wudup.Prelude.Unicode.{Unicode, strip}
use wudup.Matching.Lines.{Match}
use wudup.Matching.Unique.{ordered_unique}
use wudup.Matching.Network.{
  ServiceImage, network_mode_providers, expand_network_mode_services, sort_texts,
}

pub data ScopeError : Type 0 where
  command_error no_services out_of_fuel : ScopeError

pub data Outcome {ℓ} (A : Type ℓ) : Type ℓ where
  done : A → Outcome A
  raised : ScopeError → Outcome A

infixl 5 ◌>>=◌
abbrev pub ◌>>=◌ {ℓ κ} : {A : Type ℓ} {B : Type κ} → Outcome A → (A → Outcome B) → Outcome B
◌>>=◌ m f = elim m [ done a ↦ f a | raised e ↦ raised e ]

pub record UpdateScope : Type 0 where
  pub services : Option (List Text)
  pub pull_services : Option (List Text)
  -- The container whose label asks for the whole stack; the source words it as a sentence.
  pub stack_reason : Text
  pub stop_services : Option (List Text)
  pub force_recreate : Bool
  pub up_no_deps : Bool

-- What Docker answers about the stack; nothing where the command fails.
pub record Docker : Type 0 where
  pub ps : List Text → Option (List Text)
  pub inspect : Text → Option (List Text)
  pub config_services : Option (List Text)

is_empty : List Text → Bool
is_empty [] = true
is_empty (x ∷ xs) = false

pub reversed : List Text → List Text
reversed [] = []
reversed (x ∷ xs) = reversed xs ++ x ∷ []

-- The names of the matched services, none of which is empty.
some_services : Bool → List Text → Option (List Text)
some_services unnamed [] = none
some_services unnamed (s ∷ services) = if unnamed then none else some (s ∷ services)

pub update_services : List Match → Option (List Text)
update_services matches =
    let names = map (λ m. m.service) matches in
    some_services (any (λ s. s == []) names)
      (sort_texts (ordered_unique (filter (λ s. not (s == [])) names)))

scope_runtime_services : Option (List Text) → Option (List Text) → List Text
scope_runtime_services (some services) stop = services
scope_runtime_services none (some stop) = reversed stop
scope_runtime_services none none = []

pub runtime_services_for_scope : UpdateScope → List Text
runtime_services_for_scope scope =
    ordered_unique (scope_runtime_services scope.services scope.stop_services)

-- A failed command raises under `strict`, and answers nothing otherwise.
answer : Bool → Option (List Text) → Outcome (List Text)
answer strict (some lines) = done lines
answer strict none = if strict then raised command_error else done []

module _ (u : Unicode) (docker : Docker) (strict : Bool) where
  label_value_is_true : Text → Bool
  label_value_is_true value = u.lower (strip u value) == codes "true"

  recreate_label_from : List Text → Outcome Text
  recreate_label_from [] = done []
  recreate_label_from (cid ∷ cids) = answer strict (docker.inspect cid) >>= λ values.
      if any label_value_is_true values then done cid else recreate_label_from cids

  stack_recreate_label_cid : List Text → Outcome Text
  stack_recreate_label_cid services = answer strict (docker.ps services) >>= recreate_label_from

  discovered : Option (List Text) → Outcome (Option (List Text))
  discovered none = if strict then raised command_error else done none
  discovered (some []) = if strict then raised no_services else done none
  discovered (some (s ∷ services)) = done (some (reversed (s ∷ services)))

  stack_stop_services : Outcome (Option (List Text))
  stack_stop_services = discovered docker.config_services

  -- The loop over the services, from the providers that are missing so far.
  missing_from : List Text → Dict Text Text → List Text → List Text → Outcome (List Text)
  missing_from services providers missing [] = done missing
  missing_from services providers missing (s ∷ rest) =
      let provider = get_or providers s [] in
      elim (provider == [] || contains services provider || contains missing provider) [
        | true ↦ missing_from services providers missing rest
        | false ↦ answer strict (docker.ps (provider ∷ [])) >>= λ cids.
            missing_from services providers
              (if is_empty cids then missing ++ provider ∷ [] else missing) rest
      ]

  missing_network_mode_providers : List Text → Dict Text Text → Outcome (List Text)
  missing_network_mode_providers services providers = missing_from services providers [] services

  -- The scope of named services, from the expansion and the missing providers.
  lifecycle_services : List Text → List Text → List Text
  lifecycle_services missing expanded =
      if is_empty missing then expanded else ordered_unique (missing ++ expanded)

  service_scope : List Text → List Text × Bool → List Text → Outcome UpdateScope
  service_scope services (expanded, uses) missing =
      let lifecycle = lifecycle_services missing expanded in
      let network = uses || not (is_empty missing) in
      let stop =
        if not (is_empty missing)
        then services
        else if network
        then reversed lifecycle
        else lifecycle in
      stack_recreate_label_cid lifecycle >>= λ cid.
      if not (cid == [])
      then (stack_stop_services >>= λ stack_stop. done (record {
        services = none;
        pull_services = some services;
        stack_reason = cid;
        stop_services = stack_stop;
        force_recreate = false;
        up_no_deps = true;
      }))
      else done (record {
        services = some lifecycle;
        pull_services = some services;
        stack_reason = [];
        stop_services = some stop;
        force_recreate = false;
        up_no_deps = not network;
      })

  expansion : Option (List Text × Bool) → Outcome (List Text × Bool)
  expansion none = raised out_of_fuel
  expansion (some r) = done r

  scope_of : List ServiceImage → Option (List Text) → Outcome UpdateScope
  scope_of service_images none = stack_stop_services >>= λ stop. done (record {
    services = none;
    pull_services = none;
    stack_reason = [];
    stop_services = stop;
    force_recreate = true;
    up_no_deps = true;
  })
  scope_of service_images (some services) =
      let providers = network_mode_providers u service_images in
      expansion (expand_network_mode_services services providers) >>= λ r.
      missing_network_mode_providers services providers >>= λ missing.
      service_scope services r missing

  -- `verified` is what `verified_update_scopes` holds for the stack and its services.
  pub update_scope : Option UpdateScope → List ServiceImage → List Match → Outcome UpdateScope
  update_scope verified service_images matches = elim (if strict then none else verified) [
    | some scope ↦ done scope
    | none ↦ scope_of service_images (update_services matches)
  ]

-- `" ".join(services)`
join_spaces : List Text → Text
join_spaces [] = []
join_spaces (s ∷ []) = s
join_spaces (s ∷ t ∷ services) = s ++ b' ' ∷ join_spaces (t ∷ services)

stack_plan_label : Text → Option (List Text) → Text
stack_plan_label [] pull_services = codes "stack-level fallback"
stack_plan_label (c ∷ reason) none = codes "stack-level recreate (WUD-UPDATER-RECREATE-STACK=true)"
stack_plan_label (c ∷ reason) (some services) =
    join_spaces services ++ codes " (stack-level recreate: WUD-UPDATER-RECREATE-STACK=true)"

named_plan_label : Option (List Text) → UpdateScope → Text
named_plan_label (some services) scope = join_spaces services
named_plan_label none scope = stack_plan_label scope.stack_reason scope.pull_services

pub scope_plan_label : UpdateScope → Text
scope_plan_label scope = named_plan_label scope.services scope
