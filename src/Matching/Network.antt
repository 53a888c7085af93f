-- ===== src/Matching/Network.antt =====
-- The services that run in the network of another service (`network_mode: service:<name>`), and the
-- expansion of a selection by the services that depend on its members.
pub mod Visit
mod Tests
use wudup.Prelude.{
  ℕ, zero, suc, ◌+◌, Text, text_eq, nat_eq, codes, ◌==◌, ◌≡◌, Bool, true, false, not, ◌&&◌, ◌||◌,
  Option, none, some, List, [], ◌∷◌, ◌++◌, map, contains, length, starts_with, if◌then◌else◌,
}
use wudup.Prelude.Dict.{Dict, get_or, put}
use wudup.Prelude.Unicode.{Unicode, strip}
use wudup.Matching.Lines.{text_leb}

-- The fields of a service that are read here.
pub record ServiceImage : Type 0 where
  pub service : Text
  pub network_mode : Text

-- `mode.removeprefix("service:")` of a mode with that prefix
unfoldable pub without_prefix : ℕ → Text → Text
without_prefix zero s = s
without_prefix (suc n) [] = []
without_prefix (suc n) (c ∷ s) = without_prefix n s

module _ (u : Unicode) where
  unfoldable pub add_provider : Dict Text Text → Text → Text → Dict Text Text
  add_provider providers service mode =
      let provider = strip u (without_prefix 8 mode) in
      if not (starts_with mode (codes "service:"))
      then providers
      else if not (provider == [])
      then put providers service provider
      else providers

  unfoldable pub providers_from : Dict Text Text → List ServiceImage → Dict Text Text
  providers_from providers [] = providers
  providers_from providers (item ∷ items) =
      providers_from (add_provider providers item.service (strip u item.network_mode)) items

  unfoldable pub network_mode_providers : List ServiceImage → Dict Text Text
  network_mode_providers items = providers_from [] items

-- `sorted` on names
unfoldable pub insert_text : Text → List Text → List Text
insert_text a [] = a ∷ []
insert_text a (b ∷ bs) =
    let rest = insert_text a bs in if text_leb a b then a ∷ b ∷ bs else b ∷ rest

unfoldable pub sort_texts : List Text → List Text
sort_texts [] = []
sort_texts (a ∷ bs) = insert_text a (sort_texts bs)

-- `consumers.setdefault(provider, []).append(service)` for each provider of another service
unfoldable pub consumers_from : Dict Text (List Text) → Dict Text Text → Dict Text (List Text)
consumers_from consumers [] = consumers
consumers_from consumers ((service, provider) ∷ providers) =
    consumers_from
      (if not (provider == []) && not (provider == service)
        then put consumers provider (get_or consumers provider [] ++ service ∷ [])
        else consumers)
      providers

unfoldable pub sort_values : Dict Text (List Text) → Dict Text (List Text)
sort_values [] = []
sort_values ((k, v) ∷ d) = (k, sort_texts v) ∷ sort_values d

unfoldable pub network_mode_consumers : Dict Text Text → Dict Text (List Text)
network_mode_consumers providers = sort_values (consumers_from [] providers)

-- The variables of the visit. The sets are lists.
pub record Expansion : Type 0 where
  pub expanded : List Text
  pub seen : List Text
  pub visiting : List Text
  pub uses_network_provider : Bool

-- `visiting.remove(service)`
unfoldable pub remove_first : Text → List Text → List Text
remove_first s [] = []
remove_first s (x ∷ xs) = if x == s then xs else x ∷ remove_first s xs

unfoldable pub leave : Text → Option Expansion → Option Expansion
leave s none = none
leave s (some st) = some (record st { visiting = remove_first s st.visiting })

unfoldable pub visit_each :
    (Text → Expansion → Option Expansion) → List Text → Expansion → Option Expansion
visit_each v [] st = some st
visit_each v (s ∷ ss) st = elim (v s st) [ none ↦ none | some st' ↦ visit_each v ss st' ]

module _ (consumers_by_provider : Dict Text (List Text)) where
  unfoldable pub consumers_of : Text → List Text
  consumers_of s = get_or consumers_by_provider s []

  -- A service that is visited, before its consumers are.
  unfoldable pub enter : Text → Expansion → Expansion
  enter s st = record {
    expanded = st.expanded ++ s ∷ [];
    seen = s ∷ st.seen;
    visiting = s ∷ st.visiting;
    uses_network_provider = st.uses_network_provider || not (length (consumers_of s) == 0);
  }

  -- `visit`, which has no result where the fuel is out.
  unfoldable pub visit : ℕ → Text → Expansion → Option Expansion
  visit zero s st = none
  visit (suc fuel) s st = elim (contains st.seen s) [
    | true ↦ some st
    | false ↦ elim (contains st.visiting s) [
      | true ↦ some st
      | false ↦ leave s (visit_each (visit fuel) (consumers_of s) (enter s st))
    ]
  ]

-- All names that stand as consumers.
unfoldable pub all_consumers : Dict Text (List Text) → List Text
all_consumers [] = []
all_consumers ((k, v) ∷ d) = v ++ all_consumers d

unfoldable pub start : Expansion
start = record { expanded = []; seen = []; visiting = []; uses_network_provider = false }

unfoldable pub result : Option Expansion → Option (List Text × Bool)
result none = none
result (some st) = some (st.expanded, st.uses_network_provider)

-- A visit goes deeper only where it sees a new name, so one more than the names is enough fuel.
unfoldable pub expand_network_mode_services : List Text → Dict Text Text → Option (List Text × Bool)
expand_network_mode_services services providers =
    let consumers = network_mode_consumers providers in
    result (
      visit_each (visit consumers (length (services ++ all_consumers consumers) + 1)) services
        start)
