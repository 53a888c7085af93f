-- ===== src/Matching/Network/Tests.antt =====
-- Runs of the expansion on concrete services.
use wudup.Prelude.{
  ◌≤◌, Text, text_eq, codes, ◌≡◌, refl, ◌↔◌, Bool, true, some, List, [], ◌∷◌, contains, count,
}
use wudup.Prelude.Dict.{Dict}
use wudup.Prelude.Unicode.{ascii}
use wudup.Matching.Lines.{text_leb}
use wudup.Matching.Network.{
  ServiceImage, network_mode_providers, network_mode_consumers, expand_network_mode_services,
  providers_from, add_provider, without_prefix, consumers_from, sort_values, sort_texts,
  insert_text, visit_each, visit, enter, leave, remove_first, consumers_of, all_consumers, start,
  result,
}
use wudup.Matching.Network.Visit.{Reaches}
use wudup.Matching.Network.Visit.Expanded.{
  expand_network_mode_services-total, expand_network_mode_services-IsReached,
  expand_network_mode_services-once,
}

abbrev items : List ServiceImage
items =
    record { service = codes "vpn"; network_mode = [] }
    ∷ record { service = codes "web"; network_mode = codes "service: vpn" }
    ∷ record { service = codes "log"; network_mode = codes "service:web " }
    ∷ record { service = codes "db"; network_mode = codes "host" }
    ∷ []

abbrev providers : Dict Text Text
providers = (codes "web", codes "vpn") ∷ (codes "log", codes "web") ∷ []

providers_read : network_mode_providers ascii items ≡ providers
unfolding network_mode_providers providers_from add_provider without_prefix
providers_read = refl

abbrev selected : List Text
selected = codes "vpn" ∷ []

abbrev expansion : List Text × Bool
expansion = (codes "vpn" ∷ codes "web" ∷ codes "log" ∷ [], true)

expanded : expand_network_mode_services selected providers ≡ some expansion
unfolding expand_network_mode_services network_mode_consumers consumers_from sort_values sort_texts
    insert_text text_leb visit_each visit enter leave remove_first consumers_of all_consumers start
    result
expanded = refl

expand_network_mode_services-total_example :
    (r : List Text × Bool) × (expand_network_mode_services selected providers ≡ some r)
expand_network_mode_services-total_example = expand_network_mode_services-total selected providers

expand_network_mode_services-IsReached_example :
    (contains expansion.0 (codes "log") ≡ true)
    ↔ Reaches (network_mode_consumers providers) selected (codes "log")
expand_network_mode_services-IsReached_example =
    expand_network_mode_services-IsReached selected providers expansion (codes "log") expanded

expand_network_mode_services-once_example : count (codes "web") expansion.0 ≤ 1
expand_network_mode_services-once_example =
    expand_network_mode_services-once selected providers expansion (codes "web") expanded
