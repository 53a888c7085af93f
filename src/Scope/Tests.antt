-- ===== src/Scope/Tests.antt =====
-- A run of the scope on a stack of two services, one in the network of the other.
use wudup.Prelude.{
  ℕ, Text, text_eq, codes, ◌≡◌, refl, true, false, none, some, List, [], ◌∷◌, contains,
}
use wudup.Prelude.Unicode.{ascii}
use wudup.WudFile.Target.{WudTarget}
use wudup.Matching.Lines.{Match, text_leb}
use wudup.Matching.Unique.{ordered_unique, unique_by, unique_loop}
use wudup.Matching.Network.{
  ServiceImage, network_mode_providers, network_mode_consumers, expand_network_mode_services,
  providers_from, add_provider, without_prefix, consumers_from, sort_values, sort_texts,
  insert_text, visit_each, visit, enter, leave, remove_first, consumers_of, all_consumers, start,
  result,
}
use wudup.Matching.Network.Visit.{Reaches, root, step}
use wudup.Scope.{
  done, UpdateScope, Docker, is_empty, reversed, some_services, update_services, answer,
  label_value_is_true, recreate_label_from, stack_recreate_label_cid, missing_from,
  missing_network_mode_providers, lifecycle_services, service_scope, expansion, scope_of,
  update_scope,
}
use wudup.Scope.Laws.{update_scope-closed}
use wudup.Scope.Lenient.{update_scope-lenient}

abbrev target : ℕ → WudTarget
target n = record {
  line_no = n;
  raw = [];
  first = codes "nginx";
  key = codes "nginx";
  repo = codes "nginx";
  has_tag = false;
  allow_repo = true;
  digest = [];
  desired_tag = [];
  tag_token = [];
  platform = none;
}

abbrev matched : ℕ → ℕ → Match
matched stack line_no = record {
  stack = record { index = stack; name = codes "app" };
  target = target line_no;
  resolved = codes "nginx";
  compose_image = codes "nginx";
  service = codes "vpn";
}

abbrev matches : List Match
matches = matched 1 4 ∷ []

abbrev items : List ServiceImage
items =
    record { service = codes "vpn"; network_mode = [] }
    ∷ record { service = codes "web"; network_mode = codes "service:vpn" }
    ∷ []

abbrev docker : Docker
docker = record {
  ps = λ services. some (codes "cid" ∷ []);
  inspect = λ cid. none;
  config_services = none;
}

abbrev both : List Text
both = codes "vpn" ∷ codes "web" ∷ []

abbrev scope : UpdateScope
scope = record {
  services = some both;
  pull_services = some (codes "vpn" ∷ []);
  stack_reason = [];
  stop_services = some (codes "web" ∷ codes "vpn" ∷ []);
  force_recreate = false;
  up_no_deps = false;
}

named : update_services matches ≡ some (codes "vpn" ∷ [])
unfolding update_services some_services sort_texts insert_text ordered_unique unique_by unique_loop
named = refl

found : update_scope ascii docker false none items matches ≡ done scope
unfolding update_services some_services sort_texts insert_text ordered_unique unique_by unique_loop
    update_scope scope_of expansion service_scope lifecycle_services missing_network_mode_providers
    missing_from stack_recreate_label_cid recreate_label_from label_value_is_true answer is_empty
    reversed network_mode_providers providers_from add_provider without_prefix
    expand_network_mode_services network_mode_consumers consumers_from sort_values text_leb
    visit_each visit enter leave remove_first consumers_of all_consumers start result
found = refl

reached :
    Reaches
      (network_mode_consumers (network_mode_providers ascii items))
      (codes "vpn" ∷ [])
      (codes "web")
unfolding network_mode_providers providers_from add_provider without_prefix consumers_of
    network_mode_consumers consumers_from sort_values sort_texts insert_text text_leb
reached = step {x = codes "vpn"} (root refl) refl

update_scope-closed_example : contains both (codes "web") ≡ true
update_scope-closed_example =
    update_scope-closed ascii docker false items matches (codes "vpn" ∷ []) both scope (codes "web")
      found named refl reached

update_scope-lenient_example :
    (s : UpdateScope) × (update_scope ascii docker false none items matches ≡ done s)
update_scope-lenient_example = update_scope-lenient ascii docker none items matches
