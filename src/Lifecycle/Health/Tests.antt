-- ===== src/Lifecycle/Health/Tests.antt =====
-- A gate over two services, one of which has no container.
use wudup.Prelude.{
  ℕ, ◌+◌, Bool, arith, leb, Text, codes, text_eq, ◌==◌, ◌≡◌, refl, true, false, Option, none, some,
  List, [], ◌∷◌, all, if◌then◌else◌,
}
use wudup.Matching.Unique.{ordered_unique, unique_by, unique_loop}
use wudup.Lifecycle.Run.{is_empty}
use wudup.Lifecycle.Health.{
  extend_new, add_service, running_loop, running_service_containers, part_behind, cid_is_ok,
  container_is_ok, health_gate_passed, service_is_ok, wait_for_health,
}
use wudup.Lifecycle.Health.Laws.{health_gate_passed_lem}
use wudup.Lifecycle.Health.Wait.{wait_for_health_lem, IsLast}

abbrev ps : Text → Option (List Text)
ps service = if service == codes "web" then some (codes "1" ∷ []) else some []

abbrev summary : Text → Text
summary cid = codes "web|running|healthy|0|0"

abbrev services : List Text
services = codes "db" ∷ []

web_passes :
    health_gate_passed summary (running_service_containers ps none (codes "web" ∷ [])) ≡ true
unfolding health_gate_passed running_service_containers running_loop add_service extend_new
    container_is_ok cid_is_ok part_behind is_empty ordered_unique unique_by unique_loop
web_passes = refl

health_gate_passed_lem_example :
    health_gate_passed summary (running_service_containers ps none (codes "web" ∷ services))
    ≡ all (λ s. service_is_ok summary (ps s)) (codes "web" ∷ services)
health_gate_passed_lem_example = health_gate_passed_lem ps summary none (codes "web") services

-- Rounds of two seconds, and a gate that passes from the third one on.
abbrev opens : ℕ → Bool
opens i = leb 2 i

abbrev seconds : ℕ → ℕ
seconds i = i + i + 2

abbrev never : ℕ → Bool
never i = false

opens_at_two : wait_for_health opens seconds 30 31 0 ≡ some true
unfolding wait_for_health
opens_at_two = refl

never_opens : wait_for_health never seconds 30 31 0 ≡ some false
unfolding wait_for_health
never_opens = refl

wait_for_health_lem_example :
    (result : Bool) × ((n : ℕ) × ((wait_for_health opens seconds 30 (30 + 1) 0 ≡ some result)
        × IsLast opens seconds 30 0 result n))
wait_for_health_lem_example = wait_for_health_lem opens seconds 30 (λ i. omega arith)
