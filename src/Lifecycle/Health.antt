-- ===== src/Lifecycle/Health.antt =====
-- The health gate and the check of the containers' images (src/wudup/updater_lifecycle_health.py).
pub mod Laws
mod Wait
mod Tests
use wudup.Prelude.{
  ℕ, zero, suc, ◌+◌, ◌≤◌, Text, codes, text_eq, nat_eq, ◌==◌, Bool, true, false, not, ◌&&◌, Option,
  none, some, List, [], ◌∷◌, ◌++◌, contains, all, leb, if◌then◌else◌,
}
use wudup.Prelude.Dict.{Dict, lookup, put}
use wudup.Prelude.Split.{join}
use wudup.Matching.Unique.{ordered_unique}
use wudup.Lifecycle.Run.{ImageState, is_empty}

-- The running containers, the services with none, and the failed lookups.
pub record RunningContainers : Type 0 where
  pub cids : List Text
  pub missing : List Text
  pub failed : List Text

unfoldable pub extend_new : List Text → List Text → List Text
extend_new cids [] = cids
extend_new cids (cid ∷ others) =
    extend_new (if contains cids cid then cids else cids ++ cid ∷ []) others

unfoldable pub add_service : Text → Option (List Text) → RunningContainers → RunningContainers
add_service service none found = record found { failed = found.failed ++ service ∷ [] }
add_service service (some []) found = record found { missing = found.missing ++ service ∷ [] }
add_service service (some (cid ∷ cids)) found = record found {
  cids = extend_new found.cids (cid ∷ cids);
}

unfoldable pub whole_stack : Option (List Text) → RunningContainers
whole_stack none = record { cids = []; missing = []; failed = codes "(all services)" ∷ [] }
whole_stack (some cids) = record { cids = cids; missing = []; failed = [] }

-- The lookup of the services, `docker compose ps -q`, is a parameter; `none` is a failed command.
module _ (ps : Text → Option (List Text)) where
  unfoldable pub running_loop : List Text → RunningContainers → RunningContainers
  running_loop [] found = found
  running_loop (service ∷ services) found =
      running_loop services (add_service service (ps service) found)

  unfoldable pub running_service_containers : Option (List Text) → List Text → RunningContainers
  running_service_containers whole [] = whole_stack whole
  running_service_containers whole (service ∷ services) =
      running_loop (ordered_unique (service ∷ services))
        (record { cids = []; missing = []; failed = [] })

-- `_split_summary`: the second and the third of at most five parts.
unfoldable pub part_behind : ℕ → Text → Text
part_behind zero s = part s
  where
    part : Text → Text
    part [] = []
    part (c ∷ s) = let rest = part s in if c == b'|' then [] else c ∷ rest
part_behind (suc n) [] = []
part_behind (suc n) (c ∷ s) =
    let here = part_behind n s in
    let later = part_behind (suc n) s in if c == b'|' then here else later

unfoldable pub cid_is_ok : Text → Bool
cid_is_ok summary =
    let status = part_behind 1 summary in
    let health = part_behind 2 summary in
    if not (health == codes "none") then health == codes "healthy" else status == codes "running"

-- The summary of a container, which may be empty, is a parameter.
module _ (summary : Text → Text) where
  unfoldable pub container_is_ok : Text → Bool
  container_is_ok cid = not (summary cid == []) && cid_is_ok (summary cid)

  unfoldable pub health_gate_passed : RunningContainers → Bool
  health_gate_passed found =
      not (is_empty found.cids)
      && (is_empty found.missing && (is_empty found.failed && all container_is_ok found.cids))

  -- The specification: a service has containers, and all of them are healthy.
  unfoldable pub service_is_ok : Option (List Text) → Bool
  service_is_ok none = false
  service_is_ok (some []) = false
  service_is_ok (some (cid ∷ cids)) = all container_is_ok (cid ∷ cids)

-- The rounds of `_wait_for_health`: the gate and the whole seconds elapsed at each round, and fuel.
unfoldable pub wait_for_health : (ℕ → Bool) → (ℕ → ℕ) → ℕ → ℕ → ℕ → Option Bool
wait_for_health gate elapsed max_wait zero round = none
wait_for_health gate elapsed max_wait (suc fuel) round =
    let rest = wait_for_health gate elapsed max_wait fuel (round + 1) in
    if gate round then some true else if leb max_wait (elapsed round) then some false else rest
