-- ===== src/Lifecycle/ContainerImages/Tests.antt =====
-- Two services, one of which still runs the older image.
use wudup.Prelude.{
  Text, codes, text_eq, ◌==◌, ◌≡◌, refl, Option, some, List, [], ◌∷◌, all, if◌then◌else◌,
}
use wudup.Prelude.Dict.{Dict, get_or}
use wudup.Lifecycle.Run.{ImageState}
use wudup.Lifecycle.ContainerImages.{
  put_pulled, pulled_ids, compare_container_images, add_compared, add_containers, add_pulled,
  check_services, check_container_images, is_current,
}
use wudup.Lifecycle.ContainerImages.Laws.{finds_nothing, check_container_images_lem}

abbrev ps : Text → Option (List Text)
ps service = some (service ∷ [])

abbrev image_id : Text → Option Text
image_id cid = if cid == codes "web" then some (codes "new") else some (codes "old")

abbrev after : Dict Text ImageState
after = (codes "nginx:1", record { image_id = codes "new"; digest = [] }) ∷ []

abbrev service_images : List (Text × Text)
service_images = (codes "web", codes "nginx:1") ∷ (codes "db", codes "nginx:1") ∷ []

db_behind :
    (check_container_images ps image_id service_images (codes "web" ∷ codes "db" ∷ []) after).behind
    ≡ (codes "db", (codes "nginx:1", codes "old")) ∷ []
unfolding check_container_images check_services add_pulled add_containers add_compared
    compare_container_images pulled_ids put_pulled
db_behind = refl

check_container_images_lem_example :
    finds_nothing (check_container_images ps image_id service_images (codes "web" ∷ []) after)
    ≡ all
        (λ s. is_current ps image_id s (get_or (pulled_ids after service_images []) s ([], [])))
        (codes "web" ∷ [])
check_container_images_lem_example =
    check_container_images_lem ps image_id service_images (codes "web" ∷ []) after
