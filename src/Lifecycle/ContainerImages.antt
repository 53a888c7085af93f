-- ===== src/Lifecycle/ContainerImages.antt =====
-- The check that the containers use the pulled images (`_check_container_images` of
-- src/wudup/updater_lifecycle_health.py). A command that fails is `none`.
pub mod Laws
mod Tests
use wudup.Prelude.{
  Text, text_eq, ◌==◌, Bool, true, false, not, ◌&&◌, ◌||◌, Option, none, some, List, [], ◌∷◌, ◌++◌,
  map, all, if◌then◌else◌,
}
use wudup.Prelude.Dict.{Dict, lookup, get_or, put}
use wudup.Lifecycle.Run.{ImageState, is_empty}

-- `_ContainerImageCheck`, without the error that is shown.
pub record ContainerImageCheck : Type 0 where
  pub behind : Dict Text (Text × Text)
  pub unverified : List Text
  pub missing : List Text

unfoldable pub put_pulled :
    Text → Text → Option ImageState → Dict Text (Text × Text) → Dict Text (Text × Text)
put_pulled service image none ids = ids
put_pulled service image (some state) ids =
    if state.image_id == [] then ids else put ids service (image, state.image_id)

-- The image of each service and the id that was pulled; a later service of the same name wins.
unfoldable pub pulled_ids :
    Dict Text ImageState → List (Text × Text) → Dict Text (Text × Text) → Dict Text (Text × Text)
pulled_ids after [] ids = ids
pulled_ids after ((service, image) ∷ items) ids =
    pulled_ids after items (put_pulled service image (lookup after image) ids)

-- `_compare_container_images`, from the id that lags so far.
unfoldable pub compare_container_images : Text → Text → List (Option Text) → Option (Text × Bool)
compare_container_images pulled lagging [] = some (lagging, false)
compare_container_images pulled lagging (none ∷ ids) = none
compare_container_images pulled lagging (some id ∷ ids) =
    let rest =
      compare_container_images pulled (if not (id == pulled) && lagging == [] then id else lagging)
        ids in
    if id == [] then some (lagging, true) else rest

unfoldable pub add_compared :
    Text → Text → Option (Text × Bool) → ContainerImageCheck → ContainerImageCheck
add_compared service image none check = record check {
  unverified = check.unverified ++ service ∷ [];
}
add_compared service image (some (lagging, unreadable)) check = record check {
  behind = if lagging == [] then check.behind else put check.behind service (image, lagging);
  unverified = if unreadable then check.unverified ++ service ∷ [] else check.unverified;
}

unfoldable pub uses_image : Text → Option Text → Bool
uses_image pulled none = false
uses_image pulled (some id) = id == pulled

-- The containers of a service, and the image of a container.
module _ (ps : Text → Option (List Text)) (image_id : Text → Option Text) where
  unfoldable pub add_containers :
      Text → Text × Text → Option (List Text) → ContainerImageCheck → ContainerImageCheck
  add_containers service (image, pulled) none check = record check {
    unverified = check.unverified ++ service ∷ [];
  }
  add_containers service (image, pulled) (some []) check = record check {
    missing = check.missing ++ service ∷ [];
  }
  add_containers service (image, pulled) (some (cid ∷ cids)) check =
      add_compared service image (compare_container_images pulled [] (map image_id (cid ∷ cids)))
        check

  unfoldable pub add_pulled : Text → Text × Text → ContainerImageCheck → ContainerImageCheck
  add_pulled service (image, pulled) check =
      if pulled == [] then check else add_containers service (image, pulled) (ps service) check

  unfoldable pub check_services :
      Dict Text (Text × Text) → List Text → ContainerImageCheck → ContainerImageCheck
  check_services ids [] check = check
  check_services ids (service ∷ services) check =
      check_services ids services (add_pulled service (get_or ids service ([], [])) check)

  unfoldable pub check_container_images :
      List (Text × Text) → List Text → Dict Text ImageState → ContainerImageCheck
  check_container_images service_images services after =
      check_services (pulled_ids after service_images []) services
        (record { behind = []; unverified = []; missing = [] })

  -- The specification: where an image was pulled, the service has containers and all of them use it.
  unfoldable pub are_current : Text → Option (List Text) → Bool
  are_current pulled none = false
  are_current pulled (some []) = false
  are_current pulled (some (cid ∷ cids)) = all (uses_image pulled) (map image_id (cid ∷ cids))

  unfoldable pub is_current : Text → Text × Text → Bool
  is_current service (image, pulled) = pulled == [] || are_current pulled (ps service)
