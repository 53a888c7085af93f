-- ===== src/Lifecycle/ContainerImages/Laws.antt =====
-- The check finds nothing exactly if all containers use the pulled images.
use wudup.Prelude.{
  Text, text_eq, ◌==◌, ◌≡◌, refl, ap, ◌∙◌, inl, inr, Bool, true, false, not, ◌&&◌, Option, none,
  some, List, [], ◌∷◌, ◌++◌, map, all, arith, Bool-cases,
}
use wudup.Prelude.Dict.{Dict, get_or, put}
use wudup.Lifecycle.Run.{ImageState, is_empty}
use wudup.Lifecycle.ContainerImages.{
  ContainerImageCheck, compare_container_images, add_compared, add_containers, add_pulled,
  check_services, check_container_images, pulled_ids, uses_image, are_current, is_current,
}

empty-append : (xs : List Text) (x : Text) → is_empty (xs ++ x ∷ []) ≡ false
unfolding is_empty
empty-append [] x = refl
empty-append (y ∷ xs) x = refl

empty-put :
    (d : Dict Text (Text × Text)) (k : Text) (v : Text × Text) → is_empty (put d k v) ≡ false
unfolding is_empty
empty-put [] k v = refl
empty-put ((j, w) ∷ d) k v = elim (Bool-cases (j == k)) [ inl t ↦ rw t refl | inr f ↦ rw f refl ]

and_assoc : (a b c : Bool) → ((a && b) && c) ≡ (a && (b && c))
and_assoc true b c = refl
and_assoc false b c = refl

-- A comparison that finds nothing.
abbrev is_clean : Option (Text × Bool) → Bool
is_clean none = false
is_clean (some (lagging, unreadable)) = lagging == [] && not unreadable

abbrev pub finds_nothing : ContainerImageCheck → Bool
finds_nothing check = is_empty check.behind && (is_empty check.unverified && is_empty check.missing)

add_compared-nothing :
    (service image : Text) (o : Option (Text × Bool)) (check : ContainerImageCheck)
    → finds_nothing (add_compared service image o check) ≡ (finds_nothing check && is_clean o)
unfolding add_compared
add_compared-nothing service image none check =
    rw (empty-append check.unverified service) (ground arith)
add_compared-nothing service image (some (lagging, unreadable)) check =
    ground (
      arith,
      empty-append check.unverified service,
      empty-put check.behind service (image, lagging),
    )

compare-clean :
    (pulled lagging : Text) (ids : List (Option Text))
    → (pulled == []) ≡ false
    → is_clean (compare_container_images pulled lagging ids)
      ≡ (lagging == [] && all (uses_image pulled) ids)
unfolding compare_container_images uses_image
compare-clean pulled lagging [] h = ground arith
compare-clean pulled lagging (none ∷ ids) h = ground arith
compare-clean pulled lagging (some id ∷ ids) h = ground (
  arith,
  text_eq.test_iff id [],
  text_eq.test_iff id pulled,
  text_eq.test_iff pulled [],
  text_eq.test_iff lagging [],
  compare-clean pulled id ids h,
  compare-clean pulled lagging ids h,
)

module _ (ps : Text → Option (List Text)) (image_id : Text → Option Text) where
  add_containers-nothing :
      (service image pulled : Text) (o : Option (List Text)) (check : ContainerImageCheck)
      → (pulled == []) ≡ false
      → finds_nothing (add_containers ps image_id service (image, pulled) o check)
        ≡ (finds_nothing check && are_current ps image_id pulled o)
  unfolding add_containers are_current
  add_containers-nothing service image pulled none check h =
      rw (empty-append check.unverified service) (ground arith)
  add_containers-nothing service image pulled (some []) check h =
      rw (empty-append check.missing service) (ground arith)
  add_containers-nothing service image pulled (some (cid ∷ cids)) check h =
      add_compared-nothing service image
        (compare_container_images pulled [] (map image_id (cid ∷ cids))) check
      ∙ ap (λ b. finds_nothing check && b) (compare-clean pulled [] (map image_id (cid ∷ cids)) h)

  add_pulled-nothing :
      (service : Text) (pulled : Text × Text) (check : ContainerImageCheck)
      → finds_nothing (add_pulled ps image_id service pulled check)
        ≡ (finds_nothing check && is_current ps image_id service pulled)
  unfolding add_pulled is_current
  add_pulled-nothing service (image, pulled) check = elim (Bool-cases (pulled == [])) [
    | inl t ↦ rw t (ground arith)
    | inr f ↦ rw f (add_containers-nothing service image pulled (ps service) check f)
  ]

  check_services-nothing :
      (ids : Dict Text (Text × Text)) (services : List Text) (check : ContainerImageCheck)
      → finds_nothing (check_services ps image_id ids services check) ≡ (
          finds_nothing check
          && all (λ s. is_current ps image_id s (get_or ids s ([], []))) services)
  unfolding check_services
  check_services-nothing ids [] check = ground arith
  check_services-nothing ids (s ∷ services) check =
      check_services-nothing ids services (add_pulled ps image_id s (get_or ids s ([], [])) check)
      ∙ ap (λ b. b && all (λ r. is_current ps image_id r (get_or ids r ([], []))) services)
          (add_pulled-nothing s (get_or ids s ([], [])) check)
      ∙ and_assoc (finds_nothing check) _ _

  -- No service is behind, unverified or missing exactly if each selected service with a pulled image
  -- has containers that can be read, and all of them use that image.
  pub check_container_images_lem :
      (service_images : List (Text × Text)) (services : List Text) (after : Dict Text ImageState)
      → finds_nothing (check_container_images ps image_id service_images services after)
        ≡ all
            (λ s. is_current ps image_id s (get_or (pulled_ids after service_images []) s ([], [])))
            services
  unfolding check_container_images is_empty
  check_container_images_lem service_images services after =
      check_services-nothing (pulled_ids after service_images []) services
        (record { behind = []; unverified = []; missing = [] })
