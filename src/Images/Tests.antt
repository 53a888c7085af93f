-- ===== src/Images/Tests.antt =====
-- Runs of the image helpers, and the theorems at concrete references.
use wudup.Prelude.{Text, codes, Lacks, ◌≡◌, refl, text_eq, true, false, [], arith, nat_eq}
use wudup.Images.{
  trim, strip_digest, normalize_digest, drop_registry, image_has_tag, image_tag, image_key,
  repo_key, image_repo_ref, image_with_tag, tag_value_valid, image_matches_resolved_target,
  drop_registry_part, is_registry, drop_key_tag, repo_ref_part, drop_last_tag,
}
use wudup.Images.Tag.{image_tag-image_with_tag, image_repo_ref-image_with_tag}

-- A registry with a port, a tag and a digest.
abbrev pinned : Text
pinned = codes "localhost:5000/team/app:1.2@sha256:ab12"

abbrev new_tag : Text
new_tag = codes "2.0.1-alpine"

pinned_stripped : Lacks b'@' (strip_digest pinned)
unfolding strip_digest
pinned_stripped = omega arith

new_tag_valid : tag_value_valid new_tag ≡ true
unfolding tag_value_valid
new_tag_valid = refl

pinned_parts :
    (image_tag pinned ≡ codes "1.2")
    × (image_repo_ref pinned ≡ codes "localhost:5000/team/app")
    × (image_key pinned ≡ codes "team/app:1.2")
    × (repo_key pinned ≡ codes "team/app")
unfolding image_tag image_repo_ref image_key repo_key repo_ref_part drop_last_tag drop_registry
    drop_registry_part is_registry drop_key_tag strip_digest
pinned_parts = (refl, refl, refl, refl)

trimmed : trim (codes "\t app:1 \n") ≡ codes "app:1"
unfolding trim
trimmed = refl

digests :
    (normalize_digest (codes "app@sha256:1") ≡ codes "sha256:1")
    × (normalize_digest (codes "ab") ≡ codes "sha256:ab")
    × (normalize_digest [] ≡ [])
unfolding normalize_digest
digests = (refl, refl, refl)

invalid_tags :
    (tag_value_valid [] ≡ false)
    × (tag_value_valid (codes ".1") ≡ false)
    × (tag_value_valid (codes "1:2") ≡ false)
unfolding tag_value_valid
invalid_tags = (refl, refl, refl)

image_tag-image_with_tag_example : image_tag (image_with_tag pinned new_tag) ≡ new_tag
image_tag-image_with_tag_example =
    image_tag-image_with_tag pinned new_tag pinned_stripped new_tag_valid

image_repo_ref-image_with_tag_example :
    image_repo_ref (image_with_tag pinned new_tag) ≡ image_repo_ref pinned
image_repo_ref-image_with_tag_example =
    image_repo_ref-image_with_tag pinned new_tag pinned_stripped new_tag_valid

same_tag : image_matches_resolved_target pinned (codes "team/app:1.2") false ≡ true
unfolding image_matches_resolved_target image_has_tag image_key drop_registry drop_registry_part
    is_registry strip_digest
same_tag = refl
