-- ===== src/Images/Tag.antt =====
-- Writing a tag into a reference, and reading it back.
use wudup.Prelude.{Text, Lacks, ◌≡◌, refl, true, ◌∷◌, ◌++◌, arith, nat_eq, All-append}
use wudup.Prelude.Cut.{contains_append_cons, rsplit_last, rsplit_last-append, rsplit_last_cons}
use wudup.Images.{
  strip_digest, image_has_tag, image_tag, image_repo_ref, image_with_tag, tag_value_valid,
  is_tag_char,
}
use wudup.Images.Digest.{strip_digest-Lacks}
use wudup.Images.Parts.{repo_ref_part-All, repo_ref_part_append, tag_value_valid-Lacks}

module _ (image : Text) (stripped : Lacks b'@' (strip_digest image)) where
  pub image_repo_ref-Lacks : Lacks b'@' (image_repo_ref image)
  unfolding image_repo_ref
  image_repo_ref-Lacks = repo_ref_part-All b'@' (strip_digest image) stripped

module _ (image tag : Text) (stripped : Lacks b'@' (strip_digest image))
    (valid : tag_value_valid tag ≡ true) where
  tag-Lacks_slash : Lacks b'/' tag
  tag-Lacks_slash = tag_value_valid-Lacks b'/' tag (unfold is_tag_char in refl) valid

  tag-Lacks_colon : Lacks b':' tag
  tag-Lacks_colon = tag_value_valid-Lacks b':' tag (unfold is_tag_char in refl) valid

  tag-Lacks_at : Lacks b'@' tag
  tag-Lacks_at = tag_value_valid-Lacks b'@' tag (unfold is_tag_char in refl) valid

  suffix-Lacks_slash : Lacks b'/' (b':' ∷ tag)
  suffix-Lacks_slash = (omega arith, tag-Lacks_slash)

  -- The new reference holds no digest.
  pub strip_digest-image_with_tag :
      strip_digest (image_with_tag image tag) ≡ image_repo_ref image ++ b':' ∷ tag
  strip_digest-image_with_tag =
      unfold image_with_tag in
      strip_digest-Lacks (image_repo_ref image ++ b':' ∷ tag) (
        All-append _ (image_repo_ref image) (b':' ∷ tag) (image_repo_ref-Lacks image stripped)
          (omega arith, tag-Lacks_at))

  last-image_with_tag :
      rsplit_last b'/' (strip_digest (image_with_tag image tag))
      ≡ rsplit_last b'/' (image_repo_ref image) ++ b':' ∷ tag
  last-image_with_tag =
      rw strip_digest-image_with_tag
        (rsplit_last-append b'/' (image_repo_ref image) (b':' ∷ tag) suffix-Lacks_slash)

  -- Where no @ is left in the image without its digest, a valid tag that is written into it is the
  -- tag that is read, also where the registry has a port.
  pub image_tag-image_with_tag : image_tag (image_with_tag image tag) ≡ tag
  image_tag-image_with_tag =
      let last = rsplit_last b'/' (image_repo_ref image) in
      unfold image_tag in
      rw (
        last-image_with_tag,
        contains_append_cons b':' last tag,
        rsplit_last_cons b':' last tag tag-Lacks_colon,
      )

  pub image_has_tag-image_with_tag : image_has_tag (image_with_tag image tag) ≡ true
  image_has_tag-image_with_tag =
      unfold image_has_tag in
      rw last-image_with_tag
        (contains_append_cons b':' (rsplit_last b'/' (image_repo_ref image)) tag)

  -- Where no @ is left in the image without its digest, a valid new tag leaves the repository
  -- reference as it was.
  pub image_repo_ref-image_with_tag :
      image_repo_ref (image_with_tag image tag) ≡ image_repo_ref image
  image_repo_ref-image_with_tag =
      unfold image_repo_ref in
      rw strip_digest-image_with_tag
        (repo_ref_part_append (image_repo_ref image) tag tag-Lacks_slash tag-Lacks_colon)
