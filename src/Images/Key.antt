-- ===== src/Images/Key.antt =====
-- The keys by which an image matches a target of the update file.
use wudup.Prelude.{
  Text, Lacks, ◌≡◌, ◌≢◌, refl, sym, ap, ◌∙◌, inl, inr, true, false, [], ◌∷◌, ◌++◌, arith, nat_eq,
  text_eq, ◌==◌, ◌&&◌, not, if◌then◌else◌, contains, Bool-cases, text_beq_iff,
}
use wudup.Prelude.Cut.{
  cut-append, cut-Lacks, cut_cons, cut-cases, contains_append_cons, contains-Lacks, rcut_inside,
  rsplit_last, rsplit_last-append, rsplit_first_cons,
}
use wudup.Images.{
  strip_digest, drop_registry, drop_registry_part, drop_key_tag, image_has_tag, image_tag,
  image_key, repo_key, image_repo_ref, image_with_tag, image_with_digest, repo_ref_part,
  tag_value_valid, image_matches_resolved_target,
}
use wudup.Images.Digest.{strip_digest-image_with_digest}
use wudup.Images.Parts.{repo_ref_part-cases}
use wudup.Images.Tag.{image_repo_ref-Lacks, image_repo_ref-image_with_tag}

-- Dropping the registry leaves what is behind the first slash, or all.
drop_registry_part-append :
    (s t : Text) → Lacks b'/' t → drop_registry_part (s ++ t) ≡ drop_registry_part s ++ t
unfolding drop_registry_part
drop_registry_part-append s t l = ground (arith, cut-append b'/' s t l)

rsplit_last_after : (a b : Text) → rsplit_last b'/' (a ++ b'/' ∷ b) ≡ rsplit_last b'/' b
rsplit_last_after a b = ground (arith, rcut_inside b'/' a b)

-- The last segment does not depend on the registry.
last-drop_registry_part : (s : Text) → rsplit_last b'/' (drop_registry_part s) ≡ rsplit_last b'/' s
unfolding drop_registry_part
last-drop_registry_part s = elim (cut-cases b'/' s) [
  | inl l ↦ rw (cut-Lacks b'/' s l, drop_registry_part)
  | inr (a, b, e, l) ↦
      rw e (rw (cut_cons b'/' a b l, drop_registry_part) (ground (arith, rsplit_last_after a b)))
]

drop_key_tag_cons : (s t : Text) → Lacks b'/' t → Lacks b':' t → drop_key_tag (s ++ b':' ∷ t) ≡ s
unfolding drop_key_tag
drop_key_tag_cons s t slash colon = rw (
  rsplit_last-append b'/' s (b':' ∷ t) (omega arith, slash),
  contains_append_cons b':' (rsplit_last b'/' s) t,
  rsplit_first_cons b':' s t colon,
)

drop_key_tag-Lacks : (s : Text) → Lacks b':' (rsplit_last b'/' s) → drop_key_tag s ≡ s
unfolding drop_key_tag
drop_key_tag-Lacks s l = rw (contains-Lacks b':' (rsplit_last b'/' s) l)

-- The repository key is the repository reference without its registry.
pub repo_key-image_repo_ref :
    (image : Text) → repo_key image ≡ drop_registry_part (image_repo_ref image)
unfolding repo_key image_repo_ref drop_registry
repo_key-image_repo_ref image =
    let s = strip_digest image in
    elim (repo_ref_part-cases s) [
      | inl (same, l) ↦
          rw same (drop_key_tag-Lacks (drop_registry_part s) (rw (last-drop_registry_part s) l))
      | inr (t, split, colon, slash) ↦
          ap (λ r. drop_key_tag (drop_registry_part r)) split
          ∙ (rw (drop_registry_part-append (repo_ref_part s) (b':' ∷ t) (omega arith, slash))
              (drop_key_tag_cons (drop_registry_part (repo_ref_part s)) t slash colon))
    ]

-- A new tag leaves the repository key as it was.
pub repo_key-image_with_tag :
    (image tag : Text)
    → Lacks b'@' (strip_digest image)
    → tag_value_valid tag ≡ true
    → repo_key (image_with_tag image tag) ≡ repo_key image
repo_key-image_with_tag image tag h valid =
    repo_key-image_repo_ref (image_with_tag image tag)
    ∙ ap drop_registry_part (image_repo_ref-image_with_tag image tag h valid)
    ∙ sym (repo_key-image_repo_ref image)

-- A pinned image is known by its repository key alone.
pub image_key-image_with_digest :
    (image digest : Text)
    → Lacks b'@' (strip_digest image)
    → digest ≢ []
    → image_key (image_with_digest image digest) ≡ repo_key image
unfolding image_key drop_registry
image_key-image_with_digest image digest h ne =
    ap drop_registry_part
      (strip_digest-image_with_digest image digest (image_repo_ref-Lacks image h) ne)
    ∙ sym (repo_key-image_repo_ref image)

tag_of_key : Text → Text
tag_of_key key =
    let last = rsplit_last b'/' key in
    if not (contains last b':') then [] else rsplit_last b':' last

image_tag-image_key : (image : Text) → image_tag image ≡ tag_of_key (image_key image)
unfolding image_tag image_key drop_registry tag_of_key
image_tag-image_key image = rw (last-drop_registry_part (strip_digest image)) refl

repo_key_of_key : (a b : Text) → image_key a ≡ image_key b → repo_key a ≡ repo_key b
unfolding repo_key
repo_key_of_key a b e = ap drop_key_tag e

-- With the repository allowed, an image matches exactly the targets of its repository key.
pub matches-by_repo :
    (image resolved : Text)
    → image_matches_resolved_target image resolved true ≡ (repo_key image == repo_key resolved)
unfolding image_matches_resolved_target
matches-by_repo image resolved =
    elim (Bool-cases (image_has_tag resolved && image_key image == image_key resolved)) [
      | inl t ↦ ground (
        arith,
        t,
        text_beq_iff (image_key image) (image_key resolved),
        repo_key_of_key image resolved,
        text_beq_iff (repo_key image) (repo_key resolved),
      )
      | inr f ↦ rw f
    ]

key_of_match :
    (image resolved : Text)
    → image_matches_resolved_target image resolved false ≡ true
    → (image_has_tag resolved ≡ true) × (image_key image ≡ image_key resolved)
unfolding image_matches_resolved_target
key_of_match image resolved h = ground (arith, text_beq_iff (image_key image) (image_key resolved))

-- Without it, a match has the tag and the repository key of the target.
pub matches-by_tag :
    (image resolved : Text)
    → image_matches_resolved_target image resolved false ≡ true
    → (image_has_tag resolved ≡ true)
      × (image_tag image ≡ image_tag resolved)
      × (repo_key image ≡ repo_key resolved)
matches-by_tag image resolved h =
    let (tagged, same) = key_of_match image resolved h in
    (
      tagged,
      image_tag-image_key image ∙ ap tag_of_key same ∙ sym (image_tag-image_key resolved),
      repo_key_of_key image resolved same,
    )

-- An image moved to another tag matches the same targets by repository as before.
pub matches-image_with_tag :
    (image tag resolved : Text)
    → Lacks b'@' (strip_digest image)
    → tag_value_valid tag ≡ true
    → image_matches_resolved_target (image_with_tag image tag) resolved true
      ≡ image_matches_resolved_target image resolved true
matches-image_with_tag image tag resolved h valid =
    rw (matches-by_repo (image_with_tag image tag) resolved)
      (rw (matches-by_repo image resolved) (rw (repo_key-image_with_tag image tag h valid)))
