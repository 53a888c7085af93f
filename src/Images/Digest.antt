-- ===== src/Images/Digest.antt =====
-- Digests of image references.
use mathlib.Core.List.{cons-ne-nil}
use wudup.Prelude.{
  Text, codes, Lacks, ◌≡◌, ◌≢◌, refl, inl, inr, true, [], ◌∷◌, ◌++◌, arith, starts_with, nat_eq,
  Bool-cases,
}
use wudup.Prelude.Cut.{cut-Lacks, split_before-Lacks, split_before_cons, starts_with-append}
use wudup.Images.{
  strip_digest, normalize_digest, digest_separator, with_algorithm, after_at, image_with_digest,
  image_repo_ref,
}

-- A reference with no `@` has no digest to strip.
pub strip_digest-Lacks : (image : Text) → Lacks b'@' image → strip_digest image ≡ image
unfolding strip_digest
strip_digest-Lacks image h = split_before-Lacks b'@' (codes "sha256:") image h

pub strip_digest-append :
    (image rest : Text)
    → Lacks b'@' image
    → strip_digest (image ++ (digest_separator ++ rest)) ≡ image
unfolding strip_digest
strip_digest-append image rest h = split_before_cons b'@' (codes "sha256:") image rest h

starts_with-split : (s p : Text) → starts_with s p ≡ true → (t : Text) × (s ≡ p ++ t)
starts_with-split [] [] h = ([], refl)
starts_with-split [] (d ∷ p) h = cc
starts_with-split (c ∷ s) [] h = (c ∷ s, refl)
starts_with-split (c ∷ s) (d ∷ p) h =
    let (t, e) = starts_with-split s p (ground arith) in (t, ground arith)

with_algorithm_form : (s : Text) → (t : Text) × (with_algorithm s ≡ codes "sha256:" ++ t)
unfolding with_algorithm
with_algorithm_form s = elim (Bool-cases (starts_with s (codes "sha256:"))) [
  | inl e ↦ let (t, p) = starts_with-split s (codes "sha256:") e in (t, rw e p)
  | inr n ↦ (s, rw n)
]

-- A digest that is not empty gets the form `sha256:<value>`.
pub normalize_digest_form :
    (digest : Text) → digest ≢ [] → (t : Text) × (normalize_digest digest ≡ codes "sha256:" ++ t)
normalize_digest_form [] h = absurd (h refl)
normalize_digest_form (c ∷ s) h = unfold normalize_digest in with_algorithm_form (after_at (c ∷ s))

after_at-Lacks : (s : Text) → Lacks b'@' s → after_at s ≡ s
unfolding after_at
after_at-Lacks s h = rw (cut-Lacks b'@' s h, after_at)

normalize_prefixed :
    (t : Text)
    → Lacks b'@' (codes "sha256:" ++ t)
    → normalize_digest (codes "sha256:" ++ t) ≡ codes "sha256:" ++ t
unfolding normalize_digest
normalize_prefixed t h =
    rw (after_at-Lacks (codes "sha256:" ++ t) h)
      (unfold with_algorithm in rw (starts_with-append (codes "sha256:") t, with_algorithm))

-- Normalising twice is normalising once, where the first result holds no `@`.
pub normalize_digest_idem :
    (digest : Text)
    → Lacks b'@' (normalize_digest digest)
    → normalize_digest (normalize_digest digest) ≡ normalize_digest digest
normalize_digest_idem [] h = unfold normalize_digest in refl
normalize_digest_idem (c ∷ s) h =
    let (t, e) = normalize_digest_form (c ∷ s) (cons-ne-nil c s) in
    rw e (normalize_prefixed t (rw e at h))

-- Stripping the digest of a pinned reference gives its repository reference back.
pub strip_digest-image_with_digest :
    (image digest : Text)
    → Lacks b'@' (image_repo_ref image)
    → digest ≢ []
    → strip_digest (image_with_digest image digest) ≡ image_repo_ref image
strip_digest-image_with_digest image digest h ne =
    let (t, e) = normalize_digest_form digest ne in
    unfold image_with_digest in rw e (strip_digest-append (image_repo_ref image) t h)
