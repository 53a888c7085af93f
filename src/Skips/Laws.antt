-- ===== src/Skips/Laws.antt =====
-- A release is hidden exactly by a skip that matches it.
use wudup.Prelude.{
  Text, text_eq, ◌≡◌, refl, ◌∙◌, Bool, ◌||◌, Option, List, [], ◌∷◌, ◌++◌, any, arith,
}
use wudup.Prelude.Dict.{Dict, get_or}
use wudup.Skips.{
  ReleaseKey, ReleaseSkip, skip_matches, candidates, previous, first_match, skip_for_release,
}

first_match-any :
    (unmatched : Option ReleaseSkip) (skips : List ReleaseSkip) (key : Option ReleaseKey)
    → (first_match unmatched skips key).1 ≡ any (λ s. skip_matches s key) skips
unfolding first_match
first_match-any unmatched [] key = refl
first_match-any unmatched (s ∷ skips) key = ground (arith, first_match-any unmatched skips key)

any-append :
    (p : ReleaseSkip → Bool) (xs ys : List ReleaseSkip) → any p (xs ++ ys) ≡ (any p xs || any p ys)
any-append p [] ys = refl
any-append p (x ∷ xs) ys = ground (arith, any-append p xs ys)

any-candidates :
    (p : ReleaseSkip → Bool) (skips : Dict Text (List ReleaseSkip)) (keys : List Text)
    → any p (candidates skips keys) ≡ any (λ k. any p (get_or skips k [])) keys
unfolding candidates
any-candidates p skips [] = refl
any-candidates p skips (k ∷ keys) =
    ground
      (arith, any-append p (get_or skips k []) (candidates skips keys), any-candidates p skips keys)

-- A release counts as skipped exactly if a skip of one of the services matches it.
pub skip_for_release_lem :
    (skips : Dict Text (List ReleaseSkip)) (keys : List Text) (key : Option ReleaseKey)
    → (skip_for_release skips keys key).1
      ≡ any (λ k. any (λ s. skip_matches s key) (get_or skips k [])) keys
unfolding skip_for_release
skip_for_release_lem skips keys key =
    let found = candidates skips keys in
    first_match-any (previous found key) found key
    ∙ any-candidates (λ s. skip_matches s key) skips keys
