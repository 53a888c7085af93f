-- ===== src/Skips.antt =====
-- Release skips: which release a skip holds back (src/wudup/release_skips.py).
pub mod Laws
pub mod Version
pub mod Groups
pub mod Newest
mod Tests
use wudup.Prelude.{
  ℕ, zero, suc, Text, text_eq, nat_eq, ◌==◌, ◌≡◌, Bool, true, false, not, ◌&&◌, ◌||◌, Option, none,
  some, List, [], ◌∷◌, ◌++◌, filter, ltb, leb, codes, if◌then◌else◌,
}
use wudup.Prelude.Dict.{Dict, get_or}
use wudup.Matching.Lines.{text_leb}

pub data ReleaseSkipBasis : Type 0 where
  version tag digest : ReleaseSkipBasis

pub data ReleaseSkipScope : Type 0 where
  release line : ReleaseSkipScope

pub record ReleaseKey : Type 0 where
  pub basis : ReleaseSkipBasis
  pub value : Text
  pub line : Text

pub record ReleaseSkip : Type 0 where
  pub id : ℕ
  pub service_key : Text
  pub basis : ReleaseSkipBasis
  pub value : Text
  pub scope : ReleaseSkipScope
  pub skipped_tag : Text
  pub reason : Text
  pub created_at : Text

pub same_basis : ReleaseSkipBasis → ReleaseSkipBasis → Bool
same_basis version version = true
same_basis tag tag = true
same_basis digest digest = true
same_basis a b = false

-- The digits that a text begins with, and the rest of the text.
unfoldable pub take_digits : Text → Text
take_digits [] = []
take_digits (c ∷ s) = let rest = take_digits s in if leb b'0' c && leb c b'9' then c ∷ rest else []

unfoldable pub drop_digits : Text → Text
drop_digits [] = []
drop_digits (c ∷ s) = let rest = drop_digits s in if leb b'0' c && leb c b'9' then rest else c ∷ s

-- The number before a rest, with the number that the rest begins with behind a dot.
number_line : Text → Text → Text
number_line major [] = []
number_line major (c ∷ rest) =
    if c == b'.' && not (major == []) && not (take_digits rest == [])
    then major ++ b'.' ∷ take_digits rest
    else []

-- The first two numbers of `\d+(?:\.\d+)*` at the start, where there are two.
pub release_line : Text → Text
release_line v = number_line (take_digits v) (drop_digits v)

matches_scope : ReleaseSkipScope → ReleaseSkip → ReleaseKey → Bool
matches_scope line skip key = not (key.line == []) && (key.line == release_line skip.value)
matches_scope release skip key = key.value == skip.value

pub skip_matches : ReleaseSkip → Option ReleaseKey → Bool
skip_matches skip none = false
skip_matches skip (some key) =
    if not (same_basis key.basis skip.basis) then false else matches_scope skip.scope skip key

-- `digest.partition(":")`, with at most twelve characters of the value
take : ℕ → Text → Text
take zero s = []
take (suc n) [] = []
take (suc n) (c ∷ s) = c ∷ take n s

-- The text behind the first colon, if there is one, with the algorithm before it.
short_from : Text → Text → Text → Text
short_from whole algorithm [] = take 12 whole
short_from whole algorithm (c ∷ s) =
    let rest = short_from whole (algorithm ++ c ∷ []) s in
    if c == b':' then algorithm ++ b':' ∷ take 12 s else rest

pub short_digest : Text → Text
short_digest digest_text = short_from digest_text [] digest_text

label_of : ReleaseSkipBasis → ReleaseSkipScope → Text → Text
label_of digest scope value = codes "build " ++ short_digest value
label_of version line value = release_line value ++ codes ".x"
label_of basis scope value = value

pub skip_label : ReleaseSkipBasis → Text → ReleaseSkipScope → Text
skip_label basis value scope = label_of basis scope value

-- The skips of the services.
candidates : Dict Text (List ReleaseSkip) → List Text → List ReleaseSkip
candidates skips [] = []
candidates skips (k ∷ ks) = get_or skips k [] ++ candidates skips ks

-- `(a.created_at, a.id) < (b.created_at, b.id)`
unfoldable pub older : ReleaseSkip → ReleaseSkip → Bool
older a b =
    not (text_leb b.created_at a.created_at) || (a.created_at == b.created_at && ltb a.id b.id)

newest : ReleaseSkip → List ReleaseSkip → ReleaseSkip
newest best [] = best
newest best (s ∷ skips) = newest (if older best s then s else best) skips

newest_of : List ReleaseSkip → Option ReleaseSkip
newest_of [] = none
newest_of (s ∷ skips) = some (newest s skips)

previous : List ReleaseSkip → Option ReleaseKey → Option ReleaseSkip
previous skips none = none
previous skips (some key) = newest_of (filter (λ s. same_basis s.basis key.basis) skips)

-- The first match, or else what `unmatched` gives.
first_match : Option ReleaseSkip → List ReleaseSkip → Option ReleaseKey → Option ReleaseSkip × Bool
first_match unmatched [] key = (unmatched, false)
first_match unmatched (s ∷ skips) key =
    let rest = first_match unmatched skips key in
    if skip_matches s key then (some s, true) else rest

pub skip_for_release :
    Dict Text (List ReleaseSkip) → List Text → Option ReleaseKey → Option ReleaseSkip × Bool
skip_for_release skips service_keys key =
    let found = candidates skips service_keys in first_match (previous found key) found key
