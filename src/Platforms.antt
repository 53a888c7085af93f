-- ===== src/Platforms.antt =====
-- Container platforms (src/wudup/platforms.py).
pub mod RoundTrip
mod Tests
use wudup.Prelude.{
  ℕ, Text, codes, Bool, true, false, ◌&&◌, ◌||◌, not, Option, none, some, List, [], ◌∷◌, ◌++◌, ◌==◌,
  nat_eq, text_eq, leb, all, map, if◌then◌else◌,
}
use wudup.Prelude.Split.{split_on}
use wudup.Prelude.Unicode.{Unicode, strip}

pub record ImagePlatform : Type 0 where
  pub os : Text
  pub architecture : Text
  pub variant : Text

-- `ImagePlatform.value`
unfoldable pub value : ImagePlatform → Text
value p =
    if not (p.variant == [])
    then p.os ++ b'/' ∷ (p.architecture ++ b'/' ∷ p.variant)
    else p.os ++ b'/' ∷ p.architecture

unfoldable pub platform_value : Option ImagePlatform → Text
platform_value none = []
platform_value (some p) = value p

-- `[A-Za-z0-9_.-]`
pub is_component_char : ℕ → Bool
is_component_char c =
    leb b'A' c && leb c b'Z'
    || leb b'a' c && leb c b'z'
    || leb b'0' c && leb c b'9'
    || c == b'_'
    || c == b'.'
    || c == b'-'

pub valid_component : Text → Bool
valid_component [] = false
valid_component (c ∷ s) = all is_component_char (c ∷ s)

pub unknown : Text
unknown = codes "unknown"

-- The checks of `platform_from_parts` on values in lower case.
pub checked : Text → Text → Text → Option ImagePlatform
checked os architecture variant =
    if not (valid_component os)
    then none
    else if not (valid_component architecture)
    then none
    else if not (variant == []) && not (valid_component variant)
    then none
    else if os == unknown || architecture == unknown || variant == unknown
    then none
    else some (record { os = os; architecture = architecture; variant = variant })

module _ (u : Unicode) where
  pub clean : Text → Text
  clean s = u.lower (strip u s)

  unfoldable pub platform_from_parts : Text → Text → Text → Option ImagePlatform
  unfolding checked clean valid_component is_component_char unknown
  platform_from_parts os architecture variant =
      checked (clean os) (clean architecture) (clean variant)

  -- Two or three parts, the third not empty.
  pub from_split : List Text → Option ImagePlatform
  from_split (os ∷ architecture ∷ []) = platform_from_parts os architecture []
  from_split (os ∷ architecture ∷ variant ∷ []) =
      if variant == [] then none else platform_from_parts os architecture variant
  from_split _ = none

  unfoldable pub parse_platform : Text → Option ImagePlatform
  unfolding from_split platform_from_parts
  parse_platform text = from_split (map (strip u) (split_on b'/' (strip u text)))
