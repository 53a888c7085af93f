-- ===== src/Skips/Version.antt =====
-- The release that a tag names, and the key of an offered release (src/wudup/release_skips.py).
mod Laws
mod Tests
use wudup.Prelude.{
  ℕ, Text, text_eq, nat_eq, ◌==◌, Bool, true, false, not, ◌&&◌, ◌||◌, Option, none, some, List, [],
  ◌∷◌, ◌++◌, leb, if◌then◌else◌,
}
use wudup.Prelude.Unicode.{Unicode, strip}
use wudup.Lsio.{LsioTagParts, is_release, parse_lsio_tag, is_lsio_repo}
use wudup.Skips.{ReleaseKey, version, tag, digest, take_digits, drop_digits, release_line}

unfoldable pub is_number_char : ℕ → Bool
is_number_char c = leb b'0' c && leb c b'9'

-- `$`: the end of the text, or a line feed there.
unfoldable pub is_end : Text → Bool
is_end s = s == [] || s == 10 ∷ []

-- `_LSIO_PACKAGE_REVISION_RE` behind its dash.
unfoldable pub is_revision : Text → Bool
is_revision [] = false
is_revision (r ∷ s) = r == b'r' && not (take_digits s == []) && is_end (drop_digits s)

-- What stands behind the digits of a revision.
unfoldable pub behind_revision : Text → Text
behind_revision [] = []
behind_revision (r ∷ s) = drop_digits s

unfoldable pub drop_revision : Text → Text
drop_revision [] = []
drop_revision (c ∷ s) =
    let rest = drop_revision s in if c == b'-' && is_revision s then behind_revision s else c ∷ rest

-- `str(int(part))`: a number without leading zeros.
unfoldable pub canonical : Text → Text
canonical [] = []
canonical (c ∷ []) = c ∷ []
canonical (c ∷ d ∷ s) = let rest = canonical (d ∷ s) in if c == b'0' then rest else c ∷ d ∷ s

unfoldable pub is_suffix_start : ℕ → Bool
is_suffix_start c = is_number_char c || leb b'a' c && leb c b'z' || leb b'A' c && leb c b'Z'

unfoldable pub is_suffix_char : ℕ → Bool
is_suffix_char c = is_suffix_start c || c == b'.' || c == b'_' || c == b'+' || c == b'-'

abbrev pub before : ℕ → Option Text → Option Text
before c none = none
before c (some s) = some (c ∷ s)

abbrev pub joined : Text → ℕ → Option Text → Option Text
joined number c none = none
joined number c (some s) = some (number ++ c ∷ s)

-- The rest of a suffix to the end, without a line feed there.
unfoldable pub suffix_rest : Text → Option Text
suffix_rest [] = some []
suffix_rest (c ∷ s) =
    let rest = before c (suffix_rest s) in
    if is_suffix_char c then rest else if is_end (c ∷ s) then some [] else none

unfoldable pub suffix_from : Text → Option Text
suffix_from [] = none
suffix_from (c ∷ s) = if is_suffix_start c then suffix_rest (c ∷ s) else none

-- `_VERSION_TAG_RE` behind the `v`, with the numbers in canonical form: the digits of the number that is
-- read, and the rest of the tag.
unfoldable pub version_from : Text → Text → Option Text
version_from digits [] = if digits == [] then none else some (canonical digits)
version_from digits (c ∷ s) =
    let longer = version_from (digits ++ c ∷ []) s in
    let next = joined (canonical digits) b'.' (version_from [] s) in
    let suffix = joined (canonical digits) c (suffix_from s) in
    if is_number_char c
    then longer
    else if digits == []
    then none
    else if c == b'.'
    then next
    else if c == b'-' || c == b'_' || c == b'+'
    then suffix
    else if is_end (c ∷ s)
    then some (canonical digits)
    else none

-- `[vV]?` before the number.
unfoldable pub version_of : Text → Option Text
version_of [] = none
version_of (c ∷ s) = if c == b'v' || c == b'V' then version_from [] s else version_from [] (c ∷ s)

unfoldable pub text_or_empty : Option Text → Text
text_or_empty none = []
text_or_empty (some s) = s

module _ (u : Unicode) where
  unfoldable pub version_source : Text → Text → Text
  version_source image_repo source =
      let parts = parse_lsio_tag u source in
      if is_lsio_repo u image_repo && is_release parts.kind
      then drop_revision parts.upstream_version
      else source

  unfoldable pub release_version : Text → Text → Text
  release_version image_repo t = text_or_empty (version_of (version_source image_repo (strip u t)))

  unfoldable pub tag_key : Text → Text → ReleaseKey
  tag_key t [] = record { basis = tag; value = t; line = [] }
  tag_key t (c ∷ v) = record { basis = version; value = c ∷ v; line = release_line (c ∷ v) }

  unfoldable pub digest_key : Text → Option ReleaseKey
  digest_key [] = none
  digest_key (c ∷ d) = some (record { basis = digest; value = c ∷ d; line = [] })

  unfoldable pub release_key : Text → Text → Text → Option ReleaseKey
  release_key image_repo target_tag d =
      let t = strip u target_tag in
      if t == [] then digest_key (strip u d) else some (tag_key t (release_version image_repo t))
