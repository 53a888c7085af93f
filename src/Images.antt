-- ===== src/Images.antt =====
-- Image references (src/wudup/images.py): digests, tags, registries and matching keys.
pub mod Parts
pub mod Digest
pub mod Tag
pub mod Key
mod Trim
mod Tests
use wudup.Prelude.{
  ℕ, Text, codes, Bool, true, false, ◌&&◌, ◌||◌, not, Option, none, some, [], ◌∷◌, ◌++◌, ◌==◌,
  nat_eq, text_eq, leb, length, all, contains, starts_with, if◌then◌else◌,
}
use wudup.Prelude.Cut.{cut, rsplit_last, rsplit_first, rcut, split_before}

-- `_SHELL_SPACE`: space, tab, newline, return, vertical tab and form feed
unfoldable pub is_shell_space : ℕ → Bool
is_shell_space c = c == 32 || leb 9 c && leb c 13

-- `value.lstrip(_SHELL_SPACE)`
trim_left : Text → Text
trim_left [] = []
trim_left (c ∷ s) = if is_shell_space c then trim_left s else c ∷ s

-- A character before text that is trimmed at its right end.
keep_ink : ℕ → Text → Text
keep_ink c [] = if is_shell_space c then [] else c ∷ []
keep_ink c (d ∷ t) = c ∷ d ∷ t

-- `value.rstrip(_SHELL_SPACE)`
trim_right : Text → Text
unfolding keep_ink
trim_right [] = []
trim_right (c ∷ s) = keep_ink c (trim_right s)

unfoldable pub trim : Text → Text
unfolding trim_left trim_right is_shell_space
trim value = trim_right (trim_left value)

abbrev pub digest_separator : Text
digest_separator = codes "@sha256:"

unfoldable pub strip_digest : Text → Text
strip_digest image = split_before digest_separator image

-- `digest.split("@", 1)[1] if "@" in digest else digest`
after_at : Text → Text
after_at digest = elim (cut b'@' digest) [ none ↦ digest | some (left, right) ↦ right ]

with_algorithm : Text → Text
with_algorithm digest =
    if starts_with digest (codes "sha256:") then digest else codes "sha256:" ++ digest

unfoldable pub normalize_digest : Text → Text
unfolding after_at with_algorithm
normalize_digest digest = if digest == [] then [] else with_algorithm (after_at digest)

-- The first path segment names a registry.
is_registry : Text → Bool
is_registry left = contains left b'.' || contains left b':' || left == codes "localhost"

-- `drop_registry` behind its `strip_digest`
pub drop_registry_part : Text → Text
drop_registry_part image = elim (cut b'/' image) [
  | none ↦ image
  | some (left, rest) ↦ if is_registry left then rest else image
]

unfoldable pub drop_registry : Text → Text
drop_registry image = drop_registry_part (strip_digest image)

unfoldable pub image_has_tag : Text → Bool
image_has_tag image = contains (rsplit_last b'/' (strip_digest image)) b':'

unfoldable pub image_tag : Text → Text
image_tag image =
    let last = rsplit_last b'/' (strip_digest image) in
    if not (contains last b':') then [] else rsplit_last b':' last

unfoldable pub image_key : Text → Text
image_key image = drop_registry image

-- `repo_key` behind its `image_key`
pub drop_key_tag : Text → Text
drop_key_tag key = if contains (rsplit_last b'/' key) b':' then rsplit_first b':' key else key

unfoldable pub repo_key : Text → Text
unfolding image_key
repo_key image = drop_key_tag (image_key image)

pub drop_last_tag : Text → Text
drop_last_tag last = if contains last b':' then rsplit_first b':' last else last

-- `image_repo_ref` behind its `strip_digest`
pub repo_ref_part : Text → Text
repo_ref_part image = elim (rcut b'/' image) [
  | none ↦ drop_last_tag image
  | some (prefix, last) ↦ prefix ++ b'/' ∷ drop_last_tag last
]

unfoldable pub image_repo_ref : Text → Text
image_repo_ref image = repo_ref_part (strip_digest image)

unfoldable pub image_with_tag : Text → Text → Text
image_with_tag image tag = image_repo_ref image ++ b':' ∷ tag

unfoldable pub image_with_digest : Text → Text → Text
image_with_digest image digest = image_repo_ref image ++ b'@' ∷ normalize_digest digest

-- `\w` in ASCII
unfoldable pub is_word : ℕ → Bool
is_word c =
    leb b'0' c && leb c b'9' || leb b'A' c && leb c b'Z' || leb b'a' c && leb c b'z' || c == b'_'

-- `[\w.-]`
unfoldable pub is_tag_char : ℕ → Bool
unfolding is_word
is_tag_char c = is_word c || c == b'.' || c == b'-'

-- `_TAG_VALUE_RE`: a word character and at most 127 characters of `[\w.-]`
unfoldable pub tag_value_valid : Text → Bool
unfolding is_word is_tag_char
tag_value_valid [] = false
tag_value_valid (c ∷ s) = is_word c && leb (length s) 127 && all is_tag_char s

unfoldable pub image_matches_resolved_target : Text → Text → Bool → Bool
image_matches_resolved_target image resolved allow_repo =
    if image_has_tag resolved && image_key image == image_key resolved
    then true
    else allow_repo && repo_key image == repo_key resolved
