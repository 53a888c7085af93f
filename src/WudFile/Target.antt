-- ===== src/WudFile/Target.antt =====
-- One line of the update file and its target (`WudTarget` and `_parse_target` of
-- src/wudup/wud_file.py).
pub mod Laws
use wudup.Prelude.{
  ℕ, zero, suc, ◌+◌, ◌-◌, ◌<◌, max, Text, codes, Bool, true, false, ◌&&◌, ◌||◌, not, Option, none,
  some, List, [], ◌∷◌, ◌++◌, ◌==◌, nat_eq, text_eq, ltb, contains, starts_with, length,
  if◌then◌else◌,
}
use wudup.Prelude.Cut.{cut}
use wudup.Prelude.Unicode.{Unicode}
use wudup.Images.{
  trim, is_shell_space, normalize_digest, image_has_tag, image_tag, image_key, repo_key,
  tag_value_valid, digest_separator,
}
use wudup.Platforms
use wudup.Platforms.{ImagePlatform, parse_platform}

pub record WudTarget : Type 0 where
  pub line_no : ℕ
  pub raw : Text
  pub first : Text
  pub key : Text
  pub repo : Text
  pub has_tag : Bool
  pub allow_repo : Bool
  pub digest : Text
  pub desired_tag : Text
  pub tag_token : Text
  pub platform : Option ImagePlatform

-- `WudTarget.platform_value`
unfoldable pub platform_value : WudTarget → Text
platform_value target = Platforms.platform_value target.platform

unfoldable pub is_digest_target_line : WudTarget → Bool
is_digest_target_line target =
    if not (target.desired_tag == [])
    then false
    else if target.digest == [] || not (image_has_tag target.first)
    then false
    else tag_value_valid (image_tag target.first)

-- The warnings, by the line and the text that they quote.
pub data Warning : Type 0 where
  invalid_tag : ℕ → Text → Warning
  untagged_source : ℕ → Text → Warning
  invalid_platform : ℕ → Text → Warning

-- The text before the first shell space.
first_token : Text → Text
first_token [] = []
first_token (c ∷ s) = if is_shell_space c then [] else c ∷ first_token s

-- The pieces between single shell spaces, those that are empty left out.
pieces : Text → Text → List Text
pieces word [] = if word == [] then [] else word ∷ []
pieces word (c ∷ s) = elim (is_shell_space c) [
  | true ↦ elim (word == []) [ true ↦ pieces [] s | false ↦ word ∷ pieces [] s ]
  | false ↦ pieces (word ++ c ∷ []) s
]

rest_tokens : Text → List Text
rest_tokens value = if trim value == [] then [] else pieces [] (trim value)

-- `sub in text`
contains_text : Text → Text → Bool
contains_text [] sub = starts_with [] sub
contains_text (c ∷ s) sub = starts_with (c ∷ s) sub || contains_text s sub

drop : ℕ → Text → Text
drop zero s = s
drop (suc n) [] = []
drop (suc n) (c ∷ s) = drop n s

-- `first.split("@", 1)[1] if "@sha256:" in first else ""`
first_digest : Text → Text
first_digest first =
    if contains_text first digest_separator
    then elim (cut b'@' first) [ none ↦ [] | some (left, right) ↦ right ]
    else []

-- The variables of the loop over the tokens.
record Tokens : Type 0 where
  pub digest : Text
  pub desired_tag : Text
  pub tag_token : Text
  pub platform : Option ImagePlatform
  pub platform_raw : Text
  pub platform_seen : Bool

read_tag : Text → Tokens → Tokens
read_tag tag st =
    if tag_value_valid tag
    then record st { desired_tag = tag; tag_token = tag }
    else record st { desired_tag = tag }

read_digest : Text → Tokens → Tokens
read_digest token st = if token == [] then st else record st { digest = normalize_digest token }

-- The warning on the tag, and whether the tag is kept.
tag_warning : ℕ → Text → Bool → Text → Option Warning
tag_warning line_no first has_tag desired_tag =
    if desired_tag == []
    then none
    else if not (tag_value_valid desired_tag)
    then some (invalid_tag line_no desired_tag)
    else if not has_tag
    then some (untagged_source line_no first)
    else none

platform_warning : ℕ → Tokens → List Warning
platform_warning line_no st = elim st.platform [
  | some p ↦ []
  | none ↦ if st.platform_seen then invalid_platform line_no st.platform_raw ∷ [] else []
]

-- The target, from the variables of the loop and the warning on the tag.
target_of : ℕ → Text → Text → Tokens → Option Warning → WudTarget
target_of line_no raw first st warning = record {
  line_no = line_no;
  raw = raw;
  first = first;
  key = image_key first;
  repo = repo_key first;
  has_tag = image_has_tag first;
  allow_repo = not (image_has_tag first);
  digest = st.digest;
  desired_tag = elim warning [ none ↦ st.desired_tag | some w ↦ [] ];
  tag_token = elim warning [ none ↦ st.tag_token | some w ↦ [] ];
  platform = st.platform;
}

some_list : Option Warning → List Warning
some_list none = []
some_list (some w) = w ∷ []

module _ (u : Unicode) where
  read_platform : Text → Tokens → Tokens
  read_platform token st = record st {
    platform_seen = true;
    platform_raw = token;
    platform = parse_platform u token;
  }

  read_token : Tokens → Text → Tokens
  read_token st token =
      if starts_with token (codes "tag=")
      then read_tag (drop 4 token) st
      else if starts_with token (codes "sha256=")
      then read_digest (drop 7 token) st
      else if starts_with token (codes "platform=")
      then read_platform (drop 9 token) st
      else st

  read_tokens : Tokens → List Text → Tokens
  read_tokens st [] = st
  read_tokens st (token ∷ tokens) = read_tokens (read_token st token) tokens

  start_tokens : Text → Tokens
  start_tokens first = record {
    digest = normalize_digest (first_digest first);
    desired_tag = [];
    tag_token = [];
    platform = none;
    platform_raw = [];
    platform_seen = false;
  }

  unfoldable pub parse_target : ℕ → Text → Text → WudTarget × List Warning
  unfolding first_token rest_tokens pieces contains_text drop first_digest read_tag read_digest
      tag_warning platform_warning target_of some_list read_platform read_token read_tokens
      start_tokens
  parse_target line_no raw trimmed =
      let first = first_token trimmed in
      let st = read_tokens (start_tokens first) (rest_tokens (drop (length first) trimmed)) in
      let warning = tag_warning line_no first (image_has_tag first) st.desired_tag in
      (target_of line_no raw first st warning, some_list warning ++ platform_warning line_no st)
