-- ===== src/Lsio.antt =====
-- Tags of linuxserver.io images and the kind of an update (src/wudup/lsio_updates.py).
mod Laws
pub mod Versions
pub mod Classes
mod Tests
use wudup.Prelude.{
  ℕ, Text, text_eq, nat_eq, ◌==◌, codes, Bool, true, false, not, ◌&&◌, ◌||◌, Option, none, some,
  List, [], ◌∷◌, leb, any, contains, if◌then◌else◌,
}
use wudup.Prelude.Unicode.{Unicode, strip}
use wudup.Prelude.Split.{split_on, join}
use wudup.Skips.{take_digits, drop_digits}

pub data LsioChangeType : Type 0 where
  upstream_update image_rebuild unknown_change : LsioChangeType

pub data LsioTagKind : Type 0 where
  build version on_branch pseudo_semver unknown : LsioTagKind

pub record LsioTagParts : Type 0 where
  pub raw : Text
  pub kind : LsioTagKind
  pub arch : Text
  pub branch : Text
  pub upstream_version : Text
  pub build_suffix : Text

pub record LsioUpdateClassification : Type 0 where
  pub change_type : LsioChangeType
  pub reason : Text
  pub current : LsioTagParts
  pub target : LsioTagParts

abbrev arch_prefixes : List Text
arch_prefixes =
    codes "amd64"
    ∷ codes "arm32v6"
    ∷ codes "arm32v7"
    ∷ codes "arm64v8"
    ∷ codes "ppc64le"
    ∷ codes "riscv64"
    ∷ codes "s390x"
    ∷ []

-- `VERSION_START_RE`: two numbers with a dot between them, behind a `v` or none.
unfoldable pub has_minor : Text → Text → Bool
has_minor major [] = false
has_minor major (c ∷ s) = not (major == []) && c == b'.' && not (take_digits s == [])

unfoldable pub starts_with_number : Text → Bool
starts_with_number s = has_minor (take_digits s) (drop_digits s)

unfoldable pub starts_with_version : Text → Bool
starts_with_version [] = false
starts_with_version (c ∷ s) =
    if c == b'v' || c == b'V' then starts_with_number s else starts_with_number (c ∷ s)

-- `LSIO_BUILD_SUFFIX_RE` behind its dash, to the end of the text: `ls`, digits, and groups of digits and
-- letters behind a dot, an underscore or a dash.
unfoldable pub is_separator : ℕ → Bool
is_separator c = c == b'.' || c == b'_' || c == b'-'

unfoldable pub is_alphanumeric : ℕ → Bool
is_alphanumeric c = leb b'0' c && leb c b'9' || leb b'a' c && leb c b'z' || leb b'A' c && leb c b'Z'

unfoldable pub build_groups : Bool → Text → Bool
build_groups seen [] = seen
build_groups seen (c ∷ s) =
    let next = build_groups false s in
    let more = build_groups true s in
    if is_separator c then seen && next else is_alphanumeric c && more

unfoldable pub build_digits : Bool → Text → Bool
build_digits seen [] = seen
build_digits seen (c ∷ s) =
    let more = build_digits true s in
    if leb b'0' c && leb c b'9' then more else seen && is_separator c && build_groups false s

unfoldable pub is_build : Text → Bool
is_build [] = false
is_build (l ∷ []) = false
is_build (l ∷ s ∷ rest) =
    (l == b'l' || l == b'L') && (s == b's' || s == b'S') && build_digits false rest

abbrev pub found_behind : ℕ → Option (Text × Text) → Option (Text × Text)
found_behind c none = none
found_behind c (some (before, suffix)) = some (c ∷ before, suffix)

-- The search: the text before the first match and the match behind its dash.
unfoldable pub find_build : Text → Option (Text × Text)
find_build [] = none
find_build (c ∷ s) =
    let rest = found_behind c (find_build s) in
    if c == b'-' && is_build s then some ([], s) else rest

-- A token before those of a split.
abbrev pub with_before : Text → Option (List Text × List Text) → Option (List Text × List Text)
with_before token none = none
with_before token (some (before, after)) = some (token ∷ before, after)

module _ (u : Unicode) where
  unfoldable pub is_arch : Text → Bool
  is_arch token = contains arch_prefixes (u.lower token)

  -- `_split_arch`
  unfoldable pub split_arch : List Text → Text × List Text
  split_arch [] = ([], [])
  split_arch (token ∷ tokens) = if is_arch token then (token, tokens) else ([], token ∷ tokens)

  -- `_index` of `version`: the tokens before it and those behind it.
  unfoldable pub split_marker : List Text → Option (List Text × List Text)
  split_marker [] = none
  split_marker (token ∷ tokens) =
      let rest = with_before token (split_marker tokens) in
      if u.lower token == codes "version" then some ([], tokens) else rest

  unfoldable pub marked_parts : Text → Text → List Text × List Text → LsioTagParts
  marked_parts raw arch (before, after) =
      let upstream = join b'-' after in
      if not (upstream == []) && starts_with_version upstream
      then record {
        raw = raw;
        kind = version;
        arch = arch;
        branch = join b'-' before;
        upstream_version = upstream;
        build_suffix = [];
      }
      else record {
        raw = raw;
        kind = unknown;
        arch = arch;
        branch = [];
        upstream_version = [];
        build_suffix = [];
      }

-- `_first_version_index`: the tokens before the first version, and those from it on.
unfoldable pub split_version : List Text → Option (List Text × List Text)
split_version [] = none
split_version (token ∷ tokens) =
    let rest = with_before token (split_version tokens) in
    if starts_with_version token then some ([], token ∷ tokens) else rest

unfoldable pub build_parts : Text → Text → Text → Option (List Text × List Text) → LsioTagParts
build_parts raw suffix arch none = record {
  raw = raw;
  kind = unknown;
  arch = arch;
  branch = [];
  upstream_version = [];
  build_suffix = suffix;
}
build_parts raw suffix arch (some (before, after)) = record {
  raw = raw;
  kind = build;
  arch = arch;
  branch = join b'-' before;
  upstream_version = join b'-' after;
  build_suffix = suffix;
}

unfoldable pub plain_parts : Text → Text → List Text → LsioTagParts
plain_parts raw arch [] = record {
  raw = raw;
  kind = on_branch;
  arch = arch;
  branch = [];
  upstream_version = [];
  build_suffix = [];
}
plain_parts raw arch (token ∷ tokens) =
    if starts_with_version token
    then record {
      raw = raw;
      kind = pseudo_semver;
      arch = arch;
      branch = [];
      upstream_version = raw;
      build_suffix = [];
    }
    else record {
      raw = raw;
      kind = on_branch;
      arch = arch;
      branch = join b'-' (token ∷ tokens);
      upstream_version = [];
      build_suffix = [];
    }

unfoldable pub is_lsio_part : Text → Bool
is_lsio_part part = part == codes "linuxserver" || part == codes "linuxserver.io"

-- `a or b`
unfoldable pub first_text : Text → Text → Text
first_text a b = if a == [] then b else a

-- `parts[:-1]`
unfoldable pub any_but_last : (Text → Bool) → List Text → Bool
any_but_last p [] = false
any_but_last p (x ∷ []) = false
any_but_last p (x ∷ y ∷ xs) = p x || any_but_last p (y ∷ xs)

unfoldable pub is_release : LsioTagKind → Bool
is_release build = true
is_release version = true
is_release pseudo_semver = true
is_release kind = false

module _ (u : Unicode) where
  -- A build suffix at the very start is none.
  unfoldable pub unmarked_parts : Text → Text → List Text → Option (Text × Text) → LsioTagParts
  unmarked_parts raw arch tokens none = plain_parts raw arch tokens
  unmarked_parts raw arch tokens (some ([], suffix)) = plain_parts raw arch tokens
  unmarked_parts raw arch tokens (some (c ∷ body, suffix)) =
      let (body_arch, body_tokens) = split_arch u (split_on b'-' (c ∷ body)) in
      build_parts raw suffix body_arch (split_version body_tokens)

  unfoldable pub parts_from :
      Text → Text → List Text → Option (List Text × List Text) → LsioTagParts
  parts_from raw arch tokens (some marked) = marked_parts u raw arch marked
  parts_from raw arch tokens none = unmarked_parts raw arch tokens (find_build raw)

  unfoldable pub parse_lsio_tag : Text → LsioTagParts
  parse_lsio_tag tag =
      let raw = strip u tag in
      let (arch, tokens) = split_arch u (split_on b'-' raw) in
      if raw == []
      then record {
        raw = [];
        kind = unknown;
        arch = [];
        branch = [];
        upstream_version = [];
        build_suffix = [];
      }
      else parts_from raw arch tokens (split_marker u tokens)

  unfoldable pub without_v : Text → Text
  without_v (c ∷ d ∷ s) = if c == b'v' && u.is_digit d then d ∷ s else c ∷ d ∷ s
  without_v s = s

  unfoldable pub normalize_lsio_version : Text → Text
  normalize_lsio_version value = without_v (u.lower (strip u value))

  -- `_trusted_upstream`
  unfoldable pub trusted_upstream : LsioTagParts → Text
  trusted_upstream parts =
      if is_release parts.kind then normalize_lsio_version parts.upstream_version else []

  unfoldable pub is_lsio_repo : Text → Bool
  is_lsio_repo value = any_but_last is_lsio_part (split_on b'/' (u.lower value))

  unfoldable pub classify_parts :
      Text → Text → LsioTagParts → LsioTagParts → LsioUpdateClassification
  classify_parts image_repo upstream_version current target =
      let current_upstream = trusted_upstream current in
      let target_upstream =
        first_text (trusted_upstream target) (normalize_lsio_version upstream_version) in
      let ambiguous : LsioUpdateClassification = record {
        change_type = unknown_change;
        reason = codes "ambiguous-tags";
        current = current;
        target = target;
      } in
      if not (is_lsio_repo image_repo)
      then record ambiguous { reason = codes "non-lsio-image" }
      else if current_upstream == [] || target_upstream == []
      then ambiguous
      else if not (current.arch == target.arch) || not (current.branch == target.branch)
      then record ambiguous { reason = codes "branch-or-arch-mismatch" }
      else if not (current_upstream == target_upstream)
      then record ambiguous {
        change_type = upstream_update;
        reason = codes "upstream-version-changed";
      }
      else if is_release current.kind && (is_release target.kind || not (upstream_version == []))
      then record ambiguous {
        change_type = image_rebuild;
        reason = codes "same-upstream-image-layer-changed";
      }
      else ambiguous

  unfoldable pub classify_lsio_update : Text → Text → Text → Text → Text → LsioUpdateClassification
  classify_lsio_update image_repo current_tag target_tag lsio_tag upstream_version =
      classify_parts image_repo upstream_version (parse_lsio_tag current_tag)
        (parse_lsio_tag (first_text target_tag lsio_tag))
