-- ===== src/Skips/Version/Tests.antt =====
-- Two builds of one release, and a version with leading zeros.
use wudup.Prelude.{codes, ◌≡◌, refl, some, none}
use wudup.Prelude.Unicode.{ascii}
use wudup.Lsio.{
  build_digits, build_groups, is_separator, is_alphanumeric, is_build, find_build, is_arch,
  split_arch, split_marker, has_minor, starts_with_number, starts_with_version, split_version,
  build_parts, marked_parts, unmarked_parts, parts_from, parse_lsio_tag, is_release, is_lsio_part,
  any_but_last, is_lsio_repo,
}
use wudup.Skips.Version.{
  drop_digits, take_digits, release_version, version_source, text_or_empty, drop_revision,
  behind_revision, is_revision, version_of, version_from, is_number_char, canonical, suffix_from,
  suffix_rest, is_suffix_char, is_suffix_start, is_end,
}
use wudup.Skips.Version.Laws.{version_of-version}

read_version : version_of (codes "v03.0.10-rc1") ≡ some (codes "3.0.10-rc1")
unfolding version_of version_from is_number_char canonical suffix_from suffix_rest is_suffix_char
    is_suffix_start is_end
read_version = refl

commit_tag : version_of (codes "3f9e1a2") ≡ none
unfolding version_of version_from is_number_char canonical is_end
commit_tag = refl

-- Two builds of one release have one version.
first_build :
    release_version ascii (codes "linuxserver/sonarr") (codes "5.3.0-r0-ls412") ≡ codes "5.3.0"
unfolding release_version version_source text_or_empty drop_revision behind_revision is_revision
    version_of version_from is_number_char canonical suffix_from suffix_rest is_suffix_char
    is_suffix_start is_end parse_lsio_tag split_arch is_arch split_marker parts_from marked_parts
    unmarked_parts find_build is_build build_digits build_groups is_separator is_alphanumeric
    split_version starts_with_version starts_with_number has_minor build_parts is_release
    is_lsio_repo any_but_last is_lsio_part take_digits drop_digits
first_build = refl

version_tag :
    release_version ascii (codes "linuxserver/sonarr") (codes "version-5.3.0-r1") ≡ codes "5.3.0"
unfolding release_version version_source text_or_empty drop_revision behind_revision is_revision
    version_of version_from is_number_char canonical suffix_from suffix_rest is_suffix_char
    is_suffix_start is_end parse_lsio_tag split_arch is_arch split_marker parts_from marked_parts
    unmarked_parts find_build is_build build_digits build_groups is_separator is_alphanumeric
    split_version starts_with_version starts_with_number has_minor build_parts is_release
    is_lsio_repo any_but_last is_lsio_part take_digits drop_digits
version_tag = refl

version_of-version_example : version_of (codes "3.0.10-rc1") ≡ some (codes "3.0.10-rc1")
version_of-version_example =
    version_of-version (codes "v03.0.10-rc1") (codes "3.0.10-rc1") read_version
