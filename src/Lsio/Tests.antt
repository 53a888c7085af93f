-- ===== src/Lsio/Tests.antt =====
-- A rebuild of a linuxserver.io image.
use wudup.Prelude.{Text, codes, text_eq, ◌==◌, ◌≡◌, ◌≢◌, if◌then◌else◌, ◌↔◌, refl, []}
use wudup.Prelude.Unicode.{ascii, strip}
use wudup.Skips.{take_digits, drop_digits}
use wudup.Lsio.{
  build_digits, build_groups, is_separator, is_alphanumeric, build, is_build, find_build, is_arch,
  split_arch, split_marker, has_minor, starts_with_number, starts_with_version, split_version,
  build_parts, unmarked_parts, parts_from, parse_lsio_tag, upstream_update, image_rebuild,
  classify_lsio_update,
}
use wudup.Lsio.Classes.{classify_lsio_update_lem, IsComparable, AreVersions}
use wudup.Lsio.Laws.{IsMadeOf, parse_lsio_tag-build}

abbrev current_tag : Text
current_tag = codes "amd64-nightly-5.3.0-r0-ls412"

abbrev target_tag : Text
target_tag = codes "amd64-nightly-5.3.0-r0-ls413"

abbrev repo : Text
repo = codes "lscr.io/linuxserver/radarr"

current_build : (parse_lsio_tag ascii current_tag).kind ≡ build
unfolding parse_lsio_tag split_arch is_arch split_marker parts_from unmarked_parts find_build
    is_build build_digits build_groups is_separator is_alphanumeric take_digits drop_digits
    split_version starts_with_version starts_with_number has_minor build_parts
current_build = refl

current_branch : (parse_lsio_tag ascii current_tag).branch ≡ codes "nightly"
unfolding parse_lsio_tag split_arch is_arch split_marker parts_from unmarked_parts find_build
    is_build build_digits build_groups is_separator is_alphanumeric take_digits drop_digits
    split_version starts_with_version starts_with_number has_minor build_parts
current_branch = refl

parse_lsio_tag-build_example : IsMadeOf (parse_lsio_tag ascii current_tag) (strip ascii current_tag)
parse_lsio_tag-build_example = parse_lsio_tag-build ascii current_tag current_build

classify_lsio_update_lem_example :
    let c = classify_lsio_update ascii repo current_tag target_tag [] [] in
    let current = parse_lsio_tag ascii current_tag in
    let target = parse_lsio_tag ascii (if target_tag == [] then [] else target_tag) in
    ((c.change_type ≡ upstream_update) ↔ (
      IsComparable ascii repo current target
      × ((v : Text) × ((w : Text) × (AreVersions ascii current target [] v w × (v ≢ w))))))
    × ((c.change_type ≡ image_rebuild) ↔ (
        IsComparable ascii repo current target
        × ((v : Text) × AreVersions ascii current target [] v v)))
classify_lsio_update_lem_example = classify_lsio_update_lem ascii repo current_tag target_tag [] []
