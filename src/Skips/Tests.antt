-- ===== src/Skips/Tests.antt =====
-- Runs of the skips on concrete releases.
use wudup.Prelude.{Text, text_eq, codes, ◌≡◌, refl, List, [], ◌∷◌, filter}
use wudup.Prelude.Dict.{Dict, get_or}
use wudup.Skips.{
  ReleaseKey, ReleaseSkip, line, version, release_line, take_digits, drop_digits, number_line,
  short_digest, short_from, take, older,
}
use wudup.Matching.Lines.{text_leb}
use mathlib.Core.List.{Permᴰ}
use wudup.Skips.Groups.{skips_by_service, grouped, newest_first, insert_newest, is_of}
use wudup.Skips.Newest.{skips_by_service_lem, IsNewestFirst, is_even}

two_numbers : release_line (codes "5.3.0-rc1") ≡ codes "5.3"
unfolding release_line take_digits drop_digits number_line
two_numbers = refl

one_number : release_line (codes "5-rc1") ≡ []
unfolding release_line take_digits drop_digits number_line
one_number = refl

short : short_digest (codes "sha256:0123456789abcdef") ≡ codes "sha256:0123456789ab"
unfolding short_digest short_from take
short = refl

abbrev skip : ReleaseSkip
skip = record {
  id = 1;
  service_key = codes "app/web";
  basis = version;
  value = codes "5.3.0";
  scope = line;
  skipped_tag = codes "5.3.0";
  reason = [];
  created_at = codes "2024";
}

abbrev key : ReleaseKey
key = record { basis = version; value = codes "5.3.1"; line = codes "5.3" }

abbrev skips : Dict Text (List ReleaseSkip)
skips = (codes "app/web", skip ∷ []) ∷ []

abbrev later : ReleaseSkip
later = record {
  id = 2;
  service_key = codes "app/web";
  basis = version;
  value = codes "5.4.0";
  scope = line;
  skipped_tag = codes "5.4.0";
  reason = [];
  created_at = codes "2025";
}

by_service : skips_by_service (skip ∷ later ∷ []) ≡ (codes "app/web", later ∷ skip ∷ []) ∷ []
unfolding skips_by_service grouped newest_first insert_newest older text_leb
by_service = refl

skips_by_service_lem_example :
    Permᴰ
      (filter (is_of (codes "app/web")) (skip ∷ later ∷ []))
      (get_or (skips_by_service (skip ∷ later ∷ [])) (codes "app/web") [])
    × IsNewestFirst (get_or (skips_by_service (skip ∷ later ∷ [])) (codes "app/web") [])
    × ((a : ReleaseSkip)
        → filter (is_even a) (get_or (skips_by_service (skip ∷ later ∷ [])) (codes "app/web") [])
          ≡ filter (is_even a) (filter (is_of (codes "app/web")) (skip ∷ later ∷ [])))
skips_by_service_lem_example = skips_by_service_lem (skip ∷ later ∷ []) (codes "app/web")
