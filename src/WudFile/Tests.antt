-- ===== src/WudFile/Tests.antt =====
-- Runs over a small update file, and the theorems at it.
use wudup.Prelude.{
  Text, codes, ◌≡◌, refl, none, some, [], ◌∷◌, ◌++◌, All, map, filter, text_eq, ◌==◌, ◌||◌,
  if◌then◌else◌,
}
use wudup.Prelude.Unicode.{ascii}
use wudup.WudFile.Lines.{
  split_shell_lines, join_shell_lines, ends_with_newline, join-split_shell_lines,
}
use wudup.WudFile.Target.{untagged_source, invalid_platform, parse_target}
use wudup.WudFile.Target.Laws.{IsWellFormed}
use wudup.WudFile.Parse.{parse_wud_text}
use wudup.WudFile.Parse.Laws.{
  numbered, is_read, target_line, source_line, parse_wud_text_lem, parse_wud_text-IsWellFormed,
}
use wudup.Images.{trim, tag_value_valid, image_has_tag, strip_digest}
use wudup.Platforms.{parse_platform}

abbrev file : Text
file = codes "# todo\nnginx:1.2 tag=1.3\n\nredis sha256=ab\n"

lines_read :
    split_shell_lines file
    ≡ codes "# todo" ∷ codes "nginx:1.2 tag=1.3" ∷ [] ∷ codes "redis sha256=ab" ∷ []
unfolding split_shell_lines
lines_read = refl

desired :
    (parse_target ascii 2 (codes "nginx:1.2 tag=1.3") (codes "nginx:1.2 tag=1.3")).0.desired_tag
    ≡ codes "1.3"
unfolding parse_target trim tag_value_valid image_has_tag strip_digest
desired = refl

warnings :
    (parse_target ascii 5 [] (codes "nginx tag=1.3 platform=linux")).1
    ≡ untagged_source 5 (codes "nginx") ∷ invalid_platform 5 (codes "linux") ∷ []
unfolding parse_target trim tag_value_valid image_has_tag strip_digest parse_platform
warnings = refl

read_lines :
    map target_line (parse_wud_text ascii file (some (2 ∷ 3 ∷ []))).targets
    ≡ (2, codes "nginx:1.2 tag=1.3") ∷ []
unfolding parse_wud_text target_line parse_target trim split_shell_lines
read_lines = refl

join-split_shell_lines_example :
    join_shell_lines (split_shell_lines file)
    ≡ (if file == [] || ends_with_newline file then file else file ++ b'\n' ∷ [])
join-split_shell_lines_example = join-split_shell_lines file

parse_wud_text_lem_example :
    ((parse_wud_text ascii file (some (2 ∷ []))).lines ≡ numbered 1 (split_shell_lines file))
    × (map target_line (parse_wud_text ascii file (some (2 ∷ []))).targets
        ≡ map source_line
            (filter (is_read (some (2 ∷ []))) (parse_wud_text ascii file (some (2 ∷ []))).lines))
parse_wud_text_lem_example = parse_wud_text_lem ascii (some (2 ∷ [])) file

parse_wud_text-IsWellFormed_example :
    All (IsWellFormed ascii) (parse_wud_text ascii file none).targets
parse_wud_text-IsWellFormed_example = parse_wud_text-IsWellFormed ascii none file
