-- ===== src/WudFile/Rewrite/Tests.antt =====
-- Runs of a removal and a return, and the theorems at a small update file.
use wudup.Prelude.{
  ◌+◌, ◌-◌, max, Text, codes, ◌≡◌, inl, refl, none, List, [], ◌∷◌, ◌++◌, count, text_eq,
}
use wudup.Prelude.Unicode.{ascii}
use wudup.WudFile.Lines.{split_shell_lines, join_shell_lines}
use wudup.WudFile.Target.{parse_target}
use wudup.WudFile.Parse.{parse_wud_text}
use wudup.WudFile.Rewrite.{
  remove_lines_before_run, restore_failed_lines, rewrite_wud_file, remove_transform,
  restore_transform, tally, raws_of, preserved, chosen, extra_counts, append_extras, append_needed,
}
use wudup.WudFile.Rewrite.Remove.{
  parsed, remove_lines_before_run-count, remove_lines_before_run_unchanged,
}
use wudup.WudFile.Rewrite.Restore.{restore_failed_lines_lem, restore-remove}
use wudup.Images.{trim}

abbrev file : Text
file = codes "# todo\nnginx:1.2 tag=1.3\n\nredis sha256=ab\n"

abbrev duplicates : Text
duplicates = codes "app:1\napp:1\n"

removed :
    (remove_lines_before_run (parsed ascii none file) (2 ∷ []) file).0
    ≡ codes "# todo\n\nredis sha256=ab\n"
unfolding remove_lines_before_run restore_failed_lines rewrite_wud_file remove_transform
    restore_transform tally raws_of preserved chosen extra_counts append_extras append_needed
    parse_wud_text parse_target trim split_shell_lines join_shell_lines
removed = refl

remove_lines_before_run-count_example :
    count (codes "app:2") (
      split_shell_lines
        (remove_lines_before_run
          (parsed ascii none file)
          (2 ∷ [])
          (codes "app:2\nredis sha256=ab\n")).0)
    ≡ count (codes "app:2") (preserved (2 ∷ []) (parsed ascii none file).lines)
      + (count (codes "app:2") (split_shell_lines (codes "app:2\nredis sha256=ab\n"))
          - count (codes "app:2") (split_shell_lines file))
remove_lines_before_run-count_example =
    remove_lines_before_run-count ascii none file 2 [] (codes "app:2\nredis sha256=ab\n")
      (codes "app:2")

remove_lines_before_run_unchanged_example :
    split_shell_lines (remove_lines_before_run (parsed ascii none file) (2 ∷ []) file).0
    ≡ preserved (2 ∷ []) (parsed ascii none file).lines
remove_lines_before_run_unchanged_example = remove_lines_before_run_unchanged ascii none file 2 []

restore_failed_lines_lem_example :
    ((suffix : List Text) × (split_shell_lines
          (restore_failed_lines (parsed ascii none file) (2 ∷ []) (codes "app:2\n")).0
        ≡ split_shell_lines (codes "app:2\n") ++ suffix))
    × ((a : Text)
        → count a (
            split_shell_lines
              (restore_failed_lines (parsed ascii none file) (2 ∷ []) (codes "app:2\n")).0)
          ≡ max
              (count a (split_shell_lines (codes "app:2\n")))
              (count a (chosen (2 ∷ []) (parsed ascii none file).lines)))
restore_failed_lines_lem_example =
    restore_failed_lines_lem ascii none file (2 ∷ []) (codes "app:2\n")

none_kept :
    count (codes "nginx:1.2 tag=1.3") (preserved (2 ∷ []) (parsed ascii none file).lines) ≡ 0
unfolding remove_lines_before_run restore_failed_lines rewrite_wud_file remove_transform
    restore_transform tally raws_of preserved chosen extra_counts append_extras append_needed
    parse_wud_text parse_target trim split_shell_lines join_shell_lines
none_kept = refl

restore-remove_example :
    count (codes "nginx:1.2 tag=1.3") (
      split_shell_lines
        (restore_failed_lines
          (parsed ascii none file)
          (2 ∷ [])
          (remove_lines_before_run (parsed ascii none file) (2 ∷ []) file).0).0)
    ≡ count (codes "nginx:1.2 tag=1.3") (split_shell_lines file)
restore-remove_example =
    restore-remove ascii none file 2 [] (codes "nginx:1.2 tag=1.3") (inl none_kept)

-- Of two equal lines one is kept and one removed: the removed one does not come back.
duplicate_lost :
    (restore_failed_lines
      (parsed ascii none duplicates)
      (1 ∷ [])
      (remove_lines_before_run (parsed ascii none duplicates) (1 ∷ []) duplicates).0).0
    ≡ codes "app:1\n"
unfolding remove_lines_before_run restore_failed_lines rewrite_wud_file remove_transform
    restore_transform tally raws_of preserved chosen extra_counts append_extras append_needed
    parse_wud_text parse_target trim split_shell_lines join_shell_lines
duplicate_lost = refl
