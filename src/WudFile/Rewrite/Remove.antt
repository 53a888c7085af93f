-- ===== src/WudFile/Rewrite/Remove.antt =====
-- What a removal leaves in the update file, whatever was written to it since it was parsed.
use wudup.Prelude.{
  append-nil, append-nil, ℕ, ◌+◌, ◌-◌, Text, Lacks, ◌≡◌, sym, ap, ◌∙◌, List, [], ◌∷◌, ◌++◌, arith,
  nat_eq, text_eq, count, count-append, All, map, Option,
}
use wudup.Prelude.Unicode.{Unicode}
use wudup.WudFile.Lines.{split_shell_lines, split-join_shell_lines, split_shell_lines-Lacks}
use wudup.WudFile.Parse.{WudLine, ParsedWudFile, parse_wud_text}
use wudup.WudFile.Parse.Laws.{parse_wud_text_lem, map-raw-numbered}
use wudup.WudFile.Rewrite.{
  remove_transform, preserved, raws_of, tally, extra_counts, remove_lines_before_run,
  rewrite_wud_file,
}
use wudup.WudFile.Rewrite.Counts.{count-append_extras, get_or-extra}
use wudup.WudFile.Rewrite.Shape.{
  append_extras-append, append_extras-All, preserved-All, nil_of_count,
}

-- The preserved lines stay in front, and a line stands behind them as often as it stands more often
-- in the file than it was parsed.
pub count-remove_transform :
    (lines : List WudLine) (numbers : List ℕ) (current : List Text) (a : Text)
    → count a (remove_transform lines numbers current)
      ≡ count a (preserved numbers lines) + (count a current - count a (raws_of lines))
unfolding remove_transform
count-remove_transform lines numbers current a = omega (
  arith,
  count-append_extras a (extra_counts (tally (raws_of lines) []) (tally current []) []) current []
      (preserved numbers lines),
  get_or-extra a (raws_of lines) current,
)

pub remove_transform-append :
    (lines : List WudLine) (numbers : List ℕ) (current : List Text)
    → (suffix : List Text) × (remove_transform lines numbers current
        ≡ preserved numbers lines ++ suffix)
unfolding remove_transform
remove_transform-append lines numbers current =
    append_extras-append _ current [] (preserved numbers lines)

-- On a file that is as it was parsed the removal takes out the lines of the set, and nothing else.
pub remove_transform_unchanged :
    (lines : List WudLine) (numbers : List ℕ)
    → remove_transform lines numbers (raws_of lines) ≡ preserved numbers lines
remove_transform_unchanged lines numbers =
    let (suffix, e) = remove_transform-append lines numbers (raws_of lines) in
    e
    ∙ ap (λ s. preserved numbers lines ++ s)
        (nil_of_count suffix (λ a. omega (
          arith,
          count-remove_transform lines numbers (raws_of lines) a,
          ap (count a) e,
          count-append a (preserved numbers lines) suffix,
        )))
    ∙ append-nil (preserved numbers lines)

module _ (u : Unicode) (selected : Option (List ℕ)) (text : Text) where
  abbrev pub parsed : ParsedWudFile
  parsed = parse_wud_text u text selected

  pub raws_of-parsed : raws_of parsed.lines ≡ split_shell_lines text
  unfolding raws_of
  raws_of-parsed =
      ap (map (λ line. line.raw)) (parse_wud_text_lem u selected text).0
      ∙ map-raw-numbered 1 (split_shell_lines text)

  pub parsed-Lacks : All (Lacks b'\n') (raws_of parsed.lines)
  parsed-Lacks = rw raws_of-parsed (split_shell_lines-Lacks text)

  split-remove :
      (n : ℕ) (numbers : List ℕ) (current : Text)
      → split_shell_lines (remove_lines_before_run parsed (n ∷ numbers) current).0
        ≡ remove_transform parsed.lines (n ∷ numbers) (split_shell_lines current)
  unfolding remove_lines_before_run rewrite_wud_file
  split-remove n numbers current =
      split-join_shell_lines
        (remove_transform parsed.lines (n ∷ numbers) (split_shell_lines current))
        (unfold remove_transform in
          append_extras-All (Lacks b'\n') _ (split_shell_lines current) []
            (preserved (n ∷ numbers) parsed.lines) (split_shell_lines-Lacks current)
            (preserved-All (Lacks b'\n') (n ∷ numbers) parsed.lines parsed-Lacks))

  -- After a removal a line stands in the file as often as it was preserved, and once more for each
  -- time that it was added to the file since the parse.
  pub remove_lines_before_run-count :
      (n : ℕ) (numbers : List ℕ) (current a : Text)
      → count a (split_shell_lines (remove_lines_before_run parsed (n ∷ numbers) current).0)
        ≡ count a (preserved (n ∷ numbers) parsed.lines)
          + (count a (split_shell_lines current) - count a (split_shell_lines text))
  remove_lines_before_run-count n numbers current a =
      ap (count a) (split-remove n numbers current)
      ∙ count-remove_transform parsed.lines (n ∷ numbers) (split_shell_lines current) a
      ∙ ap
          (λ raws.
            count a (preserved (n ∷ numbers) parsed.lines)
            + (count a (split_shell_lines current) - count a raws))
          raws_of-parsed

  -- Where the file has not changed, a removal takes out the lines of the set, and leaves the others
  -- in their order.
  pub remove_lines_before_run_unchanged :
      (n : ℕ) (numbers : List ℕ)
      → split_shell_lines (remove_lines_before_run parsed (n ∷ numbers) text).0
        ≡ preserved (n ∷ numbers) parsed.lines
  remove_lines_before_run_unchanged n numbers =
      split-remove n numbers text
      ∙ ap (remove_transform parsed.lines (n ∷ numbers)) (sym raws_of-parsed)
      ∙ remove_transform_unchanged parsed.lines (n ∷ numbers)
