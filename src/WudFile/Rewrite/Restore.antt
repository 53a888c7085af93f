-- ===== src/WudFile/Rewrite/Restore.antt =====
-- What the return of failed lines leaves in the update file.
use wudup.Prelude.{
  ℕ, max, Text, Lacks, ◌≡◌, refl, ap, ◌⊎◌, List, [], ◌∷◌, ◌++◌, arith, nat_eq, text_eq, count, All,
  Option,
}
use wudup.Prelude.Unicode.{Unicode}
use wudup.WudFile.Lines.{split_shell_lines, split-join_shell_lines, split_shell_lines-Lacks}
use wudup.WudFile.Parse.{WudLine}
use wudup.WudFile.Rewrite.{
  append_needed, restore_transform, preserved, chosen, tally, remove_lines_before_run,
  restore_failed_lines, restore_needed, rewrite_wud_file,
}
use wudup.WudFile.Rewrite.Counts.{count-append_needed, get_or-tally}
use wudup.WudFile.Rewrite.Shape.{
  append_needed-append, append_needed-All, chosen-All, count-chosen-preserved,
}
use wudup.WudFile.Rewrite.Remove.{
  parsed, parsed-Lacks, raws_of-parsed, remove_lines_before_run_unchanged,
}

count-restore_transform :
    (needed current : List Text) (a : Text)
    → count a (restore_transform needed current) ≡ max (count a current) (count a needed)
unfolding restore_transform
count-restore_transform needed current a = omega (
  arith,
  count-append_needed a (tally needed []) (tally current []) needed [] current,
  get_or-tally a needed [],
  get_or-tally a current [],
)

chosen-nil : (lines : List WudLine) → chosen [] lines ≡ []
unfolding chosen
chosen-nil [] = refl
chosen-nil (line ∷ lines) = chosen-nil lines

split-restore_needed :
    (needed : List Text) (current : Text)
    → All (Lacks b'\n') needed
    → split_shell_lines (restore_needed needed current).0
      ≡ restore_transform needed (split_shell_lines current)
unfolding restore_needed restore_transform
split-restore_needed [] current h = unfold append_needed in refl
split-restore_needed (raw ∷ raws) current h =
    unfold rewrite_wud_file in
    split-join_shell_lines (restore_transform (raw ∷ raws) (split_shell_lines current)) (
      append_needed-All (Lacks b'\n') (tally (raw ∷ raws) []) _ (raw ∷ raws) []
        (split_shell_lines current) h (split_shell_lines-Lacks current))

module _ (u : Unicode) (selected : Option (List ℕ)) (text : Text) where
  split-restore :
      (failed : List ℕ) (current : Text)
      → split_shell_lines (restore_failed_lines (parsed u selected text) failed current).0
        ≡ restore_transform
            (chosen failed (parsed u selected text).lines)
            (split_shell_lines current)
  unfolding restore_failed_lines
  split-restore [] current =
      rw (chosen-nil (parsed u selected text).lines)
        (unfold restore_transform append_needed in refl)
  split-restore (n ∷ failed) current =
      split-restore_needed (chosen (n ∷ failed) (parsed u selected text).lines) current (
        chosen-All (Lacks b'\n') (n ∷ failed) (parsed u selected text).lines
          (parsed-Lacks u selected text))

  -- A return keeps the lines of the file in front, and brings each line up to the number of failed
  -- lines that read the same.
  pub restore_failed_lines_lem :
      (failed : List ℕ) (current : Text)
      → ((suffix : List Text) × (split_shell_lines
              (restore_failed_lines (parsed u selected text) failed current).0
            ≡ split_shell_lines current ++ suffix))
        × ((a : Text)
            → count a
                (split_shell_lines (restore_failed_lines (parsed u selected text) failed current).0)
              ≡ max
                  (count a (split_shell_lines current))
                  (count a (chosen failed (parsed u selected text).lines)))
  restore_failed_lines_lem failed current = rw (split-restore failed current) (
    (unfold restore_transform in
        append_needed-append _ _ (chosen failed (parsed u selected text).lines) []
          (split_shell_lines current)),
    count-restore_transform (chosen failed (parsed u selected text).lines)
        (split_shell_lines current),
  )

  -- If all the lines that were removed come back, then a line that was not both kept and removed
  -- stands in the file as often as at first.
  pub restore-remove :
      (n : ℕ) (numbers : List ℕ) (a : Text)
      → (count a (preserved (n ∷ numbers) (parsed u selected text).lines) ≡ 0)
        ⊎ (count a (chosen (n ∷ numbers) (parsed u selected text).lines) ≡ 0)
      → count a (
          split_shell_lines
            (restore_failed_lines
              (parsed u selected text)
              (n ∷ numbers)
              (remove_lines_before_run (parsed u selected text) (n ∷ numbers) text).0).0)
        ≡ count a (split_shell_lines text)
  restore-remove n numbers a apart =
      let lines = (parsed u selected text).lines in
      let removed = (remove_lines_before_run (parsed u selected text) (n ∷ numbers) text).0 in
      omega (
        arith,
        (restore_failed_lines_lem (n ∷ numbers) removed).1 a,
        ap (count a) (remove_lines_before_run_unchanged u selected text n numbers),
        count-chosen-preserved (n ∷ numbers) lines a,
        ap (count a) (raws_of-parsed u selected text),
      )
