-- ===== src/WudFile/Parse.antt =====
-- The whole update file (`parse_wud_text` of src/wudup/wud_file.py).
pub mod Laws
use wudup.Prelude.{
  ℕ, zero, suc, ◌+◌, ◌-◌, ◌<◌, max, Text, codes, Bool, true, false, ◌&&◌, ◌||◌, not, Option, none,
  some, List, [], ◌∷◌, ◌++◌, ◌==◌, nat_eq, text_eq, ltb, contains, starts_with, length,
  if◌then◌else◌,
}
use wudup.Prelude.Unicode.{Unicode}
use wudup.Images.{trim}
use wudup.WudFile.Lines.{split_shell_lines}
use wudup.WudFile.Target.{WudTarget, Warning, parse_target}

pub record WudLine : Type 0 where
  pub line_no : ℕ
  pub actionable : Bool
  pub raw : Text

pub record ParsedWudFile : Type 0 where
  pub lines : List WudLine
  pub targets : List WudTarget
  pub warnings : List Warning

-- `selected is None or line_no in selected`
is_selected : Option (List ℕ) → ℕ → Bool
is_selected none line_no = true
is_selected (some lines) line_no = contains lines line_no

is_actionable : Text → Bool
is_actionable raw = not (trim raw == []) && not (starts_with (trim raw) (codes "#"))

line_of : ℕ → Text → WudLine
line_of line_no raw = record { line_no = line_no; actionable = is_actionable raw; raw = raw }

module _ (u : Unicode) where
  -- One round of the loop: a line, and its target and warnings if it is read.
  parse_line : Option (List ℕ) → ℕ → Text → ParsedWudFile → ParsedWudFile
  parse_line selected line_no raw rest =
      let (target, warnings) = parse_target u line_no raw (trim raw) in
      if is_actionable raw && is_selected selected line_no
      then record {
        lines = line_of line_no raw ∷ rest.lines;
        targets = target ∷ rest.targets;
        warnings = warnings ++ rest.warnings;
      }
      else record rest { lines = line_of line_no raw ∷ rest.lines }

  -- The loop over the lines, from the line number of the first.
  parse_lines : Option (List ℕ) → ℕ → List Text → ParsedWudFile
  parse_lines selected line_no [] = record { lines = []; targets = []; warnings = [] }
  parse_lines selected line_no (raw ∷ raws) =
      parse_line selected line_no raw (parse_lines selected (line_no + 1) raws)

  unfoldable pub parse_wud_text : Text → Option (List ℕ) → ParsedWudFile
  unfolding parse_lines parse_line line_of is_selected is_actionable
  parse_wud_text text selected = parse_lines selected 1 (split_shell_lines text)
