-- ===== src/WudFile/Parse/Laws.antt =====
-- What the parse of a whole file returns.
use wudup.Prelude.{
  arith, ℕ, ◌+◌, Text, ◌≡◌, refl, ap, inl, inr, Bool, ◌&&◌, Option, List, [], ◌∷◌, All, filter, map,
  Bool-cases,
}
use wudup.Prelude.Unicode.{Unicode}
use wudup.Images.{trim}
use wudup.WudFile.Lines.{split_shell_lines}
use wudup.WudFile.Target.{WudTarget, parse_target}
use wudup.WudFile.Target.Laws.{IsWellFormed, parse_target-IsWellFormed}
use wudup.WudFile.Parse.{
  WudLine, parse_wud_text, parse_lines, parse_line, line_of, is_actionable, is_selected,
}

-- The lines in order, numbered from `line_no`.
pub numbered : ℕ → List Text → List WudLine
numbered line_no [] = []
numbered line_no (raw ∷ raws) = line_of line_no raw ∷ numbered (line_no + 1) raws

pub map-raw-numbered : (n : ℕ) (raws : List Text) → map (λ line. line.raw) (numbered n raws) ≡ raws
unfolding numbered line_of
map-raw-numbered n [] = refl
map-raw-numbered n (raw ∷ raws) = ap (λ r. raw ∷ r) (map-raw-numbered (n + 1) raws)

-- A line that is read: it is actionable, and selected if there is a selection.
pub is_read : Option (List ℕ) → WudLine → Bool
is_read selected line = line.actionable && is_selected selected line.line_no

unfoldable pub target_line : WudTarget → ℕ × Text
target_line t = (t.line_no, t.raw)

pub source_line : WudLine → ℕ × Text
source_line l = (l.line_no, l.raw)

module _ (u : Unicode) (selected : Option (List ℕ)) where
  parse_lines-numbered :
      (line_no : ℕ) (raws : List Text)
      → (parse_lines u selected line_no raws).lines ≡ numbered line_no raws
  unfolding parse_lines parse_line numbered
  parse_lines-numbered line_no [] = refl
  parse_lines-numbered line_no (raw ∷ raws) =
      ground (arith, parse_lines-numbered (line_no + 1) raws)

  parse_lines-targets :
      (line_no : ℕ) (raws : List Text)
      → map target_line (parse_lines u selected line_no raws).targets
        ≡ map source_line (filter (is_read selected) (numbered line_no raws))
  unfolding parse_lines parse_line numbered is_read line_of target_line source_line parse_target
  parse_lines-targets line_no [] = refl
  parse_lines-targets line_no (raw ∷ raws) =
      elim (Bool-cases (is_actionable raw && is_selected selected line_no)) [
        | inl t ↦ rw t (ap (λ r. (line_no, raw) ∷ r) (parse_lines-targets (line_no + 1) raws))
        | inr f ↦ rw f (parse_lines-targets (line_no + 1) raws)
      ]

  parse_lines-IsWellFormed :
      (line_no : ℕ) (raws : List Text)
      → All (IsWellFormed u) (parse_lines u selected line_no raws).targets
  unfolding parse_lines parse_line
  parse_lines-IsWellFormed line_no [] = tt
  parse_lines-IsWellFormed line_no (raw ∷ raws) =
      elim (Bool-cases (is_actionable raw && is_selected selected line_no)) [
        | inl t ↦ rw t (
          parse_target-IsWellFormed u line_no raw (trim raw),
          parse_lines-IsWellFormed (line_no + 1) raws,
        )
        | inr f ↦ rw f (parse_lines-IsWellFormed (line_no + 1) raws)
      ]

  -- The parse keeps every line under its number, and reads a target from exactly the lines that are
  -- actionable and selected, in their order.
  pub parse_wud_text_lem :
      (text : Text)
      → ((parse_wud_text u text selected).lines ≡ numbered 1 (split_shell_lines text))
        × (map target_line (parse_wud_text u text selected).targets
            ≡ map source_line (filter (is_read selected) (parse_wud_text u text selected).lines))
  parse_wud_text_lem text =
      let raws = split_shell_lines text in
      unfold parse_wud_text in
      (parse_lines-numbered 1 raws, rw (parse_lines-numbered 1 raws) (parse_lines-targets 1 raws))

  -- Every target of a parsed file is well formed.
  pub parse_wud_text-IsWellFormed :
      (text : Text) → All (IsWellFormed u) (parse_wud_text u text selected).targets
  parse_wud_text-IsWellFormed text =
      unfold parse_wud_text in parse_lines-IsWellFormed 1 (split_shell_lines text)
