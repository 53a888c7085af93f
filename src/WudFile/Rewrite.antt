-- ===== src/WudFile/Rewrite.antt =====
-- The removal of lines before a run and their return after a failure (`remove_lines_before_run` and
-- `restore_failed_lines` of src/wudup/wud_file.py), as rewrites of the file's text.
mod Counts
mod Shape
pub mod Remove
pub mod Restore
mod Tests
use wudup.Prelude.{
  ℕ, ◌+◌, ◌-◌, Text, Bool, true, false, not, List, [], ◌∷◌, ◌++◌, nat_eq, text_eq, ltb, contains,
  map, if◌then◌else◌, length,
}
use wudup.Prelude.Dict.{Dict, get_or, put}
use wudup.WudFile.Lines.{split_shell_lines, join_shell_lines}
use wudup.WudFile.Parse.{WudLine, ParsedWudFile}

-- The loop `count[raw] = count.get(raw, 0) + 1`.
pub tally : List Text → Dict Text ℕ → Dict Text ℕ
tally [] counts = counts
tally (raw ∷ raws) counts = tally raws (put counts raw (get_or counts raw 0 + 1))

pub raws_of : List WudLine → List Text
raws_of = map (λ line. line.raw)

-- The raw lines whose numbers are in the set, and those whose numbers are not.
pub chosen : List ℕ → List WudLine → List Text
chosen numbers [] = []
chosen numbers (line ∷ lines) =
    let rest = chosen numbers lines in
    if contains numbers line.line_no then line.raw ∷ rest else rest

pub preserved : List ℕ → List WudLine → List Text
preserved numbers [] = []
preserved numbers (line ∷ lines) =
    let rest = preserved numbers lines in
    if not (contains numbers line.line_no) then line.raw ∷ rest else rest

-- `max(count - original_count.get(raw, 0), 0)` for every counted line: the subtraction stops at 0.
pub extra_counts : Dict Text ℕ → Dict Text ℕ → Dict Text ℕ → Dict Text ℕ
extra_counts original [] extra = extra
extra_counts original ((raw, n) ∷ current) extra =
    extra_counts original current (put extra raw (n - get_or original raw 0))

-- The loop that appends the extra lines, and counts those that it has appended.
pub append_extras : Dict Text ℕ → List Text → Dict Text ℕ → List Text → List Text
append_extras extra [] seen result = result
append_extras extra (raw ∷ raws) seen result =
    let fresh = ltb (get_or seen raw 0) (get_or extra raw 0) in
    append_extras extra raws (if fresh then put seen raw (get_or seen raw 0 + 1) else seen)
      (if fresh then result ++ raw ∷ [] else result)

-- `transform` of `remove_lines_before_run`
pub remove_transform : List WudLine → List ℕ → List Text → List Text
remove_transform lines numbers current =
    append_extras (extra_counts (tally (raws_of lines) []) (tally current []) []) current []
      (preserved numbers lines)

-- The loop that appends what is missing of the needed lines.
pub append_needed : Dict Text ℕ → Dict Text ℕ → List Text → Dict Text ℕ → List Text → List Text
append_needed needed current [] restored result = result
append_needed needed current (raw ∷ raws) restored result =
    let missing = ltb (get_or current raw 0 + get_or restored raw 0) (get_or needed raw 0) in
    append_needed needed current raws
      (if missing then put restored raw (get_or restored raw 0 + 1) else restored)
      (if missing then result ++ raw ∷ [] else result)

-- `transform` of `restore_failed_lines`
pub restore_transform : List Text → List Text → List Text
restore_transform needed current =
    append_needed (tally needed []) (tally current []) needed [] current

-- `_rewrite_wud_file` on the text of the file, which the lock keeps others from writing meanwhile.
pub rewrite_wud_file : (List Text → List Text) → Text → Text
rewrite_wud_file transform text = join_shell_lines (transform (split_shell_lines text))

-- The new text, and whether the file was rewritten.
pub remove_lines_before_run : ParsedWudFile → List ℕ → Text → Text × Bool
remove_lines_before_run parsed [] text = (text, false)
remove_lines_before_run parsed (n ∷ numbers) text =
    (rewrite_wud_file (remove_transform parsed.lines (n ∷ numbers)) text, true)

restore_needed : List Text → Text → Text × Bool
restore_needed [] text = (text, false)
restore_needed (raw ∷ raws) text = (rewrite_wud_file (restore_transform (raw ∷ raws)) text, true)

pub restore_failed_lines : ParsedWudFile → List ℕ → Text → Text × Bool
unfolding restore_needed
restore_failed_lines parsed [] text = (text, false)
restore_failed_lines parsed (n ∷ numbers) text =
    restore_needed (chosen (n ∷ numbers) parsed.lines) text
