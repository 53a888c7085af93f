-- ===== src/Matching/Lines.antt =====
-- The status of a line of the update file, from the status of the stacks that its matches are in.
pub mod Laws
use wudup.Prelude.{
  ℕ, Text, text_eq, nat_eq, codes, Testable, ◌==◌, ◌≡◌, Bool, true, false, not, ◌&&◌, ◌||◌, Option,
  none, some, List, [], ◌∷◌, map, filter, any, contains, ltb, if◌then◌else◌,
}
use wudup.Prelude.Dict.{Dict, get_or}
use wudup.Prelude.Sorted.{sorted_set}
use wudup.WudFile.Target.{WudTarget}

-- The fields of a stack that are read here.
pub record ComposeStack : Type 0 where
  pub index : ℕ
  pub name : Text

pub record Match : Type 0 where
  pub stack : ComposeStack
  pub target : WudTarget
  pub resolved : Text
  pub compose_image : Text
  pub service : Text

pub record StackStatus : Type 0 where
  pub status : Text
  pub reason : Text

-- `stack_statuses.get(idx, StackStatus("failure", "missing"))`
unfoldable pub stack_status : Dict ℕ StackStatus → ℕ → StackStatus
stack_status statuses idx =
    get_or statuses idx (record { status = codes "failure"; reason = codes "missing" })

unfoldable pub is_success : StackStatus → Bool
is_success s = s.status == codes "success"

-- The statuses of the matches of a line.
unfoldable pub statuses_of : ℕ → List Match → Dict ℕ StackStatus → List StackStatus
statuses_of line_no [] statuses = []
statuses_of line_no (m ∷ ms) statuses =
    let rest = statuses_of line_no ms statuses in
    if m.target.line_no == line_no then stack_status statuses m.stack.index ∷ rest else rest

-- `any(... for idx in idxs)`, where `idxs` are the stacks of the matches of the line.
unfoldable pub line_failed : List Match → Dict ℕ StackStatus → ℕ → Bool
line_failed matches statuses line_no =
    any (λ s. not (is_success s)) (statuses_of line_no matches statuses)

unfoldable pub failed_line_numbers : List Match → Dict ℕ StackStatus → List ℕ
failed_line_numbers matches statuses =
    filter (line_failed matches statuses) (sorted_set (map (λ m. m.target.line_no) matches))

-- The loop, from the first match of the line that it has met.
failed_match_from : Option Match → ℕ → List Match → Dict ℕ StackStatus → Option Match
failed_match_from first line_no [] statuses = first
failed_match_from first line_no (m ∷ ms) statuses =
    let rest =
      failed_match_from
        (if not (m.target.line_no == line_no)
          then first
          else elim first [ none ↦ some m | some f ↦ some f ])
        line_no ms statuses in
    if not (m.target.line_no == line_no)
    then rest
    else if not (is_success (stack_status statuses m.stack.index))
    then some m
    else rest

unfoldable pub failed_match_for_line : ℕ → List Match → Dict ℕ StackStatus → Option Match
unfolding failed_match_from
failed_match_for_line line_no matches statuses = failed_match_from none line_no matches statuses

-- Python's order of texts.
unfoldable pub text_leb : Text → Text → Bool
text_leb [] t = true
text_leb (c ∷ s) [] = false
text_leb (c ∷ s) (d ∷ t) = let rest = text_leb s t in ltb c d || (c == d && rest)

-- `min` of a text and others
pub min_text : Text → List Text → Text
min_text a [] = a
min_text a (b ∷ bs) = min_text (if text_leb a b then a else b) bs

failure_reasons : List StackStatus → List Text
failure_reasons [] = []
failure_reasons (s ∷ ss) =
    let rest = failure_reasons ss in if not (is_success s) then s.reason ∷ rest else rest

-- The reason of a line none of whose stacks failed.
success_reason : List Text → Text
success_reason [] = codes "missing"
success_reason (r ∷ rs) =
    if contains (r ∷ rs) (codes "updated")
    then codes "updated"
    else if contains (r ∷ rs) (codes "already-current")
    then codes "already-current"
    else min_text r rs

pub reason_of : List Text → List StackStatus → Text
reason_of [] ss = success_reason (map (λ s. s.reason) ss)
reason_of (r ∷ rs) ss = min_text r rs

unfoldable pub line_status_reason : ℕ → List Match → Dict ℕ StackStatus → Text
unfolding reason_of failure_reasons success_reason min_text text_leb
line_status_reason line_no matches statuses =
    let ss = statuses_of line_no matches statuses in reason_of (failure_reasons ss) ss
