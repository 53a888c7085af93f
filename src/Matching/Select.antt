-- ===== src/Matching/Select.antt =====
-- What is selected from the matches for the plan and the report.
pub mod Laws
use wudup.Prelude.{
  ℕ, Text, text_eq, nat_eq, codes, Testable, ◌==◌, ◌≡◌, Bool, true, false, not, ◌++◌, ◌&&◌, ◌||◌,
  filter, Option, none, some, List, [], ◌∷◌, map, filter, contains, if◌then◌else◌,
}
use wudup.Prelude.Dict.{Dict, lookup, put, has_key}
use wudup.Prelude.Sorted.{sorted_set}
use wudup.Images.{image_with_tag}
use wudup.Matching.Lines.{Match, ComposeStack}
use wudup.Matching.Unique.{ordered_unique}

-- `first.setdefault(match.target.line_no, match)` for each match
first_from : Dict ℕ Match → List Match → Dict ℕ Match
first_from first [] = first
first_from first (m ∷ ms) =
    first_from (if has_key first m.target.line_no then first else put first m.target.line_no m) ms

pub first_match_by_line : List Match → Dict ℕ Match
first_match_by_line ms = first_from [] ms

-- `stacks[match.stack.index] = match.stack` for each match
stacks_from : Dict ℕ ComposeStack → List Match → Dict ℕ ComposeStack
stacks_from stacks [] = stacks
stacks_from stacks (m ∷ ms) = stacks_from (put stacks m.stack.index m.stack) ms

keys : Dict ℕ ComposeStack → List ℕ
keys [] = []
keys ((k, v) ∷ d) = k ∷ keys d

pub stacks_at : Dict ℕ ComposeStack → List ℕ → List ComposeStack
stacks_at stacks [] = []
stacks_at stacks (i ∷ is) =
    let rest = stacks_at stacks is in elim (lookup stacks i) [ none ↦ rest | some s ↦ s ∷ rest ]

pub stacks_to_update : List Match → List ComposeStack
stacks_to_update ms = let stacks = stacks_from [] ms in stacks_at stacks (sorted_set (keys stacks))

pub record FailureRecord : Type 0 where
  pub stack : ComposeStack
  pub reason : Text

reasons_of : ℕ → List FailureRecord → List Text
reasons_of stack_index [] = []
reasons_of stack_index (f ∷ failures) =
    let rest = reasons_of stack_index failures in
    if f.stack.index == stack_index then f.reason ∷ rest else rest

-- The reason for the number of different reasons.
preflight_reason : List Text → Text
preflight_reason [] = codes "missing"
preflight_reason (r ∷ []) = r
preflight_reason (r ∷ s ∷ rs) = codes "preflight-failed"

pub preflight_status_reason : ℕ → List FailureRecord → Text
preflight_status_reason stack_index failures =
    preflight_reason (ordered_unique (reasons_of stack_index failures))

service_key_part : Match → Text
service_key_part m = if not (m.service == []) then m.service else m.compose_image

pub service_key : Match → Text
service_key m = m.stack.name ++ b'/' ∷ service_key_part m

pub target_image_for_match : Match → Text
target_image_for_match m =
    if not (m.target.desired_tag == [])
    then image_with_tag m.compose_image m.target.desired_tag
    else m.resolved

-- The fields of an exclusion that are read here.
pub record TagExclusionUpdate : Type 0 where
  pub stack : ComposeStack
  pub service : Text
  pub source_line : ℕ

-- `(match.stack.index, match.service, match.target.line_no) in keys`
is_excluded : List TagExclusionUpdate → Match → Bool
is_excluded [] m = false
is_excluded (x ∷ updates) m =
    x.stack.index == m.stack.index && x.service == m.service && x.source_line == m.target.line_no
    || is_excluded updates m

pub tag_exclusion_preflight_matches : List Match → List TagExclusionUpdate → List Match
tag_exclusion_preflight_matches ms updates = filter (is_excluded updates) ms
