-- ===== src/Matching/Tests.antt =====
-- Runs of the matching on concrete matches.
use wudup.Prelude.{
  ℕ, text_eq, nat_eq, codes, ◌==◌, ◌≡◌, refl, true, false, none, List, [], ◌∷◌, any, contains,
}
use wudup.Prelude.Dict.{Dict}
use wudup.Prelude.Sorted.{IsAscending}
use wudup.WudFile.Target.{WudTarget}
use wudup.Matching.Unique.{match_key_eq}
use wudup.Matching.Lines.{
  Match, StackStatus, failed_line_numbers, line_status_reason, statuses_of, stack_status,
  is_success, line_failed, failed_match_for_line,
}
use wudup.Matching.Lines.Laws.{
  fails, failed_line_numbers_lem, failed_match_for_line_lem, find, or_else, IsReason,
  line_status_reason-failed,
}

abbrev target : ℕ → WudTarget
target n = record {
  line_no = n;
  raw = [];
  first = codes "nginx";
  key = codes "nginx";
  repo = codes "nginx";
  has_tag = false;
  allow_repo = true;
  digest = [];
  desired_tag = [];
  tag_token = [];
  platform = none;
}

abbrev match : ℕ → ℕ → Match
match stack line_no = record {
  stack = record { index = stack; name = codes "app" };
  target = target line_no;
  resolved = codes "nginx";
  compose_image = codes "nginx";
  service = codes "web";
}

abbrev matches : List Match
matches = match 1 4 ∷ match 2 4 ∷ match 1 2 ∷ match 1 4 ∷ []

abbrev statuses : Dict ℕ StackStatus
statuses =
    (1, record { status = codes "success"; reason = codes "updated" })
    ∷ (2, record { status = codes "failure"; reason = codes "pull-failed" })
    ∷ []

failed_four : failed_line_numbers matches statuses ≡ 4 ∷ []
unfolding failed_line_numbers line_failed statuses_of stack_status is_success
failed_four = refl

four_failed : contains (failed_line_numbers matches statuses) 4 ≡ true
four_failed = rw failed_four refl

two_passed : contains (failed_line_numbers matches statuses) 2 ≡ false
two_passed = rw failed_four refl

failed_line_numbers_lem_example :
    IsAscending (failed_line_numbers matches statuses)
    × (contains (failed_line_numbers matches statuses) 4 ≡ any (fails statuses 4) matches)
failed_line_numbers_lem_example = failed_line_numbers_lem matches statuses 4

failed_match_for_line_lem_example :
    failed_match_for_line 4 matches statuses
    ≡ or_else
        (find (fails statuses 4) matches)
        (find (λ (m : Match). m.target.line_no == 4) matches)
failed_match_for_line_lem_example = failed_match_for_line_lem 4 matches statuses

line_status_reason-failed_example :
    IsReason (statuses_of 4 matches statuses) (line_status_reason 4 matches statuses)
line_status_reason-failed_example = line_status_reason-failed 4 matches statuses four_failed
