-- ===== src/Matching/Lines/Laws.antt =====
-- Failed lines, the match that is reported for them, and the reason.
use wudup.Prelude.{
  length, ◌∙◌, sym, ap, ◌≢◌, beq_refl, ◌<◌, ℕ, ◌||◌, Text, text_eq, nat_eq, ◌==◌, ◌≡◌, refl, inl,
  inr, Bool, true, false, not, ◌&&◌, Option, none, some, List, [], ◌∷◌, map, filter, any, all,
  contains, arith, if◌then◌else◌, All, Bool-cases,
}
use wudup.Prelude.Dict.{Dict}
use wudup.Prelude.Sorted.{sorted_set, IsAscending, sorted_set-IsAscending, sorted_set-contains}
use wudup.Matching.Lines.{
  line_status_reason, success_reason, reason_of, failure_reasons, Match, StackStatus, stack_status,
  is_success, statuses_of, line_failed, failed_line_numbers, failed_match_from,
  failed_match_for_line, text_leb, min_text,
}

filter-All : (P : ℕ → Type 0) (p : ℕ → Bool) (xs : List ℕ) → All P xs → All P (filter p xs)
filter-All P p [] h = tt
filter-All P p (x ∷ xs) (hx, h) = ground (arith, filter-All P p xs h)

filter-IsAscending : (p : ℕ → Bool) (xs : List ℕ) → IsAscending xs → IsAscending (filter p xs)
filter-IsAscending p [] h = tt
filter-IsAscending p (x ∷ xs) (hx, h) =
    ground (arith, filter-IsAscending p xs h, filter-All (λ y. x < y) p xs hx)

contains-filter :
    (p : ℕ → Bool) (xs : List ℕ) (n : ℕ) → contains (filter p xs) n ≡ (contains xs n && p n)
contains-filter p [] n = refl
contains-filter p (x ∷ xs) n = elim (Bool-cases (x == n)) [
  | inl t ↦ let e : x ≡ n = ground (arith, t) in rw e (ground (arith, contains-filter p xs n))
  | inr f ↦ ground (arith, f, contains-filter p xs n)
]

-- A match of the line, whose stack did not succeed.
pub fails : Dict ℕ StackStatus → ℕ → Match → Bool
fails statuses line_no m =
    m.target.line_no == line_no && not (is_success (stack_status statuses m.stack.index))

line_failed-fails :
    (ms : List Match) (statuses : Dict ℕ StackStatus) (n : ℕ)
    → line_failed ms statuses n ≡ any (fails statuses n) ms
unfolding line_failed statuses_of fails
line_failed-fails [] statuses n = refl
line_failed-fails (m ∷ ms) statuses n = ground (arith, line_failed-fails ms statuses n)

fails-line :
    (ms : List Match) (statuses : Dict ℕ StackStatus) (n : ℕ)
    → any (fails statuses n) ms ≡ true
    → contains (map (λ (m : Match). m.target.line_no) ms) n ≡ true
unfolding fails
fails-line [] statuses n h = cc
fails-line (m ∷ ms) statuses n h = ground (arith, fails-line ms statuses n)

-- The failed lines are strictly ascending, and a line is one of them exactly if one of its matches is
-- in a stack that did not succeed.
pub failed_line_numbers_lem :
    (ms : List Match) (statuses : Dict ℕ StackStatus) (n : ℕ)
    → IsAscending (failed_line_numbers ms statuses)
      × (contains (failed_line_numbers ms statuses) n ≡ any (fails statuses n) ms)
unfolding failed_line_numbers
failed_line_numbers_lem ms statuses n =
    let lines = map (λ (m : Match). m.target.line_no) ms in
    (
      filter-IsAscending (line_failed ms statuses) (sorted_set lines)
          (sorted_set-IsAscending lines),
      ground (
        arith,
        contains-filter (line_failed ms statuses) (sorted_set lines) n,
        sorted_set-contains lines n,
        line_failed-fails ms statuses n,
        fails-line ms statuses n,
      ),
    )

-- The first match with a property.
unfoldable pub find : (Match → Bool) → List Match → Option Match
find p [] = none
find p (m ∷ ms) = if p m then some m else find p ms

unfoldable pub or_else : Option Match → Option Match → Option Match
or_else none other = other
or_else (some m) other = some m

failed_match_from_lem :
    (first : Option Match) (n : ℕ) (ms : List Match) (statuses : Dict ℕ StackStatus)
    → failed_match_from first n ms statuses
      ≡ or_else
          (find (fails statuses n) ms)
          (or_else first (find (λ (m : Match). m.target.line_no == n) ms))
unfolding failed_match_from fails find or_else
failed_match_from_lem none n [] statuses = refl
failed_match_from_lem (some f) n [] statuses = refl
failed_match_from_lem none n (x ∷ ms) statuses =
    ground (
      arith,
      failed_match_from_lem none n ms statuses,
      failed_match_from_lem (some x) n ms statuses,
    )
failed_match_from_lem (some f) n (x ∷ ms) statuses =
    ground (arith, failed_match_from_lem (some f) n ms statuses)

-- The match that is reported for a line is its first match in a stack that did not succeed, and where
-- there is none its first match.
pub failed_match_for_line_lem :
    (n : ℕ) (ms : List Match) (statuses : Dict ℕ StackStatus)
    → failed_match_for_line n ms statuses
      ≡ or_else (find (fails statuses n) ms) (find (λ (m : Match). m.target.line_no == n) ms)
unfolding failed_match_for_line or_else
failed_match_for_line_lem n ms statuses = failed_match_from_lem none n ms statuses

pub text_leb_refl : (s : Text) → text_leb s s ≡ true
unfolding text_leb
text_leb_refl [] = refl
text_leb_refl (c ∷ s) = ground (arith, text_leb_refl s)

pub text_leb_total : (s t : Text) → text_leb s t ≡ false → text_leb t s ≡ true
unfolding text_leb
text_leb_total [] t h = cc
text_leb_total (c ∷ s) [] h = refl
text_leb_total (c ∷ s) (d ∷ t) h = ground (arith, text_leb_total s t)

pub text_leb_trans :
    (s t r : Text) → text_leb s t ≡ true → text_leb t r ≡ true → text_leb s r ≡ true
unfolding text_leb
text_leb_trans [] t r h g = refl
text_leb_trans (c ∷ s) [] r h g = cc
text_leb_trans (c ∷ s) (d ∷ t) [] h g = cc
text_leb_trans (c ∷ s) (d ∷ t) (e ∷ r) h g = ground (arith, text_leb_trans s t r)

-- `min` is one of the texts, and none is before it.
min_text_least :
    (a : Text) (bs : List Text)
    → (contains (a ∷ bs) (min_text a bs) ≡ true) × (all (text_leb (min_text a bs)) (a ∷ bs) ≡ true)
unfolding min_text
min_text_least a [] = ground (arith, text_leb_refl a, beq_refl a)
min_text_least a (b ∷ bs) = ground (
  arith,
  min_text_least a bs,
  min_text_least b bs,
  text_leb_total a b,
  text_leb_trans (min_text a bs) a b,
  text_leb_trans (min_text b bs) b a,
)

contains-failure_reasons :
    (ss : List StackStatus) (r : Text)
    → contains (failure_reasons ss) r ≡ any (λ s. not (is_success s) && s.reason == r) ss
unfolding failure_reasons
contains-failure_reasons [] r = refl
contains-failure_reasons (s ∷ ss) r = ground (arith, contains-failure_reasons ss r)

all-failure_reasons :
    (ss : List StackStatus) (r : Text)
    → all (text_leb r) (failure_reasons ss) ≡ all (λ s. is_success s || text_leb r s.reason) ss
unfolding failure_reasons
all-failure_reasons [] r = refl
all-failure_reasons (s ∷ ss) r = ground (arith, all-failure_reasons ss r)

failure_reasons-empty :
    (ss : List StackStatus)
    → failure_reasons ss ≡ []
    → any (λ (s : StackStatus). not (is_success s)) ss ≡ false
unfolding failure_reasons
failure_reasons-empty [] h = refl
failure_reasons-empty (s ∷ ss) h = ground (arith, failure_reasons-empty ss)

failure_reasons-cons :
    (ss : List StackStatus) (r : Text) (rs : List Text)
    → failure_reasons ss ≡ r ∷ rs
    → any (λ (s : StackStatus). not (is_success s)) ss ≡ true
unfolding failure_reasons
failure_reasons-cons [] r rs h = cc
failure_reasons-cons (s ∷ ss) r rs h = ground (arith, failure_reasons-cons ss r rs)

-- The statuses of a failed line give its reason: it is the reason of one that is no success, and the
-- reason of no such one is before it.
pub IsReason : List StackStatus → Text → Type 0
IsReason ss r =
    (any (λ s. not (is_success s) && s.reason == r) ss ≡ true)
    × (all (λ s. is_success s || text_leb r s.reason) ss ≡ true)

reason_of-IsReason :
    (ss : List StackStatus) (rs : List Text)
    → failure_reasons ss ≡ rs
    → any (λ (s : StackStatus). not (is_success s)) ss ≡ true
    → IsReason ss (reason_of rs ss)
unfolding IsReason reason_of
reason_of-IsReason ss [] e h = ground (arith, failure_reasons-empty ss e)
reason_of-IsReason ss (r ∷ rs) e h =
    let (member, least) = min_text_least r rs in
    (
      sym (contains-failure_reasons ss (min_text r rs))
          ∙ ap (λ l. contains l (min_text r rs)) e
          ∙ member,
      sym (all-failure_reasons ss (min_text r rs)) ∙ ap (all (text_leb (min_text r rs))) e ∙ least,
    )

line_failed-any :
    (n : ℕ) (ms : List Match) (statuses : Dict ℕ StackStatus)
    → line_failed ms statuses n
      ≡ any (λ (s : StackStatus). not (is_success s)) (statuses_of n ms statuses)
unfolding line_failed
line_failed-any n ms statuses = refl

-- The reason of a failed line is the least reason of the stacks of its matches that did not succeed.
pub line_status_reason-failed :
    (n : ℕ) (ms : List Match) (statuses : Dict ℕ StackStatus)
    → contains (failed_line_numbers ms statuses) n ≡ true
    → IsReason (statuses_of n ms statuses) (line_status_reason n ms statuses)
unfolding line_status_reason
line_status_reason-failed n ms statuses h =
    let ss = statuses_of n ms statuses in
    reason_of-IsReason ss (failure_reasons ss) refl (
      sym (line_failed-any n ms statuses)
      ∙ line_failed-fails ms statuses n
      ∙ sym (failed_line_numbers_lem ms statuses n).1
      ∙ h)

contains-success_reason :
    (r : Text) (rs : List Text) → contains (r ∷ rs) (success_reason (r ∷ rs)) ≡ true
unfolding success_reason
contains-success_reason r rs = ground (arith, min_text_least r rs)

contains-reason_of :
    (ss : List StackStatus) (rs : List Text)
    → failure_reasons ss ≡ rs
    → any (λ (s : StackStatus). not (is_success s)) ss ≡ false
    → ss ≢ []
    → contains (map (λ (s : StackStatus). s.reason) ss) (reason_of rs ss) ≡ true
unfolding reason_of
contains-reason_of [] [] e h ne = absurd (ne refl)
contains-reason_of (s ∷ ss) [] e h ne =
    contains-success_reason s.reason (map (λ (s : StackStatus). s.reason) ss)
contains-reason_of ss (r ∷ rs) e h ne = ground (arith, failure_reasons-cons ss r rs e)

statuses_of-ne :
    (n : ℕ) (ms : List Match) (statuses : Dict ℕ StackStatus)
    → contains (map (λ (m : Match). m.target.line_no) ms) n ≡ true
    → statuses_of n ms statuses ≢ []
unfolding statuses_of
statuses_of-ne n [] statuses h e = ground arith
statuses_of-ne n (m ∷ ms) statuses h e =
    ground (arith, statuses_of-ne n ms statuses, ap (length {0}) e)

-- The reason of a line that has a match and did not fail is the reason of one of its matches' stacks.
pub line_status_reason-passed :
    (n : ℕ) (ms : List Match) (statuses : Dict ℕ StackStatus)
    → contains (failed_line_numbers ms statuses) n ≡ false
    → contains (map (λ (m : Match). m.target.line_no) ms) n ≡ true
    → contains
        (map (λ (s : StackStatus). s.reason) (statuses_of n ms statuses))
        (line_status_reason n ms statuses)
      ≡ true
unfolding line_status_reason
line_status_reason-passed n ms statuses h line =
    let ss = statuses_of n ms statuses in
    contains-reason_of ss (failure_reasons ss) refl
      (sym (line_failed-any n ms statuses)
        ∙ line_failed-fails ms statuses n
        ∙ sym (failed_line_numbers_lem ms statuses n).1
        ∙ h)
      (statuses_of-ne n ms statuses line)
