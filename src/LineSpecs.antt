-- ===== src/LineSpecs.antt =====
-- Line selections such as `1,3-5` (src/wudup/line_specs.py).
mod Numbers
mod Selected
mod Tests
use wudup.Prelude.{
  ℕ, suc, zero, ◌+◌, ◌-◌, ◌*◌, Text, codes, Bool, true, false, ◌&&◌, ◌||◌, not, Option, none, some,
  List, [], ◌∷◌, ◌++◌, ◌==◌, nat_eq, text_eq, ltb, leb, all, if◌then◌else◌,
}
use wudup.Prelude.Cut.{cut}
use wudup.Prelude.Split.{split_on}
use wudup.Prelude.Sorted.{sorted_set}

-- The messages of `LineSpecError`, without the label and the spec that each quotes.
pub data LineSpecError : Type 0 where
  empty_spec invalid_value below_one descending : LineSpecError
  out_of_bounds : ℕ → LineSpecError

pub data Outcome {ℓ} (A : Type ℓ) : Type ℓ where
  accepted : A → Outcome A
  rejected : LineSpecError → Outcome A

infixl 5 ◌>>=◌ ◌>>◌
abbrev pub ◌>>=◌ {ℓ κ} : {A : Type ℓ} {B : Type κ} → Outcome A → (A → Outcome B) → Outcome B
◌>>=◌ m f = elim m [ accepted a ↦ f a | rejected e ↦ rejected e ]

abbrev pub ◌>>◌ {ℓ κ} : {A : Type ℓ} {B : Type κ} → Outcome A → Outcome B → Outcome B
m >> k = m >>= λ _. k

-- `\s` in ASCII
is_space : ℕ → Bool
is_space c = c == 32 || leb 9 c && leb c 13

pub remove_spaces : Text → Text
remove_spaces [] = []
remove_spaces (c ∷ s) = let rest = remove_spaces s in if is_space c then rest else c ∷ rest

clean_line_spec : Option Text → Outcome (Option Text)
clean_line_spec none = accepted none
clean_line_spec (some spec) =
    if spec == []
    then accepted none
    else if remove_spaces spec == []
    then rejected empty_spec
    else accepted (some (remove_spaces spec))

-- A list without its last part, if that is empty.
drop_last_empty : List Text → List Text
drop_last_empty [] = []
drop_last_empty (p ∷ []) = if p == [] then [] else p ∷ []
drop_last_empty (p ∷ q ∷ ps) = p ∷ drop_last_empty (q ∷ ps)

pub line_spec_parts : Text → List Text
line_spec_parts cleaned = drop_last_empty (split_on b',' cleaned)

pub is_digit : ℕ → Bool
is_digit c = leb b'0' c && leb c b'9'

-- `\d+`, the whole text
pub is_number : Text → Bool
is_number [] = false
is_number (c ∷ s) = all is_digit (c ∷ s)

-- `int(text, 10)` behind the digits read so far
pub int_from : ℕ → Text → ℕ
int_from n [] = n
int_from n (c ∷ s) = int_from (n * 10 + (c - b'0')) s

check_line_number_bounds : ℕ → ℕ → Outcome (Unit {0})
check_line_number_bounds line_no max_lines =
    if ltb max_lines line_no then rejected (out_of_bounds line_no) else accepted tt

-- `range(start, start + count)`
range_from : ℕ → ℕ → List ℕ
range_from start zero = []
range_from start (suc count) = start ∷ range_from (start + 1) count

parse_line_range : Text → Text → ℕ → Outcome (List ℕ)
parse_line_range first last max_lines =
    let start = int_from 0 first in
    let end = int_from 0 last in
    if ltb start 1
    then rejected below_one
    else if ltb end start
    then rejected descending
    else do check_line_number_bounds end max_lines; accepted (range_from start (end + 1 - start))

parse_line_number : Text → ℕ → Outcome ℕ
parse_line_number part max_lines =
    let line_no = int_from 0 part in
    if ltb line_no 1
    then rejected below_one
    else do check_line_number_bounds line_no max_lines; accepted line_no

-- The groups of `_RANGE_RE`: a hyphen is no digit, so the first hyphen parts them.
range_match : Text → Option (Text × Text)
range_match part = elim (cut b'-' part) [
  | none ↦ none
  | some (first, last) ↦ if is_number first && is_number last then some (first, last) else none
]

parse_unranged : Text → ℕ → Outcome (List ℕ)
parse_unranged part max_lines =
    if is_number part
    then (do line_no ← parse_line_number part max_lines; accepted (line_no ∷ []))
    else rejected invalid_value

pub parse_line_spec_part : Text → ℕ → Outcome (List ℕ)
parse_line_spec_part part max_lines =
    if part == [] then rejected invalid_value else elim (range_match part) [
      | some (first, last) ↦ parse_line_range first last max_lines
      | none ↦ parse_unranged part max_lines
    ]

-- The loop of `parse_line_spec` over the parts: the numbers selected by all.
pub select : List Text → ℕ → Outcome (List ℕ)
select [] max_lines = accepted []
select (part ∷ parts) max_lines = do
  numbers ← parse_line_spec_part part max_lines
  rest ← select parts max_lines
  accepted (numbers ++ rest)

sorted_selection : Option Text → ℕ → Outcome (List ℕ)
sorted_selection none max_lines = accepted []
sorted_selection (some cleaned) max_lines = do
  selected ← select (line_spec_parts cleaned) max_lines
  accepted (sorted_set selected)

unfoldable pub parse_line_spec : Option Text → ℕ → Outcome (List ℕ)
unfolding clean_line_spec remove_spaces is_space sorted_selection select line_spec_parts
    drop_last_empty parse_line_spec_part range_match is_number is_digit parse_line_range int_from
    check_line_number_bounds range_from parse_line_number parse_unranged
parse_line_spec spec max_lines = do
  cleaned ← clean_line_spec spec
  sorted_selection cleaned max_lines
