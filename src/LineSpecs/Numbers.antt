-- ===== src/LineSpecs/Numbers.antt =====
-- What one part of a selection denotes, and what its parser returns.
use wudup.Prelude.{
  ℕ, zero, suc, ◌+◌, ◌-◌, ◌≤◌, Text, ◌≡◌, refl, sym, ◌∙◌, inl, inr, Bool, true, false, ◌&&◌, none,
  some, List, [], ◌∷◌, arith, nat_eq, text_eq, ◌==◌, leb, ltb, All, contains, Option-cases,
}
use wudup.LineSpecs.{
  Outcome, accepted, rejected, range_match, parse_line_range, parse_line_number,
  parse_line_spec_part, parse_unranged, is_number, int_from, check_line_number_bounds, range_from,
}

-- The numbers that a part denotes.
pub covers : Text → ℕ → Bool
covers part n = elim (range_match part) [
  | none ↦ int_from 0 part == n
  | some (first, last) ↦ leb (int_from 0 first) n && leb n (int_from 0 last)
]

in_bounds : ℕ → ℕ → ℕ → Bool
in_bounds start end max_lines = leb 1 start && leb start end && leb end max_lines

-- The parts that are well formed, ascend and stay within the file.
pub accepts : ℕ → Text → Bool
accepts max_lines part = elim (range_match part) [
  | none ↦ is_number part && in_bounds (int_from 0 part) (int_from 0 part) max_lines
  | some (first, last) ↦ in_bounds (int_from 0 first) (int_from 0 last) max_lines
]

abbrev pub InFile : ℕ → ℕ → Type 0
InFile max_lines n = (1 ≤ n) × (n ≤ max_lines)

abbrev pub is_ok {ℓ} : {A : Type ℓ} → Outcome A → Bool
is_ok (accepted a) = true
is_ok (rejected e) = false

contains-range_from :
    (start count n : ℕ)
    → contains (range_from start count) n ≡ (leb start n && ltb n (start + count))
unfolding range_from
contains-range_from start zero n = ground arith
contains-range_from start (suc count) n = ground (arith, contains-range_from (start + 1) count n)

range_from-All :
    (start count max_lines : ℕ)
    → 1 ≤ start
    → start + count ≤ max_lines + 1
    → All (InFile max_lines) (range_from start count)
unfolding range_from
range_from-All start zero max_lines h k = tt
range_from-All start (suc count) max_lines h k =
    ((h, omega arith), range_from-All (start + 1) count max_lines (omega arith) (omega arith))

range_IsOk :
    (first last : Text) (max_lines : ℕ)
    → is_ok (parse_line_range first last max_lines)
      ≡ in_bounds (int_from 0 first) (int_from 0 last) max_lines
unfolding parse_line_range in_bounds check_line_number_bounds
range_IsOk first last max_lines = ground arith

number_IsOk :
    (part : Text) (max_lines : ℕ)
    → is_ok (parse_unranged part max_lines)
      ≡ (is_number part && in_bounds (int_from 0 part) (int_from 0 part) max_lines)
unfolding parse_unranged parse_line_number in_bounds check_line_number_bounds
number_IsOk part max_lines = ground arith

-- A part is accepted exactly if it is well formed, ascends and stays within the file.
pub part_IsOk :
    (part : Text) (max_lines : ℕ)
    → is_ok (parse_line_spec_part part max_lines) ≡ accepts max_lines part
unfolding parse_line_spec_part accepts
part_IsOk [] max_lines = unfold range_match is_number in refl
part_IsOk (c ∷ s) max_lines = elim (Option-cases (range_match (c ∷ s))) [
  | inl e ↦ rw (e, parse_line_spec_part, accepts) (number_IsOk (c ∷ s) max_lines)
  | inr ((first, last), e) ↦ rw (e, parse_line_spec_part, accepts) (range_IsOk first last max_lines)
]

-- The numbers lie within the file, and are those that are covered.
abbrev pub IsSelection : ℕ → (ℕ → Bool) → List ℕ → Type 0
IsSelection max_lines covered numbers =
    All (InFile max_lines) numbers × ((n : ℕ) → contains numbers n ≡ covered n)

range_ok :
    (first last : Text) (max_lines : ℕ) (numbers : List ℕ)
    → parse_line_range first last max_lines ≡ accepted numbers
    → (numbers ≡ range_from (int_from 0 first) (int_from 0 last + 1 - int_from 0 first))
      × (1 ≤ int_from 0 first)
      × (int_from 0 first ≤ int_from 0 last)
      × (int_from 0 last ≤ max_lines)
unfolding parse_line_range check_line_number_bounds
range_ok first last max_lines numbers h = ground arith

range_IsSelection :
    (first last : Text) (max_lines : ℕ) (numbers : List ℕ)
    → parse_line_range first last max_lines ≡ accepted numbers
    → IsSelection max_lines (λ n. leb (int_from 0 first) n && leb n (int_from 0 last)) numbers
range_IsSelection first last max_lines numbers h =
    let start = int_from 0 first in
    let end = int_from 0 last in
    let (e, low, asc, high) = range_ok first last max_lines numbers h in
    rw e (
      range_from-All start (end + 1 - start) max_lines low (omega arith),
      λ n. ground (arith, contains-range_from start (end + 1 - start) n),
    )

number_ok :
    (part : Text) (max_lines : ℕ) (numbers : List ℕ)
    → parse_unranged part max_lines ≡ accepted numbers
    → (numbers ≡ int_from 0 part ∷ []) × InFile max_lines (int_from 0 part)
unfolding parse_unranged parse_line_number check_line_number_bounds
number_ok part max_lines numbers h = ground arith

number_IsSelection :
    (part : Text) (max_lines : ℕ) (numbers : List ℕ)
    → parse_unranged part max_lines ≡ accepted numbers
    → IsSelection max_lines (λ n. int_from 0 part == n) numbers
number_IsSelection part max_lines numbers h =
    let (e, inside) = number_ok part max_lines numbers h in rw e ((inside, tt), λ n. ground arith)

covers_unranged :
    (part : Text) (n : ℕ) → range_match part ≡ none → covers part n ≡ (int_from 0 part == n)
unfolding covers
covers_unranged part n e = rw (e, covers)

covers_ranged :
    (part : Text) (n : ℕ) (first last : Text)
    → range_match part ≡ some (first, last)
    → covers part n ≡ (leb (int_from 0 first) n && leb n (int_from 0 last))
unfolding covers
covers_ranged part n first last e = rw (e, covers)

part_unranged :
    (c : ℕ) (s : Text) (max_lines : ℕ)
    → range_match (c ∷ s) ≡ none
    → parse_line_spec_part (c ∷ s) max_lines ≡ parse_unranged (c ∷ s) max_lines
unfolding parse_line_spec_part
part_unranged c s max_lines e = rw (e, parse_line_spec_part)

part_ranged :
    (c : ℕ) (s : Text) (max_lines : ℕ) (first last : Text)
    → range_match (c ∷ s) ≡ some (first, last)
    → parse_line_spec_part (c ∷ s) max_lines ≡ parse_line_range first last max_lines
unfolding parse_line_spec_part
part_ranged c s max_lines first last e = rw (e, parse_line_spec_part)

-- The numbers of an accepted part are those that it denotes, and lie within the file.
pub part_IsSelection :
    (part : Text) (max_lines : ℕ) (numbers : List ℕ)
    → parse_line_spec_part part max_lines ≡ accepted numbers
    → IsSelection max_lines (covers part) numbers
part_IsSelection [] max_lines numbers h = absurd (unfold parse_line_spec_part in cc h)
part_IsSelection (c ∷ s) max_lines numbers h = elim (Option-cases (range_match (c ∷ s))) [
  | inl e ↦
      let (inside, member) =
        number_IsSelection (c ∷ s) max_lines numbers (sym (part_unranged c s max_lines e) ∙ h) in
      (inside, λ n. member n ∙ sym (covers_unranged (c ∷ s) n e))
  | inr ((first, last), e) ↦
      let (inside, member) =
        range_IsSelection first last max_lines numbers
          (sym (part_ranged c s max_lines first last e) ∙ h) in
      (inside, λ n. member n ∙ sym (covers_ranged (c ∷ s) n first last e))
]
