-- ===== src/LineSpecs/Selected.antt =====
-- What an accepted selection returns, and which selections are accepted.
use wudup.Prelude.{
  ℕ, Text, ◌≡◌, refl, sym, ◌∙◌, inl, inr, ◌≢◌, true, false, ◌&&◌, ◌||◌, not, some, List, [], ◌∷◌,
  ◌++◌, arith, nat_eq, text_eq, ◌==◌, All, All-append, all, any, contains, contains-append,
  Bool-cases,
}
use wudup.Prelude.Sorted.{
  sorted_set, IsAscending, sorted_set-IsAscending, sorted_set-All, sorted_set-contains,
}
use wudup.LineSpecs.{
  Outcome, accepted, rejected, ◌>>=◌, parse_line_spec, select, parse_line_spec_part,
  line_spec_parts, remove_spaces,
}
use wudup.LineSpecs.Numbers.{
  covers, accepts, InFile, IsSelection, is_ok, part_IsOk, part_IsSelection,
}

-- The parts of a selection, its spaces removed.
pub spec_parts : Text → List Text
spec_parts spec = line_spec_parts (remove_spaces spec)

bind_ok {ℓ κ} :
    {A : Type ℓ} {B : Type κ} (m : Outcome A) (f : A → Outcome B) (b : B)
    → (m >>= f) ≡ accepted b
    → (a : A) × (m ≡ accepted a) × (f a ≡ accepted b)
bind_ok (accepted a) f b h = (a, refl, h)
bind_ok (rejected e) f b h = cc

select-IsSelection :
    (parts : List Text) (max_lines : ℕ) (numbers : List ℕ)
    → select parts max_lines ≡ accepted numbers
    → IsSelection max_lines (λ n. any (λ part. covers part n) parts) numbers
unfolding select
select-IsSelection [] max_lines numbers h = ground arith
select-IsSelection (part ∷ parts) max_lines numbers h =
    let (first, e, h') = bind_ok (parse_line_spec_part part max_lines) _ numbers h in
    let (rest, e', h'') = bind_ok (select parts max_lines) _ numbers h' in
    let (in_first, of_first) = part_IsSelection part max_lines first e in
    let (in_rest, of_rest) = select-IsSelection parts max_lines rest e' in
    let same : first ++ rest ≡ numbers = cc h'' in
    rw (← same) (
      All-append _ first rest in_first in_rest,
      λ n. ground (arith, contains-append first rest n, of_first n, of_rest n),
    )

-- Which of the parts are accepted.
select_IsOk :
    (parts : List Text) (max_lines : ℕ)
    → is_ok (select parts max_lines) ≡ all (accepts max_lines) parts
unfolding select
select_IsOk [] max_lines = refl
select_IsOk (part ∷ parts) max_lines =
    ground (arith, part_IsOk part max_lines, select_IsOk parts max_lines)

parse_nonempty :
    (c : ℕ) (s : Text) (max_lines : ℕ)
    → (remove_spaces (c ∷ s) == []) ≡ false
    → parse_line_spec (some (c ∷ s)) max_lines
      ≡ (do selected ← select (spec_parts (c ∷ s)) max_lines; accepted (sorted_set selected))
unfolding parse_line_spec spec_parts
parse_nonempty c s max_lines f = ground (arith, f)

parse_spaces :
    (c : ℕ) (s : Text) (max_lines : ℕ) (numbers : List ℕ)
    → (remove_spaces (c ∷ s) == []) ≡ true
    → parse_line_spec (some (c ∷ s)) max_lines ≢ accepted numbers
unfolding parse_line_spec
parse_spaces c s max_lines numbers t = ground (arith, t)

-- The result ascends strictly and stays within the file, and it holds exactly the numbers that a
-- part of the selection denotes.
pub parse_line_spec_lem :
    (spec : Text) (max_lines : ℕ) (numbers : List ℕ)
    → parse_line_spec (some spec) max_lines ≡ accepted numbers
    → IsAscending numbers
      × All (InFile max_lines) numbers
      × ((n : ℕ) → contains numbers n ≡ any (λ part. covers part n) (spec_parts spec))
parse_line_spec_lem [] max_lines numbers h = unfold parse_line_spec spec_parts in ground (arith, h)
parse_line_spec_lem (c ∷ s) max_lines numbers h = elim (Bool-cases (remove_spaces (c ∷ s) == [])) [
  | inl t ↦ absurd (parse_spaces c s max_lines numbers t h)
  | inr f ↦
      let (selected, e, same) =
        bind_ok (select (spec_parts (c ∷ s)) max_lines) _ numbers
          (sym (parse_nonempty c s max_lines f) ∙ h) in
      let (inside, member) = select-IsSelection (spec_parts (c ∷ s)) max_lines selected e in
      let eq : sorted_set selected ≡ numbers = cc same in
      rw (← eq) (
        sorted_set-IsAscending selected,
        sorted_set-All (InFile max_lines) selected inside,
        λ n. sorted_set-contains selected n ∙ member n,
      )
]

-- A selection is accepted exactly if it is empty, or is more than spaces and each of its parts is
-- well formed, ascends and stays within the file.
pub parse_line_spec_IsOk :
    (spec : Text) (max_lines : ℕ)
    → is_ok (parse_line_spec (some spec) max_lines)
      ≡ (spec == [] || not (remove_spaces spec == []) && all (accepts max_lines) (spec_parts spec))
unfolding parse_line_spec spec_parts
parse_line_spec_IsOk spec max_lines = ground (arith, select_IsOk (spec_parts spec) max_lines)
