-- ===== src/LineSpecs/Tests.antt =====
-- Runs of the line selections.
use wudup.Prelude.{
  ℕ, codes, ◌≡◌, refl, some, [], ◌∷◌, All, any, all, contains, nat_eq, text_eq, ◌==◌, ◌||◌, ◌&&◌,
  not,
}
use wudup.Prelude.Sorted.{IsAscending}
use wudup.LineSpecs.{
  parse_line_spec, accepted, rejected, empty_spec, invalid_value, below_one, descending,
  out_of_bounds, remove_spaces,
}
use wudup.LineSpecs.Numbers.{covers, accepts, InFile, is_ok}
use wudup.LineSpecs.Selected.{spec_parts, parse_line_spec_lem, parse_line_spec_IsOk}

selected : parse_line_spec (some (codes " 7, 3-5,4 ,")) 9 ≡ accepted (3 ∷ 4 ∷ 5 ∷ 7 ∷ [])
unfolding parse_line_spec
selected = refl

errors :
    (parse_line_spec (some (codes "1,,2")) 9 ≡ rejected invalid_value)
    × (parse_line_spec (some (codes " ")) 9 ≡ rejected empty_spec)
    × (parse_line_spec (some (codes "0-2")) 9 ≡ rejected below_one)
    × (parse_line_spec (some (codes "5-4")) 9 ≡ rejected descending)
    × (parse_line_spec (some (codes "2-10")) 9 ≡ rejected (out_of_bounds 10))
unfolding parse_line_spec
errors = (refl, refl, refl, refl, refl)

parse_line_spec_lem_example :
    IsAscending (3 ∷ 4 ∷ 5 ∷ 7 ∷ [])
    × All (InFile 9) (3 ∷ 4 ∷ 5 ∷ 7 ∷ [])
    × ((n : ℕ)
        → contains (3 ∷ 4 ∷ 5 ∷ 7 ∷ []) n
          ≡ any (λ part. covers part n) (spec_parts (codes " 7, 3-5,4 ,")))
parse_line_spec_lem_example =
    parse_line_spec_lem (codes " 7, 3-5,4 ,") 9 (3 ∷ 4 ∷ 5 ∷ 7 ∷ []) selected

parse_line_spec_IsOk_example : is_ok (parse_line_spec (some (codes "2-10")) 9) ≡ (
    codes "2-10" == []
    || not (remove_spaces (codes "2-10") == []) && all (accepts 9) (spec_parts (codes "2-10")))
parse_line_spec_IsOk_example = parse_line_spec_IsOk (codes "2-10") 9
