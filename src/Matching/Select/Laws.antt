-- ===== src/Matching/Select/Laws.antt =====
-- Which match and which reason are selected.
use wudup.Prelude.{
  ℕ, text_eq, nat_eq, nat_beq_iff, ◌==◌, ◌≡◌, List, [], ◌∷◌, arith, Bool-cases, inl, inr,
}
use wudup.Prelude.Dict.{Dict, lookup, put, has_key, lookup-put, lookup-missing, lookup-present}
use wudup.Matching.Lines.{Match}
use wudup.Matching.Lines.Laws.{find, or_else}
use wudup.Matching.Select.{first_from, first_match_by_line}

lookup-first_from :
    (first : Dict ℕ Match) (ms : List Match) (n : ℕ)
    → lookup (first_from first ms) n
      ≡ or_else (lookup first n) (find (λ (m : Match). m.target.line_no == n) ms)
unfolding first_from find or_else
lookup-first_from first [] n = ground arith
lookup-first_from first (m ∷ ms) n = elim (Bool-cases (has_key first m.target.line_no)) [
  | inl t ↦ ground (
    arith,
    t,
    lookup-first_from first ms n,
    lookup-present first n,
    nat_beq_iff m.target.line_no n,
  )
  | inr f ↦ ground (
    arith,
    f,
    lookup-first_from (put first m.target.line_no m) ms n,
    lookup-put first m.target.line_no n m,
    lookup-missing first m.target.line_no,
    nat_beq_iff m.target.line_no n,
  )
]

-- The dictionary gives for each line its first match, and nothing for a line without one.
pub first_match_by_line_lem :
    (ms : List Match) (n : ℕ)
    → lookup (first_match_by_line ms) n ≡ find (λ (m : Match). m.target.line_no == n) ms
unfolding first_match_by_line or_else
first_match_by_line_lem ms n = lookup-first_from [] ms n
