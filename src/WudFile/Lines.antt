-- ===== src/WudFile/Lines.antt =====
-- The lines of the update file: `_split_shell_lines` and `_join_shell_lines` of
-- src/wudup/wud_file.py.
use mathlib.Core.List.{cons-ne-nil, concat-ne-nil}
use wudup.Prelude.{
  true, ◌||◌, ◌≡◌, ◌≢◌, refl, ap, ◌∙◌, All, Lacks, arith, Bool-cases, beq_ne, inl, inr, Text, Bool,
  false, List, [], ◌∷◌, ◌++◌, ◌==◌, nat_eq, text_eq, if◌then◌else◌,
}
use wudup.Prelude.Split.{
  split_on-All, split_on, join, join-split_on, split_on-join, split_on-append_cons, split_on-ne-nil,
}

-- `text.endswith("\n")`
pub ends_with_newline : Text → Bool
ends_with_newline [] = false
ends_with_newline (c ∷ []) = c == b'\n'
ends_with_newline (c ∷ d ∷ s) = ends_with_newline (d ∷ s)

-- `lines.pop()`
drop_last : List Text → List Text
drop_last [] = []
drop_last (p ∷ []) = []
drop_last (p ∷ q ∷ ps) = p ∷ drop_last (q ∷ ps)

unfoldable pub split_shell_lines : Text → List Text
unfolding ends_with_newline drop_last
split_shell_lines text =
    if text == []
    then []
    else if ends_with_newline text
    then drop_last (split_on b'\n' text)
    else split_on b'\n' text

unfoldable pub join_shell_lines : List Text → Text
join_shell_lines [] = []
join_shell_lines (p ∷ ps) = join b'\n' (p ∷ ps) ++ b'\n' ∷ []

drop_last_snoc : (ps : List Text) (q : Text) → drop_last (ps ++ q ∷ []) ≡ ps
unfolding drop_last
drop_last_snoc [] q = refl
drop_last_snoc (p ∷ []) q = refl
drop_last_snoc (p ∷ r ∷ ps) q = ap (λ t. p ∷ t) (drop_last_snoc (r ∷ ps) q)

ends_with_newline_snoc : (s : Text) → ends_with_newline (s ++ b'\n' ∷ []) ≡ true
unfolding ends_with_newline
ends_with_newline_snoc [] = refl
ends_with_newline_snoc (c ∷ []) = refl
ends_with_newline_snoc (c ∷ d ∷ s) = ends_with_newline_snoc (d ∷ s)

ends_with_newline_split :
    (text : Text) → ends_with_newline text ≡ true → (s : Text) × (text ≡ s ++ b'\n' ∷ [])
unfolding ends_with_newline
ends_with_newline_split [] h = cc
ends_with_newline_split (c ∷ []) h = ([], ground arith)
ends_with_newline_split (c ∷ d ∷ s) h =
    let (r, e) = ends_with_newline_split (d ∷ s) h in (c ∷ r, ap (λ t. c ∷ t) e)

split_snoc : (s : Text) → split_shell_lines (s ++ b'\n' ∷ []) ≡ split_on b'\n' s
unfolding split_shell_lines
split_snoc s =
    rw (beq_ne (concat-ne-nil b'\n' s), ends_with_newline_snoc s, split_on-append_cons b'\n' s [])
      (drop_last_snoc (split_on b'\n' s) [])

join_nonempty : (ps : List Text) → ps ≢ [] → join_shell_lines ps ≡ join b'\n' ps ++ b'\n' ∷ []
unfolding join_shell_lines
join_nonempty [] h = absurd (h refl)
join_nonempty (p ∷ ps) h = refl

-- Lines that are written and read again are the same lines, if none holds a newline.
pub split-join_shell_lines :
    (ps : List Text) → All (Lacks b'\n') ps → split_shell_lines (join_shell_lines ps) ≡ ps
split-join_shell_lines [] h = unfold split_shell_lines join_shell_lines in refl
split-join_shell_lines (p ∷ ps) h =
    rw (join_nonempty (p ∷ ps) (cons-ne-nil p ps))
      (split_snoc (join b'\n' (p ∷ ps)) ∙ split_on-join b'\n' (p ∷ ps) (cons-ne-nil p ps) h)

-- Reading a text and writing its lines gives the text back, with a newline at its end.
pub join-split_shell_lines :
    (text : Text)
    → join_shell_lines (split_shell_lines text)
      ≡ (if text == [] || ends_with_newline text then text else text ++ b'\n' ∷ [])
join-split_shell_lines [] = unfold split_shell_lines join_shell_lines in refl
join-split_shell_lines (c ∷ s) = elim (Bool-cases (ends_with_newline (c ∷ s))) [
  | inl t ↦ rw t (written (c ∷ s) t)
  | inr f ↦ rw f (
      unfold split_shell_lines in
      rw f (
        join_nonempty (split_on b'\n' (c ∷ s)) (split_on-ne-nil b'\n' (c ∷ s))
        ∙ ap (λ r. r ++ b'\n' ∷ []) (join-split_on b'\n' (c ∷ s))))
]
  where
    written :
        (text : Text)
        → ends_with_newline text ≡ true
        → join_shell_lines (split_shell_lines text) ≡ text
    written text t =
        let (r, e) = ends_with_newline_split text t in
        rw e (
          rw (split_snoc r) (
            join_nonempty (split_on b'\n' r) (split_on-ne-nil b'\n' r)
            ∙ ap (λ q. q ++ b'\n' ∷ []) (join-split_on b'\n' r)))

-- No line holds a newline.
pub split_shell_lines-Lacks : (text : Text) → All (Lacks b'\n') (split_shell_lines text)
split_shell_lines-Lacks [] = unfold split_shell_lines in tt
split_shell_lines-Lacks (c ∷ s) = elim (Bool-cases (ends_with_newline (c ∷ s))) [
  | inl t ↦
      let (r, e) = ends_with_newline_split (c ∷ s) t in
      rw e (rw (split_snoc r) (split_on-All b'\n' r))
  | inr f ↦ unfold split_shell_lines in rw f (split_on-All b'\n' (c ∷ s))
]
