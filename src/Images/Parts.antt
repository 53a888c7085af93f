-- ===== src/Images/Parts.antt =====
-- A stripped reference is its repository reference and a tag, if it has one.
use wudup.Prelude.{
  ℕ, Text, Lacks, ◌≡◌, ◌≢◌, refl, sym, ap, subst, ◌∙◌, ◌⊎◌, inl, inr, true, false, [], ◌∷◌, ◌++◌,
  arith, nat_eq, All-left, All-append, All-right, all, append_assoc,
}
use wudup.Prelude.Cut.{
  contains-Lacks, contains_append_cons, rcut-Lacks, rcut-cases, rcut_cons, rsplit_last,
  rsplit_first_cons, rsplit_last_cons,
}
use wudup.Images.{drop_last_tag, repo_ref_part, tag_value_valid, is_tag_char}

-- A tag in the last segment, behind its last colon.
abbrev pub Tagged : Text → Text → Type 0
Tagged repo s = (t : Text) × (s ≡ repo ++ b':' ∷ t) × Lacks b':' t × Lacks b'/' t

drop_last_tag-Lacks : (last : Text) → Lacks b':' last → drop_last_tag last ≡ last
unfolding drop_last_tag
drop_last_tag-Lacks last l = rw (contains-Lacks b':' last l)

pub drop_last_tag_cons : (a b : Text) → Lacks b':' b → drop_last_tag (a ++ b':' ∷ b) ≡ a
unfolding drop_last_tag
drop_last_tag_cons a b l = rw (contains_append_cons b':' a b) (rsplit_first_cons b':' a b l)

drop_last_tag-cases :
    (last : Text)
    → Lacks b'/' last
    → ((drop_last_tag last ≡ last) × Lacks b':' last) ⊎ Tagged (drop_last_tag last) last
drop_last_tag-cases last slash = elim (rcut-cases b':' last) [
  | inl l ↦ inl (drop_last_tag-Lacks last l, l)
  | inr (a, b, e, l) ↦ inr (
    b,
    rw e (rw (drop_last_tag_cons a b l) refl),
    l,
    (All-right _ a (b':' ∷ b) (rw e at slash)).1,
  )
]

repo_ref_part-Lacks : (s : Text) → Lacks b'/' s → repo_ref_part s ≡ drop_last_tag s
unfolding repo_ref_part
repo_ref_part-Lacks s l = rw (rcut-Lacks b'/' s l, repo_ref_part)

repo_ref_part_cons :
    (a b : Text) → Lacks b'/' b → repo_ref_part (a ++ b'/' ∷ b) ≡ a ++ b'/' ∷ drop_last_tag b
unfolding repo_ref_part
repo_ref_part_cons a b l = rw (rcut_cons b'/' a b l, repo_ref_part)

pub repo_ref_part-cases :
    (s : Text)
    → ((repo_ref_part s ≡ s) × Lacks b':' (rsplit_last b'/' s)) ⊎ Tagged (repo_ref_part s) s
repo_ref_part-cases s = elim (rcut-cases b'/' s) [
  | inl l ↦
      rw (repo_ref_part-Lacks s l) (rw (rcut-Lacks b'/' s l, rsplit_last) (drop_last_tag-cases s l))
  | inr (a, b, e, l) ↦ rw e (
      rw (repo_ref_part_cons a b l) (
        rw (rsplit_last_cons b'/' a b l) (elim (drop_last_tag-cases b l) [
          | inl (same, n) ↦ inl (ap (λ r. a ++ b'/' ∷ r) same, n)
          | inr (t, split, colon, slash) ↦ inr (
            t,
            ap (λ r. a ++ b'/' ∷ r) split
                ∙ sym (append_assoc a (b'/' ∷ drop_last_tag b) (b':' ∷ t)),
            colon,
            slash,
          )
        ])))
]

-- A tag behind any text is the tag that is dropped.
pub repo_ref_part_append :
    (s t : Text) → Lacks b'/' t → Lacks b':' t → repo_ref_part (s ++ b':' ∷ t) ≡ s
repo_ref_part_append s t slash colon = elim (rcut-cases b'/' s) [
  | inl l ↦
      rw (repo_ref_part-Lacks (s ++ b':' ∷ t) (All-append _ s (b':' ∷ t) l (omega arith, slash)))
        (drop_last_tag_cons s t colon)
  | inr (a, b, e, l) ↦ rw e (
      rw (append_assoc a (b'/' ∷ b) (b':' ∷ t)) (
        rw (repo_ref_part_cons a (b ++ b':' ∷ t) (All-append _ b (b':' ∷ t) l (omega arith, slash)))
          (rw (drop_last_tag_cons b t colon))))
]

pub repo_ref_part-All : (d : ℕ) (s : Text) → Lacks d s → Lacks d (repo_ref_part s)
repo_ref_part-All d s h = elim (repo_ref_part-cases s) [
  | inl (same, _) ↦ rw same h
  | inr (t, split, _, _) ↦ All-left _ (repo_ref_part s) (b':' ∷ t) (subst (Lacks d) split h)
]

is_tag_char-ne : (c d : ℕ) → is_tag_char c ≡ true → is_tag_char d ≡ false → c ≢ d
is_tag_char-ne c d h k e = cc

all-Lacks : (d : ℕ) (s : Text) → is_tag_char d ≡ false → all is_tag_char s ≡ true → Lacks d s
all-Lacks d [] n h = tt
all-Lacks d (c ∷ s) n h = (is_tag_char-ne c d (ground arith) n, all-Lacks d s n (ground arith))

-- A valid tag holds none of the characters that end a repository reference.
pub tag_value_valid-Lacks :
    (d : ℕ) (tag : Text) → is_tag_char d ≡ false → tag_value_valid tag ≡ true → Lacks d tag
unfolding tag_value_valid
tag_value_valid-Lacks d [] n h = tt
tag_value_valid-Lacks d (c ∷ s) n h = all-Lacks d (c ∷ s) n (unfold is_tag_char in ground arith)
