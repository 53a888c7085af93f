-- ===== src/Lsio/Laws.antt =====
-- The parts of a tag make up the tag.
use wudup.Prelude.{
  arith, if◌then◌else◌, ◌⊎◌, ℕ, Text, text_eq, nat_eq, ◌==◌, ◌≡◌, ◌≢◌, refl, sym, ap, subst, ◌∙◌,
  inl, inr, ◌&&◌, Option, none, some, List, [], ◌∷◌, ◌++◌, append_assoc, arith, Bool-cases,
}
use wudup.Prelude.Split.{join-split_on, join}
use wudup.Lsio.{
  split_marker, version, split_on, not, unmarked_parts, unknown, false, marked_parts, on_branch,
  true, pseudo_semver, strip, LsioTagParts, build_parts, Bool, plain_parts, is_arch, build,
  parts_from, split_arch, parse_lsio_tag, Unicode, starts_with_version, found_behind, with_before,
  is_build, find_build, split_version,
}

found_behind-append :
    (c : ℕ) (s : Text) (o : Option (Text × Text)) (body suffix : Text)
    → ((b : Text) → o ≡ some (b, suffix) → s ≡ b ++ b'-' ∷ suffix)
    → found_behind c o ≡ some (body, suffix)
    → c ∷ s ≡ body ++ b'-' ∷ suffix
found_behind-append c s none body suffix k h = cc
found_behind-append c s (some (b, x)) body suffix k h =
    let p : c ∷ b ≡ body = cc in
    let q : some (b, x) ≡ some (b, suffix) = cc in rw⁻¹ p (ap (λ r. c ∷ r) (k b q))

-- The match of the search and the text before it make up the text.
find_build-append :
    (s body suffix : Text) → find_build s ≡ some (body, suffix) → s ≡ body ++ b'-' ∷ suffix
unfolding find_build
find_build-append [] body suffix h = cc
find_build-append (c ∷ s) body suffix h = elim (Bool-cases (c == b'-' && is_build s)) [
  | inl t ↦
      let e : ◌≡◌ {A = Option (Text × Text)} (some ([], s)) (some (body, suffix)) =
        sym (rw t refl) ∙ h in
      let b : ◌≡◌ {A = Text} [] body = cc in
      let x : s ≡ suffix = cc in let d : c ≡ b'-' = ground arith in cc
  | inr f ↦
      found_behind-append c s (find_build s) body suffix (λ b. find_build-append s b suffix)
        (sym (rw f refl) ∙ h)
]

-- A label before the rest, with its dash.
abbrev pub labelled : Text → Text → Text
labelled [] rest = rest
labelled (c ∷ s) rest = (c ∷ s) ++ b'-' ∷ rest

join-append :
    (c : ℕ) (xs ys : List Text) → xs ≢ [] → ys ≢ [] → join c (xs ++ ys) ≡ join c xs ++ c ∷ join c ys
join-append c [] ys h k = absurd (h refl)
join-append c (x ∷ []) [] h k = absurd (k refl)
join-append c (x ∷ []) (y ∷ ys) h k = refl
join-append c (x ∷ z ∷ xs) ys h k =
    rw (join-append c (z ∷ xs) ys (λ e. cc) k)
      (sym (append_assoc x (c ∷ join c (z ∷ xs)) (c ∷ join c ys)))

with_before-append :
    (token : Text) (tokens : List Text) (o : Option (List Text × List Text))
    (before after : List Text)
    → ((b : List Text) → o ≡ some (b, after) → (tokens ≡ b ++ after) × (after ≢ []))
    → with_before token o ≡ some (before, after)
    → (token ∷ tokens ≡ before ++ after) × (after ≢ [])
with_before-append token tokens none before after k h = cc
with_before-append token tokens (some (b, x)) before after k h =
    let p : token ∷ b ≡ before = cc in
    let q : some (b, x) ≡ some (b, after) = cc in
    let r = k b q in (rw⁻¹ p (ap (λ ts. token ∷ ts) r.0), r.1)

split_version-append :
    (tokens before after : List Text)
    → split_version tokens ≡ some (before, after)
    → (tokens ≡ before ++ after) × (after ≢ [])
unfolding split_version
split_version-append [] before after h = cc
split_version-append (token ∷ tokens) before after h =
    elim (Bool-cases (starts_with_version token)) [
      | inl t ↦
          let e : ◌≡◌ {A = Option (List Text × List Text)} (some ([], token ∷ tokens))
              (some (before, after)) =
            sym (rw t refl) ∙ h in
          let b : ◌≡◌ {A = List Text} [] before = cc in
          let x : token ∷ tokens ≡ after = cc in (rw⁻¹ b x, λ n. cc)
      | inr f ↦
          with_before-append token tokens (split_version tokens) before after
            (λ b. split_version-append tokens b after) (sym (rw f refl) ∙ h)
    ]

-- What stands between the branch and the version: nothing where there is no branch, else a dash.
abbrev pub IsDash : Text → Text → Type 0
IsDash branch dash = ((dash ≡ []) × (branch ≡ [])) ⊎ (dash ≡ b'-' ∷ [])

split-join :
    (before after : List Text)
    → after ≢ []
    → (dash : Text) × (IsDash (join b'-' before) dash
        × (join b'-' (before ++ after) ≡ join b'-' before ++ (dash ++ join b'-' after)))
split-join [] after h = ([], (inl (refl, refl), refl))
split-join (x ∷ before) after h =
    (b'-' ∷ [], (inr refl, join-append b'-' (x ∷ before) after (λ e. cc) h))

labelled-append : (label s rest : Text) → labelled label s ++ rest ≡ labelled label (s ++ rest)
labelled-append [] s rest = refl
labelled-append (c ∷ label) s rest = append_assoc (c ∷ label) (b'-' ∷ s) rest

-- A tag whose parts make it up.
abbrev pub IsMadeOf : LsioTagParts → Text → Type 0
IsMadeOf parts raw =
    (dash : Text) × (IsDash parts.branch dash
      × (raw
          ≡ labelled parts.arch
              (parts.branch ++ (dash ++ (parts.upstream_version ++ b'-' ∷ parts.build_suffix)))))

abbrev cut_arch : Bool → Text → List Text → Text × List Text
cut_arch b token tokens = if b then (token, tokens) else ([], token ∷ tokens)

with_arch-join :
    (b : Bool) (token : Text) (tokens : List Text)
    → (b ≡ true → token ≢ [])
    → (cut_arch b token tokens).1 ≢ []
    → join b'-' (token ∷ tokens)
      ≡ labelled (cut_arch b token tokens).0 (join b'-' (cut_arch b token tokens).1)
with_arch-join false token tokens k h = refl
with_arch-join true token [] k h = absurd (h refl)
with_arch-join true [] (y ∷ tokens) k h = absurd (k refl refl)
with_arch-join true (c ∷ token) (y ∷ tokens) k h = refl

plain_parts-kind :
    (raw arch : Text) (tokens : List Text) → (plain_parts raw arch tokens).kind ≢ build
unfolding plain_parts
plain_parts-kind raw arch [] e = cc
plain_parts-kind raw arch (token ∷ tokens) e = elim (Bool-cases (starts_with_version token)) [
  | inl t ↦ let k : (plain_parts raw arch (token ∷ tokens)).kind ≡ pseudo_semver = rw t refl in cc
  | inr f ↦ let k : (plain_parts raw arch (token ∷ tokens)).kind ≡ on_branch = rw f refl in cc
]

append-ne-nil : (xs ys : List Text) → ys ≢ [] → xs ++ ys ≢ []
append-ne-nil [] ys h e = h e
append-ne-nil (x ∷ xs) ys h e = cc

-- The body of a build tag, with its suffix.
build_parts-IsMadeOf :
    (raw body suffix arch : Text) (tokens : List Text) (o : Option (List Text × List Text))
    → o ≡ split_version tokens
    → raw ≡ body ++ b'-' ∷ suffix
    → (tokens ≢ [] → body ≡ labelled arch (join b'-' tokens))
    → (build_parts raw suffix arch o).kind ≡ build
    → IsMadeOf (build_parts raw suffix arch o) raw
unfolding build_parts
build_parts-IsMadeOf raw body suffix arch tokens none e r k h = cc
build_parts-IsMadeOf raw body suffix arch tokens (some (before, after)) e r k h =
    let split = split_version-append tokens before after (sym e) in
    let (dash, (is_dash, joined)) = split-join before after split.1 in
    (
      dash,
      (
        is_dash,
        r
            ∙ ap (λ s. s ++ b'-' ∷ suffix)
                (k (λ n. append-ne-nil before after split.1 (sym split.0 ∙ n))
                  ∙ ap (labelled arch) (ap (join b'-') split.0 ∙ joined))
            ∙ labelled-append arch (join b'-' before ++ (dash ++ join b'-' after)) (b'-' ∷ suffix)
            ∙ ap (labelled arch) (
                append_assoc (join b'-' before) (dash ++ join b'-' after) (b'-' ∷ suffix)
                ∙ ap (λ s. join b'-' before ++ s)
                    (append_assoc dash (join b'-' after) (b'-' ∷ suffix))),
      ),
    )

module _ (u : Unicode) where
  is_arch-ne-nil : (token : Text) → is_arch u token ≡ true → token ≢ []
  unfolding is_arch
  is_arch-ne-nil [] h e = let n : is_arch u [] ≡ false = rw (u.lower_ascii [] tt) refl in cc
  is_arch-ne-nil (c ∷ token) h e = cc

  split_arch-join :
      (tokens : List Text)
      → (split_arch u tokens).1 ≢ []
      → join b'-' tokens ≡ labelled (split_arch u tokens).0 (join b'-' (split_arch u tokens).1)
  unfolding split_arch is_arch
  split_arch-join [] h = absurd (h refl)
  split_arch-join (token ∷ tokens) h =
      with_arch-join (is_arch u token) token tokens (is_arch-ne-nil token) h

  marked_parts-kind :
      (raw arch : Text) (marked : List Text × List Text)
      → (marked_parts u raw arch marked).kind ≢ build
  unfolding marked_parts
  marked_parts-kind raw arch (before, after) e =
      elim (Bool-cases (not (join b'-' after == []) && starts_with_version (join b'-' after))) [
        | inl t ↦ let k : (marked_parts u raw arch (before, after)).kind ≡ version = rw t refl in cc
        | inr f ↦ let k : (marked_parts u raw arch (before, after)).kind ≡ unknown = rw f refl in cc
      ]

  unmarked_parts-IsMadeOf :
      (raw arch : Text) (tokens : List Text) (o : Option (Text × Text))
      → o ≡ find_build raw
      → (unmarked_parts u raw arch tokens o).kind ≡ build
      → IsMadeOf (unmarked_parts u raw arch tokens o) raw
  unfolding unmarked_parts
  unmarked_parts-IsMadeOf raw arch tokens none e h = absurd (plain_parts-kind raw arch tokens h)
  unmarked_parts-IsMadeOf raw arch tokens (some ([], suffix)) e h =
      absurd (plain_parts-kind raw arch tokens h)
  unmarked_parts-IsMadeOf raw arch tokens (some (c ∷ body, suffix)) e h =
      let split = split_on b'-' (c ∷ body) in
      build_parts-IsMadeOf raw (c ∷ body) suffix (split_arch u split).0 (split_arch u split).1 _
        refl (find_build-append raw (c ∷ body) suffix (sym e))
        (λ n. sym (join-split_on b'-' (c ∷ body)) ∙ split_arch-join split n) h

  parts_from-IsMadeOf :
      (raw arch : Text) (tokens : List Text) (o : Option (List Text × List Text))
      → (parts_from u raw arch tokens o).kind ≡ build
      → IsMadeOf (parts_from u raw arch tokens o) raw
  unfolding parts_from
  parts_from-IsMadeOf raw arch tokens (some marked) h = absurd (marked_parts-kind raw arch marked h)
  parts_from-IsMadeOf raw arch tokens none h =
      unmarked_parts-IsMadeOf raw arch tokens (find_build raw) refl h

  -- The architecture, the branch, the version and the build suffix of a build tag make up the tag, with
  -- a dash behind each of the first two that is there; of an empty branch the dash alone may be left.
  pub parse_lsio_tag-build :
      (tag : Text)
      → (parse_lsio_tag u tag).kind ≡ build
      → IsMadeOf (parse_lsio_tag u tag) (strip u tag)
  unfolding parse_lsio_tag
  parse_lsio_tag-build tag h = elim (Bool-cases (strip u tag == [])) [
    | inl t ↦ let k : (parse_lsio_tag u tag).kind ≡ unknown = rw t refl in cc
    | inr f ↦
        let (arch, tokens) = split_arch u (split_on b'-' (strip u tag)) in
        let k : parse_lsio_tag u tag
            ≡ parts_from u (strip u tag) arch tokens (split_marker u tokens) =
          rw f refl in
        subst (λ parts. IsMadeOf parts (strip u tag)) (sym k)
          (parts_from-IsMadeOf (strip u tag) arch tokens (split_marker u tokens)
            (ap (λ parts. parts.kind) (sym k) ∙ h))
  ]
