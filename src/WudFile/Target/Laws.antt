-- ===== src/WudFile/Target/Laws.antt =====
-- The invariant of every target that is read from a line.
use mathlib.Core.List.{cons-ne-nil}
use wudup.Prelude.{
  ℕ, Text, codes, ◌≡◌, ◌≢◌, refl, ◌⊎◌, inl, inr, Bool, true, not, Option, none, some, List, [], ◌∷◌,
  ◌++◌, arith, nat_eq, text_eq, ◌==◌, Bool-cases, starts_with, length, text_beq_iff, Option-cases,
}
use wudup.Prelude.Unicode.{Unicode}
use wudup.Images.{image_key, repo_key, image_has_tag, tag_value_valid, normalize_digest}
use wudup.Images.Digest.{normalize_digest_form}
use wudup.Platforms.{ImagePlatform, parse_platform, value}
use wudup.Platforms.RoundTrip.{parse_platform-roundtrip}
use wudup.WudFile.Target.{
  WudTarget, Warning, Tokens, read_tag, read_digest, read_platform, read_token, read_tokens,
  start_tokens, parse_target, target_of, tag_warning, first_token, rest_tokens, drop, first_digest,
}

-- Nothing, or `sha256:<value>`.
abbrev pub IsDigest : Text → Type 0
IsDigest digest = (digest ≡ []) ⊎ ((t : Text) × (digest ≡ codes "sha256:" ++ t))

normalize_digest-IsDigest : (digest : Text) → IsDigest (normalize_digest digest)
normalize_digest-IsDigest [] = inl (unfold normalize_digest in refl)
normalize_digest-IsDigest (c ∷ s) = inr (normalize_digest_form (c ∷ s) (cons-ne-nil c s))

-- A tag without a warning is valid and has a tagged source.
tag_warning-none :
    (line_no : ℕ) (first : Text) (has_tag : Bool) (desired_tag : Text)
    → tag_warning line_no first has_tag desired_tag ≡ none
    → desired_tag ≢ []
    → (tag_value_valid desired_tag ≡ true) × (has_tag ≡ true)
unfolding tag_warning
tag_warning-none line_no first has_tag desired_tag h ne =
    ground (arith, text_beq_iff desired_tag [])

module _ (u : Unicode) where
  -- A platform is one that its printed value gives back.
  pub IsPlatform : Option ImagePlatform → Type 0
  IsPlatform none = Unit
  IsPlatform (some p) = parse_platform u (value p) ≡ some p

  -- What holds of the loop's variables after every token.
  record IsRead (st : Tokens) : Type 0 where
    pub digest : IsDigest st.digest
    pub tag_token : tag_value_valid st.desired_tag ≡ true → st.tag_token ≡ st.desired_tag
    pub platform : IsPlatform st.platform

  -- There is no desired tag, or it is valid, the source has a tag, and it is the token of the line.
  abbrev pub IsKeptTag : WudTarget → Type 0
  IsKeptTag t =
      (t.desired_tag ≡ [])
      ⊎ ((tag_value_valid t.desired_tag ≡ true)
          × (t.has_tag ≡ true)
          × (t.tag_token ≡ t.desired_tag))

  -- What holds of every target that is read.
  pub record IsWellFormed (t : WudTarget) : Type 0 where
    pub key : t.key ≡ image_key t.first
    pub repo : t.repo ≡ repo_key t.first
    pub has_tag : t.has_tag ≡ image_has_tag t.first
    pub allow_repo : t.allow_repo ≡ not t.has_tag
    pub digest : IsDigest t.digest
    pub desired_tag : IsKeptTag t
    pub platform : IsPlatform t.platform

  read_tag-IsRead : (tag : Text) (st : Tokens) → IsRead st → IsRead (read_tag tag st)
  unfolding read_tag
  read_tag-IsRead tag st h = elim (Bool-cases (tag_value_valid tag)) [
    | inl t ↦ rw t (record { digest = h.digest; tag_token = λ _. refl; platform = h.platform })
    | inr f ↦ rw f (record { digest = h.digest; tag_token = λ v. cc; platform = h.platform })
  ]

  read_digest-IsRead : (token : Text) (st : Tokens) → IsRead st → IsRead (read_digest token st)
  unfolding read_digest
  read_digest-IsRead token st h = elim (Bool-cases (token == [])) [
    | inl t ↦ rw t h
    | inr f ↦ rw f (record {
      digest = normalize_digest-IsDigest token;
      tag_token = h.tag_token;
      platform = h.platform;
    })
  ]

  parsed-IsPlatform : (token : Text) → IsPlatform (parse_platform u token)
  unfolding IsPlatform
  parsed-IsPlatform token = elim (Option-cases (parse_platform u token)) [
    | inl e ↦ rw e tt
    | inr (p, e) ↦ rw e (parse_platform-roundtrip u token p e)
  ]

  read_token-IsRead : (st : Tokens) (token : Text) → IsRead st → IsRead (read_token u st token)
  unfolding read_token read_platform
  read_token-IsRead st token h = elim (Bool-cases (starts_with token (codes "tag="))) [
    | inl t ↦ rw t (read_tag-IsRead (drop 4 token) st h)
    | inr f ↦ rw f (elim (Bool-cases (starts_with token (codes "sha256="))) [
      | inl t ↦ rw t (read_digest-IsRead (drop 7 token) st h)
      | inr f ↦ rw f (elim (Bool-cases (starts_with token (codes "platform="))) [
        | inl t ↦ rw t (record {
          digest = h.digest;
          tag_token = h.tag_token;
          platform = parsed-IsPlatform (drop 9 token);
        })
        | inr f ↦ rw f h
      ])
    ])
  ]

  read_tokens-IsRead :
      (st : Tokens) (tokens : List Text) → IsRead st → IsRead (read_tokens u st tokens)
  unfolding read_tokens
  read_tokens-IsRead st [] h = h
  read_tokens-IsRead st (token ∷ tokens) h =
      read_tokens-IsRead (read_token u st token) tokens (read_token-IsRead st token h)

  start_tokens-IsRead : (first : Text) → IsRead (start_tokens u first)
  unfolding start_tokens IsPlatform tag_value_valid
  start_tokens-IsRead first = record {
    digest = normalize_digest-IsDigest (first_digest first);
    tag_token = λ h. refl;
    platform = tt;
  }

  kept_tag :
      (line_no : ℕ) (raw first : Text) (st : Tokens) (warning : Option Warning)
      → IsRead st
      → (warning ≡ none
          → st.desired_tag ≢ []
          → (tag_value_valid st.desired_tag ≡ true) × (image_has_tag first ≡ true))
      → IsKeptTag (target_of line_no raw first st warning)
  unfolding target_of
  kept_tag line_no raw first st none h keep = elim (Bool-cases (st.desired_tag == [])) [
    | inl t ↦ inl (ground (arith, t, text_beq_iff st.desired_tag []))
    | inr f ↦
        let (valid, tagged) = keep refl (ground (arith, f, text_beq_iff st.desired_tag [])) in
        inr (valid, tagged, h.tag_token valid)
  ]
  kept_tag line_no raw first st (some w) h keep = inl refl

  target_of-IsWellFormed :
      (line_no : ℕ) (raw first : Text) (st : Tokens)
      → IsRead st
      → IsWellFormed (
          target_of line_no raw first st
            (tag_warning line_no first (image_has_tag first) st.desired_tag))
  target_of-IsWellFormed line_no raw first st h = record {
    key = unfold target_of in refl;
    repo = unfold target_of in refl;
    has_tag = unfold target_of in refl;
    allow_repo = unfold target_of in refl;
    digest = unfold target_of in h.digest;
    desired_tag =
        kept_tag line_no raw first st
          (tag_warning line_no first (image_has_tag first) st.desired_tag) h
          (tag_warning-none line_no first (image_has_tag first) st.desired_tag);
    platform = unfold target_of in h.platform;
  }

  -- Every target that is read from a line is well formed.
  pub parse_target-IsWellFormed :
      (line_no : ℕ) (raw trimmed : Text) → IsWellFormed (parse_target u line_no raw trimmed).0
  parse_target-IsWellFormed line_no raw trimmed =
      let first = first_token trimmed in
      let tokens = rest_tokens (drop (length first) trimmed) in
      unfold parse_target in
      target_of-IsWellFormed line_no raw first (read_tokens u (start_tokens u first) tokens)
        (read_tokens-IsRead (start_tokens u first) tokens (start_tokens-IsRead first))
