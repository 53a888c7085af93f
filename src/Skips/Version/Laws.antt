-- ===== src/Skips/Version/Laws.antt =====
-- A version that has been read from a tag is read as itself.
use wudup.Prelude.{
  ℕ, Text, text_eq, nat_eq, ◌==◌, ◌≡◌, refl, sym, ap, subst, ◌∙◌, inl, inr, true, false, ◌||◌,
  Option, none, some, [], ◌∷◌, ◌++◌, append_assoc, append-nil, arith, All, All-append, Bool-cases,
}
use wudup.Skips.Version.{
  is_number_char, is_end, canonical, is_suffix_start, is_suffix_char, before, joined, suffix_rest,
  suffix_from, version_from, version_of,
}

abbrev IsNumber : Text → Type 0
IsNumber = All (λ c. is_number_char c ≡ true)

-- Digits are read into the number.
version_from-digits :
    (number : Text) (digits rest : Text)
    → IsNumber number
    → version_from digits (number ++ rest) ≡ version_from (digits ++ number) rest
unfolding version_from
version_from-digits [] digits rest h = ap (λ d. version_from d rest) (sym (append-nil digits))
version_from-digits (c ∷ number) digits rest (p, h) =
    rw p (version_from-digits number (digits ++ c ∷ []) rest h)
    ∙ ap (λ d. version_from d rest) (append_assoc digits (c ∷ []) number)

canonical-IsNumber : (s : Text) → IsNumber s → IsNumber (canonical s)
unfolding canonical
canonical-IsNumber [] h = tt
canonical-IsNumber (c ∷ []) h = h
canonical-IsNumber (c ∷ d ∷ s) (p, h) = elim (Bool-cases (c == b'0')) [
  | inl t ↦ rw t (canonical-IsNumber (d ∷ s) h)
  | inr f ↦ rw f (p, h)
]

canonical_idem : (s : Text) → canonical (canonical s) ≡ canonical s
unfolding canonical
canonical_idem [] = refl
canonical_idem (c ∷ []) = refl
canonical_idem (c ∷ d ∷ s) = elim (Bool-cases (c == b'0')) [
  | inl t ↦ rw t (canonical_idem (d ∷ s))
  | inr f ↦ rw (f, canonical, f) refl
]

canonical_nonempty : (s : Text) → (s == []) ≡ false → (canonical s == []) ≡ false
unfolding canonical
canonical_nonempty [] h = h
canonical_nonempty (c ∷ []) h = h
canonical_nonempty (c ∷ d ∷ s) h = elim (Bool-cases (c == b'0')) [
  | inl t ↦ rw t (canonical_nonempty (d ∷ s) refl)
  | inr f ↦ rw f refl
]

-- The rest of a suffix, by what stands behind its first character.
before-again :
    (c : ℕ) (o : Option Text) (w : Text)
    → is_suffix_char c ≡ true
    → ((b : Text) → o ≡ some b → suffix_rest b ≡ some b)
    → before c o ≡ some w
    → (b : Text) × ((w ≡ c ∷ b) × (suffix_rest (c ∷ b) ≡ some (c ∷ b)))
unfolding suffix_rest
before-again c none w p k h = cc
before-again c (some b) w p k h = let e : w ≡ c ∷ b = cc in (b, (e, rw (p, k b refl) refl))

suffix_rest-again : (s w : Text) → suffix_rest s ≡ some w → suffix_rest w ≡ some w
unfolding suffix_rest
suffix_rest-again [] w h = let e : ◌≡◌ {A = Text} [] w = cc in rw⁻¹ e refl
suffix_rest-again (c ∷ s) w h = elim (Bool-cases (is_suffix_char c)) [
  | inl t ↦
      let again =
        before-again c (suffix_rest s) w t (λ b. suffix_rest-again s b) (sym (rw t refl) ∙ h) in
      rw again.1.0 again.1.1
  | inr f ↦ elim (Bool-cases (is_end (c ∷ s))) [
    | inl end ↦
        let k : ◌≡◌ {A = Option Text} (some []) (some w) = sym (rw (f, end) refl) ∙ h in
        let e : ◌≡◌ {A = Text} [] w = cc in rw⁻¹ e refl
    | inr other ↦ let k : ◌≡◌ {A = Option Text} none (some w) = sym (rw (f, other) refl) ∙ h in cc
  ]
]

is_suffix_start-char : (c : ℕ) → is_suffix_start c ≡ true → is_suffix_char c ≡ true
unfolding is_suffix_char
is_suffix_start-char c h = rw h refl

suffix_rest_cons :
    (c : ℕ) (s w : Text)
    → is_suffix_char c ≡ true
    → suffix_rest (c ∷ s) ≡ some w
    → (b : Text) × ((w ≡ c ∷ b) × (suffix_rest (c ∷ b) ≡ some (c ∷ b)))
unfolding suffix_rest
suffix_rest_cons c s w t h =
    before-again c (suffix_rest s) w t (λ b. suffix_rest-again s b) (sym (rw t refl) ∙ h)

suffix_from-again : (s w : Text) → suffix_from s ≡ some w → suffix_from w ≡ some w
unfolding suffix_from
suffix_from-again [] w h = cc
suffix_from-again (c ∷ s) w h = elim (Bool-cases (is_suffix_start c)) [
  | inl t ↦
      let (b, (e, k)) = suffix_rest_cons c s w (is_suffix_start-char c t) (sym (rw t refl) ∙ h) in
      subst (λ r. suffix_from r ≡ some r) (sym e) (rw t k)
  | inr f ↦ let k : ◌≡◌ {A = Option Text} none (some w) = sym (rw f refl) ∙ h in cc
]

-- A canonical number is read up to what stands behind it.
read_number :
    (digits rest : Text)
    → IsNumber digits
    → version_from [] (canonical digits ++ rest) ≡ version_from (canonical digits) rest
read_number digits rest h =
    version_from-digits (canonical digits) [] rest (canonical-IsNumber digits h)

-- The end of a version is its last number.
last-again :
    (digits : Text)
    → (digits == []) ≡ false
    → IsNumber digits
    → version_from [] (canonical digits) ≡ some (canonical digits)
unfolding version_from
last-again digits n h =
    ap (λ s. version_from [] s) (sym (append-nil (canonical digits)))
    ∙ read_number digits [] h
    ∙ rw (canonical_nonempty digits n, canonical_idem digits) refl

-- A number and what is read behind its dot.
joined-again :
    (digits : Text) (c : ℕ) (o : Option Text) (v : Text)
    → joined (canonical digits) c o ≡ some v
    → (w : Text) × ((o ≡ some w) × (v ≡ canonical digits ++ c ∷ w))
joined-again digits c none v h = cc
joined-again digits c (some w) v h = (w, (refl, cc))

-- What the character behind a number decides.
version_from-dot :
    (digits : Text) (c : ℕ) (s : Text)
    → (digits == []) ≡ false
    → (c == b'.') ≡ true
    → version_from digits (c ∷ s) ≡ joined (canonical digits) b'.' (version_from [] s)
unfolding version_from is_number_char
version_from-dot digits c s n h = ground arith

version_from-suffix :
    (digits : Text) (c : ℕ) (s : Text)
    → (digits == []) ≡ false
    → (c == b'-' || c == b'_' || c == b'+') ≡ true
    → version_from digits (c ∷ s) ≡ joined (canonical digits) c (suffix_from s)
unfolding version_from is_number_char
version_from-suffix digits c s n h = ground arith

-- A number behind a number and what joins them.
again-joined :
    (digits w : Text) (c : ℕ)
    → IsNumber digits
    → version_from (canonical digits) (c ∷ w) ≡ some (canonical (canonical digits) ++ c ∷ w)
    → version_from [] (canonical digits ++ c ∷ w) ≡ some (canonical digits ++ c ∷ w)
again-joined digits w c d h =
    read_number digits (c ∷ w) d ∙ h ∙ ap (λ s. some (s ++ c ∷ w)) (canonical_idem digits)

ended-again :
    (digits : Text) (c : ℕ) (s v : Text)
    → IsNumber digits
    → is_number_char c ≡ false
    → ((w : Text) → version_from [] s ≡ some w → version_from [] w ≡ some w)
    → version_from digits (c ∷ s) ≡ some v
    → version_from [] v ≡ some v
unfolding version_from
ended-again digits c s v d f k h = elim (Bool-cases (digits == [])) [
  | inl e ↦ let x : ◌≡◌ {A = Option Text} none (some v) = sym (rw (f, e) refl) ∙ h in cc
  | inr n ↦ elim (Bool-cases (c == b'.')) [
    | inl dot ↦
        let again =
          joined-again digits b'.' (version_from [] s) v
            (sym (version_from-dot digits c s n dot) ∙ h) in
        rw again.1.1 (
          again-joined digits again.0 b'.' d (
            version_from-dot (canonical digits) b'.' again.0 (canonical_nonempty digits n) refl
            ∙ ap (λ o. joined (canonical (canonical digits)) b'.' o) (k again.0 again.1.0)))
    | inr other ↦ elim (Bool-cases (c == b'-' || c == b'_' || c == b'+')) [
      | inl sep ↦
          let again =
            joined-again digits c (suffix_from s) v
              (sym (version_from-suffix digits c s n sep) ∙ h) in
          rw again.1.1 (
            again-joined digits again.0 c d (
              version_from-suffix (canonical digits) c again.0 (canonical_nonempty digits n) sep
              ∙ ap (λ o. joined (canonical (canonical digits)) c o)
                  (suffix_from-again s again.0 again.1.0)))
      | inr none_of ↦ elim (Bool-cases (is_end (c ∷ s))) [
        | inl end ↦
            let x : ◌≡◌ {A = Option Text} (some (canonical digits)) (some v) =
              sym (rw (f, n, other, none_of, end) refl) ∙ h in
            let y : canonical digits ≡ v = cc in rw⁻¹ y (last-again digits n d)
        | inr more ↦
            let x : ◌≡◌ {A = Option Text} none (some v) =
              sym (rw (f, n, other, none_of, more) refl) ∙ h in
            cc
      ]
    ]
  ]
]

version_from-again :
    (t digits v : Text)
    → IsNumber digits
    → version_from digits t ≡ some v
    → version_from [] v ≡ some v
unfolding version_from
version_from-again [] digits v d h = elim (Bool-cases (digits == [])) [
  | inl e ↦ let x : ◌≡◌ {A = Option Text} none (some v) = sym (rw e refl) ∙ h in cc
  | inr n ↦
      let x : ◌≡◌ {A = Option Text} (some (canonical digits)) (some v) = sym (rw n refl) ∙ h in
      let y : canonical digits ≡ v = cc in rw⁻¹ y (last-again digits n d)
]
version_from-again (c ∷ t) digits v d h = elim (Bool-cases (is_number_char c)) [
  | inl number ↦
      version_from-again t (digits ++ c ∷ []) v (All-append _ digits (c ∷ []) d (number, tt))
        (sym (rw number refl) ∙ h)
  | inr f ↦ ended-again digits c t v d f (λ w. version_from-again t [] w tt) h
]

letter-none : (c : ℕ) (s : Text) → (c == b'v' || c == b'V') ≡ true → version_from [] (c ∷ s) ≡ none
unfolding version_from is_number_char
letter-none c s h = ground arith

number-version_of : (v : Text) → version_from [] v ≡ some v → version_of v ≡ some v
unfolding version_of version_from
number-version_of [] h = cc
number-version_of (c ∷ v) h = elim (Bool-cases (c == b'v' || c == b'V')) [
  | inl t ↦ let x : ◌≡◌ {A = Option Text} none (some (c ∷ v)) = sym (letter-none c v t) ∙ h in cc
  | inr f ↦ rw f h
]

-- A version that is read from a tag is read as itself: its numbers are in canonical form, and the `v`
-- before it is gone.
pub version_of-version : (t v : Text) → version_of t ≡ some v → version_of v ≡ some v
unfolding version_of
version_of-version [] v h = cc
version_of-version (c ∷ t) v h = elim (Bool-cases (c == b'v' || c == b'V')) [
  | inl l ↦ number-version_of v (version_from-again t [] v tt (sym (rw l refl) ∙ h))
  | inr f ↦ number-version_of v (version_from-again (c ∷ t) [] v tt (sym (rw f refl) ∙ h))
]
