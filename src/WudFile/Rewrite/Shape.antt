-- ===== src/WudFile/Rewrite/Shape.antt =====
-- The loops of the rewrites only append, and only lines that they read.
use wudup.Prelude.{
  ℕ, ◌+◌, Text, ◌≡◌, refl, sym, ◌∙◌, inl, inr, List, [], ◌∷◌, ◌++◌, arith, nat_eq, text_eq, ltb,
  contains, count, append_assoc, append-nil, Bool-cases, All, All-append, beq_refl,
}
use wudup.Prelude.Dict.{Dict, get_or, put}
use wudup.WudFile.Parse.{WudLine}
use wudup.WudFile.Rewrite.{append_extras, append_needed, chosen, preserved, raws_of}

pub append_extras-append :
    (extra : Dict Text ℕ) (raws : List Text) (seen : Dict Text ℕ) (result : List Text)
    → (suffix : List Text) × (append_extras extra raws seen result ≡ result ++ suffix)
unfolding append_extras
append_extras-append extra [] seen result = ([], sym (append-nil result))
append_extras-append extra (raw ∷ raws) seen result =
    elim (Bool-cases (ltb (get_or seen raw 0) (get_or extra raw 0))) [
      | inl t ↦
          let (suffix, e) =
            append_extras-append extra raws (put seen raw (get_or seen raw 0 + 1))
              (result ++ raw ∷ []) in
          (raw ∷ suffix, rw t (e ∙ append_assoc result (raw ∷ []) suffix))
      | inr f ↦ let (suffix, e) = append_extras-append extra raws seen result in (suffix, rw f e)
    ]

pub append_needed-append :
    (needed current : Dict Text ℕ) (raws : List Text) (restored : Dict Text ℕ) (result : List Text)
    → (suffix : List Text) × (append_needed needed current raws restored result ≡ result ++ suffix)
unfolding append_needed
append_needed-append needed current [] restored result = ([], sym (append-nil result))
append_needed-append needed current (raw ∷ raws) restored result =
    elim (Bool-cases (ltb (get_or current raw 0 + get_or restored raw 0) (get_or needed raw 0))) [
      | inl t ↦
          let (suffix, e) =
            append_needed-append needed current raws (put restored raw (get_or restored raw 0 + 1))
              (result ++ raw ∷ []) in
          (raw ∷ suffix, rw t (e ∙ append_assoc result (raw ∷ []) suffix))
      | inr f ↦
          let (suffix, e) = append_needed-append needed current raws restored result in
          (suffix, rw f e)
    ]

-- A text that counts nothing is empty.
pub nil_of_count : (xs : List Text) → ((a : Text) → count a xs ≡ 0) → xs ≡ []
nil_of_count [] h = refl
nil_of_count (x ∷ xs) h = absurd (ground (arith, h x, beq_refl {A = Text} x))

pub count-chosen-preserved :
    (numbers : List ℕ) (lines : List WudLine) (a : Text)
    → count a (chosen numbers lines) + count a (preserved numbers lines) ≡ count a (raws_of lines)
unfolding chosen preserved raws_of
count-chosen-preserved numbers [] a = omega arith
count-chosen-preserved numbers (line ∷ lines) a =
    ground (arith, count-chosen-preserved numbers lines a)

module _ (P : Text → Type 0) where
  pub append_extras-All :
      (extra : Dict Text ℕ) (raws : List Text) (seen : Dict Text ℕ) (result : List Text)
      → All P raws
      → All P result
      → All P (append_extras extra raws seen result)
  unfolding append_extras
  append_extras-All extra [] seen result h k = k
  append_extras-All extra (raw ∷ raws) seen result (hr, h) k =
      elim (Bool-cases (ltb (get_or seen raw 0) (get_or extra raw 0))) [
        | inl t ↦ rw t (
            append_extras-All extra raws (put seen raw (get_or seen raw 0 + 1)) (result ++ raw ∷ [])
              h (All-append P result (raw ∷ []) k (hr, tt)))
        | inr f ↦ rw f (append_extras-All extra raws seen result h k)
      ]

  pub append_needed-All :
      (needed current : Dict Text ℕ) (raws : List Text) (restored : Dict Text ℕ)
      (result : List Text)
      → All P raws
      → All P result
      → All P (append_needed needed current raws restored result)
  unfolding append_needed
  append_needed-All needed current [] restored result h k = k
  append_needed-All needed current (raw ∷ raws) restored result (hr, h) k =
      elim (Bool-cases (ltb (get_or current raw 0 + get_or restored raw 0) (get_or needed raw 0))) [
        | inl t ↦ rw t (
            append_needed-All needed current raws (put restored raw (get_or restored raw 0 + 1))
              (result ++ raw ∷ []) h (All-append P result (raw ∷ []) k (hr, tt)))
        | inr f ↦ rw f (append_needed-All needed current raws restored result h k)
      ]

  pub chosen-All :
      (numbers : List ℕ) (lines : List WudLine)
      → All P (raws_of lines)
      → All P (chosen numbers lines)
  unfolding chosen raws_of
  chosen-All numbers [] h = tt
  chosen-All numbers (line ∷ lines) (hl, h) = elim (Bool-cases (contains numbers line.line_no)) [
    | inl t ↦ rw t (hl, chosen-All numbers lines h)
    | inr f ↦ rw f (chosen-All numbers lines h)
  ]

  pub preserved-All :
      (numbers : List ℕ) (lines : List WudLine)
      → All P (raws_of lines)
      → All P (preserved numbers lines)
  unfolding preserved raws_of
  preserved-All numbers [] h = tt
  preserved-All numbers (line ∷ lines) (hl, h) = elim (Bool-cases (contains numbers line.line_no)) [
    | inl t ↦ rw t (preserved-All numbers lines h)
    | inr f ↦ rw f (hl, preserved-All numbers lines h)
  ]
