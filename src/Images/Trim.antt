-- ===== src/Images/Trim.antt =====
-- `trim` removes the shell space at both ends, and nothing else.
use wudup.Prelude.{
  ℕ, Text, ◌≡◌, refl, ap, ◌∙◌, inl, inr, true, false, [], ◌∷◌, ◌++◌, Bool-cases, All,
}
use wudup.Images.{trim, trim_left, trim_right, keep_ink, is_shell_space}

abbrev pub IsSpaces : Text → Type 0
IsSpaces = All (λ c. is_shell_space c ≡ true)

-- The first character of a text, and the last, are no space.
abbrev pub StartsInk : Text → Type 0
StartsInk [] = Unit
StartsInk (c ∷ s) = is_shell_space c ≡ false

abbrev pub EndsInk : Text → Type 0
EndsInk [] = Unit
EndsInk (c ∷ []) = is_shell_space c ≡ false
EndsInk (c ∷ d ∷ s) = EndsInk (d ∷ s)

trim_left_split :
    (s : Text) → (a : Text) × IsSpaces a × (s ≡ a ++ trim_left s) × StartsInk (trim_left s)
unfolding trim_left
trim_left_split [] = ([], tt, refl, tt)
trim_left_split (c ∷ s) = elim (Bool-cases (is_shell_space c)) [
  | inl t ↦
      let (a, sp, e, ink) = trim_left_split s in
      (c ∷ a, (t, sp), rw t (ap (λ r. c ∷ r) e), rw t ink)
  | inr f ↦ ([], tt, rw f refl, rw f f)
]

keep_ink_split :
    (c : ℕ) (s t b : Text)
    → IsSpaces b
    → s ≡ t ++ b
    → EndsInk t
    → (b' : Text) × IsSpaces b' × (c ∷ s ≡ keep_ink c t ++ b') × EndsInk (keep_ink c t)
unfolding keep_ink
keep_ink_split c s [] b sp e ink = elim (Bool-cases (is_shell_space c)) [
  | inl t ↦ (c ∷ b, (t, sp), rw t (ap (λ r. c ∷ r) e), rw t tt)
  | inr f ↦ (b, sp, rw f (ap (λ r. c ∷ r) e), rw f f)
]
keep_ink_split c s (d ∷ t) b sp e ink = (b, sp, ap (λ r. c ∷ r) e, ink)

trim_right_split :
    (s : Text) → (b : Text) × IsSpaces b × (s ≡ trim_right s ++ b) × EndsInk (trim_right s)
unfolding trim_right
trim_right_split [] = ([], tt, refl, tt)
trim_right_split (c ∷ s) =
    let (b, sp, e, ink) = trim_right_split s in keep_ink_split c s (trim_right s) b sp e ink

trim_right-StartsInk : (s : Text) → StartsInk s → StartsInk (trim_right s)
unfolding trim_right
trim_right-StartsInk [] h = tt
trim_right-StartsInk (c ∷ s) h = keep (trim_right s)
  where
    keep : (t : Text) → StartsInk (keep_ink c t)
    keep [] = rw h h
    keep (d ∷ t) = h

-- `trim` takes off spaces at both ends, and what is left begins and ends with no space.
pub trim_lem :
    (value : Text)
    → (a : Text) × (b : Text) × IsSpaces a
      × IsSpaces b
      × (value ≡ a ++ (trim value ++ b))
      × StartsInk (trim value)
      × EndsInk (trim value)
unfolding trim
trim_lem value =
    let (a, spa, ea, start) = trim_left_split value in
    let (b, spb, eb, end) = trim_right_split (trim_left value) in
    (a, b, spa, spb, ea ∙ ap (λ r. a ++ r) eb, trim_right-StartsInk (trim_left value) start, end)
