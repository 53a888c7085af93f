-- ===== src/Prelude/Cut.antt =====
-- Cutting text at a character: Python's `partition`, `rsplit(c, 1)`, `split(c)` and `join`.
use Prim.Native.Nat.{ℕ}
use mathlib.Core.Path.{◌≡◌, refl, ap}
use mathlib.Core.Logic.{◌⊎◌, inl, inr}
use mathlib.Core.Bool.{true, false}
use mathlib.Core.Option.{Option, none, some}
use mathlib.Core.List.{[], ◌∷◌, ◌++◌}
use native.Mathlib.Omega.{arith}
use wudup.Prelude.Tests.{◌==◌, nat_eq, if◌then◌else◌, Bool-cases}
use wudup.Prelude.Lists.{contains}
use wudup.Prelude.Chars.{Text, Lacks, starts_with}

-- At the first `c`.
abbrev pub cut : ℕ → Text → Option (Text × Text)
cut c [] = none
cut c (x ∷ s) =
    if x == c then some ([], s) else elim (cut c s) [ none ↦ none | some (a, b) ↦ some (x ∷ a, b) ]

-- At the last `c`.
abbrev pub rcut : ℕ → Text → Option (Text × Text)
rcut c [] = none
rcut c (x ∷ s) = elim (rcut c s) [
  | some (a, b) ↦ some (x ∷ a, b)
  | none ↦ if x == c then some ([], s) else none
]

-- `s.rsplit(c, 1)[-1]`
abbrev pub rsplit_last : ℕ → Text → Text
rsplit_last c s = elim (rcut c s) [ none ↦ s | some (a, b) ↦ b ]

-- `s.rsplit(c, 1)[0]`
abbrev pub rsplit_first : ℕ → Text → Text
rsplit_first c s = elim (rcut c s) [ none ↦ s | some (a, b) ↦ a ]

-- `s.split(sep, 1)[0]`, for a separator that is not empty
abbrev pub split_before : Text → Text → Text
split_before sep [] = []
split_before sep (c ∷ s) = if starts_with (c ∷ s) sep then [] else c ∷ split_before sep s

pub contains-Lacks : (c : ℕ) (s : Text) → Lacks c s → contains s c ≡ false
contains-Lacks c [] h = refl
contains-Lacks c (x ∷ s) (hx, h) = ground (arith, contains-Lacks c s h)

pub Lacks-contains : (c : ℕ) (s : Text) → contains s c ≡ false → Lacks c s
Lacks-contains c [] h = tt
Lacks-contains c (x ∷ s) h = (ground arith, Lacks-contains c s (ground arith))

pub contains_append_cons : (c : ℕ) (s t : Text) → contains (s ++ c ∷ t) c ≡ true
contains_append_cons c [] t = ground arith
contains_append_cons c (x ∷ s) t = ground (arith, contains_append_cons c s t)

pub rcut-Lacks : (c : ℕ) (s : Text) → Lacks c s → rcut c s ≡ none
rcut-Lacks c [] h = refl
rcut-Lacks c (x ∷ s) (hx, h) = rw (rcut-Lacks c s h, rcut) (ground arith)

pub cut-Lacks : (c : ℕ) (s : Text) → Lacks c s → cut c s ≡ none
cut-Lacks c [] h = refl
cut-Lacks c (x ∷ s) (hx, h) = ground (arith, cut-Lacks c s h)

pub rcut_cons : (c : ℕ) (s t : Text) → Lacks c t → rcut c (s ++ c ∷ t) ≡ some (s, t)
rcut_cons c [] t h = ground (arith, rcut-Lacks c t h)
rcut_cons c (x ∷ s) t h = ground (arith, rcut_cons c s t h)

pub cut_cons : (c : ℕ) (s t : Text) → Lacks c s → cut c (s ++ c ∷ t) ≡ some (s, t)
cut_cons c [] t h = ground arith
cut_cons c (x ∷ s) t (hx, h) = ground (arith, cut_cons c s t h)

-- A text with no `c`, or what stands before and after its last `c`.
pub rcut-cases :
    (c : ℕ) (s : Text) → Lacks c s ⊎ ((a : Text) × (b : Text) × (s ≡ a ++ c ∷ b) × Lacks c b)
rcut-cases c [] = inl tt
rcut-cases c (x ∷ s) = elim (rcut-cases c s) [
  | inr (a, b, e, l) ↦ inr (x ∷ a, b, ap (λ t. x ∷ t) e, l)
  | inl l ↦ elim (Bool-cases (x == c)) [
    | inl e ↦ inr ([], s, ground arith, l)
    | inr n ↦ inl (ground arith, l)
  ]
]

-- A text with no `c`, or what stands before and after its first `c`.
pub cut-cases :
    (c : ℕ) (s : Text) → Lacks c s ⊎ ((a : Text) × (b : Text) × (s ≡ a ++ c ∷ b) × Lacks c a)
cut-cases c [] = inl tt
cut-cases c (x ∷ s) = elim (Bool-cases (x == c)) [
  | inl e ↦ inr ([], s, ground arith, tt)
  | inr n ↦ elim (cut-cases c s) [
    | inl l ↦ inl (ground arith, l)
    | inr (a, b, e, l) ↦ inr (x ∷ a, b, ap (λ t. x ∷ t) e, (ground arith, l))
  ]
]

-- What is appended without a `c` goes to the part behind the last `c`.
pub rcut-append :
    (c : ℕ) (s t : Text)
    → Lacks c t
    → rcut c (s ++ t) ≡ elim (rcut c s) [ none ↦ none | some (a, b) ↦ some (a, b ++ t) ]
rcut-append c [] t h = rcut-Lacks c t h
rcut-append c (x ∷ s) t h = ground (arith, rcut-append c s t h)

pub rcut_inside :
    (c : ℕ) (s t : Text)
    → rcut c (s ++ c ∷ t)
      ≡ elim (rcut c t) [ none ↦ some (s, t) | some (a, b) ↦ some (s ++ c ∷ a, b) ]
rcut_inside c [] t = ground arith
rcut_inside c (x ∷ s) t = ground (arith, rcut_inside c s t)

-- What is appended without a `c` goes to the part behind the first `c`.
pub cut-append :
    (c : ℕ) (s t : Text)
    → Lacks c t
    → cut c (s ++ t) ≡ elim (cut c s) [ none ↦ none | some (a, b) ↦ some (a, b ++ t) ]
cut-append c [] t h = cut-Lacks c t h
cut-append c (x ∷ s) t h = ground (arith, cut-append c s t h)

pub rsplit_last-append :
    (c : ℕ) (s t : Text) → Lacks c t → rsplit_last c (s ++ t) ≡ rsplit_last c s ++ t
rsplit_last-append c s t h = ground (arith, rcut-append c s t h)

pub rsplit_last_cons : (c : ℕ) (s t : Text) → Lacks c t → rsplit_last c (s ++ c ∷ t) ≡ t
rsplit_last_cons c s t h = rw (rcut_cons c s t h, rsplit_last)

pub rsplit_first_cons : (c : ℕ) (s t : Text) → Lacks c t → rsplit_first c (s ++ c ∷ t) ≡ s
rsplit_first_cons c s t h = rw (rcut_cons c s t h, rsplit_first)

pub split_before-Lacks : (d : ℕ) (sep s : Text) → Lacks d s → split_before (d ∷ sep) s ≡ s
split_before-Lacks d sep [] h = refl
split_before-Lacks d sep (c ∷ s) (hc, h) = ground (arith, split_before-Lacks d sep s h)

pub starts_with-append : (s t : Text) → starts_with (s ++ t) s ≡ true
starts_with-append [] [] = refl
starts_with-append [] (c ∷ t) = refl
starts_with-append (c ∷ s) t = ground (arith, starts_with-append s t)

pub split_before_cons :
    (d : ℕ) (sep s t : Text) → Lacks d s → split_before (d ∷ sep) (s ++ ((d ∷ sep) ++ t)) ≡ s
split_before_cons d sep [] t h = ground (arith, starts_with-append (d ∷ sep) t)
split_before_cons d sep (c ∷ s) t (hc, h) = ground (arith, split_before_cons d sep s t h)
