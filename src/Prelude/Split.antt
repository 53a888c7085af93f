-- ===== src/Prelude/Split.antt =====
-- `text.split(c)` and `c.join(parts)` for a separator of one character.
use wudup.Prelude.Tests.{◌==◌, nat_eq, if◌then◌else◌, Bool-cases}
use wudup.Prelude.Lists.{All}
use wudup.Prelude.Chars.{Text, Lacks}
use Prim.Native.Nat.{ℕ}
use mathlib.Core.List.{append_assoc}
use mathlib.Core.Path.{sym, ◌≡◌, refl, ap, ◌∙◌}
use mathlib.Core.Logic.{◌≢◌, inl, inr}
use mathlib.Core.List.{List, [], ◌∷◌, ◌++◌, cons-ne-nil}
use native.Mathlib.Omega.{arith}

abbrev pub prepend : ℕ → List Text → List Text
prepend x [] = (x ∷ []) ∷ []
prepend x (p ∷ ps) = (x ∷ p) ∷ ps

abbrev pub split_on : ℕ → Text → List Text
split_on c [] = [] ∷ []
split_on c (x ∷ s) = let rest = split_on c s in if x == c then [] ∷ rest else prepend x rest

abbrev pub join : ℕ → List Text → Text
join c [] = []
join c (p ∷ []) = p
join c (p ∷ q ∷ ps) = p ++ c ∷ join c (q ∷ ps)

pub split_on-ne-nil : (c : ℕ) (s : Text) → split_on c s ≢ []
split_on-ne-nil c [] = cons-ne-nil _ _
split_on-ne-nil c (x ∷ s) = ground (arith, split_on-ne-nil c s)

pub split_on-Lacks : (c : ℕ) (s : Text) → Lacks c s → split_on c s ≡ s ∷ []
split_on-Lacks c [] h = refl
split_on-Lacks c (x ∷ s) (hx, h) = ground (arith, split_on-Lacks c s h)

pub split_on_cons : (c : ℕ) (s t : Text) → Lacks c s → split_on c (s ++ c ∷ t) ≡ s ∷ split_on c t
split_on_cons c [] t h = ground arith
split_on_cons c (x ∷ s) t (hx, h) = ground (arith, split_on_cons c s t h)

join-prepend : (c x : ℕ) (ps : List Text) → ps ≢ [] → join c (prepend x ps) ≡ x ∷ join c ps
join-prepend c x [] h = absurd (h refl)
join-prepend c x (p ∷ []) h = refl
join-prepend c x (p ∷ q ∷ ps) h = refl

join_empty : (c : ℕ) (ps : List Text) → ps ≢ [] → join c ([] ∷ ps) ≡ c ∷ join c ps
join_empty c [] h = absurd (h refl)
join_empty c (p ∷ ps) h = refl

-- Joining the parts of a split gives the text back.
pub join-split_on : (c : ℕ) (s : Text) → join c (split_on c s) ≡ s
join-split_on c [] = refl
join-split_on c (x ∷ s) = ground (
  arith,
  join-prepend c x (split_on c s) (split_on-ne-nil c s),
  join_empty c (split_on c s) (split_on-ne-nil c s),
  join-split_on c s,
)

-- Splitting a join gives the parts back, if there is one and none holds the separator.
pub split_on-join :
    (c : ℕ) (ps : List Text) → ps ≢ [] → All (Lacks c) ps → split_on c (join c ps) ≡ ps
split_on-join c [] h _ = absurd (h refl)
split_on-join c (p ∷ []) h (hp, _) = split_on-Lacks c p hp
split_on-join c (p ∷ q ∷ ps) h (hp, hs) =
    split_on_cons c p (join c (q ∷ ps)) hp
    ∙ ap (λ r. p ∷ r) (split_on-join c (q ∷ ps) (cons-ne-nil q ps) hs)

prepend-All : (c x : ℕ) (ps : List Text) → x ≢ c → All (Lacks c) ps → All (Lacks c) (prepend x ps)
prepend-All c x [] h hs = ((h, tt), tt)
prepend-All c x (p ∷ ps) h (hp, hs) = ((h, hp), hs)

-- Each part lacks the separator.
pub split_on-All : (c : ℕ) (s : Text) → All (Lacks c) (split_on c s)
split_on-All c [] = (tt, tt)
split_on-All c (x ∷ s) = elim (Bool-cases (x == c)) [
  | inl t ↦ rw t (tt, split_on-All c s)
  | inr f ↦ rw f (prepend-All c x (split_on c s) (ground arith) (split_on-All c s))
]

prepend-append : (x : ℕ) (ps qs : List Text) → ps ≢ [] → prepend x (ps ++ qs) ≡ prepend x ps ++ qs
prepend-append x [] qs h = absurd (h refl)
prepend-append x (p ∷ ps) qs h = refl

-- A split goes apart at a separator.
pub split_on-append_cons :
    (c : ℕ) (s t : Text) → split_on c (s ++ c ∷ t) ≡ split_on c s ++ split_on c t
split_on-append_cons c [] t = ground arith
split_on-append_cons c (x ∷ s) t = elim (Bool-cases (x == c)) [
  | inl e ↦ rw e (ap (λ r. [] ∷ r) (split_on-append_cons c s t))
  | inr f ↦ rw f (
      rw (split_on-append_cons c s t)
        (prepend-append x (split_on c s) (split_on c t) (split_on-ne-nil c s)))
]

pub join_snoc : (c : ℕ) (ps : List Text) → ps ≢ [] → join c (ps ++ [] ∷ []) ≡ join c ps ++ c ∷ []
join_snoc c [] h = absurd (h refl)
join_snoc c (p ∷ []) h = refl
join_snoc c (p ∷ q ∷ ps) h =
    ap (λ r. p ++ c ∷ r) (join_snoc c (q ∷ ps) (cons-ne-nil q ps))
    ∙ sym (append_assoc p (c ∷ join c (q ∷ ps)) (c ∷ []))
