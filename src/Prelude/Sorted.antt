-- ===== src/Prelude/Sorted.antt =====
-- `sorted(set(xs))` on numbers: insertion without repetition.
use Prim.Native.Nat.{ℕ, ◌<◌}
use mathlib.Core.Path.{◌≡◌, refl}
use mathlib.Core.Bool.{◌||◌}
use mathlib.Core.List.{List, [], ◌∷◌}
use native.Mathlib.Omega.{arith}
use native.Mathlib.Decide.{dec_lt}
use wudup.Prelude.Tests.{◌==◌, nat_eq, ltb, if◌then◌else◌}
use wudup.Prelude.Lists.{All, contains}

abbrev pub insert_sorted : ℕ → List ℕ → List ℕ
insert_sorted n [] = n ∷ []
insert_sorted n (x ∷ xs) =
    let rest = insert_sorted n xs in
    if n == x then x ∷ xs else if ltb n x then n ∷ (x ∷ xs) else x ∷ rest

abbrev pub sorted_set : List ℕ → List ℕ
sorted_set [] = []
sorted_set (x ∷ xs) = insert_sorted x (sorted_set xs)

-- Strictly ascending.
abbrev pub IsAscending : List ℕ → Type 0
IsAscending [] = Unit
IsAscending (x ∷ xs) = All (λ y. x < y) xs × IsAscending xs

insert_sorted-All :
    (P : ℕ → Type 0) (n : ℕ) (xs : List ℕ) → P n → All P xs → All P (insert_sorted n xs)
insert_sorted-All P n [] hn h = (hn, tt)
insert_sorted-All P n (x ∷ xs) hn (hx, h) = ground (arith, insert_sorted-All P n xs hn h)

All-lt_trans : (n x : ℕ) (xs : List ℕ) → n < x → All (λ y. x < y) xs → All (λ y. n < y) xs
All-lt_trans n x [] h _ = tt
All-lt_trans n x (y ∷ xs) h (hy, hs) = (omega arith, All-lt_trans n x xs h hs)

insert_sorted-IsAscending :
    (n : ℕ) (xs : List ℕ) → IsAscending xs → IsAscending (insert_sorted n xs)
insert_sorted-IsAscending n [] h = (tt, tt)
insert_sorted-IsAscending n (x ∷ xs) (hx, h) = elim (dec_lt n x) [
  | yes lt ↦ ground (arith, All-lt_trans n x xs lt hx)
  | no ge ↦ ground (
    arith,
    insert_sorted-IsAscending n xs h,
    λ (p : x < n). insert_sorted-All (λ y. x < y) n xs p hx,
  )
]

pub sorted_set-IsAscending : (xs : List ℕ) → IsAscending (sorted_set xs)
sorted_set-IsAscending [] = tt
sorted_set-IsAscending (x ∷ xs) =
    insert_sorted-IsAscending x (sorted_set xs) (sorted_set-IsAscending xs)

pub sorted_set-All : (P : ℕ → Type 0) (xs : List ℕ) → All P xs → All P (sorted_set xs)
sorted_set-All P [] h = tt
sorted_set-All P (x ∷ xs) (hx, h) = insert_sorted-All P x (sorted_set xs) hx (sorted_set-All P xs h)

insert_sorted-contains :
    (n m : ℕ) (xs : List ℕ) → contains (insert_sorted n xs) m ≡ (n == m || contains xs m)
insert_sorted-contains n m [] = refl
insert_sorted-contains n m (x ∷ xs) = ground (arith, insert_sorted-contains n m xs)

pub sorted_set-contains : (xs : List ℕ) (m : ℕ) → contains (sorted_set xs) m ≡ contains xs m
sorted_set-contains [] m = refl
sorted_set-contains (x ∷ xs) m =
    ground (arith, insert_sorted-contains x m (sorted_set xs), sorted_set-contains xs m)
