-- ===== src/Prelude/Dict.antt =====
-- Python's `dict` as an association list in the order of insertion.
use mathlib.Core.Path.{◌≡◌, refl}
use mathlib.Core.Option.{Option, none, some}
use mathlib.Core.List.{List, [], ◌∷◌}
use mathlib.Core.Bool.{Bool, true, false, ◌||◌}
use mathlib.Core.Logic.{◌≢◌, inl, inr}
use Prim.Native.Nat.{◌+◌, ◌≤◌}
use wudup.Prelude.Lists.{length}
use native.Mathlib.Omega.{arith}
use wudup.Prelude.Tests.{Bool-cases, Testable, ◌==◌, if◌then◌else◌}

abbrev pub Dict {ℓ κ} : Type ℓ → Type κ → Type (ℓ ⊔ κ)
Dict K V = List (K × V)

module _ {ℓ κ} {K : Type ℓ} {V : Type κ} ⦃t : Testable K⦄ where
  -- `d.get(k)`
  abbrev pub lookup : Dict K V → K → Option V
  lookup [] k = none
  lookup ((j, v) ∷ d) k = if j == k then some v else lookup d k

  -- `d.get(k, other)`
  abbrev pub get_or : Dict K V → K → V → V
  get_or [] k other = other
  get_or ((j, v) ∷ d) k other = if j == k then v else get_or d k other

  -- `d[k] = v`
  abbrev pub put : Dict K V → K → V → Dict K V
  put [] k v = (k, v) ∷ []
  put ((j, w) ∷ d) k v = if j == k then (j, v) ∷ d else (j, w) ∷ put d k v

  -- `d.pop(k, None)`
  abbrev pub pop : Dict K V → K → Dict K V
  pop [] k = []
  pop ((j, w) ∷ d) k = let rest = pop d k in if j == k then rest else (j, w) ∷ rest

  pub get_or-put :
      (d : Dict K V) (k j : K) (v other : V)
      → get_or (put d k v) j other ≡ (if k == j then v else get_or d j other)
  get_or-put [] k j v other = refl
  get_or-put ((i, w) ∷ d) k j v other =
      ground (arith, t.test_iff k j, t.test_iff i k, t.test_iff i j, get_or-put d k j v other)

  pub lookup-put :
      (d : Dict K V) (k j : K) (v : V)
      → lookup (put d k v) j ≡ (if k == j then some v else lookup d j)
  lookup-put [] k j v = refl
  lookup-put ((i, w) ∷ d) k j v =
      ground (arith, t.test_iff k j, t.test_iff i k, t.test_iff i j, lookup-put d k j v)

  pub lookup-pop :
      (d : Dict K V) (k j : K) → lookup (pop d k) j ≡ (if k == j then none else lookup d j)
  lookup-pop [] k j = ground arith
  lookup-pop ((i, w) ∷ d) k j =
      ground (arith, t.test_iff k j, t.test_iff i k, t.test_iff i j, lookup-pop d k j)

-- The keys of a dictionary are distinct.
module _ {ℓ κ} {K : Type ℓ} {V : Type κ} ⦃t : Testable K⦄ where
  abbrev pub has_key : Dict K V → K → Bool
  has_key [] k = false
  has_key ((j, n) ∷ d) k = j == k || has_key d k

  abbrev pub IsKeyed : Dict K V → Type 0
  IsKeyed [] = Unit
  IsKeyed ((k, n) ∷ d) = (has_key d k ≡ false) × IsKeyed d

  has_key-put :
      (d : Dict K V) (k : K) (n : V) (j : K) → has_key (put d k n) j ≡ (k == j || has_key d j)
  has_key-put [] k n j = refl
  has_key-put ((i, m) ∷ d) k n j =
      ground (arith, t.test_iff i k, t.test_iff i j, t.test_iff k j, has_key-put d k n j)

  pub put-IsKeyed : (d : Dict K V) (k : K) (n : V) → IsKeyed d → IsKeyed (put d k n)
  put-IsKeyed [] k n h = (refl, tt)
  put-IsKeyed ((i, m) ∷ d) k n (fresh, h) = elim (Bool-cases (i == k)) [
    | inl e ↦ rw e (fresh, h)
    | inr f ↦ rw f (
      ground (arith, f, fresh, t.test_iff i k, t.test_iff k i, has_key-put d k n i),
      put-IsKeyed d k n h,
    )
  ]

  pub get_or-missing : (d : Dict K V) (k : K) (n : V) → has_key d k ≡ false → get_or d k n ≡ n
  get_or-missing [] k n h = refl
  get_or-missing ((i, m) ∷ d) k n h = ground (arith, get_or-missing d k n)

  has_key-pop : (d : Dict K V) (k j : K) → has_key d j ≡ false → has_key (pop d k) j ≡ false
  has_key-pop [] k j h = refl
  has_key-pop ((i, m) ∷ d) k j h = ground (arith, has_key-pop d k j)

  pub pop-IsKeyed : (d : Dict K V) (k : K) → IsKeyed d → IsKeyed (pop d k)
  pop-IsKeyed [] k h = tt
  pop-IsKeyed ((i, m) ∷ d) k (fresh, h) = elim (Bool-cases (i == k)) [
    | inl e ↦ rw e (pop-IsKeyed d k h)
    | inr f ↦ rw f (has_key-pop d k i fresh, pop-IsKeyed d k h)
  ]

  pub pop-missing : (d : Dict K V) (k : K) → has_key d k ≡ false → pop d k ≡ d
  pop-missing [] k h = refl
  pop-missing ((i, m) ∷ d) k h = ground (arith, pop-missing d k)

  length-pop_le : (d : Dict K V) (k : K) → length (pop d k) ≤ length d
  length-pop_le [] k = omega arith
  length-pop_le ((i, m) ∷ d) k = ground (arith, length-pop_le d k)

  pub length-pop : (d : Dict K V) (k : K) → has_key d k ≡ true → length (pop d k) + 1 ≤ length d
  length-pop [] k h = cc
  length-pop ((i, m) ∷ d) k h = ground (arith, length-pop d k, length-pop_le d k)

  pub length-put : (d : Dict K V) (k : K) (n : V) → length (put d k n) ≤ length d + 1
  length-put [] k n = omega arith
  length-put ((i, m) ∷ d) k n = ground (arith, length-put d k n)

  pub lookup-missing : (d : Dict K V) (k : K) → has_key d k ≡ false → lookup d k ≡ none
  lookup-missing [] k h = refl
  lookup-missing ((i, m) ∷ d) k h = ground (arith, lookup-missing d k)

  pub lookup-present : (d : Dict K V) (k : K) → has_key d k ≡ true → lookup d k ≢ none
  lookup-present [] k h e = cc
  lookup-present ((i, m) ∷ d) k h e = ground (arith, lookup-present d k)
