-- ===== src/Skips/Newest.antt =====
-- The order of stored skips, newest first.
use wudup.Prelude.{
  sym, subst, ap, Text, text_eq, ◌≡◌, refl, ◌∙◌, Bool, true, false, List, [], ◌∷◌, filter,
  if◌then◌else◌, Bool-cases, inl, inr, arith, All, not, ◌&&◌,
}
use mathlib.Core.List.{Permᴰ}
use mathlib.Core.List.Permᴰ
use wudup.Matching.Lines.{text_leb}
use wudup.Matching.Lines.Laws.{text_leb_refl, text_leb_total, text_leb_trans}
use wudup.Skips.{ReleaseSkip, older}
use wudup.Skips.Groups.{insert_newest, newest_first, skips_by_service, get_or-grouped, is_of}
use wudup.Prelude.Dict.{get_or}

text_leb_antisym : (s t : Text) → text_leb s t ≡ true → text_leb t s ≡ true → s ≡ t
unfolding text_leb
text_leb_antisym [] [] h g = refl
text_leb_antisym [] (d ∷ t) h g = cc
text_leb_antisym (c ∷ s) [] h g = cc
text_leb_antisym (c ∷ s) (d ∷ t) h g = ground (arith, text_leb_antisym s t)

older_asym : (a b : ReleaseSkip) → older a b ≡ true → older b a ≡ false
unfolding older
older_asym a b h = ground (
  arith,
  h,
  text_leb_total b.created_at a.created_at,
  text_leb_refl a.created_at,
  text_eq.test_iff a.created_at b.created_at,
  text_eq.test_iff b.created_at a.created_at,
)

older_trans : (a b c : ReleaseSkip) → older a b ≡ false → older b c ≡ false → older a c ≡ false
unfolding older
older_trans a b c h g = ground (
  arith,
  h,
  g,
  text_leb_trans c.created_at b.created_at a.created_at,
  text_leb_antisym b.created_at a.created_at,
  text_leb_antisym c.created_at b.created_at,
  text_eq.test_iff a.created_at b.created_at,
  text_eq.test_iff b.created_at c.created_at,
  text_eq.test_iff a.created_at c.created_at,
)

-- No skip is older than a later one.
abbrev pub IsNewestFirst : List ReleaseSkip → Type 0
IsNewestFirst [] = Unit
IsNewestFirst (x ∷ xs) = All (λ y. older x y ≡ false) xs × IsNewestFirst xs

insert_newest-All :
    (P : ReleaseSkip → Type 0) (s : ReleaseSkip) (xs : List ReleaseSkip)
    → P s
    → All P xs
    → All P (insert_newest s xs)
unfolding insert_newest
insert_newest-All P s [] h g = (h, tt)
insert_newest-All P s (x ∷ xs) h (hx, g) = ground (arith, insert_newest-All P s xs h g)

All-older_trans :
    (s x : ReleaseSkip) (xs : List ReleaseSkip)
    → older s x ≡ false
    → All (λ y. older x y ≡ false) xs
    → All (λ y. older s y ≡ false) xs
All-older_trans s x [] h g = tt
All-older_trans s x (y ∷ ys) h (hy, g) = (older_trans s x y h hy, All-older_trans s x ys h g)

insert_newest-IsNewestFirst :
    (s : ReleaseSkip) (xs : List ReleaseSkip)
    → IsNewestFirst xs
    → IsNewestFirst (insert_newest s xs)
unfolding insert_newest
insert_newest-IsNewestFirst s [] h = (tt, tt)
insert_newest-IsNewestFirst s (x ∷ xs) (hx, h) = elim (Bool-cases (older s x)) [
  | inl e ↦ rw e (
    insert_newest-All (λ y. older x y ≡ false) s xs (older_asym s x e) hx,
    insert_newest-IsNewestFirst s xs h,
  )
  | inr f ↦ rw f ((f, All-older_trans s x xs f hx), (hx, h))
]

pub newest_first-IsNewestFirst : (skips : List ReleaseSkip) → IsNewestFirst (newest_first skips)
unfolding newest_first
newest_first-IsNewestFirst [] = tt
newest_first-IsNewestFirst (s ∷ skips) =
    insert_newest-IsNewestFirst s (newest_first skips) (newest_first-IsNewestFirst skips)

insert_newest-Perm : (s : ReleaseSkip) (xs : List ReleaseSkip) → Permᴰ (s ∷ xs) (insert_newest s xs)
unfolding insert_newest
insert_newest-Perm s [] = Permᴰ.refl (s ∷ [])
insert_newest-Perm s (x ∷ xs) = elim (Bool-cases (older s x)) [
  | inl e ↦ rw e (Permᴰ.trans (Permᴰ.swap refl refl) (Permᴰ.cons refl (insert_newest-Perm s xs)))
  | inr f ↦ rw f (Permᴰ.refl (s ∷ x ∷ xs))
]

newest_first-Perm : (skips : List ReleaseSkip) → Permᴰ skips (newest_first skips)
unfolding newest_first
newest_first-Perm [] = Permᴰ.nil
newest_first-Perm (s ∷ skips) =
    Permᴰ.trans (Permᴰ.cons refl (newest_first-Perm skips))
      (insert_newest-Perm s (newest_first skips))

insert_newest-filter :
    (p : ReleaseSkip → Bool) (s : ReleaseSkip) (xs : List ReleaseSkip)
    → All (λ y. older s y ≡ false) xs
    → insert_newest s (filter p xs) ≡ s ∷ filter p xs
unfolding insert_newest
insert_newest-filter p s [] h = refl
insert_newest-filter p s (x ∷ xs) (hx, h) = ground (arith, hx, insert_newest-filter p s xs h)

filter-insert_newest :
    (p : ReleaseSkip → Bool) (s : ReleaseSkip) (xs : List ReleaseSkip)
    → IsNewestFirst xs
    → filter p (insert_newest s xs) ≡ (if p s then insert_newest s (filter p xs) else filter p xs)
unfolding insert_newest
filter-insert_newest p s [] h = ground arith
filter-insert_newest p s (x ∷ xs) (hx, h) = elim (Bool-cases (older s x)) [
  | inl e ↦ ground (arith, e, filter-insert_newest p s xs h)
  | inr f ↦ ground (arith, f, insert_newest-filter p s xs (All-older_trans s x xs f hx))
]

pub filter-newest_first :
    (p : ReleaseSkip → Bool) (skips : List ReleaseSkip)
    → filter p (newest_first skips) ≡ newest_first (filter p skips)
unfolding newest_first
filter-newest_first p [] = refl
filter-newest_first p (s ∷ skips) =
    filter-insert_newest p s (newest_first skips) (newest_first-IsNewestFirst skips)
    ∙ ground (arith, filter-newest_first p skips)

-- Two skips of one time and identifier.
abbrev pub is_even : ReleaseSkip → ReleaseSkip → Bool
is_even a s = not (older a s) && not (older s a)

filter-is_even-All :
    (a s : ReleaseSkip) (xs : List ReleaseSkip)
    → is_even a s ≡ true
    → All (λ y. older s y ≡ false) (filter (is_even a) xs)
filter-is_even-All a s [] h = tt
filter-is_even-All a s (x ∷ xs) h =
    ground (arith, h, older_trans s a x, filter-is_even-All a s xs h)

insert_newest-cons :
    (s : ReleaseSkip) (xs : List ReleaseSkip)
    → All (λ y. older s y ≡ false) xs
    → insert_newest s xs ≡ s ∷ xs
unfolding insert_newest
insert_newest-cons s [] h = refl
insert_newest-cons s (x ∷ xs) (hx, h) = rw hx refl

newest_first-is_even :
    (a : ReleaseSkip) (xs : List ReleaseSkip)
    → newest_first (filter (is_even a) xs) ≡ filter (is_even a) xs
unfolding newest_first
newest_first-is_even a [] = refl
newest_first-is_even a (x ∷ xs) = elim (Bool-cases (is_even a x)) [
  | inl e ↦
      rw (e, newest_first, newest_first-is_even a xs)
        (insert_newest-cons x (filter (is_even a) xs) (filter-is_even-All a x xs e))
  | inr f ↦ rw f (newest_first-is_even a xs)
]

-- The skips that are kept under a service are those with its key, each as often as it is given, and
-- none of them is older than a later one; those of one time and identifier keep their order. A
-- service without a skip has none.
pub skips_by_service_lem :
    (skips : List ReleaseSkip) (service_key : Text)
    → Permᴰ (filter (is_of service_key) skips) (get_or (skips_by_service skips) service_key [])
      × IsNewestFirst (get_or (skips_by_service skips) service_key [])
      × ((a : ReleaseSkip)
          → filter (is_even a) (get_or (skips_by_service skips) service_key [])
            ≡ filter (is_even a) (filter (is_of service_key) skips))
unfolding skips_by_service
skips_by_service_lem skips k =
    let found = filter (is_of k) skips in
    let e : get_or (skips_by_service skips) k [] ≡ newest_first found =
      get_or-grouped [] (newest_first skips) k ∙ filter-newest_first (is_of k) skips in
    (
      subst (λ xs. Permᴰ found xs) (sym e) (newest_first-Perm found),
      subst IsNewestFirst (sym e) (newest_first-IsNewestFirst found),
      λ a.
          ap (filter (is_even a)) e
          ∙ (filter-newest_first (is_even a) found ∙ newest_first-is_even a found),
    )
