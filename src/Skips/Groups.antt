-- ===== src/Skips/Groups.antt =====
-- The stored skips by service (`skips_by_service` of src/wudup/release_skips.py).
use wudup.Prelude.{
  Text, text_eq, ◌==◌, ◌≡◌, refl, ◌∙◌, sym, ap, true, false, Bool, List, [], ◌∷◌, ◌++◌,
  append_assoc, append-nil, filter, if◌then◌else◌, Bool-cases, inl, inr,
}
use wudup.Prelude.Dict.{Dict, get_or, put, get_or-put}
use wudup.Skips.{ReleaseSkip, older}

-- `sorted(..., reverse=True)` keeps the order of skips with the same time and identifier.
unfoldable pub insert_newest : ReleaseSkip → List ReleaseSkip → List ReleaseSkip
insert_newest s [] = s ∷ []
insert_newest s (x ∷ xs) =
    let rest = insert_newest s xs in if older s x then x ∷ rest else s ∷ x ∷ xs

unfoldable pub newest_first : List ReleaseSkip → List ReleaseSkip
newest_first [] = []
newest_first (s ∷ skips) = insert_newest s (newest_first skips)

unfoldable pub grouped :
    Dict Text (List ReleaseSkip) → List ReleaseSkip → Dict Text (List ReleaseSkip)
grouped groups [] = groups
grouped groups (s ∷ skips) =
    grouped (put groups s.service_key (get_or groups s.service_key [] ++ s ∷ [])) skips

unfoldable pub skips_by_service : List ReleaseSkip → Dict Text (List ReleaseSkip)
skips_by_service skips = grouped [] (newest_first skips)

abbrev pub is_of : Text → ReleaseSkip → Bool
is_of service_key s = s.service_key == service_key

only_if : Bool → ReleaseSkip → List ReleaseSkip
only_if b s = if b then s ∷ [] else []

entry-put :
    (groups : Dict Text (List ReleaseSkip)) (j k : Text) (s : ReleaseSkip)
    → get_or (put groups j (get_or groups j [] ++ s ∷ [])) k []
      ≡ get_or groups k [] ++ only_if (j == k) s
unfolding only_if
entry-put groups j k s =
    get_or-put groups j k (get_or groups j [] ++ s ∷ []) [] ∙ (elim (Bool-cases (j == k)) [
      | inl e ↦ rw (e, ap (λ i. get_or groups i []) ((text_eq.test_iff j k).0 e)) refl
      | inr f ↦ rw f (sym (append-nil (get_or groups k [])))
    ])

only_if-append :
    (b : Bool) (xs skips : List ReleaseSkip) (s : ReleaseSkip)
    → (xs ++ only_if b s) ++ skips ≡ xs ++ (if b then s ∷ skips else skips)
unfolding only_if
only_if-append true xs skips s = append_assoc xs (s ∷ []) skips
only_if-append false xs skips s = append_assoc xs [] skips

pub get_or-grouped :
    (groups : Dict Text (List ReleaseSkip)) (skips : List ReleaseSkip) (service_key : Text)
    → get_or (grouped groups skips) service_key []
      ≡ get_or groups service_key [] ++ filter (is_of service_key) skips
unfolding grouped
get_or-grouped groups [] k = sym (append-nil (get_or groups k []))
get_or-grouped groups (s ∷ skips) k =
    get_or-grouped (put groups s.service_key (get_or groups s.service_key [] ++ s ∷ [])) skips k
    ∙ (ap (λ xs. xs ++ filter (is_of k) skips) (entry-put groups s.service_key k s)
        ∙ only_if-append (s.service_key == k) (get_or groups k []) (filter (is_of k) skips) s)
