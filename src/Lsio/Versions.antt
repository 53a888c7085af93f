-- ===== src/Lsio/Versions.antt =====
-- The versions that are known of the tags of a linuxserver.io image (`_trusted_upstream`, `is_lsio_repo`).
use wudup.Prelude.{
  Text, codes, text_eq, ◌==◌, ◌≡◌, ◌≢◌, ◌↔◌, refl, sym, ap, subst, ◌∙◌, ◌⊎◌, inl, inr, Bool, true,
  false, not, ◌||◌, List, [], ◌∷◌, ◌++◌, arith, Bool-cases,
}
use wudup.Prelude.Unicode.{Unicode}
use wudup.Prelude.Split.{split_on}
use wudup.Lsio.{
  LsioTagKind, LsioTagParts, build, version, on_branch, pseudo_semver, unknown, is_release,
  first_text, is_lsio_part, any_but_last, without_v, normalize_lsio_version, trusted_upstream,
  is_lsio_repo,
}

-- A list with such an element before its last one.
abbrev pub HasButLast : (Text → Bool) → List Text → Type 0
HasButLast p xs =
    (before : List Text) × ((x : Text) × ((y : Text) × ((after : List Text) × ((xs
              ≡ before ++ x ∷ y ∷ after)
            × (p x ≡ true)))))

any_but_last-has : (p : Text → Bool) (xs : List Text) → any_but_last p xs ≡ true → HasButLast p xs
unfolding any_but_last
any_but_last-has p [] h = cc
any_but_last-has p (x ∷ []) h = cc
any_but_last-has p (x ∷ y ∷ xs) h = elim (Bool-cases (p x)) [
  | inl e ↦ ([], (x, (y, (xs, (refl, e)))))
  | inr f ↦
      let (before, (a, (b, (after, (e, t))))) = any_but_last-has p (y ∷ xs) (ground arith) in
      (x ∷ before, (a, (b, (after, (ap (λ r. x ∷ r) e, t)))))
]

any_but_last-of :
    (p : Text → Bool) (before : List Text) (x y : Text) (after : List Text)
    → p x ≡ true
    → any_but_last p (before ++ x ∷ y ∷ after) ≡ true
unfolding any_but_last
any_but_last-of p [] x y after h = rw h refl
any_but_last-of p (a ∷ []) x y after h = ground (arith, any_but_last-of p [] x y after h)
any_but_last-of p (a ∷ b ∷ before) x y after h =
    ground (arith, any_but_last-of p (b ∷ before) x y after h)

module _ (u : Unicode) where
  -- A part of the repository before the last one is `linuxserver` or `linuxserver.io`.
  abbrev pub IsLsioRepo : Text → Type 0
  IsLsioRepo image_repo =
      HasButLast (λ x. x == codes "linuxserver" || x == codes "linuxserver.io")
        (split_on b'/' (u.lower image_repo))

  -- The tag names a release, of this version.
  abbrev pub IsVersion : LsioTagParts → Text → Type 0
  IsVersion parts v =
      ((parts.kind ≡ build) ⊎ ((parts.kind ≡ version) ⊎ (parts.kind ≡ pseudo_semver)))
      × (normalize_lsio_version u parts.upstream_version ≡ v)
      × (v ≢ [])

  -- The version of the target is that of its tag, or else the one that is given beside it.
  abbrev pub IsTarget : LsioTagParts → Text → Text → Type 0
  IsTarget target upstream_version v =
      IsVersion target v
      ⊎ (((x : Text) → ¬ IsVersion target x)
          × (normalize_lsio_version u upstream_version ≡ v)
          × (v ≢ []))

  pub is_lsio_repo_lem :
      (image_repo : Text) → (is_lsio_repo u image_repo ≡ true) ↔ IsLsioRepo image_repo
  unfolding is_lsio_repo is_lsio_part
  is_lsio_repo_lem image_repo = (
    any_but_last-has _ _,
    λ (before, (x, (y, (after, (e, h))))).
        ap (any_but_last _) e ∙ any_but_last-of _ before x y after h,
  )

  is_release-kind :
      (kind : LsioTagKind)
      → is_release kind ≡ true
      → (kind ≡ build) ⊎ ((kind ≡ version) ⊎ (kind ≡ pseudo_semver))
  unfolding is_release
  is_release-kind build h = inl refl
  is_release-kind version h = inr (inl refl)
  is_release-kind pseudo_semver h = inr (inr refl)
  is_release-kind on_branch h = cc
  is_release-kind unknown h = cc

  kind-is_release :
      (kind : LsioTagKind)
      → (kind ≡ build) ⊎ ((kind ≡ version) ⊎ (kind ≡ pseudo_semver))
      → is_release kind ≡ true
  unfolding is_release
  kind-is_release kind (inl e) = ap is_release e
  kind-is_release kind (inr (inl e)) = ap is_release e
  kind-is_release kind (inr (inr e)) = ap is_release e

  pub trusted_upstream-IsVersion :
      (parts : LsioTagParts)
      → trusted_upstream u parts ≢ []
      → IsVersion parts (trusted_upstream u parts)
  unfolding trusted_upstream
  trusted_upstream-IsVersion parts n = elim (Bool-cases (is_release parts.kind)) [
    | inl r ↦ (is_release-kind parts.kind r, rw r refl, n)
    | inr f ↦ absurd (n (rw f refl))
  ]

  pub IsVersion-trusted_upstream :
      (parts : LsioTagParts) (v : Text) → IsVersion parts v → trusted_upstream u parts ≡ v
  unfolding trusted_upstream
  IsVersion-trusted_upstream parts v (k, e, n) = rw (kind-is_release parts.kind k) e

  normalize-nil : normalize_lsio_version u [] ≡ []
  unfolding normalize_lsio_version without_v
  normalize-nil = rw (u.lower_ascii [] tt) refl

  pub trusted_upstream-is_release :
      (parts : LsioTagParts)
      → (trusted_upstream u parts == []) ≡ false
      → is_release parts.kind ≡ true
  unfolding trusted_upstream
  trusted_upstream-is_release parts h = elim (Bool-cases (is_release parts.kind)) [
    | inl r ↦ r
    | inr f ↦ let e : trusted_upstream u parts ≡ [] = rw f refl in ground (arith, e, h)
  ]

  unfoldable pub target_version : LsioTagParts → Text → Text
  target_version target upstream_version =
      first_text (trusted_upstream u target) (normalize_lsio_version u upstream_version)

  pub target_version-given :
      (target : LsioTagParts) (upstream_version : Text)
      → (target_version target upstream_version == []) ≡ false
      → (is_release target.kind || not (upstream_version == [])) ≡ true
  unfolding target_version first_text
  target_version-given target upstream_version h =
      elim (Bool-cases (trusted_upstream u target == [])) [
        | inl t ↦ elim (Bool-cases (upstream_version == [])) [
          | inl e ↦
              let n : normalize_lsio_version u upstream_version ≡ [] =
                ap (normalize_lsio_version u) ((text_eq.test_iff upstream_version []).0 e)
                ∙ normalize-nil in
              ground (arith, t, n, h)
          | inr f ↦ ground (arith, f)
        ]
        | inr f ↦ ground (arith, trusted_upstream-is_release target f)
      ]

  pub target_version-IsTarget :
      (target : LsioTagParts) (upstream_version : Text)
      → target_version target upstream_version ≢ []
      → IsTarget target upstream_version (target_version target upstream_version)
  unfolding target_version first_text
  target_version-IsTarget target upstream_version n =
      elim (Bool-cases (trusted_upstream u target == [])) [
        | inl t ↦
            let e : trusted_upstream u target ≡ [] = (text_eq.test_iff _ []).0 t in
            inr (λ x h. h.2 (sym (IsVersion-trusted_upstream target x h) ∙ e), rw t refl, n)
        | inr f ↦
            let e : target_version target upstream_version ≡ trusted_upstream u target =
              rw f refl in
            inl (
              subst (IsVersion target) (sym e) (trusted_upstream-IsVersion target (λ q. n (e ∙ q))))
      ]

  pub IsTarget-target_version :
      (target : LsioTagParts) (upstream_version v : Text)
      → IsTarget target upstream_version v
      → target_version target upstream_version ≡ v
  unfolding target_version first_text
  IsTarget-target_version target upstream_version v (inl h) =
      ground (arith, h.2, IsVersion-trusted_upstream target v h)
  IsTarget-target_version target upstream_version v (inr (none, e, n)) =
      elim (Bool-cases (trusted_upstream u target == [])) [
        | inl t ↦ rw t e
        | inr f ↦ absurd (
            none (trusted_upstream u target)
              (trusted_upstream-IsVersion target (λ q. ground (arith, f, q))))
      ]
