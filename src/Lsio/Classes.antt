-- ===== src/Lsio/Classes.antt =====
-- What the classification of an update says of the two versions.
use wudup.Prelude.{
  Text, text_eq, ◌==◌, ◌≡◌, ◌≢◌, ◌↔◌, sym, subst, ◌∙◌, inl, inr, Bool, true, not, ◌&&◌, [], arith,
  if◌then◌else◌,
}
use wudup.Prelude.Unicode.{Unicode}
use wudup.Lsio.{
  parse_lsio_tag, classify_lsio_update, LsioTagParts, first_text, trusted_upstream, is_lsio_repo,
  classify_parts, upstream_update, image_rebuild,
}
use wudup.Lsio.Versions.{
  IsLsioRepo, IsVersion, IsTarget, is_lsio_repo_lem, trusted_upstream-IsVersion,
  IsVersion-trusted_upstream, trusted_upstream-is_release, target_version, target_version-given,
  target_version-IsTarget, IsTarget-target_version,
}

module _ (u : Unicode) where
  -- The conditions under which two tags of an image are compared at all.
  is_comparable : Text → Text → LsioTagParts → LsioTagParts → Bool
  is_comparable image_repo upstream_version current target =
      is_lsio_repo u image_repo
      && not (trusted_upstream u current == [])
      && not (target_version u target upstream_version == [])
      && (current.arch == target.arch)
      && (current.branch == target.branch)

  classify_parts_lem :
      (image_repo upstream_version : Text) (current target : LsioTagParts)
      → let c = classify_parts u image_repo upstream_version current target in
        let comparable = is_comparable image_repo upstream_version current target in
        let same = trusted_upstream u current == target_version u target upstream_version in
        ((c.change_type ≡ upstream_update) ↔ ((comparable && not same) ≡ true))
        × ((c.change_type ≡ image_rebuild) ↔ ((comparable && same) ≡ true))
  unfolding classify_parts is_comparable target_version
  classify_parts_lem image_repo upstream_version current target =
      ground (
        arith,
        trusted_upstream-is_release u current,
        target_version-given u target upstream_version,
      )

  -- The repository is one of linuxserver.io, and the tags have one architecture and one branch.
  abbrev pub IsComparable : Text → LsioTagParts → LsioTagParts → Type 0
  IsComparable image_repo current target =
      IsLsioRepo u image_repo × (current.arch ≡ target.arch) × (current.branch ≡ target.branch)

  -- The versions that are known of the two tags.
  abbrev pub AreVersions : LsioTagParts → LsioTagParts → Text → Text → Text → Type 0
  AreVersions current target upstream_version v w =
      IsVersion u current v × IsTarget u target upstream_version w

  is_comparable-versions :
      (image_repo upstream_version : Text) (current target : LsioTagParts)
      → is_comparable image_repo upstream_version current target ≡ true
      → IsComparable image_repo current target
        × AreVersions current target upstream_version
            (trusted_upstream u current)
            (target_version u target upstream_version)
  unfolding is_comparable
  is_comparable-versions image_repo upstream_version current target h = (
    (
      (is_lsio_repo_lem u image_repo).0 (ground arith),
      ground (arith, text_eq.test_iff current.arch target.arch),
      ground (arith, text_eq.test_iff current.branch target.branch),
    ),
    (
      trusted_upstream-IsVersion u current (λ e. ground arith),
      target_version-IsTarget u target upstream_version (λ e. ground arith),
    ),
  )

  versions-is_comparable :
      (image_repo upstream_version v w : Text) (current target : LsioTagParts)
      → IsComparable image_repo current target
      → AreVersions current target upstream_version v w
      → (is_comparable image_repo upstream_version current target ≡ true)
        × (trusted_upstream u current ≡ v)
        × (target_version u target upstream_version ≡ w)
  unfolding is_comparable
  versions-is_comparable image_repo upstream_version v w current target (r, a, b) (c, t) =
      let ev = IsVersion-trusted_upstream u current v c in
      let ew = IsTarget-target_version u target upstream_version w t in
      let nv : v ≢ [] = c.2 in
      let nw : w ≢ [] = elim t [ inl x ↦ x.2 | inr x ↦ x.2 ] in
      let l = (is_lsio_repo_lem u image_repo).1 r in
      (
        ground (
          arith,
          ev,
          ew,
          nv,
          nw,
          l,
          (text_eq.test_iff current.arch target.arch).1 a,
          (text_eq.test_iff current.branch target.branch).1 b,
        ),
        ev,
        ew,
      )

  -- An update counts as one of the upstream program exactly if the repository is one of linuxserver.io,
  -- both tags have one architecture and one branch, and two different versions are known of them: that
  -- of the current tag, which names a release, and that of the target tag, or the one that is given
  -- beside it where the target tag names no release. It counts as a rebuild of the image exactly if the
  -- same holds with one version for both.
  pub classify_lsio_update_lem :
      (image_repo current_tag target_tag lsio_tag upstream_version : Text)
      → let c =
          classify_lsio_update u image_repo current_tag target_tag lsio_tag upstream_version in
        let current = parse_lsio_tag u current_tag in
        let target = parse_lsio_tag u (if target_tag == [] then lsio_tag else target_tag) in
        ((c.change_type ≡ upstream_update) ↔ (
          IsComparable image_repo current target
          × ((v : Text) × ((w : Text) × (AreVersions current target upstream_version v w
                  × (v ≢ w))))))
        × ((c.change_type ≡ image_rebuild) ↔ (
            IsComparable image_repo current target
            × ((v : Text) × AreVersions current target upstream_version v v)))
  unfolding classify_lsio_update first_text
  classify_lsio_update_lem image_repo current_tag target_tag lsio_tag upstream_version =
      let current = parse_lsio_tag u current_tag in
      let target = parse_lsio_tag u (if target_tag == [] then lsio_tag else target_tag) in
      let (upstream, rebuild) = classify_parts_lem image_repo upstream_version current target in
      let found = is_comparable-versions image_repo upstream_version current target in
      let same =
        text_eq.test_iff (trusted_upstream u current) (target_version u target upstream_version) in
      (
        (
          λ h.
              let b = upstream.0 h in
              let (s, vs) = found (ground (arith, b)) in
              (s, (_, (_, (vs, λ e. ground (arith, b, same.1 e))))),
          λ (s, (v, (w, (vs, n)))).
              let (k, ev, ew) =
                versions-is_comparable image_repo upstream_version v w current target s vs in
              let ne : trusted_upstream u current ≢ target_version u target upstream_version =
                λ e. n (sym ev ∙ (e ∙ ew)) in
              upstream.1 (ground (arith, k, same.0, ne)),
        ),
        (
          λ h.
              let b = rebuild.0 h in
              let (s, vs) = found (ground (arith, b)) in
              let e = same.0 (ground (arith, b)) in
              (s, (_, (vs.0, subst (IsTarget u target upstream_version) (sym e) vs.1))),
          λ (s, (v, vs)).
              let (k, ev, ew) =
                versions-is_comparable image_repo upstream_version v v current target s vs in
              rebuild.1 (ground (arith, k, same.1 (ev ∙ sym ew))),
        ),
      )
