-- ===== src/Platforms/RoundTrip.antt =====
-- A platform that was parsed is read back from its printed value.
use mathlib.Core.Path.{ap₂}
use wudup.Prelude.{
  beq_refl, beq_ne, all-All, All-all, All-map, ℕ, Text, Lacks, ◌≡◌, ◌≢◌, refl, ap, ◌∙◌, inl, inr,
  ◌⊎◌, true, false, some, List, [], ◌∷◌, arith, nat_eq, text_eq, ◌==◌, All, All-append, map,
  if◌then◌else◌, text_beq_iff, ◌<◌,
}
use mathlib.Core.List.{cons-ne-nil}
use wudup.Prelude.Split.{split_on, split_on-join, join}
use wudup.Prelude.Unicode.{Unicode, strip, strip-ink, is_upper, ascii_lower, is_ascii_space}
use wudup.Platforms.{
  ImagePlatform, value, is_component_char, valid_component, unknown, checked, clean,
  platform_from_parts, from_split, parse_platform,
}

-- A component that was checked: not empty, of component characters, in lower case, and known.
pub record IsComponent (s : Text) : Type 0 where
  pub nonempty : s ≢ []
  pub chars : All (λ c. is_component_char c ≡ true) s
  pub lowered : All (λ c. is_upper c ≡ false) s
  pub known : s ≢ unknown

abbrev pub IsNormal : ImagePlatform → Type 0
IsNormal p =
    IsComponent p.os × IsComponent p.architecture × ((p.variant ≡ []) ⊎ IsComponent p.variant)

valid_component-All :
    (s : Text) → valid_component s ≡ true → (s ≢ []) × All (λ c. is_component_char c ≡ true) s
unfolding valid_component
valid_component-All [] h = cc
valid_component-All (c ∷ s) h = (cons-ne-nil c s, all-All is_component_char (c ∷ s) h)

valid-component : (s : Text) → IsComponent s → valid_component s ≡ true
unfolding valid_component
valid-component [] h = absurd (h.nonempty refl)
valid-component (c ∷ s) h = All-all is_component_char (c ∷ s) h.chars

component_char-ascii : (c : ℕ) → is_component_char c ≡ true → c < 128
unfolding is_component_char
component_char-ascii c h = ground arith

component_char-ink : (c : ℕ) → is_component_char c ≡ true → is_ascii_space c ≡ false
unfolding is_component_char
component_char-ink c h = ground arith

component_char-slash : (c : ℕ) → is_component_char c ≡ true → c ≢ b'/'
unfolding is_component_char
component_char-slash c h = ground arith

ascii_lower_same : (s : Text) → All (λ c. is_upper c ≡ false) s → map ascii_lower s ≡ s
ascii_lower_same [] h = refl
ascii_lower_same (c ∷ s) (hc, h) = ground (arith, ascii_lower_same s h)

module _ (u : Unicode) where
  chars-ink :
      (s : Text) → All (λ c. is_component_char c ≡ true) s → All (λ c. u.is_space c ≡ false) s
  chars-ink = All-map λ c h. u.is_space_ascii c (component_char-ascii c h) ∙ component_char-ink c h

  component-strip : (s : Text) → IsComponent s → strip u s ≡ s
  component-strip s h = strip-ink u s (chars-ink s h.chars)

  component-clean : (s : Text) → IsComponent s → clean u s ≡ s
  unfolding clean
  component-clean s h =
      ap u.lower (component-strip s h)
      ∙ u.lower_ascii s (All-map component_char-ascii s h.chars)
      ∙ ascii_lower_same s h.lowered

  clean-nil : clean u [] ≡ []
  unfolding clean
  clean-nil = u.lower_ascii [] tt

  clean-lowered : (s : Text) → All (λ c. is_upper c ≡ false) (clean u s)
  unfolding clean
  clean-lowered s = u.lower_lowered (strip u s)

-- What `checked` accepts, and what it returns.
checked_lem :
    (os architecture variant : Text) (p : ImagePlatform)
    → checked os architecture variant ≡ some p
    → (p ≡ record { os = os; architecture = architecture; variant = variant })
      × (valid_component os ≡ true)
      × (valid_component architecture ≡ true)
      × ((variant ≡ []) ⊎ (valid_component variant ≡ true))
      × (os ≢ unknown)
      × (architecture ≢ unknown)
      × (variant ≢ unknown)
unfolding checked
checked_lem os architecture variant p h = ground (
  arith,
  text_beq_iff variant [],
  text_beq_iff os unknown,
  text_beq_iff architecture unknown,
  text_beq_iff variant unknown,
)

nil-known : ◌≢◌ {A = Text} [] unknown
unfolding unknown
nil-known e = cc

checked_complete : (p : ImagePlatform) → IsNormal p → checked p.os p.architecture p.variant ≡ some p
unfolding checked
checked_complete p (ho, ha, hv) = elim hv [
  | inl e ↦ ground (
    arith,
    e,
    valid-component p.os ho,
    valid-component p.architecture ha,
    beq_ne ho.known,
    beq_ne ha.known,
    beq_ne nil-known,
  )
  | inr v ↦ ground (
    arith,
    valid-component p.os ho,
    valid-component p.architecture ha,
    valid-component p.variant v,
    beq_ne ho.known,
    beq_ne ha.known,
    beq_ne v.known,
    beq_ne v.nonempty,
  )
]

component :
    (s : Text)
    → valid_component s ≡ true
    → All (λ c. is_upper c ≡ false) s
    → s ≢ unknown
    → IsComponent s
component s valid lowered known =
    let (nonempty, chars) = valid_component-All s valid in
    record { nonempty = nonempty; chars = chars; lowered = lowered; known = known }

parts_of : ImagePlatform → List Text
parts_of p =
    if p.variant == [] then p.os ∷ p.architecture ∷ [] else p.os ∷ p.architecture ∷ p.variant ∷ []

value-join : (p : ImagePlatform) → value p ≡ join b'/' (parts_of p)
unfolding value parts_of
value-join p = ground arith

parts-IsComponent : (p : ImagePlatform) → IsNormal p → All IsComponent (parts_of p)
unfolding parts_of
parts-IsComponent p (ho, ha, hv) = elim hv [
  | inl e ↦ rw e (ho, (ha, tt))
  | inr v ↦ rw (beq_ne v.nonempty) (ho, (ha, (v, tt)))
]

parts-ne-nil : (p : ImagePlatform) → parts_of p ≢ []
unfolding parts_of
parts-ne-nil p e = ground arith

parts-Lacks : (p : ImagePlatform) → IsNormal p → All (Lacks b'/') (parts_of p)
parts-Lacks p h =
    All-map (λ s (c : IsComponent s). All-map component_char-slash s c.chars) (parts_of p)
      (parts-IsComponent p h)

module _ (u : Unicode) where
  platform_from_parts-IsNormal :
      (os architecture variant : Text) (p : ImagePlatform)
      → platform_from_parts u os architecture variant ≡ some p
      → IsNormal p
  unfolding platform_from_parts
  platform_from_parts-IsNormal os architecture variant p h =
      let (e, vo, va, vv, ko, ka, kv) =
        checked_lem (clean u os) (clean u architecture) (clean u variant) p h in
      rw e (
        component (clean u os) vo (clean-lowered u os) ko,
        component (clean u architecture) va (clean-lowered u architecture) ka,
        elim vv [
          | inl n ↦ inl n
          | inr v ↦ inr (component (clean u variant) v (clean-lowered u variant) kv)
        ],
      )

  from_split-IsNormal : (ps : List Text) (p : ImagePlatform) → from_split u ps ≡ some p → IsNormal p
  unfolding from_split
  from_split-IsNormal [] p h = cc
  from_split-IsNormal (o ∷ []) p h = cc
  from_split-IsNormal (o ∷ a ∷ []) p h = platform_from_parts-IsNormal o a [] p h
  from_split-IsNormal (o ∷ a ∷ v ∷ []) p h = platform_from_parts-IsNormal o a v p (ground arith)
  from_split-IsNormal (o ∷ a ∷ v ∷ w ∷ ps) p h = cc

  -- What was parsed is in normal form.
  pub parse_platform-IsNormal :
      (text : Text) (p : ImagePlatform) → parse_platform u text ≡ some p → IsNormal p
  unfolding parse_platform
  parse_platform-IsNormal text p =
      from_split-IsNormal (map (strip u) (split_on b'/' (strip u text))) p

  map-strip : (ps : List Text) → All IsComponent ps → map (strip u) ps ≡ ps
  map-strip [] h = refl
  map-strip (s ∷ ps) (hs, h) = ap₂ (λ a b. a ∷ b) (component-strip u s hs) (map-strip ps h)

  join-ink : (ps : List Text) → All IsComponent ps → All (λ c. u.is_space c ≡ false) (join b'/' ps)
  join-ink [] h = tt
  join-ink (s ∷ []) (hs, _) = chars-ink u s hs.chars
  join-ink (s ∷ t ∷ ps) (hs, h) =
      All-append _ s (b'/' ∷ join b'/' (t ∷ ps)) (chars-ink u s hs.chars)
        (u.is_space_ascii b'/' (omega arith), join-ink (t ∷ ps) h)

  from_split-parts : (p : ImagePlatform) → IsNormal p → from_split u (parts_of p) ≡ some p
  unfolding from_split parts_of platform_from_parts
  from_split-parts p (ho, ha, hv) = elim hv [
    | inl e ↦ ground (
      arith,
      e,
      beq_refl {A = Text} [],
      component-clean u p.os ho,
      component-clean u p.architecture ha,
      clean-nil u,
      checked_complete p (ho, ha, inl e),
    )
    | inr v ↦ ground (
      arith,
      beq_ne v.nonempty,
      component-clean u p.os ho,
      component-clean u p.architecture ha,
      component-clean u p.variant v,
      checked_complete p (ho, ha, inr v),
    )
  ]

  -- Every platform in normal form is read back from its value.
  pub parse_platform-value : (p : ImagePlatform) → IsNormal p → parse_platform u (value p) ≡ some p
  unfolding parse_platform
  parse_platform-value p h =
      let comps = parts-IsComponent p h in
      let ps = parts_of p in
      rw (value-join p) (
        rw (strip-ink u (join b'/' ps) (join-ink ps comps)) (
          rw (split_on-join b'/' ps (parts-ne-nil p) (parts-Lacks p h))
            (rw (map-strip ps comps) (from_split-parts p h))))

  -- Whatever text a platform was parsed from, its printed value parses to the same platform.
  pub parse_platform-roundtrip :
      (text : Text) (p : ImagePlatform)
      → parse_platform u text ≡ some p
      → parse_platform u (value p) ≡ some p
  parse_platform-roundtrip text p h = parse_platform-value p (parse_platform-IsNormal text p h)
