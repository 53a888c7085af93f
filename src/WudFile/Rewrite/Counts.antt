-- ===== src/WudFile/Rewrite/Counts.antt =====
-- How often a line stands in what the loops of the rewrites build.
use wudup.Prelude.{
  ℕ, ◌+◌, ◌-◌, min, Text, ◌≡◌, refl, inl, inr, true, false, List, [], ◌∷◌, ◌++◌, arith, nat_eq,
  text_eq, ◌==◌, ltb, count, count-append, text_beq_iff, Bool-cases,
}
use wudup.Prelude.Dict.{
  has_key, IsKeyed, put-IsKeyed, get_or-missing, Dict, get_or, put, get_or-put,
}
use wudup.WudFile.Rewrite.{tally, extra_counts, append_extras, append_needed}

module _ (a : Text) where
  pub get_or-tally :
      (raws : List Text) (counts : Dict Text ℕ)
      → get_or (tally raws counts) a 0 ≡ get_or counts a 0 + count a raws
  unfolding tally
  get_or-tally [] counts = omega arith
  get_or-tally (raw ∷ raws) counts = ground (
    arith,
    get_or-tally raws (put counts raw (get_or counts raw 0 + 1)),
    get_or-put counts raw a (get_or counts raw 0 + 1) 0,
    text_beq_iff raw a,
  )

  -- What is appended beyond `result` holds a line as often as it is read and still extra.
  pub count-append_extras :
      (extra : Dict Text ℕ) (raws : List Text) (seen : Dict Text ℕ) (result : List Text)
      → count a (append_extras extra raws seen result)
        ≡ count a result + min (count a raws) (get_or extra a 0 - get_or seen a 0)
  unfolding append_extras
  count-append_extras extra [] seen result = omega arith
  count-append_extras extra (raw ∷ raws) seen result =
      elim (Bool-cases (ltb (get_or seen raw 0) (get_or extra raw 0))) [
        | inl t ↦ rw t (
            ground (
              arith,
              count-append_extras extra raws (put seen raw (get_or seen raw 0 + 1))
                  (result ++ raw ∷ []),
              get_or-put seen raw a (get_or seen raw 0 + 1) 0,
              text_beq_iff raw a,
              count-append a result (raw ∷ []),
            ))
        | inr f ↦
            rw f (ground (arith, count-append_extras extra raws seen result, text_beq_iff raw a))
      ]

  pub count-append_needed :
      (needed current : Dict Text ℕ) (raws : List Text) (restored : Dict Text ℕ)
      (result : List Text)
      → count a (append_needed needed current raws restored result)
        ≡ count a result
          + min (count a raws) (get_or needed a 0 - (get_or current a 0 + get_or restored a 0))
  unfolding append_needed
  count-append_needed needed current [] restored result = omega arith
  count-append_needed needed current (raw ∷ raws) restored result =
      elim (Bool-cases (ltb (get_or current raw 0 + get_or restored raw 0) (get_or needed raw 0))) [
        | inl t ↦ rw t (
            ground (
              arith,
              count-append_needed needed current raws (put restored raw (get_or restored raw 0 + 1))
                  (result ++ raw ∷ []),
              get_or-put restored raw a (get_or restored raw 0 + 1) 0,
              text_beq_iff raw a,
              count-append a result (raw ∷ []),
            ))
        | inr f ↦ rw f (
            ground
              (arith, count-append_needed needed current raws restored result, text_beq_iff raw a))
      ]

tally-IsKeyed : (raws : List Text) (d : Dict Text ℕ) → IsKeyed d → IsKeyed (tally raws d)
unfolding tally
tally-IsKeyed [] d h = h
tally-IsKeyed (raw ∷ raws) d h =
    tally-IsKeyed raws (put d raw (get_or d raw 0 + 1)) (put-IsKeyed d raw (get_or d raw 0 + 1) h)

module _ (original : Dict Text ℕ) (a : Text) where
  get_or-extra_counts_else :
      (current extra : Dict Text ℕ)
      → has_key current a ≡ false
      → get_or (extra_counts original current extra) a 0 ≡ get_or extra a 0
  unfolding extra_counts
  get_or-extra_counts_else [] extra h = refl
  get_or-extra_counts_else ((k, n) ∷ current) extra h = ground (
    arith,
    get_or-extra_counts_else current (put extra k (n - get_or original k 0)),
    get_or-put extra k a (n - get_or original k 0) 0,
  )

  get_or-extra_counts_at :
      (current extra : Dict Text ℕ)
      → IsKeyed current
      → has_key current a ≡ true
      → get_or (extra_counts original current extra) a 0 ≡ get_or current a 0 - get_or original a 0
  unfolding extra_counts
  get_or-extra_counts_at [] extra keyed h = cc
  get_or-extra_counts_at ((k, n) ∷ current) extra (fresh, keyed) h = elim (Bool-cases (k == a)) [
    | inl t ↦ ground (
      arith,
      text_beq_iff k a,
      get_or-extra_counts_else current (put extra k (n - get_or original k 0)),
      get_or-put extra k a (n - get_or original k 0) 0,
    )
    | inr f ↦
        ground (arith, get_or-extra_counts_at current (put extra k (n - get_or original k 0)) keyed)
  ]

-- How much more often a line stands in the file than it was parsed.
pub get_or-extra :
    (a : Text) (lines current : List Text)
    → get_or (extra_counts (tally lines []) (tally current []) []) a 0
      ≡ count a current - count a lines
get_or-extra a lines current = elim (Bool-cases (has_key (tally current []) a)) [
  | inl t ↦ omega (
    arith,
    get_or-extra_counts_at (tally lines []) a (tally current []) [] (tally-IsKeyed current [] tt) t,
    get_or-tally a current [],
    get_or-tally a lines [],
  )
  | inr f ↦ omega (
    arith,
    get_or-extra_counts_else (tally lines []) a (tally current []) [] f,
    get_or-tally a current [],
    get_or-missing (tally current []) a 0 f,
  )
]
