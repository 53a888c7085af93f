-- ===== src/Prelude/Unicode.antt =====
-- What the program uses of Python's Unicode tables: `str.strip()`, `str.lower()` and `str.isdigit()`.
use Prim.Native.Nat.{ℕ, ◌+◌, ◌<◌}
use mathlib.Core.Path.{◌≡◌, refl}
use mathlib.Core.Bool.{Bool, false, ◌&&◌, ◌||◌}
use mathlib.Core.List.{[], ◌∷◌, map}
use native.Mathlib.Omega.{arith}
use wudup.Prelude.Tests.{◌==◌, nat_eq, leb, if◌then◌else◌}
use wudup.Prelude.Lists.{All}
use wudup.Prelude.Chars.{Text}

-- The white space among the ASCII characters.
abbrev pub is_ascii_space : ℕ → Bool
is_ascii_space c = c == 32 || leb 9 c && leb c 13 || leb 28 c && leb c 31

abbrev pub is_upper : ℕ → Bool
is_upper c = leb b'A' c && leb c b'Z'

abbrev pub ascii_lower : ℕ → ℕ
ascii_lower c = if is_upper c then c + 32 else c

abbrev pub IsAscii : Text → Type 0
IsAscii = All (λ c. c < 128)

pub record Unicode : Type 0 where
  pub is_space : ℕ → Bool
  pub lower : Text → Text
  pub is_digit : ℕ → Bool
  pub is_space_ascii : (c : ℕ) → c < 128 → is_space c ≡ is_ascii_space c
  pub is_digit_ascii : (c : ℕ) → c < 128 → is_digit c ≡ (leb b'0' c && leb c b'9')
  pub lower_ascii : (s : Text) → IsAscii s → lower s ≡ map ascii_lower s
  pub lower_lowered : (s : Text) → All (λ c. is_upper c ≡ false) (lower s)

module _ (u : Unicode) where
  -- `s.lstrip()`
  abbrev pub strip_left : Text → Text
  strip_left [] = []
  strip_left (c ∷ s) = if u.is_space c then strip_left s else c ∷ s

  abbrev pub keep_last : ℕ → Text → Text
  keep_last c [] = if u.is_space c then [] else c ∷ []
  keep_last c (d ∷ t) = c ∷ d ∷ t

  -- `s.rstrip()`
  abbrev pub strip_right : Text → Text
  strip_right [] = []
  strip_right (c ∷ s) = keep_last c (strip_right s)

  -- `s.strip()`
  abbrev pub strip : Text → Text
  strip s = strip_right (strip_left s)

  strip_right-ink : (s : Text) → All (λ c. u.is_space c ≡ false) s → strip_right s ≡ s
  strip_right-ink [] h = refl
  strip_right-ink (c ∷ []) (hc, h) = ground arith
  strip_right-ink (c ∷ d ∷ s) (hc, h) = rw (strip_right-ink (d ∷ s) h) refl

  -- Text with no space is left as it is.
  pub strip-ink : (s : Text) → All (λ c. u.is_space c ≡ false) s → strip s ≡ s
  strip-ink [] h = refl
  strip-ink (c ∷ s) (hc, h) = rw hc (strip_right-ink (c ∷ s) (hc, h))

pub lower_each : (s : Text) → All (λ c. is_upper c ≡ false) (map ascii_lower s)
lower_each [] = tt
lower_each (c ∷ s) = (ground arith, lower_each s)

-- The tables of a program that meets ASCII text alone.
abbrev pub ascii : Unicode
ascii = record {
  is_space = is_ascii_space;
  lower = map ascii_lower;
  is_digit = λ c. leb b'0' c && leb c b'9';
  is_space_ascii = λ c h. refl;
  is_digit_ascii = λ c h. refl;
  lower_ascii = λ s h. refl;
  lower_lowered = lower_each;
}
