-- ===== src/Util/Runes.antt =====
-- What sanitize.go uses of the packages unicode, strings and regexp, on code points. The tables
-- beyond ASCII are a parameter; `is_space` is the whole of `unicode.IsSpace`.
use walkie_talk_server.Base.{
  ℕ, ◌+◌, ◌-◌, Bool, true, false, ◌&&◌, ◌||◌, [], ◌∷◌, Option, none, some, Text, ltb, leb, ◌==◌,
  if◌then◌else◌, is_empty, rune_len,
}

-- unicode.IsLetter, IsDigit, ToUpper and ToLower from 0x80 on.
pub record Unicode : Type 0 where
  pub letter : ℕ → Bool
  pub digit : ℕ → Bool
  pub upper : ℕ → ℕ
  pub lower : ℕ → ℕ

abbrev pub between : ℕ → ℕ → ℕ → Bool
between a b c = leb a c && leb c b

unfoldable pub is_letter : Unicode → ℕ → Bool
is_letter u c = if ltb c 0x80 then between b'A' b'Z' c || between b'a' b'z' c else u.letter c

unfoldable pub is_digit : Unicode → ℕ → Bool
is_digit u c = if ltb c 0x80 then between b'0' b'9' c else u.digit c

unfoldable pub to_upper : Unicode → ℕ → ℕ
to_upper u c = if ltb c 0x80 then (if between b'a' b'z' c then c - 32 else c) else u.upper c

unfoldable pub to_lower : Unicode → ℕ → ℕ
to_lower u c = if ltb c 0x80 then (if between b'A' b'Z' c then c + 32 else c) else u.lower c

unfoldable pub is_space : ℕ → Bool
is_space c =
    between 9 13 c
    || c == 32
    || c == 0x85
    || c == 0xa0
    || c == 0x1680
    || between 0x2000 0x200a c
    || between 0x2028 0x2029 c
    || c == 0x202f
    || c == 0x205f
    || c == 0x3000

unfoldable pub trim_left : Text → Text
trim_left [] = []
trim_left (c ∷ s) = if is_space c then trim_left s else c ∷ s

unfoldable pub trim_right : Text → Text
trim_right [] = []
trim_right (c ∷ s) = let r = trim_right s in if is_empty r && is_space c then [] else c ∷ r

-- strings.TrimSpace
unfoldable pub trim_space : Text → Text
unfolding trim_left trim_right is_space
trim_space s = trim_right (trim_left s)

-- strings.HasPrefix
unfoldable pub has_prefix : Text → Text → Bool
has_prefix [] s = true
has_prefix (p ∷ ps) [] = false
has_prefix (p ∷ ps) (c ∷ s) = p == c && has_prefix ps s

-- s[:n] of a text: the code points that lie in its first n bytes. The source cuts ASCII text
-- only, where each code point is one byte.
unfoldable pub take_bytes : ℕ → Text → Text
take_bytes n [] = []
take_bytes n (c ∷ s) = if leb (rune_len c) n then c ∷ take_bytes (n - rune_len c) s else []

-- What follows the first occurrence of a code point, as `s[strings.Index(s, c)+1:]`.
unfoldable pub after_first : ℕ → Text → Option Text
after_first d [] = none
after_first d (c ∷ s) = if c == d then some s else after_first d s
