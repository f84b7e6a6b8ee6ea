-- ===== src/Config.antt =====
-- internal/config/config.go: how settings are read from environment variables. Load is in Load.
use walkie_talk_server.Base.{
  ℕ, Bool, true, false, not, ◌&&◌, ◌||◌, List, [], ◌∷◌, ◌++◌, Option, none, some, Text, lit, ltb,
  ◌==◌, if◌then◌else◌, is_empty, map, keep,
}
use walkie_talk_server.Base.KeySet.{same, has, is_nil}
use walkie_talk_server.Util.Runes.{Unicode, trim_space, to_lower, has_prefix}
use walkie_talk_server.Json.{ℤ, pos, negsuc, Float64, trim_quotes_left, trim_quotes_right}
use walkie_talk_server.Util.Pieces.{split}
pub mod Load
pub mod Ranges

-- What is read from outside: os.Getenv, strconv.Atoi and ParseFloat, Unicode's tables and float64.
-- ParseFloat gives the bits of a float, or none on an error.
pub record Sources : Type 0 where
  pub getenv : Text → Text
  pub atoi : Text → Option ℤ
  pub parse_float : Text → Option ℕ
  pub unicode : Unicode
  pub float : Float64

-- strings.ReplaceAll(v, `\n`, ""): a backslash and an n, of code points 92 and 110.
unfoldable pub without_newlines : Text → Text
without_newlines [] = []
without_newlines (c ∷ []) = c ∷ []
without_newlines (c ∷ d ∷ s) =
    let here = without_newlines (d ∷ s) in
    let later = without_newlines s in if c == 92 && d == 110 then later else c ∷ here

unfoldable pub env : Sources → Text → Text → Text
unfolding without_newlines
env o key fallback =
    let v = trim_space (o.getenv key) in
    if is_empty v
    then fallback
    else trim_space (without_newlines (trim_quotes_right (trim_quotes_left v)))

unfoldable pub clean_path : Text → Text
clean_path value =
    let v = trim_space value in
    if is_empty v then lit "/" else if not (has_prefix (lit "/") v) then lit "/" ++ v else v

unfoldable pub env_list : Sources → Text → Text → List Text
unfolding split
env_list o key fallback =
    let raw = env o key fallback in
    let out = keep (λ p. not (is_empty p)) (map trim_space (split b',' raw)) in
    if is_empty raw || same raw (lit "*")
    then lit "*" ∷ []
    else if is_nil out
    then lit "*" ∷ []
    else out

unfoldable pub env_bool : Sources → Text → Bool → Bool
env_bool o key fallback =
    let v = map (to_lower o.unicode) (env o key []) in
    if is_empty v
    then fallback
    else if has v
        (lit "1" ∷ lit "true" ∷ lit "yes" ∷ lit "y" ∷ lit "on" ∷ lit "enable" ∷ lit "enabled" ∷ [])
    then true
    else if has v (
        lit "0"
        ∷ lit "false"
        ∷ lit "no"
        ∷ lit "n"
        ∷ lit "off"
        ∷ lit "disable"
        ∷ lit "disabled"
        ∷ [])
    then false
    else fallback

unfoldable pub raised : ℕ → ℤ → ℕ
raised least (pos n) = if ltb n least then least else n
raised least (negsuc n) = least

unfoldable pub env_int : Sources → Text → ℕ → ℕ → ℕ → ℕ
unfolding raised
env_int o key fallback least most =
    let v : ℤ = elim (o.atoi (env o key [])) [ none ↦ pos fallback | some v ↦ v ] in
    if ltb most (raised least v) then most else raised least v

-- The bounds and the fallback are bits of floats.
unfoldable pub env_float : Sources → Text → ℕ → ℕ → ℕ → ℕ
env_float o key fallback least most =
    let f : ℕ = elim (o.parse_float (env o key [])) [ none ↦ fallback | some v ↦ v ] in
    let v = if o.float.less f least then least else f in if o.float.less most v then most else v

unfoldable pub first_non_empty : List Text → Text
first_non_empty [] = []
first_non_empty (v ∷ vs) =
    let rest = first_non_empty vs in if is_empty (trim_space v) then rest else trim_space v

-- strings.TrimRight(s, "/")
unfoldable pub trim_slashes : Text → Text
trim_slashes [] = []
trim_slashes (c ∷ s) = let r = trim_slashes s in if is_empty r && c == b'/' then [] else c ∷ r
