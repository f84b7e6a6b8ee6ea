-- ===== src/Api/ZoneValues.antt =====
-- internal/api/server.go: what the zone handlers read, and anyString, firstNonEmpty, anyBool, toFloat
-- and boundedFloat.
use walkie_talk_server.Base.{
  ℕ, Bool, true, false, not, ◌||◌, List, [], ◌∷◌, map, Option, none, some, Text, lit, if◌then◌else◌,
  is_empty,
}
use walkie_talk_server.Base.KeySet.{has}
use walkie_talk_server.Util.Runes.{Unicode, trim_space, to_lower}
use walkie_talk_server.Json.{Value, string, number, boolean, null, Fields, Float64}

-- What the zone handlers use of Go: the tables of unicode, fmt.Sprint of a value that is no text,
-- float64 and its tests for NaN and the infinities, strconv.ParseFloat, whether time.Parse reads a
-- text as RFC 3339, the text of the time that is a duration after now, and what a json.Decoder makes
-- of the bytes of a body: `none` for an error, and no fields for null.
pub record Library : Type 0 where
  pub unicode : Unicode
  pub sprint : Value → Text
  pub float : Float64
  pub is_nan : ℕ → Bool
  pub is_inf : ℕ → Bool
  pub parse_float : Text → Option ℕ
  pub is_rfc3339 : Text → Bool
  pub after : ℕ → Text
  pub decode : List ℕ → Option Fields

-- What the handlers read of the configuration.
pub record Settings : Type 0 where
  pub max_room_len : ℕ
  pub zone_ttl : ℕ
  pub max_zone_read_rate : ℕ
  pub max_zone_write_rate : ℕ
  pub msg_rate_window : ℕ
  pub zone_write_requires_api_key : Bool
  pub public_api_key : Text

unfoldable pub any_string : Library → Value → Text
any_string g (string s) = s
any_string g null = []
any_string g v = g.sprint v

unfoldable pub first_non_empty : List Text → Text
first_non_empty [] = []
first_non_empty (v ∷ vs) =
    let rest = first_non_empty vs in if is_empty (trim_space v) then rest else trim_space v

unfoldable pub any_bool : Library → Value → Bool → Bool
any_bool g (boolean b) fallback = b
any_bool g (string t) fallback =
    let s = map (to_lower g.unicode) (trim_space t) in
    if has s (lit "1" ∷ lit "true" ∷ lit "yes" ∷ lit "on" ∷ [])
    then true
    else if has s (lit "0" ∷ lit "false" ∷ lit "no" ∷ lit "off" ∷ [])
    then false
    else fallback
any_bool g v fallback = fallback

-- Decoded JSON has no number but a float64.
unfoldable pub to_float : Library → Value → Option ℕ
to_float g (number n) = some n
to_float g (string s) = g.parse_float (trim_space s)
to_float g v = none

abbrev pub is_within : Library → ℕ → ℕ → ℕ → Bool
is_within g low high f =
    not (g.is_nan f || (g.is_inf f || (g.float.less f low || g.float.less high f)))

unfoldable pub bounded_float : Library → Value → ℕ → ℕ → Option ℕ
unfolding to_float
bounded_float g v low high = elim (to_float g v) [
  | none ↦ none
  | some f ↦ if is_within g low high f then some f else none
]

-- The float64 of a whole number and of its negative.
abbrev pub whole : Library → ℕ → ℕ
whole g n = g.float.of_ℕ n

abbrev pub negative : Library → ℕ → ℕ
negative g n = g.float.minus (g.float.of_ℕ 0) (g.float.of_ℕ n)
