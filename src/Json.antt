-- ===== src/Json.antt =====
-- Decoded JSON, and anyString, anyFloat and trim of internal/realtime/events.go.
use walkie_talk_server.Base.{
  ℕ, Bool, ◌&&◌, [], ◌∷◌, Text, ite, text_dec, ◌==◌, if◌then◌else◌, is_empty,
}
use walkie_talk_server.Util.Runes.{Unicode, trim_space}
use walkie_talk_server.Util.Sanitize.{cut_runes}

-- A value of `any` that encoding/json makes. Numbers are the 64 bits of a float64.
mutual
  pub data Fields : Type 0 where
    no_fields : Fields
    field : Text → Value → Fields → Fields

  pub data Value : Type 0 where
    string : Text → Value
    number : ℕ → Value
    boolean : Bool → Value
    object : Fields → Value
    array : Elements → Value
    null : Value

  pub data Elements : Type 0 where
    no_elements : Elements
    element : Value → Elements → Elements

-- A Go int that may be negative: `negsuc n` is -(n + 1).
pub data ℤ : Type 0 where
  pos : ℕ → ℤ
  negsuc : ℕ → ℤ

-- Operations on float64 bit patterns: comparison, arithmetic, math.Pow, Sqrt, Max and Round, and the
-- conversions from and to int.
pub record Float64 : Type 0 where
  pub less : ℕ → ℕ → Bool
  pub less_eq : ℕ → ℕ → Bool
  pub plus : ℕ → ℕ → ℕ
  pub minus : ℕ → ℕ → ℕ
  pub times : ℕ → ℕ → ℕ
  pub over : ℕ → ℕ → ℕ
  pub pow : ℕ → ℕ → ℕ
  pub sqrt : ℕ → ℕ
  pub max : ℕ → ℕ → ℕ
  pub round : ℕ → ℕ
  pub of_ℕ : ℕ → ℕ
  pub to_int : ℕ → ℤ

-- What the handlers use of Go's runtime and standard library: the tables of unicode, the text that
-- json.Marshal gives a value, the hexadecimal SHA-256 of a text, and float64.
pub record Runtime : Type 0 where
  pub unicode : Unicode
  pub marshal : Value → Text
  pub sha256_hex : Text → Text
  pub float : Float64

-- `data[key]`: null if the key is missing.
unfoldable pub get : Text → Fields → Value
get k no_fields = null
get k (field j v fs) = ite (text_dec j k) v (get k fs)

-- strings.Trim(s, "\"")
unfoldable pub trim_quotes_left : Text → Text
trim_quotes_left [] = []
trim_quotes_left (c ∷ s) = if c == b'"' then trim_quotes_left s else c ∷ s

unfoldable pub trim_quotes_right : Text → Text
trim_quotes_right [] = []
trim_quotes_right (c ∷ s) =
    let r = trim_quotes_right s in if is_empty r && c == b'"' then [] else c ∷ r

unfoldable pub any_string : Runtime → Value → Text
unfolding trim_quotes_left trim_quotes_right
any_string g (string s) = s
any_string g null = []
any_string g v = trim_quotes_right (trim_quotes_left (g.marshal v))

unfoldable pub any_float : Runtime → Value → ℕ
any_float g (number n) = n
any_float g v = g.float.of_ℕ 0

unfoldable pub trim : Text → ℕ → Text
unfolding trim_space cut_runes
trim s limit = cut_runes limit (trim_space s)

unfoldable pub round1 : Float64 → ℕ → ℕ
round1 f v = f.over (f.round (f.times v (f.of_ℕ 10))) (f.of_ℕ 10)
