-- ===== src/Util/Sanitize.antt =====
-- The functions of internal/util/sanitize.go.
use walkie_talk_server.Util.Runes.{
  Unicode, between, is_letter, is_digit, to_upper, to_lower, trim_space, has_prefix, take_bytes,
  after_first,
}
use walkie_talk_server.Base.{
  ℕ, Bool, false, not, ◌&&◌, ◌||◌, [], ◌∷◌, map, none, some, Text, lit, ltb, ◌==◌, if◌then◌else◌,
  is_empty, byte_len, length, take, keep, all,
}

-- The complements of roomRe, deviceRe and ctrlRe, and one digit of colorRe.
unfoldable pub is_room_char : ℕ → Bool
is_room_char c = between b'A' b'Z' c || between b'0' b'9' c || c == b'_' || c == b'-'

unfoldable pub is_device_char : ℕ → Bool
unfolding is_room_char
is_device_char c = between b'a' b'z' c || is_room_char c

unfoldable pub is_control : ℕ → Bool
is_control c = between 0 8 c || c == 11 || c == 12 || between 14 31 c || c == 127

unfoldable pub is_hex : ℕ → Bool
is_hex c = between b'0' b'9' c || between b'a' b'f' c || between b'A' b'F' c

unfoldable pub is_name_char : Unicode → ℕ → Bool
unfolding is_letter is_digit
is_name_char u c = is_letter u c || is_digit u c || c == b'_' || c == b'-'

-- `if len(s) > limit { s[:limit] }`, over runes and over bytes.
unfoldable pub cut_runes : ℕ → Text → Text
cut_runes limit s = if ltb limit (length s) then take limit s else s

unfoldable pub cut_bytes : ℕ → Text → Text
unfolding take_bytes
cut_bytes limit s = if ltb limit (byte_len s) then take_bytes limit s else s

pub underscore : ℕ → ℕ
underscore c = if c == 32 then b'_' else c

unfoldable pub clean_name : Unicode → Text → Text → ℕ → Text
unfolding underscore is_name_char cut_runes trim_space
clean_name u raw fallback limit =
    let out = cut_runes limit (keep (is_name_char u) (trim_space (map underscore raw))) in
    if is_empty out then cut_runes limit fallback else out

unfoldable pub clean_room : Unicode → Text → ℕ → Text
unfolding is_room_char cut_bytes trim_space to_upper
clean_room u raw limit = cut_bytes limit (keep is_room_char (map (to_upper u) (trim_space raw)))

unfoldable pub clean_device : Text → Text
unfolding is_device_char cut_bytes trim_space
clean_device raw = cut_bytes 128 (keep is_device_char (trim_space raw))

unfoldable pub is_color : Text → Bool
unfolding is_hex
is_color [] = false
is_color (c ∷ s) = c == b'#' && length s == 6 && all is_hex s

unfoldable pub clean_color : Text → Text
unfolding is_color trim_space
clean_color raw = if is_color (trim_space raw) then trim_space raw else lit "#007aff"

unfoldable pub clean_small_text : Text → ℕ → Text
unfolding is_control cut_runes trim_space
clean_small_text raw limit = cut_runes limit (trim_space (keep (λ c. not (is_control c)) raw))

unfoldable pub strip_data_url : Unicode → Text → Text
unfolding trim_space to_lower has_prefix after_first
strip_data_url u value =
    let text = trim_space value in
    if has_prefix (lit "data:") (map (to_lower u) text)
    then elim (after_first b',' text) [ none ↦ text | some rest ↦ trim_space rest ]
    else text
