-- ===== src/Util/Cleaners.antt =====
-- All cleaners of internal/util/sanitize.go at once.
use walkie_talk_server.Base.{ℕ, ◌≤◌, ◌≡◌, ◌⊎◌, true, not, Text, byte_len, length, all}
use walkie_talk_server.Util.Runes.{Unicode, trim_space}
use walkie_talk_server.Util.Sanitize.{
  is_room_char, is_device_char, is_name_char, is_control, is_color, cut_runes, clean_name,
  clean_room, clean_device, clean_color, clean_small_text,
}
use walkie_talk_server.Util.Bounds.{
  clean_room_bounds, clean_device_bounds, clean_name_bounds, clean_small_text_bounds,
  clean_color-is_color, clean_room_fixed, clean_device_fixed,
}

-- What each cleaner makes of any text: a room of the characters A-Z, 0-9, `_` and `-` and at most the
-- limit of bytes, a device of letters, digits, `_` and `-` and at most 128 bytes, a name of at most
-- the limit of runes that are letters, digits, `_` or `-`, or else the cut fallback, a small text of
-- at most the limit of runes and without the control characters of ASCII but TAB, LF and CR, and a
-- colour of `#` and six hexadecimal digits. A text that is such a room, device or colour stays as it is.
pub cleaners_bounds :
    (u : Unicode) (raw fallback : Text) (limit : ℕ)
    → ((all is_room_char (clean_room u raw limit) ≡ true)
        × (byte_len (clean_room u raw limit) ≤ limit)
        × (all is_room_char raw ≡ true → byte_len raw ≤ limit → clean_room u raw limit ≡ raw))
      × ((all is_device_char (clean_device raw) ≡ true)
          × (byte_len (clean_device raw) ≤ 128)
          × (all is_device_char raw ≡ true → byte_len raw ≤ 128 → clean_device raw ≡ raw))
      × ((length (clean_name u raw fallback limit) ≤ limit)
          × ((all (is_name_char u) (clean_name u raw fallback limit) ≡ true)
              ⊎ (clean_name u raw fallback limit ≡ cut_runes limit fallback)))
      × ((length (clean_small_text raw limit) ≤ limit)
          × (all (λ c. not (is_control c)) (clean_small_text raw limit) ≡ true))
      × ((is_color (clean_color raw) ≡ true)
          × (is_color (trim_space raw) ≡ true → clean_color raw ≡ trim_space raw))
cleaners_bounds u raw fallback limit =
    let (a, b, c) = clean_name_bounds u raw fallback limit in
    let (r, t) = clean_room_bounds u raw limit in
    let (d, e) = clean_device_bounds raw in
    (
      (r, t, clean_room_fixed u raw limit),
      (d, e, clean_device_fixed raw),
      (a, b),
      clean_small_text_bounds raw limit,
      clean_color-is_color raw,
    )
