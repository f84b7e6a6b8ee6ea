-- ===== src/Util/Bounds.antt =====
-- What the cleaning functions of internal/util/sanitize.go let through, and how much of it.
use walkie_talk_server.Util.Runes.{
  Unicode, to_upper, is_space, trim_left, trim_right, trim_space, take_bytes,
}
use walkie_talk_server.Util.Sanitize.{
  is_room_char, is_device_char, underscore, is_control, is_name_char, cut_runes, cut_bytes,
  clean_name, clean_room, clean_device, clean_small_text, is_color, clean_color,
}
use walkie_talk_server.Base.{
  ℕ, ◌-◌, rune_len, ◌≤◌, ◌≡◌, refl, ◌⊎◌, inl, inr, Bool, true, false, not, [], ◌∷◌, map, Text, lit,
  arith, is_empty, byte_len, length, keep, all, length-take-le, all-keep, all-take, keep_of_all,
  Bool-cases,
}

pub length-cut_runes : (n : ℕ) (s : Text) → length (cut_runes n s) ≤ n
unfolding cut_runes
length-cut_runes n s = ground (arith, length-take-le n s)

pub all-cut_runes :
    (p : ℕ → Bool) (n : ℕ) (s : Text) → all p s ≡ true → all p (cut_runes n s) ≡ true
unfolding cut_runes
all-cut_runes p n s h = ground (arith, all-take p n s)

take_bytes-le : (n : ℕ) (s : Text) → byte_len (take_bytes n s) ≤ n
unfolding take_bytes
take_bytes-le n [] = omega arith
take_bytes-le n (c ∷ s) = ground (arith, take_bytes-le (n - rune_len c) s)

all-take_bytes : (p : ℕ → Bool) (n : ℕ) (s : Text) → all p s ≡ true → all p (take_bytes n s) ≡ true
unfolding take_bytes
all-take_bytes p n [] h = refl
all-take_bytes p n (c ∷ s) h = ground (arith, all-take_bytes p (n - rune_len c) s)

byte_len-cut_bytes : (n : ℕ) (s : Text) → byte_len (cut_bytes n s) ≤ n
unfolding cut_bytes
byte_len-cut_bytes n s = ground (arith, take_bytes-le n s)

all-cut_bytes : (p : ℕ → Bool) (n : ℕ) (s : Text) → all p s ≡ true → all p (cut_bytes n s) ≡ true
unfolding cut_bytes
all-cut_bytes p n s h = ground (arith, all-take_bytes p n s)

pub cut_bytes_short : (n : ℕ) (s : Text) → byte_len s ≤ n → cut_bytes n s ≡ s
unfolding cut_bytes
cut_bytes_short n s h = ground arith

-- A cleaned room holds only the characters A-Z, 0-9, `_` and `-`, and at most `limit` bytes.
pub clean_room_bounds :
    (u : Unicode) (raw : Text) (limit : ℕ)
    → (all is_room_char (clean_room u raw limit) ≡ true)
      × (byte_len (clean_room u raw limit) ≤ limit)
unfolding clean_room
clean_room_bounds u raw limit = (
  all-cut_bytes is_room_char limit s (all-keep is_room_char (map (to_upper u) (trim_space raw))),
  byte_len-cut_bytes limit s,
)
  where
    s : Text
    s = keep is_room_char (map (to_upper u) (trim_space raw))

room_char-not-space : (c : ℕ) → is_room_char c ≡ true → is_space c ≡ false
unfolding is_room_char is_space
room_char-not-space c h = ground arith

room_char-upper : (u : Unicode) (c : ℕ) → is_room_char c ≡ true → to_upper u c ≡ c
unfolding is_room_char to_upper
room_char-upper u c h = ground arith

trim_right_no_space :
    (p : ℕ → Bool)
    → ((c : ℕ) → p c ≡ true → is_space c ≡ false)
    → (s : Text) → all p s ≡ true
    → trim_right s ≡ s
unfolding trim_right
trim_right_no_space p d [] h = refl
trim_right_no_space p d (c ∷ s) h = ground (arith, trim_right_no_space p d s, d c)

-- Trimming leaves a text alone that has no white space.
pub trim_space_no_space :
    (p : ℕ → Bool)
    → ((c : ℕ) → p c ≡ true → is_space c ≡ false)
    → (s : Text) → all p s ≡ true
    → trim_space s ≡ s
unfolding trim_space trim_left
trim_space_no_space p d [] h = refl
trim_space_no_space p d (c ∷ s) h = ground (arith, trim_right_no_space p d (c ∷ s), d c)

map-to_upper_room : (u : Unicode) (s : Text) → all is_room_char s ≡ true → map (to_upper u) s ≡ s
map-to_upper_room u [] h = refl
map-to_upper_room u (c ∷ s) h = ground (arith, room_char-upper u c, map-to_upper_room u s)

pub clean_room_fixed :
    (u : Unicode) (s : Text) (limit : ℕ)
    → all is_room_char s ≡ true
    → byte_len s ≤ limit
    → clean_room u s limit ≡ s
unfolding clean_room
clean_room_fixed u s limit h k =
    rw
      (
        trim_space_no_space is_room_char room_char-not-space s h,
        map-to_upper_room u s h,
        keep_of_all is_room_char s h,
      )
      (cut_bytes_short limit s k)

-- Cleaning a room twice is cleaning it once: the name that the server hands out joins that room.
pub clean_room_idem :
    (u : Unicode) (raw : Text) (limit : ℕ)
    → clean_room u (clean_room u raw limit) limit ≡ clean_room u raw limit
clean_room_idem u raw limit =
    let b = clean_room_bounds u raw limit in
    clean_room_fixed u (clean_room u raw limit) limit b.0 b.1

-- A cleaned device id holds only letters, digits, `_` and `-`, and at most 128 bytes.
pub clean_device_bounds :
    (raw : Text)
    → (all is_device_char (clean_device raw) ≡ true) × (byte_len (clean_device raw) ≤ 128)
unfolding clean_device
clean_device_bounds raw = (
  all-cut_bytes is_device_char 128 s (all-keep is_device_char (trim_space raw)),
  byte_len-cut_bytes 128 s,
)
  where
    s : Text
    s = keep is_device_char (trim_space raw)

device_char-not-space : (c : ℕ) → is_device_char c ≡ true → is_space c ≡ false
unfolding is_device_char is_space
device_char-not-space c h = ground arith

pub clean_device_fixed :
    (s : Text) → all is_device_char s ≡ true → byte_len s ≤ 128 → clean_device s ≡ s
unfolding clean_device
clean_device_fixed s h k =
    rw
      (trim_space_no_space is_device_char device_char-not-space s h, keep_of_all is_device_char s h)
      (cut_bytes_short 128 s k)

-- A cleaned name has at most `limit` runes. It is a text of letters, digits, `_` and `-`, or the
-- cut fallback; it is empty only if the cut fallback is.
pub clean_name_bounds :
    (u : Unicode) (raw fallback : Text) (limit : ℕ)
    → (length (clean_name u raw fallback limit) ≤ limit)
      × ((all (is_name_char u) (clean_name u raw fallback limit) ≡ true)
          ⊎ (clean_name u raw fallback limit ≡ cut_runes limit fallback))
      × (is_empty (clean_name u raw fallback limit) ≡ true
          → is_empty (cut_runes limit fallback) ≡ true)
unfolding clean_name
clean_name_bounds u raw fallback limit = ground (
  arith,
  length-cut_runes limit s,
  length-cut_runes limit fallback,
  all-cut_runes (is_name_char u) limit s
      (all-keep (is_name_char u) (trim_space (map underscore raw))),
)
  where
    s : Text
    s = keep (is_name_char u) (trim_space (map underscore raw))

all-trim_right : (p : ℕ → Bool) (s : Text) → all p s ≡ true → all p (trim_right s) ≡ true
unfolding trim_right
all-trim_right p [] h = refl
all-trim_right p (c ∷ s) h = ground (arith, all-trim_right p s)

all-trim_left : (p : ℕ → Bool) (s : Text) → all p s ≡ true → all p (trim_left s) ≡ true
unfolding trim_left
all-trim_left p [] h = refl
all-trim_left p (c ∷ s) h = ground (arith, all-trim_left p s)

pub all-trim_space : (p : ℕ → Bool) (s : Text) → all p s ≡ true → all p (trim_space s) ≡ true
unfolding trim_space
all-trim_space p s h = all-trim_right p (trim_left s) (all-trim_left p s h)

-- A cleaned small text has at most `limit` runes and no code point that `is_control` names.
pub clean_small_text_bounds :
    (raw : Text) (limit : ℕ)
    → (length (clean_small_text raw limit) ≤ limit)
      × (all (λ c. not (is_control c)) (clean_small_text raw limit) ≡ true)
unfolding clean_small_text
clean_small_text_bounds raw limit = (
  length-cut_runes limit (trim_space s),
  all-cut_runes p limit (trim_space s) (all-trim_space p s (all-keep p raw)),
)
  where
    p : ℕ → Bool
    p c = not (is_control c)

    s : Text
    s = keep p raw

default-is_color : is_color (lit "#007aff") ≡ true
unfolding is_color
default-is_color = refl

-- A cleaned colour is a `#` and six hexadecimal digits; such a text passes unchanged.
pub clean_color-is_color :
    (raw : Text)
    → (is_color (clean_color raw) ≡ true)
      × (is_color (trim_space raw) ≡ true → clean_color raw ≡ trim_space raw)
unfolding clean_color
clean_color-is_color raw = elim (Bool-cases (is_color (trim_space raw))) [
  | inl e ↦ (rw e e, λ _. rw e)
  | inr e ↦ (rw e default-is_color, λ h. cc)
]
