-- ===== src/Realtime/Secrets.antt =====
-- Visibility, invite codes and PINs of private channels, in internal/realtime/hub.go, and RandomID
-- of internal/util/sanitize.go.
use walkie_talk_server.Json.{Runtime, Fields, any_string, get}
use walkie_talk_server.Realtime.State.{Visibility, unset, public, private, ChannelState}
use walkie_talk_server.Util.Runes.{Unicode, between, to_upper, to_lower, trim_space}
use walkie_talk_server.Util.Sanitize.{cut_bytes, is_room_char}
use walkie_talk_server.Base.{
  ℕ, ◌+◌, ◌/◌, ◌%◌, Bool, not, ◌&&◌, ◌||◌, List, [], ◌∷◌, ◌++◌, map, Option, none, some, Text, lit,
  ltb, keep, take, if◌then◌else◌, is_empty,
}
use walkie_talk_server.Base.KeySet.{same}

unfoldable pub clean_channel_visibility : Unicode → Text → Visibility
clean_channel_visibility u value =
    let v = map (to_lower u) (trim_space value) in
    if same v (lit "private") || same v (lit "locked") || same v (lit "secret")
    then private
    else if same v (lit "public") || same v (lit "open")
    then public
    else unset

unfoldable pub clean_channel_secret : Unicode → Text → Text
unfolding trim_space to_upper is_room_char cut_bytes
clean_channel_secret u value =
    cut_bytes 64 (keep is_room_char (map (to_upper u) (trim_space value)))

unfoldable pub clean_channel_pin : Text → Text
unfolding trim_space cut_bytes
clean_channel_pin value = cut_bytes 12 (keep (between b'0' b'9') (trim_space value))

unfoldable pub first_non_empty_string : List Text → Text
first_non_empty_string [] = []
first_non_empty_string (v ∷ vs) = if is_empty (trim_space v) then first_non_empty_string vs else v

unfoldable pub hash_channel_pin : Runtime → Text → Text
unfolding clean_channel_pin
hash_channel_pin g pin = g.sha256_hex (clean_channel_pin pin)

hex_digit : ℕ → ℕ
hex_digit d = if ltb d 10 then b'0' + d else 87 + d

-- hex.EncodeToString
unfoldable pub hex : List ℕ → Text
unfolding hex_digit
hex [] = []
hex (b ∷ bs) = hex_digit (b / 16) ∷ hex_digit (b % 16) ∷ hex bs

-- What rand.Read gives: the bytes, or an error.
abbrev pub Random : Type 0
Random = Option (List ℕ)

unfoldable pub random_id : Text → Random → Text
unfolding hex
random_id prefix (some bs) = prefix ++ hex bs
random_id prefix none = prefix ++ lit "fallback"

-- Two readings of the random source: the second is made if the first fails.
unfoldable pub new_channel_invite_code : Runtime → Random → Random → Text
unfolding hex random_id to_upper
new_channel_invite_code g (some bs) r = lit "AIKOM-" ++ map (to_upper g.unicode) (hex bs)
new_channel_invite_code g none r =
    lit "AIKOM-" ++ take 8 (map (to_upper g.unicode) (random_id [] r))

unfoldable pub pin_of : Runtime → Fields → Text
unfolding clean_channel_pin first_non_empty_string any_string get
pin_of g fs = clean_channel_pin (
    first_non_empty_string
      (any_string g (get (lit "pin") fs) ∷ any_string g (get (lit "channel_pin") fs) ∷ []))

unfoldable pub secret_of : Runtime → Fields → Text
unfolding clean_channel_secret first_non_empty_string any_string get
secret_of g fs = clean_channel_secret g.unicode (
    first_non_empty_string (
      any_string g (get (lit "invite_code") fs)
      ∷ any_string g (get (lit "channel_code") fs)
      ∷ any_string g (get (lit "code") fs)
      ∷ any_string g (get (lit "secret") fs)
      ∷ []))

-- The first two tests of prepareChannelJoinLocked.
unfoldable pub requested_visibility : Runtime → Fields → Visibility
unfolding clean_channel_visibility any_string get
requested_visibility g fs =
    elim (clean_channel_visibility g.unicode (any_string g (get (lit "visibility") fs))) [
      | unset ↦
          elim (clean_channel_visibility g.unicode (any_string g (get (lit "channel_type") fs))) [
            | unset ↦ public
            | public ↦ public
            | private ↦ private
          ]
      | public ↦ public
      | private ↦ private
    ]

-- strings.EqualFold of ASCII texts, which both sides are.
unfoldable pub equal_fold : Unicode → Text → Text → Bool
unfolding to_lower
equal_fold u s t = same (map (to_lower u) s) (map (to_lower u) t)

-- validInvite || validPIN
unfoldable pub opens : Runtime → Fields → ChannelState → Bool
unfolding secret_of pin_of equal_fold hash_channel_pin
opens g fs s =
    (not (is_empty s.invite_code) && equal_fold g.unicode (secret_of g fs) s.invite_code)
    || (not (is_empty s.pin_hash)
        && (not (is_empty (pin_of g fs)) && same (hash_channel_pin g (pin_of g fs)) s.pin_hash))
