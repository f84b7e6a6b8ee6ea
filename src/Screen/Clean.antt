-- ===== src/Screen/Clean.antt =====
-- The other cleaners of internal/realtime/screen.go.
use walkie_talk_server.Util.Runes.{trim_space, to_lower, has_prefix}
use walkie_talk_server.Util.Sanitize.{clean_small_text}
use walkie_talk_server.Realtime.Secrets.{Random, random_id}
use walkie_talk_server.Realtime.State.{Candidate, candidate_text, candidate_fields}
use walkie_talk_server.Screen.Sdp.{clean_sdp}
use walkie_talk_server.Json.{
  Runtime, Value, string, boolean, object, Fields, get, any_string, any_float,
}
use walkie_talk_server.Base.{
  ℕ, Bool, false, ◌||◌, List, [], ◌∷◌, map, Option, none, some, Text, lit, ltb, if◌then◌else◌,
  is_empty, byte_len, drop,
}
use walkie_talk_server.Base.KeySet.{has}

unfoldable pub clean_stream_id : Runtime → Random → Value → Text
clean_stream_id g r v =
    let id = clean_small_text (any_string g v) 48 in
    if is_empty id then random_id (lit "screen_") r else id

abbrev pub lowered : Runtime → Value → Text
lowered g v = map (to_lower g.unicode) (trim_space (any_string g v))

unfoldable pub clean_screen_kind : Runtime → Value → Text
clean_screen_kind g v =
    let s = lowered g v in
    if has s (lit "screen" ∷ lit "window" ∷ lit "tab" ∷ []) then s else lit "screen"

unfoldable pub clean_web_rtc_type : Runtime → Value → Text → Text
clean_web_rtc_type g v fallback =
    let s = lowered g v in if has s (lit "offer" ∷ lit "answer" ∷ []) then s else fallback

unfoldable pub any_bool : Runtime → Value → Bool
any_bool g (boolean b) = b
any_bool g (string s) =
    has (map (to_lower g.unicode) (trim_space s)) (lit "1" ∷ lit "true" ∷ lit "yes" ∷ lit "on" ∷ [])
any_bool g v = false

-- The first of these keys whose value holds a description.
unfoldable pub first_sdp : Runtime → Fields → List Text → Text
first_sdp g fs [] = []
first_sdp g fs (k ∷ ks) =
    let rest = first_sdp g fs ks in let s = clean_sdp g (get k fs) in if is_empty s then rest else s

unfoldable pub sdp_from_data : Runtime → Fields → Text
unfolding first_sdp
sdp_from_data g fs =
    first_sdp g fs (lit "sdp" ∷ lit "description" ∷ lit "desc" ∷ lit "offer" ∷ lit "answer" ∷ [])

-- strings.TrimPrefix(strings.TrimSpace(s), "a=")
unfoldable pub bare_candidate : Text → Text
bare_candidate s = let c = trim_space s in if has_prefix (lit "a=") c then drop 2 c else c

abbrev pub given : Text → Option Text
given s = if is_empty s then none else some s

unfoldable pub candidate_of_fields : Runtime → Fields → Text → Candidate
candidate_of_fields g m candidate =
    let index = any_float g (get (lit "sdpMLineIndex") m) in
    candidate_fields candidate (given (clean_small_text (any_string g (get (lit "sdpMid") m)) 64))
      (if g.float.less_eq (g.float.of_ℕ 0) index then some (g.float.to_int index) else none)
      (given (clean_small_text (any_string g (get (lit "usernameFragment") m)) 128))

unfoldable pub is_bad_candidate : ℕ → Text → Bool
is_bad_candidate max c = is_empty c || ltb max (byte_len c)

unfoldable pub clean_ice_candidate : Runtime → Value → ℕ → Option Candidate
unfolding bare_candidate is_bad_candidate candidate_of_fields
clean_ice_candidate g (object m) max =
    let c = bare_candidate (any_string g (get (lit "candidate") m)) in
    if is_bad_candidate max c then none else some (candidate_of_fields g m c)
clean_ice_candidate g v max =
    let c = bare_candidate (any_string g v) in
    if is_bad_candidate max c then none else some (candidate_text c)
