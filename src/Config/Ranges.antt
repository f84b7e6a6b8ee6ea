-- ===== src/Config/Ranges.antt =====
-- What the settings of internal/config/config.go are confined to.
use walkie_talk_server.Base.{
  ℕ, ◌*◌, ◌≤◌, ◌≡◌, refl, true, false, not, [], ◌∷◌, none, some, Text, lit, arith, inl, inr,
  Option-cases, is_empty, ◌++◌, all, all-keep, map, if◌then◌else◌,
}
use walkie_talk_server.Base.KeySet.{is_nil}
use walkie_talk_server.Json.{ℤ, pos, negsuc}
use walkie_talk_server.Util.Runes.{trim_space, has_prefix}
use walkie_talk_server.Util.Pieces.{split}
use walkie_talk_server.Config.{Sources, env, env_int, env_list, raised, clean_path}
use walkie_talk_server.Config.Load.{load, second}

raised-least : (least : ℕ) (z : ℤ) → least ≤ raised least z
unfolding raised
raised-least least (pos n) = ground arith
raised-least least (negsuc n) = ground arith

-- A setting that is a whole number lies between its bounds, whatever the variable holds; a number
-- between the bounds is taken as it is, and a variable that is no number gives the fallback if that
-- is between the bounds. The bounds are in order.
pub env_int_bounds :
    (o : Sources) (key : Text) (fallback least most : ℕ)
    → least ≤ most
    → (least ≤ env_int o key fallback least most)
      × (env_int o key fallback least most ≤ most)
      × ((n : ℕ)
          → o.atoi (env o key []) ≡ some (pos n)
          → least ≤ n
          → n ≤ most
          → env_int o key fallback least most ≡ n)
      × (o.atoi (env o key []) ≡ none
          → least ≤ fallback
          → fallback ≤ most
          → env_int o key fallback least most ≡ fallback)
unfolding env_int
env_int_bounds o key fallback least most le = elim (Option-cases (o.atoi (env o key []))) [
  | inl e ↦ ground (arith, e, raised-least least (pos fallback))
  | inr (z, e) ↦ ground (arith, e, raised-least least z)
]

-- Whatever the variables hold, a room has space for 2 to 200 sessions, at least one voice message and
-- four chunks pass in a window, the circuit opens after 1 to 20 failures, a request is tried once at
-- least, and an empty channel stays for a minute to a day.
pub load_ranges :
    (o : Sources) (random : Text)
    → let c = load o random in
      (2 ≤ c.max_room_size)
      × (c.max_room_size ≤ 200)
      × (1 ≤ c.max_msg_rate)
      × (4 ≤ c.max_chunk_rate)
      × (1 ≤ c.redis_failure_threshold)
      × (c.redis_failure_threshold ≤ 20)
      × (1 ≤ c.ai_retry_attempts)
      × (60 * second ≤ c.channel_empty_ttl)
      × (c.channel_empty_ttl ≤ 86400 * second)
unfolding load
load_ranges o random =
    let room = env_int_bounds o (lit "MAX_ROOM_SIZE") 20 2 200 (omega arith) in
    let messages = env_int_bounds o (lit "MAX_MSG_RATE") 4 1 60 (omega arith) in
    let chunks = env_int_bounds o (lit "MAX_CHUNK_RATE") 40 4 120 (omega arith) in
    let failures = env_int_bounds o (lit "REDIS_FAILURE_THRESHOLD") 3 1 20 (omega arith) in
    let attempts = env_int_bounds o (lit "AI_RETRY_ATTEMPTS") 2 1 5 (omega arith) in
    let empty = env_int_bounds o (lit "CHANNEL_EMPTY_TTL_SECS") 900 60 86400 (omega arith) in
    (
      room.0,
      room.1,
      messages.0,
      chunks.0,
      failures.0,
      failures.1,
      attempts.0,
      omega (arith, empty.0),
      omega (arith, empty.1),
    )

-- The list of a setting such as the origins is never empty and holds no empty item.
pub env_list-items :
    (o : Sources) (key fallback : Text)
    → (is_nil (env_list o key fallback) ≡ false)
      × (all (λ p. not (is_empty p)) (env_list o key fallback) ≡ true)
unfolding env_list
env_list-items o key fallback =
    let parts = map trim_space (split b',' (env o key fallback)) in
    ground (arith, all-keep (λ p. not (is_empty p)) parts)

slashed :
    (v : Text)
    → let r =
        if is_empty v then lit "/" else if not (has_prefix (lit "/") v) then lit "/" ++ v else v in
      (has_prefix (lit "/") r ≡ true) × (has_prefix (lit "/") v ≡ true → r ≡ v)
unfolding has_prefix
slashed [] = (refl, λ h. absurd (ground arith))
slashed (c ∷ v) = ground arith

-- A cleaned path starts with a slash; a path that does is only trimmed.
pub clean_path-slash :
    (value : Text)
    → (has_prefix (lit "/") (clean_path value) ≡ true)
      × (has_prefix (lit "/") (trim_space value) ≡ true → clean_path value ≡ trim_space value)
unfolding clean_path has_prefix
clean_path-slash value = slashed (trim_space value)
