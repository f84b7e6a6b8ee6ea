-- ===== src/Tests/Config.antt =====
-- internal/config/config.go
use walkie_talk_server.Config.{env, env_list, env_bool}
use walkie_talk_server.Config.Load.{load, second, in_seconds, wrapped, of_word}
use walkie_talk_server.Config.Ranges
use walkie_talk_server.Json.{pos, negsuc, trim_quotes_right, trim_quotes_left}
use walkie_talk_server.Util.Runes.{trim_space, to_lower}
use walkie_talk_server.Tests.Settings.{lists}
use walkie_talk_server.Base.{◌*◌, ◌≤◌, ◌≡◌, refl, true, false, [], ◌∷◌, lit, text_dec}
use walkie_talk_server.Base.KeySet.{has}

load_ranges_example :
    let c = load lists (lit "abc") in
    (2 ≤ c.max_room_size)
    × (c.max_room_size ≤ 200)
    × (1 ≤ c.max_msg_rate)
    × (4 ≤ c.max_chunk_rate)
    × (1 ≤ c.redis_failure_threshold)
    × (c.redis_failure_threshold ≤ 20)
    × (1 ≤ c.ai_retry_attempts)
    × (60 * second ≤ c.channel_empty_ttl)
    × (c.channel_empty_ttl ≤ 86400 * second)
load_ranges_example = Ranges.load_ranges lists (lit "abc")

env_list_run : env_list lists [] [] ≡ lit "https://a" ∷ lit "https://b" ∷ []
unfolding env_list env trim_space trim_quotes_right trim_quotes_left text_dec
env_list_run = refl

env_bool_run : env_bool (record lists { getenv = λ key. lit " \"Yes\" " }) [] false ≡ true
unfolding env_bool env trim_space trim_quotes_right trim_quotes_left has text_dec to_lower
env_bool_run = refl

-- The smallest int64, and a year of seconds below zero.
in_seconds_wraps : in_seconds (negsuc 9223372036854775807) ≡ pos 0
unfolding in_seconds wrapped of_word
in_seconds_wraps = refl

in_seconds_negative : in_seconds (negsuc 31535999) ≡ negsuc 31535999999999999
unfolding in_seconds wrapped of_word
in_seconds_negative = refl
