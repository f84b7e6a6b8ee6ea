-- ===== src/Config/Load.antt =====
-- Load of internal/config/config.go.
use walkie_talk_server.Base.{
  ℕ, suc, ◌+◌, ◌-◌, ◌%◌, ◌*◌, Bool, true, false, not, List, [], ◌∷◌, ◌++◌, Text, lit, ltb, is_empty,
  if◌then◌else◌,
}
use walkie_talk_server.Json.{ℤ, pos, negsuc}
use walkie_talk_server.Config.{
  Sources, env, clean_path, env_list, env_bool, env_int, env_float, first_non_empty, trim_slashes,
}

-- Durations that come from a float may be negative, when the float is not a number.
pub record Config : Type 0 where
  pub port : Text
  pub env : Text
  pub cors_origins : List Text
  pub public_api_key : Text
  pub supabase_url : Text
  pub supabase_key : Text
  pub redis_enabled : Bool
  pub redis_url : Text
  pub redis_circuit_open_secs : ℤ
  pub redis_failure_threshold : ℕ
  pub mapbox_access_token : Text
  pub mapbox_standard_style : Text
  pub mapbox_standard_satellite_style : Text
  pub public_config_cache_secs : ℕ
  pub ai_assistant_url : Text
  pub ai_chat_url : Text
  pub ai_assistant_api_key : Text
  pub ai_timeout : ℤ
  pub ai_chat_timeout : ℤ
  pub ai_retry_attempts : ℕ
  pub ai_retry_base_delay : ℤ
  pub max_room_size : ℕ
  pub max_name_len : ℕ
  pub max_room_len : ℕ
  pub max_audio_bytes : ℕ
  pub max_audio_base64_chars : ℤ
  pub max_duration : ℤ
  pub max_msg_rate : ℕ
  pub msg_rate_window : ℤ
  pub max_chunk_bytes : ℕ
  pub max_chunk_rate : ℕ
  pub max_ai_text_len : ℕ
  pub max_ai_history : ℕ
  pub max_ai_chat_rate : ℕ
  pub max_screen_signal_rate : ℕ
  pub max_screen_sdp_chars : ℕ
  pub max_screen_ice_chars : ℕ
  pub screen_state_ttl : ℕ
  pub zone_ttl : ℕ
  pub channel_empty_ttl : ℕ
  pub zone_write_requires_api_key : Bool
  pub max_zone_read_rate : ℕ
  pub max_zone_write_rate : ℕ
  pub keep_alive_enabled : Bool
  pub keep_alive_url : Text
  pub keep_alive_path : Text
  pub keep_alive_interval : ℕ
  pub keep_alive_timeout : ℤ
  pub keep_alive_token : Text
  pub readiness_cache_ttl : ℕ
  pub instance_id : Text

-- time.Second
abbrev pub second : ℕ
second = 1000000000

-- The int64 with the bits of a word of 64 bits, and that of an integer, which wraps around.
unfoldable pub of_word : ℕ → ℤ
of_word n = if ltb n 9223372036854775808 then pos n else negsuc (18446744073709551615 - n)

unfoldable pub wrapped : ℤ → ℤ
unfolding of_word
wrapped (pos n) = of_word (n % 18446744073709551616)
wrapped (negsuc n) = of_word (18446744073709551615 - n % 18446744073709551616)

-- time.Duration(f) * time.Second
unfoldable pub in_seconds : ℤ → ℤ
unfolding wrapped
in_seconds (pos n) = wrapped (pos (n * second))
in_seconds (negsuc n) = wrapped (negsuc (suc n * second - 1))

unfoldable pub add_ℤ : ℤ → ℕ → ℤ
add_ℤ (pos n) m = pos (n + m)
add_ℤ (negsuc n) m = if ltb n m then pos (m - suc n) else negsuc (n - m)

-- `random` is the text of randomHex(6). The floats 0.45, 0.05 and 1.38 are written by their bits.
unfoldable pub load : Sources → Text → Config
unfolding in_seconds add_ℤ
load o random =
    let n = o.float.of_ℕ in
    let max_audio_bytes = env_int o (lit "MAX_AUDIO_BYTES") 8000000 256000 24000000 in
    record {
      port = env o (lit "PORT") (lit "3000");
      env = env o (lit "ENV") (lit "development");
      cors_origins = env_list o (lit "CORS_ORIGINS") (lit "*");
      public_api_key = env o (lit "PUBLIC_API_KEY") [];
      supabase_url = trim_slashes (env o (lit "SUPABASE_URL") []);
      supabase_key = env o (lit "SUPABASE_KEY") [];
      redis_enabled =
          env_bool o (lit "REDIS_ENABLED") (not (is_empty (env o (lit "REDIS_URL") [])));
      redis_url = env o (lit "REDIS_URL") [];
      redis_circuit_open_secs =
          in_seconds
            (o.float.to_int (env_float o (lit "REDIS_CIRCUIT_OPEN_SECS") (n 15) (n 1) (n 300)));
      redis_failure_threshold = env_int o (lit "REDIS_FAILURE_THRESHOLD") 3 1 20;
      mapbox_access_token =
          first_non_empty
            (env o (lit "MAPBOX_ACCESS_TOKEN") [] ∷ env o (lit "MAPBOX_TOKEN") [] ∷ []);
      mapbox_standard_style =
          env o (lit "MAPBOX_STANDARD_STYLE") (lit "mapbox://styles/mapbox/standard");
      mapbox_standard_satellite_style =
          env o (lit "MAPBOX_STANDARD_SATELLITE_STYLE")
            (lit "mapbox://styles/mapbox/standard-satellite");
      public_config_cache_secs = env_int o (lit "PUBLIC_CONFIG_CACHE_SECS") 300 0 86400;
      ai_assistant_url =
          env o (lit "AI_ASSISTANT_URL") (lit "https://bot-voice-sqnz.onrender.com/ai-assistant");
      ai_chat_url = env o (lit "AI_CHAT_URL") [];
      ai_assistant_api_key =
          first_non_empty
            (env o (lit "AI_ASSISTANT_API_KEY") [] ∷ env o (lit "AI_API_KEY") [] ∷ []);
      ai_timeout =
          in_seconds (o.float.to_int (env_float o (lit "AI_TIMEOUT_SECS") (n 45) (n 5) (n 120)));
      ai_chat_timeout = in_seconds (
          o.float.to_int (
            env_float o (lit "AI_CHAT_TIMEOUT_SECS")
              (env_float o (lit "AI_TIMEOUT_SECS") (n 45) (n 5) (n 120)) (n 5) (n 120)));
      ai_retry_attempts = env_int o (lit "AI_RETRY_ATTEMPTS") 2 1 5;
      ai_retry_base_delay = o.float.to_int (
          o.float.times
            (env_float o (lit "AI_RETRY_BASE_DELAY") 0x3fdccccccccccccd 0x3fa999999999999a (n 5))
            (n second));
      max_room_size = env_int o (lit "MAX_ROOM_SIZE") 20 2 200;
      max_name_len = 32;
      max_room_len = 40;
      max_audio_bytes = max_audio_bytes;
      max_audio_base64_chars =
          add_ℤ (o.float.to_int (o.float.times (n max_audio_bytes) 0x3ff6147ae147ae14)) 2048;
      max_duration =
          in_seconds (o.float.to_int (env_float o (lit "MAX_DURATION") (n 65) (n 1) (n 300)));
      max_msg_rate = env_int o (lit "MAX_MSG_RATE") 4 1 60;
      msg_rate_window =
          in_seconds (o.float.to_int (env_float o (lit "MSG_RATE_WINDOW") (n 10) (n 1) (n 60)));
      max_chunk_bytes = env_int o (lit "MAX_CHUNK_BYTES") 220000 32000 1500000;
      max_chunk_rate = env_int o (lit "MAX_CHUNK_RATE") 40 4 120;
      max_ai_text_len = env_int o (lit "MAX_AI_TEXT_LEN") 2000 64 8000;
      max_ai_history = env_int o (lit "MAX_AI_HISTORY") 12 0 40;
      max_ai_chat_rate = env_int o (lit "MAX_AI_CHAT_RATE") 8 1 60;
      max_screen_signal_rate = env_int o (lit "MAX_SCREEN_SIGNAL_RATE") 50 5 240;
      max_screen_sdp_chars = env_int o (lit "MAX_SCREEN_SDP_CHARS") 80000 4000 250000;
      max_screen_ice_chars = env_int o (lit "MAX_SCREEN_ICE_CHARS") 16000 1000 80000;
      screen_state_ttl = env_int o (lit "SCREEN_STATE_TTL") 21600 60 86400 * second;
      zone_ttl = env_int o (lit "ZONE_TTL_SECS") 18000 300 604800 * second;
      channel_empty_ttl = env_int o (lit "CHANNEL_EMPTY_TTL_SECS") 900 60 86400 * second;
      zone_write_requires_api_key = env_bool o (lit "ZONE_WRITE_REQUIRES_API_KEY") false;
      max_zone_read_rate = env_int o (lit "MAX_ZONE_READ_RATE") 60 1 600;
      max_zone_write_rate = env_int o (lit "MAX_ZONE_WRITE_RATE") 20 1 120;
      keep_alive_enabled = env_bool o (lit "KEEP_ALIVE_ENABLED") true;
      keep_alive_url = trim_slashes (
          first_non_empty (
            env o (lit "KEEP_ALIVE_URL") []
            ∷ env o (lit "RENDER_EXTERNAL_URL") []
            ∷ env o (lit "SERVER_URL") []
            ∷ []));
      keep_alive_path = clean_path (env o (lit "KEEP_ALIVE_PATH") (lit "/webhook/keepalive"));
      keep_alive_interval = env_int o (lit "KEEP_ALIVE_INTERVAL_SECS") 300 60 3600 * second;
      keep_alive_timeout =
          in_seconds
            (o.float.to_int (env_float o (lit "KEEP_ALIVE_TIMEOUT_SECS") (n 8) (n 1) (n 60)));
      keep_alive_token = env o (lit "KEEP_ALIVE_TOKEN") [];
      readiness_cache_ttl = env_int o (lit "READINESS_CACHE_SECS") 20 0 300 * second;
      instance_id = lit "inst_" ++ random;
    }
